-- ===== src/Regex.antt =====
-- Helpers of the rules on regular expressions: src/linting/eslint/rules/helpers/regex.
pub mod Tokenizer
pub mod CharacterClass
pub mod Complexity
pub mod Parts
