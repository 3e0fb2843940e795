-- ===== src/Rules.antt =====
-- Rules with a state of their own: src/linting/eslint/rules.
pub mod Traversal
pub mod Jumps
pub mod Expressions
pub mod Nesting
pub mod Increments
