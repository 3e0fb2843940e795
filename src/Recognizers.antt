-- ===== src/Recognizers.antt =====
-- The recognizers of commented-out code: src/linting/eslint/linter/recognizers.
pub mod Doubles
pub mod Detectors
pub mod Code
mod Tests
