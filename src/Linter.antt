-- ===== src/Linter.antt =====
-- The ESLint wrapper: linting/eslint/linter.
pub mod Results
pub mod Properties
pub mod Config
pub mod Rules
pub mod QuickFixes
pub mod Issues
pub mod Decoration
