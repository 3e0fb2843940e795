-- ===== src/Metrics.antt =====
-- Metrics, copy-paste tokens and highlighting: linting/eslint/linter/visitors.
pub mod Ast
pub mod Visitor
pub mod Counts
pub mod Lines
pub mod Tokens
pub mod Comments
pub mod Ncloc
pub mod Cpd
pub mod Highlighting
pub mod Symbols
pub mod Compute
mod Tests
