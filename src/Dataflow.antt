-- ===== src/Dataflow.antt =====
-- The data-flow analyses of the rules (src/linting/eslint/rules/helpers) and the rule on them.
pub mod Lva
pub mod DeadStore
