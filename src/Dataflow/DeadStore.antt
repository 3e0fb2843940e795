-- ===== src/Dataflow/DeadStore.antt =====
-- The rule on dead stores: src/linting/eslint/rules/no-dead-store.ts.
-- Scopes has the objects that the rule reads and the look-up of references, State the state of the
-- rule, Events its handlers, Check what it reports at the end of the program.
pub mod Scopes
pub mod State
pub mod Events
pub mod Check
pub mod Reads
pub mod Known
pub mod Correct
