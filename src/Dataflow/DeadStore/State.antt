-- ===== src/Dataflow/DeadStore/State.antt =====
-- The state of the rule on dead stores, and its handlers for object patterns:
-- src/linting/eslint/rules/no-dead-store.ts. A stack is a list with its top as head; `none` is an
-- exception.
use sonar_js.Prelude.{
  ℕ, Bool, true, false, Option, none, some, List, [], ◌∷◌, ◌++◌, if◌then◌else◌, Keyed, set_add,
}
use sonar_js.Dataflow.Lva.{Reference, LiveVariablesMap}

-- An assignment or a declarator: its left side (`left` or `id`) and its right side (`right` or
-- `init`), and the references met in each.
pub record AssignmentContext : Type 0 where
  pub left : ℕ
  pub right : ℕ
  pub lhs : List Reference
  pub rhs : List Reference

pub record CodePathContext : Type 0 where
  pub code_path : ℕ
  pub assignment_stack : List AssignmentContext

pub record DestructuringContext : Type 0 where
  pub has_rest : Bool
  pub references : List Reference

pub record State : Type 0 where
  pub code_path_stack : List CodePathContext
  pub live_variables_map : LiveVariablesMap
  pub read_variables : List ℕ
  pub variable_usages : Keyed (List ℕ)
  pub references_used_in_destructuring : List ℕ
  pub destructuring_stack : List DestructuringContext

unfoldable pub initial : State
initial = record {
  code_path_stack = [];
  live_variables_map = [];
  read_variables = [];
  variable_usages = [];
  references_used_in_destructuring = [];
  destructuring_stack = [];
}

-- `ObjectPattern`
unfoldable pub object_pattern : State → State
object_pattern s = record s {
  destructuring_stack = record { has_rest = false; references = [] } ∷ s.destructuring_stack;
}

unfoldable pub destructured : Option Reference → List DestructuringContext → State → Option State
destructured none stack s = some s
destructured (some ref) [] s = none
destructured (some ref) (d ∷ ds) s =
    some
      (record s { destructuring_stack = record d { references = d.references ++ ref ∷ [] } ∷ ds })

unfoldable pub rest_element : List DestructuringContext → State → Option State
rest_element [] s = none
rest_element (d ∷ ds) s =
    some (record s { destructuring_stack = record d { has_rest = true } ∷ ds })

unfoldable pub add_identifiers : List ℕ → List Reference → List ℕ
add_identifiers set [] = set
add_identifiers set (ref ∷ refs) = add_identifiers (set_add set ref.identifier) refs

-- `ObjectPattern:exit`
unfoldable pub object_pattern_exit : List DestructuringContext → State → State
object_pattern_exit [] s = s
object_pattern_exit (d ∷ ds) s =
    let used = add_identifiers s.references_used_in_destructuring d.references in
    record s {
      references_used_in_destructuring =
          if d.has_rest then used else s.references_used_in_destructuring;
      destructuring_stack = ds;
    }
