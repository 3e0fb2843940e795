-- ===== src/Dataflow/DeadStore/Events.antt =====
-- The state of the rule on dead stores and its handlers:
-- src/linting/eslint/rules/no-dead-store.ts.
-- A stack is a list with its top as head. `none` is an exception: a TypeError where the code reads
-- a property of `undefined`, or the error of `AssignmentContext.add`. The scopes and the current
-- segments of the code path, which ESLint keeps, come with each event; `occurrence` tells the
-- fields of a reference that live variable analysis does not read.
pub mod Invariant
pub mod Steps
pub mod Usage
pub mod Reached
pub mod Retained
pub mod Retaining
pub mod Arrivals
pub mod Lossless
mod Tests
pub use sonar_js.Dataflow.DeadStore.State.{
  AssignmentContext, CodePathContext, DestructuringContext, State,
}
unfoldable pub use sonar_js.Dataflow.DeadStore.State.{
  initial, object_pattern, destructured, rest_element, object_pattern_exit,
}
use sonar_js.Prelude.{
  ℕ, Bool, true, false, Option, none, some, List, [], ◌∷◌, ◌++◌, if◌then◌else◌, ◌==◌, Keyed, get,
  put, set_add, Text,
}
use sonar_js.Dataflow.Lva.{
  Segment, Reference, LiveVariables, LiveVariablesMap, new_live_variables, add, add_reference,
}
use sonar_js.Dataflow.DeadStore.Scopes.{
  Node, Occurrence, Scope, Resolved, resolve_reference, resolve_jsx_reference, is_enum_constant,
}

-- the loop of `AssignmentContext.add` over an identifier and its ancestors
unfoldable pub add_to_side : AssignmentContext → Reference → List Node → Option AssignmentContext
add_to_side a ref [] = none
add_to_side a ref (parent ∷ parents) =
    let above = add_to_side a ref parents in
    if parent.id == a.left
    then some (record a { lhs = add_reference a.lhs ref })
    else (if parent.id == a.right then some (record a { rhs = add_reference a.rhs ref }) else above)

unfoldable pub lva_for_segment : LiveVariablesMap → Segment → LiveVariables
lva_for_segment m segment = elim (get m segment.id) [
  | none ↦ new_live_variables segment
  | some lv ↦ lv
]

-- the branch of `processReference` outside of assignments
unfoldable pub add_to_segments : LiveVariablesMap → Reference → List Segment → LiveVariablesMap
add_to_segments m ref [] = m
add_to_segments m ref (segment ∷ segments) =
    add_to_segments (put m segment.id (add (lva_for_segment m segment) ref)) ref segments

-- `onCodePathSegmentStart`
unfoldable pub on_code_path_segment_start : Segment → State → State
on_code_path_segment_start segment s = record s {
  live_variables_map = put s.live_variables_map segment.id (new_live_variables segment);
}

-- `onCodePathStart`
unfoldable pub push_context : ℕ → State → State
push_context code_path s = record s {
  code_path_stack = record { code_path = code_path; assignment_stack = [] } ∷ s.code_path_stack;
}

unfoldable pub tail : {A : Type 0} → List A → List A
tail [] = []
tail (x ∷ xs) = xs

-- `onCodePathEnd`
unfoldable pub pop_context : State → State
pop_context s = record s { code_path_stack = tail s.code_path_stack }

update_read_variables : Reference → ℕ → State → State
update_read_variables ref variable s = record s {
  read_variables = if ref.is_read then set_add s.read_variables variable else s.read_variables;
}

add_usage : Option (List ℕ) → ℕ → List ℕ
add_usage none code_path = code_path ∷ []
add_usage (some usages) code_path = set_add usages code_path

update_variable_usages : ℕ → State → List CodePathContext → Option State
update_variable_usages variable s [] = none
update_variable_usages variable s (path ∷ paths) = some (record s {
  variable_usages =
      put s.variable_usages variable (add_usage (get s.variable_usages variable) path.code_path);
})

pub push_assignment_context : ℕ → ℕ → List CodePathContext → State → Option State
push_assignment_context left right [] s = none
push_assignment_context left right (path ∷ paths) s =
    let a : AssignmentContext = record { left = left; right = right; lhs = []; rhs = [] } in
    some (record s {
      code_path_stack = record path { assignment_stack = a ∷ path.assignment_stack } ∷ paths;
    })

usage_of : Option ℕ → State → Option State
usage_of none s = some s
usage_of (some variable) s = update_variable_usages variable s s.code_path_stack

read_of : Reference → Option ℕ → State → State
read_of ref none s = s
read_of ref (some variable) s = update_read_variables ref variable s

-- What ESLint calls a handler with: nodes, the ancestors of a node, the scopes from the current
-- one outwards, and the current segments of the code path.
pub data Event : Type 0 where
  assignment_start : (left right : ℕ) → Event
  assignment_end : (segments : List Segment) → Event
  identifier_met :
      (node : ℕ) (ancestors : List Node) (scopes : List Scope) (segments : List Segment) → Event
  jsx_identifier_met :
      (node : ℕ) (name : Text) (parents : List Node) (scopes : List Scope) (segments : List Segment)
      → Event
  object_pattern_start object_pattern_end rest_met : Event
  property_identifier_met : (node : ℕ) (scopes : List Scope) → Event
  segment_start : Segment → Event
  path_start : ℕ → Event
  path_end : Event

module _ (occurrence : ℕ → Occurrence) where
  in_assignment :
      Reference
      → CodePathContext
      → List CodePathContext
      → AssignmentContext
      → List AssignmentContext
      → State
      → Option State
  in_assignment ref path paths a outer s =
      let o = occurrence ref.identifier in
      elim (add_to_side a ref (o.node ∷ o.parents)) [
        | none ↦ none
        | some a' ↦
            some
              (record s { code_path_stack = record path { assignment_stack = a' ∷ outer } ∷ paths })
      ]

  process_in :
      Reference
      → List Segment
      → CodePathContext
      → List CodePathContext
      → List AssignmentContext
      → State
      → Option State
  process_in ref segments path paths [] s =
      some (record s { live_variables_map = add_to_segments s.live_variables_map ref segments })
  process_in ref segments path paths (a ∷ outer) s = in_assignment ref path paths a outer s

  pub process_reference : Reference → List Segment → List CodePathContext → State → Option State
  process_reference ref segments [] s = none
  process_reference ref segments (path ∷ paths) s =
      process_in ref segments path paths path.assignment_stack s

  pub process_references : List Reference → List Segment → State → Option State
  process_references [] segments s = some s
  process_references (ref ∷ refs) segments s =
      elim (process_reference ref segments s.code_path_stack s) [
        | none ↦ none
        | some s' ↦ process_references refs segments s'
      ]

  pop_from :
      List Segment
      → CodePathContext
      → List CodePathContext
      → List AssignmentContext
      → State
      → Option State
  pop_from segments path paths [] s = none
  pop_from segments path paths (a ∷ outer) s =
      let popped : State = record s {
        code_path_stack = record path { assignment_stack = outer } ∷ paths;
      } in
      elim (process_references a.rhs segments popped) [
        | none ↦ none
        | some s' ↦ process_references a.lhs segments s'
      ]

  pub pop_assignment_context : List Segment → List CodePathContext → State → Option State
  pop_assignment_context segments [] s = none
  pop_assignment_context segments (path ∷ paths) s =
      pop_from segments path paths path.assignment_stack s

  -- `checkIdentifierUsage`, on what its node resolves to
  pub check_identifier_usage : Option Reference → Option ℕ → List Segment → State → Option State
  check_identifier_usage none variable segments s = usage_of variable s
  check_identifier_usage (some ref) variable segments s =
      elim (process_reference ref segments s.code_path_stack s) [
        | none ↦ none
        | some s' ↦ usage_of variable (read_of ref variable s')
      ]

  -- the handler of an event
  pub step : Event → State → Option State
  step (assignment_start left right) s = push_assignment_context left right s.code_path_stack s
  step (assignment_end segments) s = pop_assignment_context segments s.code_path_stack s
  step (identifier_met node ancestors scopes segments) s =
      let r = resolve_reference node scopes in
      if is_enum_constant ancestors
      then some s
      else check_identifier_usage r.ref r.variable segments s
  step (jsx_identifier_met node name parents scopes segments) s =
      let r = resolve_jsx_reference node name parents scopes in
      check_identifier_usage r.ref r.variable segments s
  step object_pattern_start s = some (object_pattern s)
  step object_pattern_end s = some (object_pattern_exit s.destructuring_stack s)
  step rest_met s = rest_element s.destructuring_stack s
  step (property_identifier_met node scopes) s =
      destructured (resolve_reference node scopes).ref s.destructuring_stack s
  step (segment_start segment) s = some (on_code_path_segment_start segment s)
  step (path_start code_path) s = some (push_context code_path s)
  step path_end s = some (pop_context s)

  pub run : List Event → State → Option State
  run [] s = some s
  run (e ∷ es) s = elim (step e s) [ none ↦ none | some s' ↦ run es s' ]
