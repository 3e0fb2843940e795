-- ===== src/Dataflow/DeadStore/Events/Reached.antt =====
-- The states that the rule reaches: src/linting/eslint/rules/no-dead-store.ts.
use sonar_js.Prelude.{
  ℕ, Option, none, some, List, [], ◌∷◌, ◌≡◌, refl, sym, subst, inl, inr, Bool-cases, All, All-put,
  put-IsDistinct,
}
use sonar_js.Dataflow.Lva.{Segment, Reference, new_live_variables}
use sonar_js.Dataflow.DeadStore.Scopes.{
  Occurrence, Resolved, resolve_reference, resolve_jsx_reference, is_enum_constant,
}
use sonar_js.Dataflow.DeadStore.Scopes.Laws.{resolve_reference-Agrees, resolve_jsx_reference-Agrees}
use sonar_js.Dataflow.DeadStore.Known.{IsEntry, Stacked}
use sonar_js.Dataflow.DeadStore.Events.{
  AssignmentContext, CodePathContext, DestructuringContext, State, tail, push_assignment_context,
  object_pattern, object_pattern_exit, rest_element, destructured, on_code_path_segment_start,
  push_context, pop_context, Event, assignment_start, assignment_end, identifier_met,
  jsx_identifier_met, object_pattern_start, object_pattern_end, rest_met, property_identifier_met,
  segment_start, path_start, path_end, step, run, initial,
}
use sonar_js.Dataflow.DeadStore.Events.Invariant.{Holds, Holds-chain, new-IsEntry}
use sonar_js.Dataflow.DeadStore.Events.Steps.{Invariant, again, pop_assignment_context-Invariant}
use sonar_js.Dataflow.DeadStore.Events.Usage.{on_reference}

module _ (occurrence : ℕ → Occurrence) (object : ℕ → Reference) where
  -- What an identifier resolves to is one of the references that `object` names.
  abbrev pub IsNamed : Resolved → Type 0
  IsNamed r = (ref : Reference) → r.ref ≡ some ref → object ref.identifier ≡ ref

  -- The events whose references are those that `object` names, so that a number stands for one
  -- reference only.
  abbrev pub IsCoherent : Event → Type 0
  IsCoherent (identifier_met node ancestors scopes segments) =
      IsNamed (resolve_reference node scopes)
  IsCoherent (jsx_identifier_met node name parents scopes segments) =
      IsNamed (resolve_jsx_reference node name parents scopes)
  IsCoherent _ = Unit

  abbrev Keeps : Option State → Type 0
  Keeps = Holds (Invariant occurrence object)

  -- a handler that changes the stack of code paths only
  moved :
      (s : State) (stack : List CodePathContext)
      → All (Stacked object s) stack
      → Invariant occurrence object s
      → Invariant occurrence object (record s { code_path_stack = stack })
  moved s stack h kept =
      again occurrence object s (record s { code_path_stack = stack })
        (record { distinct = kept.distinct; entries = kept.entries; stacked = h }) (refl, refl)

  -- a handler that changes neither map nor stack nor what is known
  untouched :
      (s : State) (used : List ℕ) (stack : List DestructuringContext)
      → Invariant occurrence object s
      → Invariant occurrence object
          (record s { references_used_in_destructuring = used; destructuring_stack = stack })
  untouched s used stack kept =
      again occurrence object s
        (record s { references_used_in_destructuring = used; destructuring_stack = stack })
        (record { distinct = kept.distinct; entries = kept.entries; stacked = kept.stacked })
        (refl, refl)

  push_assignment_context-Invariant :
      (left right : ℕ) (paths : List CodePathContext) (s : State)
      → All (Stacked object s) paths
      → Invariant occurrence object s
      → Keeps (push_assignment_context left right paths s)
  unfolding push_assignment_context
  push_assignment_context-Invariant left right [] s h kept = tt
  push_assignment_context-Invariant left right (path ∷ paths) s (p, h) kept =
      let a : AssignmentContext = record { left = left; right = right; lhs = []; rhs = [] } in
      moved s (record path { assignment_stack = a ∷ path.assignment_stack } ∷ paths)
        (((tt, tt), p), h) kept

  destructured-Invariant :
      (ref : Option Reference) (stack : List DestructuringContext) (s : State)
      → Invariant occurrence object s
      → Keeps (destructured ref stack s)
  unfolding destructured
  destructured-Invariant none stack s kept = kept
  destructured-Invariant (some ref) [] s kept = tt
  destructured-Invariant (some ref) (d ∷ ds) s kept = untouched s _ _ kept

  rest_element-Invariant :
      (stack : List DestructuringContext) (s : State)
      → Invariant occurrence object s
      → Keeps (rest_element stack s)
  unfolding rest_element
  rest_element-Invariant [] s kept = tt
  rest_element-Invariant (d ∷ ds) s kept = untouched s _ _ kept

  object_pattern_exit-Invariant :
      (stack : List DestructuringContext) (s : State)
      → Invariant occurrence object s
      → Invariant occurrence object (object_pattern_exit stack s)
  unfolding object_pattern_exit
  object_pattern_exit-Invariant [] s kept = kept
  object_pattern_exit-Invariant (d ∷ ds) s kept = untouched s _ _ kept

  segment_start-Invariant :
      (segment : Segment) (s : State)
      → Invariant occurrence object s
      → Invariant occurrence object (on_code_path_segment_start segment s)
  unfolding on_code_path_segment_start
  segment_start-Invariant segment s kept =
      let lv = new_live_variables segment in
      again occurrence object s (on_code_path_segment_start segment s)
        (record {
          distinct = put-IsDistinct s.live_variables_map segment.id lv kept.distinct;
          entries =
              All-put (IsEntry object s) s.live_variables_map segment.id lv
                (λ j e.
                  subst (λ k. IsEntry object s (k, lv)) (sym e) (new-IsEntry object s segment))
                kept.entries;
          stacked = kept.stacked;
        })
        (refl, refl)

  All-tail : {A : Type 0} (P : A → Type 0) (xs : List A) → All P xs → All P (tail xs)
  unfolding tail
  All-tail P [] h = tt
  All-tail P (x ∷ xs) (p, h) = h

  pub step-Invariant :
      (event : Event) (s : State)
      → IsCoherent event
      → Invariant occurrence object s
      → Keeps (step occurrence event s)
  unfolding step object_pattern push_context pop_context
  step-Invariant (assignment_start left right) s h kept =
      push_assignment_context-Invariant left right s.code_path_stack s kept.stacked kept
  step-Invariant (assignment_end segments) s h kept =
      pop_assignment_context-Invariant occurrence object segments s.code_path_stack s kept.stacked
        kept
  step-Invariant (identifier_met node ancestors scopes segments) s h kept =
      elim (Bool-cases (is_enum_constant ancestors)) [
        | inl constant ↦ rw (constant) kept
        | inr other ↦
            let r = resolve_reference node scopes in
            rw (other) (
              on_reference occurrence object r.ref r.variable segments s
                (resolve_reference-Agrees node scopes) h kept)
      ]
  step-Invariant (jsx_identifier_met node name parents scopes segments) s h kept =
      let r = resolve_jsx_reference node name parents scopes in
      on_reference occurrence object r.ref r.variable segments s
        (resolve_jsx_reference-Agrees node name parents scopes) h kept
  step-Invariant object_pattern_start s h kept = untouched s _ _ kept
  step-Invariant object_pattern_end s h kept =
      object_pattern_exit-Invariant s.destructuring_stack s kept
  step-Invariant rest_met s h kept = rest_element-Invariant s.destructuring_stack s kept
  step-Invariant (property_identifier_met node scopes) s h kept =
      destructured-Invariant (resolve_reference node scopes).ref s.destructuring_stack s kept
  step-Invariant (segment_start segment) s h kept = segment_start-Invariant segment s kept
  step-Invariant (path_start code_path) s h kept = moved s _ (tt, kept.stacked) kept
  step-Invariant path_end s h kept =
      moved s (tail s.code_path_stack) (All-tail (Stacked object s) s.code_path_stack kept.stacked)
        kept

  -- The handlers keep the state consistent: if those of a sequence of events do not throw, they keep
  -- each key of the map of segments once, keep `gen` and `kill` of each segment equal to
  -- what its references read and write, and keep, for each reference in a segment or in a pending
  -- assignment, its variable in `variableUsages`, and in `readVariables` if the reference reads it.
  pub run-Invariant :
      (events : List Event) (s : State)
      → All IsCoherent events
      → Invariant occurrence object s
      → Keeps (run occurrence events s)
  unfolding run
  run-Invariant [] s h kept = kept
  run-Invariant (event ∷ events) s (coherent, h) kept =
      Holds-chain (Invariant occurrence object) (Invariant occurrence object)
        (step occurrence event s) (λ s'. run occurrence events s')
        (step-Invariant event s coherent kept) (λ s' kept'. run-Invariant events s' h kept')

  pub initial-Invariant : Invariant occurrence object initial
  unfolding initial
  initial-Invariant = record { distinct = tt; entries = tt; stacked = tt }
