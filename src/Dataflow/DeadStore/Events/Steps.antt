-- ===== src/Dataflow/DeadStore/Events/Steps.antt =====
-- Every handler of the rule keeps its invariant: src/linting/eslint/rules/no-dead-store.ts.
use sonar_js.Prelude.{
  ℕ, some, List, [], ◌∷◌, ◌≡◌, refl, ◌∙◌, subst, inl, inr, arith, Option-cases, All,
}
use sonar_js.Dataflow.Lva.{Segment, Reference}
use sonar_js.Dataflow.DeadStore.Scopes.{Occurrence}
use sonar_js.Dataflow.DeadStore.Known.{IsMet, Pending, Stacked, Kept, Knows, Knows-Kept}
use sonar_js.Dataflow.DeadStore.Events.{
  AssignmentContext, CodePathContext, State, add_to_side, process_reference, process_in,
  in_assignment, process_references, pop_from, pop_assignment_context,
}
use sonar_js.Dataflow.DeadStore.Events.Invariant.{
  Holds, Holds-weaken, Holds-chain, SameKnowledge, Processed, process_reference-Processed,
  process_references-Processed,
}

SameKnowledge-Knows : (s s' : State) → SameKnowledge s s' → Knows s s'
SameKnowledge-Knows s s' (a, b) = record { notes = λ x h. ground arith; uses = λ x h. ground arith }

module _ (occurrence : ℕ → Occurrence) where
  in_assignment-SameKnowledge :
      (ref : Reference) (path : CodePathContext) (paths : List CodePathContext)
      (a : AssignmentContext) (outer : List AssignmentContext) (s : State)
      → Holds (SameKnowledge s) (in_assignment occurrence ref path paths a outer s)
  unfolding in_assignment
  in_assignment-SameKnowledge ref path paths a outer s =
      let o = occurrence ref.identifier in
      elim (Option-cases (add_to_side a ref (o.node ∷ o.parents))) [
        | inl error ↦ rw (in_assignment, error) tt
        | inr (a', e) ↦ rw (in_assignment, e) (refl, refl)
      ]

  process_in-SameKnowledge :
      (ref : Reference) (segments : List Segment) (path : CodePathContext)
      (paths : List CodePathContext) (stack : List AssignmentContext) (s : State)
      → Holds (SameKnowledge s) (process_in occurrence ref segments path paths stack s)
  unfolding process_in
  process_in-SameKnowledge ref segments path paths [] s = (refl, refl)
  process_in-SameKnowledge ref segments path paths (a ∷ outer) s =
      in_assignment-SameKnowledge ref path paths a outer s

  process_reference-SameKnowledge :
      (ref : Reference) (segments : List Segment) (paths : List CodePathContext) (s : State)
      → Holds (SameKnowledge s) (process_reference occurrence ref segments paths s)
  unfolding process_reference
  process_reference-SameKnowledge ref segments [] s = tt
  process_reference-SameKnowledge ref segments (path ∷ paths) s =
      process_in-SameKnowledge ref segments path paths path.assignment_stack s

  module _ (object : ℕ → Reference) where
    -- What the state knows is all that it has met.
    abbrev pub Invariant : State → Type 0
    Invariant s = Kept object s s

    -- After a reference has been processed, a state that knows it keeps the invariant.
    pub process_reference-Kept :
        (ref : Reference) (segments : List Segment) (s s' last : State)
        → Invariant s
        → process_reference occurrence ref segments s.code_path_stack s ≡ some s'
        → Knows s' last
        → IsMet object last ref
        → Kept object last s'
    process_reference-Kept ref segments s s' last kept e knows met =
        let (a, b) : SameKnowledge s s' =
          subst (Holds (SameKnowledge s)) e
            (process_reference-SameKnowledge ref segments s.code_path_stack s) in
        let knows_last : Knows s last = record {
          notes = λ x h. knows.notes x (ground arith);
          uses = λ x h. knows.uses x (ground arith);
        } in
        (subst (Holds (Processed object last s)) e (
          process_reference-Processed object last occurrence ref segments s met
            (Knows-Kept object s last s knows_last kept))).0

    pub again : (s s' : State) → Kept object s s' → SameKnowledge s s' → Invariant s'
    again s s' kept same = Knows-Kept object s s' s' (SameKnowledge-Knows s s' same) kept

    pop_from-Invariant :
        (segments : List Segment) (path : CodePathContext) (paths : List CodePathContext)
        (stack : List AssignmentContext) (s : State)
        → All (Pending object s) stack
        → All (Stacked object s) paths
        → Invariant s
        → Holds Invariant (pop_from occurrence segments path paths stack s)
    unfolding pop_from
    pop_from-Invariant segments path paths [] s ps rest kept = tt
    pop_from-Invariant segments path paths (a ∷ outer) s ((l, r), ps) rest kept =
        let popped : State = record s {
          code_path_stack = record path { assignment_stack = outer } ∷ paths;
        } in
        Holds-chain (Processed object s popped) Invariant
          (process_references occurrence a.rhs segments popped)
          (λ s'. process_references occurrence a.lhs segments s')
          (process_references-Processed object s occurrence a.rhs segments popped r
            (record { distinct = kept.distinct; entries = kept.entries; stacked = (ps, rest) }))
          (λ s' (k, (c, d)).
            Holds-weaken (Processed object s s') Invariant
              (process_references occurrence a.lhs segments s')
              (λ s'' (k', (c', d')). again s s'' k' (c' ∙ c, d' ∙ d))
              (process_references-Processed object s occurrence a.lhs segments s' l k))

    pub pop_assignment_context-Invariant :
        (segments : List Segment) (paths : List CodePathContext) (s : State)
        → All (Stacked object s) paths
        → Invariant s
        → Holds Invariant (pop_assignment_context occurrence segments paths s)
    unfolding pop_assignment_context
    pop_assignment_context-Invariant segments [] s h kept = tt
    pop_assignment_context-Invariant segments (path ∷ paths) s (p, h) kept =
        pop_from-Invariant segments path paths path.assignment_stack s p h kept
