-- ===== src/Dataflow/DeadStore/Events/Invariant.antt =====
-- The handlers of the rule keep what its state knows: src/linting/eslint/rules/no-dead-store.ts.
use sonar_js.Prelude.{
  ℕ, Option, none, some, List, [], ◌∷◌, ◌≡◌, ◌⊎◌, refl, sym, ◌∙◌, subst, inl, inr, Option-cases,
  Bool-cases, ◌==◌, get, put, All, All_at, All-put, IsDistinct, put-IsDistinct,
}
use sonar_js.Dataflow.Lva.{
  Segment, Reference, LiveVariablesMap, new_live_variables, add, add_reference,
}
use sonar_js.Dataflow.DeadStore.Scopes.{Node, Occurrence}
use sonar_js.Dataflow.DeadStore.Known.{
  IsMet, IsEntry, Pending, Stacked, Kept, add-IsEntry, add_reference-IsMet,
}
use sonar_js.Dataflow.DeadStore.Events.{
  AssignmentContext, CodePathContext, State, add_to_side, lva_for_segment, add_to_segments,
  process_reference, process_in, in_assignment, process_references,
}

-- what holds of the state of a result, if there is one
abbrev pub Holds : (State → Type 0) → Option State → Type 0
Holds P none = Unit
Holds P (some s) = P s

pub Holds-weaken :
    (P Q : State → Type 0) (r : Option State) → ((s : State) → P s → Q s) → Holds P r → Holds Q r
Holds-weaken P Q none f h = tt
Holds-weaken P Q (some s) f h = f s h

pub Holds-chain :
    (P Q : State → Type 0) (r : Option State) (next : State → Option State)
    → Holds P r
    → ((s : State) → P s → Holds Q (next s))
    → Holds Q (elim r [ none ↦ none | some s ↦ next s ])
Holds-chain P Q none next h f = tt
Holds-chain P Q (some s) next h f = f s h

-- the noted reads and the usages stay as they are
abbrev pub SameKnowledge : State → State → Type 0
SameKnowledge s s' =
    (s'.read_variables ≡ s.read_variables) × (s'.variable_usages ≡ s.variable_usages)

module _ (object : ℕ → Reference) (t : State) where
  pub new-IsEntry : (segment : Segment) → IsEntry object t (segment.id, new_live_variables segment)
  unfolding new_live_variables
  new-IsEntry segment = record {
    named = refl;
    fresh = refl;
    met = tt;
    built = record { gen_iff = λ x. refl; kill_iff = λ x. refl };
  }

  lva_for_segment-IsEntry :
      (m : LiveVariablesMap) (segment : Segment)
      → All (IsEntry object t) m
      → IsEntry object t (segment.id, lva_for_segment m segment)
  unfolding lva_for_segment
  lva_for_segment-IsEntry m segment h = elim (Option-cases (get m segment.id)) [
    | inl missing ↦ rw (lva_for_segment, missing) (new-IsEntry segment)
    | inr (lv, found) ↦
        let (j, at, entry) = All_at (IsEntry object t) m segment.id lv h found in
        rw (lva_for_segment, found) (subst (λ k. IsEntry object t (k, lv)) at entry)
  ]

  module _ (ref : Reference) (met : IsMet object t ref) where
    add_to_segments-IsEntry :
        (segments : List Segment) (m : LiveVariablesMap)
        → IsDistinct m
        → All (IsEntry object t) m
        → IsDistinct (add_to_segments m ref segments)
          × All (IsEntry object t) (add_to_segments m ref segments)
    unfolding add_to_segments
    add_to_segments-IsEntry [] m d h = (d, h)
    add_to_segments-IsEntry (segment ∷ segments) m d h =
        let lv = lva_for_segment m segment in
        add_to_segments-IsEntry segments (put m segment.id (add lv ref))
          (put-IsDistinct m segment.id (add lv ref) d)
          (All-put (IsEntry object t) m segment.id (add lv ref)
            (λ j e.
              subst (λ k. IsEntry object t (k, add lv ref)) (sym e)
                (add-IsEntry object t ref met segment.id lv (lva_for_segment-IsEntry m segment h)))
            h)

    add_to_side-Pending :
        (a : AssignmentContext) (nodes : List Node)
        → Pending object t a
        → (add_to_side a ref nodes ≡ none)
          ⊎ ((a' : AssignmentContext) × (add_to_side a ref nodes ≡ some a') × Pending object t a')
    unfolding add_to_side
    add_to_side-Pending a [] h = inl refl
    add_to_side-Pending a (node ∷ nodes) (l, r) = elim (Bool-cases (node.id == a.left)) [
      | inl left ↦ rw (left) (
          inr (
            record a { lhs = add_reference a.lhs ref },
            refl,
            (add_reference-IsMet object t ref met a.lhs l, r),
          ))
      | inr other ↦ elim (Bool-cases (node.id == a.right)) [
        | inl right ↦ rw (other) (
            rw (right) (
              inr (
                record a { rhs = add_reference a.rhs ref },
                refl,
                (l, add_reference-IsMet object t ref met a.rhs r),
              )))
        | inr above ↦ rw (other) (rw (above) (add_to_side-Pending a nodes (l, r)))
      ]
    ]

  -- Processing a reference keeps what is known, and notes nothing itself.
  abbrev pub Processed : State → State → Type 0
  Processed s s' = Kept object t s' × SameKnowledge s s'

  module _ (occurrence : ℕ → Occurrence) where
    in_assignment-Processed :
        (ref : Reference) (path : CodePathContext) (paths : List CodePathContext)
        (a : AssignmentContext) (outer : List AssignmentContext) (s : State)
        → IsMet object t ref
        → Pending object t a
        → All (Pending object t) outer
        → All (Stacked object t) paths
        → Kept object t s
        → Holds (Processed s) (in_assignment occurrence ref path paths a outer s)
    unfolding in_assignment
    in_assignment-Processed ref path paths a outer s met p ps rest kept =
        let o = occurrence ref.identifier in
        elim (add_to_side-Pending ref met a (o.node ∷ o.parents) p) [
          | inl error ↦ rw (in_assignment, error) tt
          | inr (a', e, p') ↦
              rw (in_assignment, e)
                (
                  record {
                    distinct = kept.distinct;
                    entries = kept.entries;
                    stacked = ((p', ps), rest);
                  },
                  (refl, refl),
                )
        ]

    process_in-Processed :
        (ref : Reference) (segments : List Segment) (path : CodePathContext)
        (paths : List CodePathContext) (stack : List AssignmentContext) (s : State)
        → IsMet object t ref
        → All (Pending object t) stack
        → All (Stacked object t) paths
        → Kept object t s
        → Holds (Processed s) (process_in occurrence ref segments path paths stack s)
    unfolding process_in
    process_in-Processed ref segments path paths [] s met ps rest kept =
        let (d, es) =
          add_to_segments-IsEntry ref met segments s.live_variables_map kept.distinct
            kept.entries in
        (record { distinct = d; entries = es; stacked = kept.stacked }, (refl, refl))
    process_in-Processed ref segments path paths (a ∷ outer) s met (p, ps) rest kept =
        in_assignment-Processed ref path paths a outer s met p ps rest kept

    process_on-Processed :
        (ref : Reference) (segments : List Segment) (paths : List CodePathContext) (s : State)
        → IsMet object t ref
        → All (Stacked object t) paths
        → Kept object t s
        → Holds (Processed s) (process_reference occurrence ref segments paths s)
    unfolding process_reference
    process_on-Processed ref segments [] s met h kept = tt
    process_on-Processed ref segments (path ∷ paths) s met (p, h) kept =
        process_in-Processed ref segments path paths path.assignment_stack s met p h kept

    pub process_reference-Processed :
        (ref : Reference) (segments : List Segment) (s : State)
        → IsMet object t ref
        → Kept object t s
        → Holds (Processed s) (process_reference occurrence ref segments s.code_path_stack s)
    process_reference-Processed ref segments s met kept =
        process_on-Processed ref segments s.code_path_stack s met kept.stacked kept

    pub process_references-Processed :
        (refs : List Reference) (segments : List Segment) (s : State)
        → All (IsMet object t) refs
        → Kept object t s
        → Holds (Processed s) (process_references occurrence refs segments s)
    unfolding process_references
    process_references-Processed [] segments s h kept = (kept, (refl, refl))
    process_references-Processed (ref ∷ refs) segments s (met, h) kept =
        Holds-chain (Processed s) (Processed s)
          (process_reference occurrence ref segments s.code_path_stack s)
          (λ s'. process_references occurrence refs segments s')
          (process_reference-Processed ref segments s met kept)
          (λ s' (k, (a, b)).
            Holds-weaken (Processed s') (Processed s)
              (process_references occurrence refs segments s')
              (λ s'' (k', (c, d)). (k', (c ∙ a, d ∙ b)))
              (process_references-Processed refs segments s' h k))
