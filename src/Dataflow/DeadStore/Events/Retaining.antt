-- ===== src/Dataflow/DeadStore/Events/Retaining.antt =====
-- The handlers keep what the state holds: src/linting/eslint/rules/no-dead-store.ts.
use sonar_js.Prelude.{
  ℕ, Bool, ◌||◌, true, false, some, List, [], ◌∷◌, ◌≡◌, refl, sym, ap, ◌∙◌, subst, ◌⊎◌, inl, inr,
  arith, Bool-cases, All, any, ◌==◌, ==_iff,
}
use sonar_js.Dataflow.Lva.{Segment, Reference}
use sonar_js.Dataflow.DeadStore.Scopes.{Occurrence}
use sonar_js.Dataflow.DeadStore.Events.{
  AssignmentContext, CodePathContext, State, in_assignment, process_in, process_reference,
  process_references, pop_from, pop_assignment_context,
}
use sonar_js.Dataflow.DeadStore.Events.Invariant.{Holds, Holds-chain, Holds-weaken}
use sonar_js.Dataflow.DeadStore.Events.Retained.{
  listed, in_sides, pending, Held, add_to_segments-keeps, add_to_segments-adds, add_to_side-Sides,
}

abbrev pub IsSome : List Segment → Type 0
IsSome [] = ⊥
IsSome (segment ∷ segments) = Unit

-- `object` tells the reference that a number stands for, and `n` has a variable.
module _ (occurrence : ℕ → Occurrence) (object : ℕ → Reference) (n v : ℕ)
    (resolved : (object n).resolved ≡ some v) where
  -- the reference `n` itself
  abbrev pub Is : Reference → Type 0
  Is ref = (ref.identifier ≡ n) × (ref.resolved ≡ some v)

  -- what a state comes to that holds `n` already, or takes it as `ref`
  abbrev pub Keeps : State → Reference → State → Type 0
  Keeps s ref s' = (Held n s → Held n s') × (Is ref → Held n s')

  abbrev pub IsNamedSo : Reference → Type 0
  IsNamedSo ref = object ref.identifier ≡ ref

  pub Is-named : (ref : Reference) → IsNamedSo ref → ref.identifier ≡ n → Is ref
  Is-named ref same e = (e, subst (λ r. r.resolved ≡ some v) (ap object (sym e) ∙ same) resolved)

  one_replaced :
      (b b' others paths : Bool)
      → (b ≡ true → b' ≡ true)
      → ((b || others) || paths) ≡ true
      → ((b' || others) || paths) ≡ true
  one_replaced true b' others paths h e = rw (h refl) refl
  one_replaced false b' others paths h e = ground (arith, e)

  in_assignment-Keeps :
      (ref : Reference) (path : CodePathContext) (paths : List CodePathContext)
      (a : AssignmentContext) (outer : List AssignmentContext) (s : State)
      → s.code_path_stack ≡ path ∷ paths
      → path.assignment_stack ≡ a ∷ outer
      → Holds (Keeps s ref) (in_assignment occurrence ref path paths a outer s)
  unfolding in_assignment
  in_assignment-Keeps ref path paths a outer s e f =
      let o = occurrence ref.identifier in
      elim (add_to_side-Sides n a ref (o.node ∷ o.parents)) [
        | inl error ↦ rw (in_assignment, error) tt
        | inr (a', added, keeps, adds) ↦
            rw (in_assignment, added)
              (
                λ held. elim held [
                  | inl there ↦ inl there
                  | inr waiting ↦ inr (
                      one_replaced (in_sides n a) (in_sides n a') (any (in_sides n) outer)
                        (pending n paths) keeps
                        (subst (λ l. (any (in_sides n) l || pending n paths) ≡ true) f
                          (subst (λ ps. pending n ps ≡ true) e waiting)))
                ],
                λ is. inr (ground (arith, adds is.0)),
              )
      ]

  process_in-Keeps :
      (ref : Reference) (segments : List Segment) (path : CodePathContext)
      (paths : List CodePathContext) (stack : List AssignmentContext) (s : State)
      → IsSome segments
      → s.code_path_stack ≡ path ∷ paths
      → path.assignment_stack ≡ stack
      → Holds (Keeps s ref) (process_in occurrence ref segments path paths stack s)
  unfolding process_in
  process_in-Keeps ref [] path paths stack s h e f = absurd h
  process_in-Keeps ref (segment ∷ segments) path paths [] s h e f = (
    λ held. elim held [
      | inl there ↦
          inl (add_to_segments-keeps n s.live_variables_map ref (segment ∷ segments) there)
      | inr waiting ↦ inr waiting
    ],
    λ is. inl (add_to_segments-adds n s.live_variables_map ref v segment segments is.1 is.0),
  )
  process_in-Keeps ref (segment ∷ segments) path paths (a ∷ outer) s h e f =
      in_assignment-Keeps ref path paths a outer s e f

  pub process_reference-Keeps :
      (ref : Reference) (segments : List Segment) (paths : List CodePathContext) (s : State)
      → IsSome segments
      → s.code_path_stack ≡ paths
      → Holds (Keeps s ref) (process_reference occurrence ref segments paths s)
  unfolding process_reference
  process_reference-Keeps ref segments [] s h e = tt
  process_reference-Keeps ref segments (path ∷ paths) s h e =
      process_in-Keeps ref segments path paths path.assignment_stack s h e refl

  abbrev KeepsAll : State → List Reference → State → Type 0
  KeepsAll s refs s' = (Held n s → Held n s') × (listed n refs ≡ true → Held n s')

  process_references-KeepsAll :
      (refs : List Reference) (segments : List Segment) (s : State)
      → IsSome segments
      → All IsNamedSo refs
      → Holds (KeepsAll s refs) (process_references occurrence refs segments s)
  unfolding process_references
  process_references-KeepsAll [] segments s h named = (λ held. held, λ l. absurd (ground arith))
  process_references-KeepsAll (ref ∷ refs) segments s h (same, named) =
      Holds-chain (Keeps s ref) (KeepsAll s (ref ∷ refs))
        (process_reference occurrence ref segments s.code_path_stack s)
        (λ s1. process_references occurrence refs segments s1)
        (process_reference-Keeps ref segments s.code_path_stack s h refl)
        λ s1 first.
          Holds-weaken (KeepsAll s1 refs) (KeepsAll s (ref ∷ refs))
            (process_references occurrence refs segments s1)
            (λ s2 rest. (
              λ held. rest.0 (first.0 held),
              λ l. elim (Bool-cases (ref.identifier == n)) [
                | inl is ↦ rest.0 (first.1 (Is-named ref same ((==_iff ref.identifier n).0 is)))
                | inr other ↦ rest.1 (ground arith)
              ],
            ))
            (process_references-KeepsAll refs segments s1 h named)

  -- what is held in the assignment that ends, or elsewhere
  popped_cases :
      (l r others paths : Bool)
      → (((l || r) || others) || paths) ≡ true
      → (r ≡ true) ⊎ (l ≡ true) ⊎ ((others || paths) ≡ true)
  popped_cases true r others paths e = inr (inl refl)
  popped_cases false true others paths e = inl refl
  popped_cases false false others paths e = inr (inr e)

  pop_from-Held :
      (segments : List Segment) (path : CodePathContext) (paths : List CodePathContext)
      (stack : List AssignmentContext) (s : State)
      → IsSome segments
      → s.code_path_stack ≡ path ∷ paths
      → path.assignment_stack ≡ stack
      → All (λ a. All IsNamedSo a.lhs × All IsNamedSo a.rhs) stack
      → Held n s
      → Holds (Held n) (pop_from occurrence segments path paths stack s)
  unfolding pop_from
  pop_from-Held segments path paths [] s h e f named held = tt
  pop_from-Held segments path paths (a ∷ outer) s h e f ((left, right), named) held =
      let popped : State = record s {
        code_path_stack = record path { assignment_stack = outer } ∷ paths;
      } in
      let cases : (listed n a.rhs ≡ true) ⊎ (listed n a.lhs ≡ true) ⊎ Held n popped = elim held [
        | inl there ↦ inr (inr (inl there))
        | inr waiting ↦
            elim (popped_cases (listed n a.lhs) (listed n a.rhs) (any (in_sides n) outer)
              (pending n paths)
              (subst (λ l. (any (in_sides n) l || pending n paths) ≡ true) f
                (subst (λ ps. pending n ps ≡ true) e waiting))) [
                  | inl r ↦ inl r
                  | inr (inl l) ↦ inr (inl l)
                  | inr (inr outside) ↦ inr (inr (inr outside))
                ]
      ] in
      Holds-chain (KeepsAll popped a.rhs) (Held n)
        (process_references occurrence a.rhs segments popped)
        (λ s1. process_references occurrence a.lhs segments s1)
        (process_references-KeepsAll a.rhs segments popped h right)
        λ s1 first.
          Holds-weaken (KeepsAll s1 a.lhs) (Held n)
            (process_references occurrence a.lhs segments s1)
            (λ s2 rest. elim cases [
              | inl r ↦ rest.0 (first.1 r)
              | inr (inl l) ↦ rest.1 l
              | inr (inr outside) ↦ rest.0 (first.0 outside)
            ])
            (process_references-KeepsAll a.lhs segments s1 h left)

  pub pop_assignment_context-Held :
      (segments : List Segment) (paths : List CodePathContext) (s : State)
      → IsSome segments
      → s.code_path_stack ≡ paths
      → All
          (λ path. All (λ a. All IsNamedSo a.lhs × All IsNamedSo a.rhs) path.assignment_stack)
          paths
      → Held n s
      → Holds (Held n) (pop_assignment_context occurrence segments paths s)
  unfolding pop_assignment_context
  pop_assignment_context-Held segments [] s h e named held = tt
  pop_assignment_context-Held segments (path ∷ paths) s h e (here, named) held =
      pop_from-Held segments path paths path.assignment_stack s h e refl here held
