-- ===== src/Dataflow/DeadStore/Events/Retained.antt =====
-- References that the state holds: in a segment, or in an assignment that has not ended
-- (src/linting/eslint/rules/no-dead-store.ts).
use sonar_js.Prelude.{
  ℕ, Bool, true, ◌||◌, none, some, List, [], ◌∷◌, ◌++◌, ◌≡◌, refl, sym, ◌∙◌, subst, ◌⊎◌, inl, inr,
  arith, Bool-cases, Option-cases, ◌==◌, ==_iff, any, get, put, get-put,
}
use sonar_js.Dataflow.Lva.{Segment, Reference, LiveVariables, LiveVariablesMap, add, add_reference}
use sonar_js.Dataflow.DeadStore.Scopes.{Node}
use sonar_js.Dataflow.DeadStore.Known.{add-none, add-some}
use sonar_js.Dataflow.DeadStore.Events.{
  AssignmentContext, CodePathContext, State, add_to_side, lva_for_segment, add_to_segments,
}

module _ (n : ℕ) where
  abbrev pub listed : List Reference → Bool
  listed refs = any (λ r. r.identifier == n) refs

  abbrev pub in_sides : AssignmentContext → Bool
  in_sides a = listed a.lhs || listed a.rhs

  abbrev pub pending : List CodePathContext → Bool
  pending paths = any (λ path. any in_sides path.assignment_stack) paths

  -- a segment of the map has the reference
  abbrev pub InSegments : LiveVariablesMap → Type 0
  InSegments m =
      (k : ℕ) × (lv : LiveVariables) × (get m k ≡ some lv) × (listed lv.references ≡ true)

  -- The reference `n` is in a segment or in an assignment that has not ended.
  abbrev pub Held : State → Type 0
  Held s = InSegments s.live_variables_map ⊎ (pending s.code_path_stack ≡ true)

  listed_left : (xs ys : List Reference) → listed xs ≡ true → listed (xs ++ ys) ≡ true
  listed_left [] ys h = absurd (ground arith)
  listed_left (x ∷ xs) ys h = ground (arith, listed_left xs ys)

  listed_last :
      (xs : List Reference) (y : Reference) → y.identifier ≡ n → listed (xs ++ y ∷ []) ≡ true
  listed_last [] y e = ground (arith, e)
  listed_last (x ∷ xs) y e = ground (arith, listed_last xs y e)

  add_reference-keeps :
      (refs : List Reference) (ref : Reference)
      → listed refs ≡ true
      → listed (add_reference refs ref) ≡ true
  unfolding add_reference
  add_reference-keeps refs ref h =
      elim (Bool-cases (any (λ r. r.identifier == ref.identifier) refs)) [
        | inl old ↦ rw (old) h
        | inr new ↦ rw (new) (listed_left refs (ref ∷ []) h)
      ]

  add_reference-adds :
      (refs : List Reference) (ref : Reference)
      → ref.identifier ≡ n
      → listed (add_reference refs ref) ≡ true
  unfolding add_reference
  add_reference-adds refs ref e =
      elim (Bool-cases (any (λ r. r.identifier == ref.identifier) refs)) [
        | inl old ↦ rw (old) (subst (λ k. any (λ r. r.identifier == k) refs ≡ true) e old)
        | inr new ↦ rw (new) (listed_last refs ref e)
      ]

  add-keeps :
      (lv : LiveVariables) (ref : Reference)
      → listed lv.references ≡ true
      → listed (add lv ref).references ≡ true
  add-keeps lv ref h = elim (Option-cases ref.resolved) [
    | inl unresolved ↦ subst (λ l. listed l.references ≡ true) (sym (add-none lv ref unresolved)) h
    | inr (v, found) ↦
        subst (λ l. listed l.references ≡ true) (sym (add-some lv ref v found))
          (add_reference-keeps lv.references ref h)
  ]

  add-adds :
      (lv : LiveVariables) (ref : Reference) (v : ℕ)
      → ref.resolved ≡ some v
      → ref.identifier ≡ n
      → listed (add lv ref).references ≡ true
  add-adds lv ref v found e =
      subst (λ l. listed l.references ≡ true) (sym (add-some lv ref v found))
        (add_reference-adds lv.references ref e)

  put-InSegments :
      (m : LiveVariablesMap) (segment : Segment) (ref : Reference)
      → InSegments m
      → InSegments (put m segment.id (add (lva_for_segment m segment) ref))
  unfolding lva_for_segment
  put-InSegments m segment ref (k, lv, found, h) =
      let after = get-put m segment.id k (add (lva_for_segment m segment) ref) in
      elim (Bool-cases (segment.id == k)) [
        | inl same ↦
            let here : get m segment.id ≡ some lv =
              subst (λ j. get m j ≡ some lv) (sym ((==_iff segment.id k).0 same)) found in
            (k, add lv ref, after ∙ rw (same) (rw (lva_for_segment, here) refl), add-keeps lv ref h)
        | inr other ↦ (k, lv, after ∙ rw (other) found, h)
      ]

  pub add_to_segments-keeps :
      (m : LiveVariablesMap) (ref : Reference) (segments : List Segment)
      → InSegments m
      → InSegments (add_to_segments m ref segments)
  unfolding add_to_segments
  add_to_segments-keeps m ref [] h = h
  add_to_segments-keeps m ref (segment ∷ segments) h =
      add_to_segments-keeps (put m segment.id (add (lva_for_segment m segment) ref)) ref segments
        (put-InSegments m segment ref h)

  pub add_to_segments-adds :
      (m : LiveVariablesMap) (ref : Reference) (v : ℕ) (segment : Segment) (segments : List Segment)
      → ref.resolved ≡ some v
      → ref.identifier ≡ n
      → InSegments (add_to_segments m ref (segment ∷ segments))
  unfolding add_to_segments
  add_to_segments-adds m ref v segment segments found e =
      let lv = lva_for_segment m segment in
      let there : get (put m segment.id (add lv ref)) segment.id ≡ some (add lv ref) =
        ground (arith, get-put m segment.id segment.id (add lv ref)) in
      add_to_segments-keeps (put m segment.id (add lv ref)) ref segments
        (segment.id, add lv ref, there, add-adds lv ref v found e)

  -- a side of an assignment takes a reference
  pub add_to_side-Sides :
      (a : AssignmentContext) (ref : Reference) (nodes : List Node)
      → (add_to_side a ref nodes ≡ none)
        ⊎ ((a' : AssignmentContext) × (add_to_side a ref nodes ≡ some a')
            × (in_sides a ≡ true → in_sides a' ≡ true)
            × (ref.identifier ≡ n → in_sides a' ≡ true))
  unfolding add_to_side
  add_to_side-Sides a ref [] = inl refl
  add_to_side-Sides a ref (node ∷ nodes) = elim (Bool-cases (node.id == a.left)) [
    | inl left ↦ rw (left) (
        inr (
          record a { lhs = add_reference a.lhs ref },
          refl,
          λ h. ground (arith, add_reference-keeps a.lhs ref, h),
          λ e. ground (arith, add_reference-adds a.lhs ref e),
        ))
    | inr other ↦ elim (Bool-cases (node.id == a.right)) [
      | inl right ↦ rw (other) (
          rw (right) (
            inr (
              record a { rhs = add_reference a.rhs ref },
              refl,
              λ h. ground (arith, add_reference-keeps a.rhs ref, h),
              λ e. ground (arith, add_reference-adds a.rhs ref e),
            )))
      | inr above ↦ rw (other) (rw (above) (add_to_side-Sides a ref nodes))
    ]
  ]
