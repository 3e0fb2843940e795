-- ===== src/Dataflow/DeadStore/Events/Arrivals.antt =====
-- The events as ESLint sends them, and handlers that keep what is held: src/linting/eslint/rules/no-dead-store.ts.
use sonar_js.Prelude.{
  ℕ, ◌||◌, true, false, Option, none, some, List, [], ◌∷◌, ◌≡◌, refl, sym, ◌∙◌, subst, ◌⊎◌, inl,
  inr, arith, Bool-cases, any, get, get-put, ◌==◌, ==_iff,
}
use sonar_js.Dataflow.Lva.{Segment, Reference, new_live_variables}
use sonar_js.Dataflow.DeadStore.Scopes.{
  Occurrence, resolve_reference, resolve_jsx_reference, is_enum_constant,
}
use sonar_js.Dataflow.DeadStore.Events.{
  CodePathContext, DestructuringContext, State, tail, push_assignment_context, object_pattern_exit,
  rest_element, destructured, on_code_path_segment_start, Event, assignment_end, identifier_met,
  jsx_identifier_met, segment_start, path_end, step, process_reference, check_identifier_usage,
  usage_of, read_of, update_read_variables, update_variable_usages,
}
use sonar_js.Dataflow.DeadStore.Events.Invariant.{Holds, Holds-chain}
use sonar_js.Dataflow.DeadStore.Events.Retained.{in_sides, pending, Held}
use sonar_js.Dataflow.DeadStore.Events.Retaining.{IsSome, Keeps, Is-named, process_reference-Keeps}

abbrev pub AllEnded : List CodePathContext → Type 0
AllEnded [] = Unit
AllEnded (path ∷ paths) = path.assignment_stack ≡ []

-- The event comes as ESLint sends it: a code path has a current segment where code is met, a
-- segment starts once, and the assignments of a code path end before it does.
abbrev pub IsOrderly : Event → State → Type 0
IsOrderly (assignment_end segments) s = IsSome segments
IsOrderly (identifier_met node ancestors scopes segments) s = IsSome segments
IsOrderly (jsx_identifier_met node name parents scopes segments) s = IsSome segments
IsOrderly (segment_start segment) s = get s.live_variables_map segment.id ≡ none
IsOrderly path_end s = AllEnded s.code_path_stack
IsOrderly _ s = Unit

-- The event meets the reference `n`: its identifier resolves to it.
abbrev pub Meets : ℕ → Event → Type 0
Meets n (identifier_met node ancestors scopes segments) =
    (is_enum_constant ancestors ≡ false)
    × (ref : Reference) × ((resolve_reference node scopes).ref ≡ some ref)
    × (ref.identifier ≡ n)
Meets n (jsx_identifier_met node name parents scopes segments) =
    (ref : Reference) × ((resolve_jsx_reference node name parents scopes).ref ≡ some ref)
    × (ref.identifier ≡ n)
Meets n _ = ⊥

abbrev pub MeetsAny : ℕ → List Event → Type 0
MeetsAny n [] = ⊥
MeetsAny n (event ∷ events) = Meets n event ⊎ MeetsAny n events

module _ (occurrence : ℕ → Occurrence) where
  -- each event is orderly in the state that it meets
  abbrev pub AllOrderly : List Event → State → Type 0
  AllOrderly [] s = Unit
  AllOrderly (event ∷ events) s =
      IsOrderly event s
      × elim (step occurrence event s) [ none ↦ Unit | some s' ↦ AllOrderly events s' ]

module _ (occurrence : ℕ → Occurrence) (object : ℕ → Reference) (n v : ℕ)
    (resolved : (object n).resolved ≡ some v) where
  update_variable_usages-Held :
      (variable : ℕ) (s : State) (paths : List CodePathContext)
      → Held n s
      → Holds (Held n) (update_variable_usages variable s paths)
  unfolding update_variable_usages
  update_variable_usages-Held variable s [] held = tt
  update_variable_usages-Held variable s (path ∷ paths) held = held

  usage_of-Held :
      (variable : Option ℕ) (s : State) → Held n s → Holds (Held n) (usage_of variable s)
  unfolding usage_of
  usage_of-Held none s held = held
  usage_of-Held (some variable) s held =
      update_variable_usages-Held variable s s.code_path_stack held

  read_of-Held :
      (ref : Reference) (variable : Option ℕ) (s : State)
      → Held n s
      → Held n (read_of ref variable s)
  unfolding read_of update_read_variables
  read_of-Held ref none s held = held
  read_of-Held ref (some variable) s held = held

  pub check_identifier_usage-Held :
      (found : Option Reference) (variable : Option ℕ) (segments : List Segment) (s : State)
      → IsSome segments
      → ((ref : Reference) → found ≡ some ref → object ref.identifier ≡ ref)
      → Held n s ⊎ ((ref : Reference) × (found ≡ some ref) × (ref.identifier ≡ n))
      → Holds (Held n) (check_identifier_usage occurrence found variable segments s)
  unfolding check_identifier_usage
  check_identifier_usage-Held none variable segments s h named (inl held) =
      usage_of-Held variable s held
  check_identifier_usage-Held none variable segments s h named (inr (ref, e, is)) = absurd cc
  check_identifier_usage-Held (some ref) variable segments s h named known =
      Holds-chain (Keeps occurrence object n v resolved s ref) (Held n)
        (process_reference occurrence ref segments s.code_path_stack s)
        (λ s1. usage_of variable (read_of ref variable s1))
        (process_reference-Keeps occurrence object n v resolved ref segments s.code_path_stack s h
          refl)
        λ s1 (keeps, takes).
          let held : Held n s1 = elim known [
            | inl before ↦ keeps before
            | inr (other, e, is) ↦
                let same : other.identifier ≡ ref.identifier = cc in
                takes (Is-named occurrence object n v resolved ref (named ref refl) (sym same ∙ is))
          ] in
          usage_of-Held variable (read_of ref variable s1) (read_of-Held ref variable s1 held)

  pub push_assignment_context-Held :
      (left right : ℕ) (paths : List CodePathContext) (s : State)
      → s.code_path_stack ≡ paths
      → Held n s
      → Holds (Held n) (push_assignment_context left right paths s)
  unfolding push_assignment_context
  push_assignment_context-Held left right [] s e held = tt
  push_assignment_context-Held left right (path ∷ paths) s e held = elim held [
    | inl there ↦ inl there
    | inr waiting ↦ inr (subst (λ ps. pending n ps ≡ true) e waiting)
  ]

  pub segment_start-Held :
      (segment : Segment) (s : State)
      → get s.live_variables_map segment.id ≡ none
      → Held n s
      → Held n (on_code_path_segment_start segment s)
  unfolding on_code_path_segment_start
  segment_start-Held segment s fresh (inr waiting) = inr waiting
  segment_start-Held segment s fresh (inl (k, lv, found, there)) =
      let m = s.live_variables_map in
      elim (Bool-cases (segment.id == k)) [
        | inl same ↦
            let gone : get m k ≡ none =
              subst (λ j. get m j ≡ none) ((==_iff segment.id k).0 same) fresh in
            absurd (ground (arith, gone, found))
        | inr other ↦
            inl
              (k, lv, get-put m segment.id k (new_live_variables segment) ∙ rw (other) found, there)
      ]

  pub path_end-Held :
      (s : State) (paths : List CodePathContext)
      → s.code_path_stack ≡ paths
      → AllEnded paths
      → Held n s
      → Held n (record s { code_path_stack = tail paths })
  unfolding tail
  path_end-Held s paths e ended (inl there) = inl there
  path_end-Held s [] e ended (inr waiting) = inr (subst (λ ps. pending n ps ≡ true) e waiting)
  path_end-Held s (path ∷ paths) e ended (inr waiting) = inr (
      subst (λ l. (any (in_sides n) l || pending n paths) ≡ true) ended
        (subst (λ ps. pending n ps ≡ true) e waiting))

  pub destructured-Held :
      (ref : Option Reference) (stack : List DestructuringContext) (s : State)
      → Held n s
      → Holds (Held n) (destructured ref stack s)
  unfolding destructured
  destructured-Held none stack s held = held
  destructured-Held (some ref) [] s held = tt
  destructured-Held (some ref) (d ∷ ds) s held = held

  pub rest_element-Held :
      (stack : List DestructuringContext) (s : State)
      → Held n s
      → Holds (Held n) (rest_element stack s)
  unfolding rest_element
  rest_element-Held [] s held = tt
  rest_element-Held (d ∷ ds) s held = held

  pub object_pattern_exit-Held :
      (stack : List DestructuringContext) (s : State)
      → Held n s
      → Held n (object_pattern_exit stack s)
  unfolding object_pattern_exit
  object_pattern_exit-Held [] s held = held
  object_pattern_exit-Held (d ∷ ds) s held = held
