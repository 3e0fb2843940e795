-- ===== src/Dataflow/DeadStore/Events/Lossless.antt =====
-- No reference is lost by a run of the rule: src/linting/eslint/rules/no-dead-store.ts.
use sonar_js.Prelude.{
  ℕ, Option, none, some, List, [], ◌∷◌, ◌≡◌, refl, sym, subst, ◌⊎◌, inl, inr, arith, Bool-cases,
  Option-cases, All,
}
use sonar_js.Dataflow.Lva.{Reference}
use sonar_js.Dataflow.DeadStore.Scopes.{
  Occurrence, resolve_reference, resolve_jsx_reference, is_enum_constant,
}
use sonar_js.Dataflow.DeadStore.Known.{IsMet, Pending, Stacked, All_map}
use sonar_js.Dataflow.DeadStore.Events.{
  CodePathContext, State, object_pattern, push_context, pop_context, Event, assignment_start,
  assignment_end, identifier_met, jsx_identifier_met, object_pattern_start, object_pattern_end,
  rest_met, property_identifier_met, segment_start, path_start, path_end, step, run,
}
use sonar_js.Dataflow.DeadStore.Events.Invariant.{Holds}
use sonar_js.Dataflow.DeadStore.Events.Steps.{Invariant}
use sonar_js.Dataflow.DeadStore.Events.Reached.{IsCoherent, step-Invariant}
use sonar_js.Dataflow.DeadStore.Events.Retained.{Held}
use sonar_js.Dataflow.DeadStore.Events.Retaining.{IsNamedSo, pop_assignment_context-Held}
use sonar_js.Dataflow.DeadStore.Events.Arrivals.{
  IsOrderly, Meets, MeetsAny, AllOrderly, check_identifier_usage-Held, push_assignment_context-Held,
  segment_start-Held, path_end-Held, destructured-Held, rest_element-Held, object_pattern_exit-Held,
}

module _ (occurrence : ℕ → Occurrence) (object : ℕ → Reference) (n v : ℕ)
    (resolved : (object n).resolved ≡ some v) where
  named_refs :
      (t : State) (refs : List Reference)
      → All (IsMet object t) refs
      → All (IsNamedSo occurrence object n v resolved) refs
  named_refs t refs =
      All_map (IsMet object t) (IsNamedSo occurrence object n v resolved) refs (λ r m. m.same)

  named_paths :
      (t : State) (paths : List CodePathContext)
      → All (Stacked object t) paths
      → All
          (λ path.
            All
              (λ a.
                All (IsNamedSo occurrence object n v resolved) a.lhs
                × All (IsNamedSo occurrence object n v resolved) a.rhs)
              path.assignment_stack)
          paths
  named_paths t paths = All_map (Stacked object t) _ paths λ path.
      All_map (Pending object t) _ path.assignment_stack
        λ a (l, r). (named_refs t a.lhs l, named_refs t a.rhs r)

  -- what is held stays, and what is met is held
  step-Held :
      (event : Event) (s : State)
      → IsCoherent occurrence object event
      → IsOrderly event s
      → Invariant occurrence object s
      → Held n s ⊎ Meets n event
      → Holds (Held n) (step occurrence event s)
  unfolding step object_pattern push_context pop_context
  step-Held (identifier_met node ancestors scopes segments) s c o kept known =
      let r = resolve_reference node scopes in
      elim (Bool-cases (is_enum_constant ancestors)) [
        | inl constant ↦ rw (constant) (elim known [
          | inl held ↦ held
          | inr (other, ref, e, is) ↦ absurd (ground (arith, constant, other))
        ])
        | inr other ↦ rw (other) (
            check_identifier_usage-Held occurrence object n v resolved r.ref r.variable segments s o
              c
              (elim known [
                | inl held ↦ inl held
                | inr (not_constant, ref, e, is) ↦ inr (ref, e, is)
              ]))
      ]
  step-Held (jsx_identifier_met node name parents scopes segments) s c o kept known =
      let r = resolve_jsx_reference node name parents scopes in
      check_identifier_usage-Held occurrence object n v resolved r.ref r.variable segments s o c
        known
  step-Held (assignment_start left right) s c o kept (inl held) =
      push_assignment_context-Held occurrence object n v resolved left right s.code_path_stack s
        refl held
  step-Held (assignment_end segments) s c o kept (inl held) =
      pop_assignment_context-Held occurrence object n v resolved segments s.code_path_stack s o refl
        (named_paths s s.code_path_stack kept.stacked) held
  step-Held object_pattern_start s c o kept (inl held) = held
  step-Held object_pattern_end s c o kept (inl held) =
      object_pattern_exit-Held occurrence object n v resolved s.destructuring_stack s held
  step-Held rest_met s c o kept (inl held) =
      rest_element-Held occurrence object n v resolved s.destructuring_stack s held
  step-Held (property_identifier_met node scopes) s c o kept (inl held) =
      destructured-Held occurrence object n v resolved (resolve_reference node scopes).ref
        s.destructuring_stack s held
  step-Held (segment_start segment) s c o kept (inl held) =
      segment_start-Held occurrence object n v resolved segment s o held
  step-Held (path_start code_path) s c o kept (inl held) = held
  step-Held path_end s c o kept (inl held) =
      path_end-Held occurrence object n v resolved s s.code_path_stack refl o held
  step-Held (assignment_start left right) s c o kept (inr never) = elim never [ ]
  step-Held (assignment_end segments) s c o kept (inr never) = elim never [ ]
  step-Held object_pattern_start s c o kept (inr never) = elim never [ ]
  step-Held object_pattern_end s c o kept (inr never) = elim never [ ]
  step-Held rest_met s c o kept (inr never) = elim never [ ]
  step-Held (property_identifier_met node scopes) s c o kept (inr never) = elim never [ ]
  step-Held (segment_start segment) s c o kept (inr never) = elim never [ ]
  step-Held (path_start code_path) s c o kept (inr never) = elim never [ ]
  step-Held path_end s c o kept (inr never) = elim never [ ]

  -- No reference is lost. Let a reference have a variable, and let it stand in a segment or in an
  -- assignment that has not ended, or be met by one of the events; and let these come as ESLint sends
  -- them: a current segment where code is met, no segment started twice, and assignments that end
  -- before their code path. If no handler throws, then in the end the reference stands in a segment
  -- or in an assignment that has not ended.
  pub run-Held :
      (events : List Event) (s : State)
      → All (IsCoherent occurrence object) events
      → AllOrderly occurrence events s
      → Invariant occurrence object s
      → Held n s ⊎ MeetsAny n events
      → Holds (Held n) (run occurrence events s)
  unfolding run
  run-Held [] s c o kept (inl held) = held
  run-Held [] s c o kept (inr never) = elim never [ ]
  run-Held (event ∷ events) s (c, cs) (o, os) kept known =
      let after : Option State → Type 0 =
        λ r. Holds (Held n) (elim r [ none ↦ none | some s' ↦ run occurrence events s' ]) in
      elim (Option-cases (step occurrence event s)) [
        | inl error ↦ subst after (sym error) tt
        | inr (next, e) ↦
            let orderly : AllOrderly occurrence events next =
              subst (λ r. elim r [ none ↦ Unit | some s' ↦ AllOrderly occurrence events s' ]) e
                os in
            let kept_next : Invariant occurrence object next =
              subst (Holds (Invariant occurrence object)) e
                (step-Invariant occurrence object event s c kept) in
            let now : Held n s ⊎ Meets n event → Held n next =
              λ h. subst (Holds (Held n)) e (step-Held event s c o kept h) in
            subst after (sym e) (
              run-Held events next cs orderly kept_next (elim known [
                | inl held ↦ inl (now (inl held))
                | inr (inl met) ↦ inl (now (inr met))
                | inr (inr later) ↦ inr later
              ]))
      ]
