-- ===== src/Dataflow/DeadStore/Events/Usage.antt =====
-- An identifier that is met keeps what the state knows: src/linting/eslint/rules/no-dead-store.ts.
use sonar_js.Prelude.{
  ℕ, Option, none, some, List, [], ◌∷◌, ◌≡◌, refl, sym, inl, inr, arith, Option-cases,
  if◌then◌else◌, set_add, has-set_add, get, put, get-put,
}
use sonar_js.Dataflow.Lva.{Segment, Reference}
use sonar_js.Dataflow.DeadStore.Scopes.{Occurrence}
use sonar_js.Dataflow.DeadStore.Known.{IsKnown, Kept, Knows, Knows-Kept}
use sonar_js.Dataflow.DeadStore.Events.{
  CodePathContext, State, process_reference, usage_of, read_of, update_variable_usages,
  update_read_variables, check_identifier_usage, add_usage,
}
use sonar_js.Dataflow.DeadStore.Events.Invariant.{Holds}
use sonar_js.Dataflow.DeadStore.Events.Steps.{Invariant, process_reference-Kept}

-- the state after a read and a usage of variable `v` have been noted
abbrev noting : Reference → ℕ → ℕ → State → State
noting ref v code_path s = record s {
  read_variables = if ref.is_read then set_add s.read_variables v else s.read_variables;
  variable_usages = put s.variable_usages v (add_usage (get s.variable_usages v) code_path);
}

noting-Knows : (ref : Reference) (v code_path : ℕ) (s : State) → Knows s (noting ref v code_path s)
noting-Knows ref v code_path s = record {
  notes = λ x h. ground (arith, has-set_add s.read_variables v x);
  uses = λ x h.
      ground (arith, get-put s.variable_usages v x (add_usage (get s.variable_usages v) code_path));
}

noting-IsKnown :
    (ref : Reference) (v code_path : ℕ) (s : State)
    → ref.resolved ≡ some v
    → IsKnown (noting ref v code_path s) ref
noting-IsKnown ref v code_path s e = record {
  noted = λ x h. ground (arith, has-set_add s.read_variables v x);
  used = λ x h.
      ground (arith, get-put s.variable_usages v x (add_usage (get s.variable_usages v) code_path));
}

unresolved-IsKnown : (ref : Reference) (s : State) → ref.resolved ≡ none → IsKnown s ref
unresolved-IsKnown ref s e = record {
  noted = λ x h. absurd (ground arith);
  used = λ x h. absurd (ground arith);
}

module _ (occurrence : ℕ → Occurrence) (object : ℕ → Reference) where
  after_usage :
      (v : ℕ) (paths : List CodePathContext) (s : State)
      → Invariant occurrence object s
      → Holds (Invariant occurrence object) (update_variable_usages v s paths)
  unfolding update_variable_usages
  after_usage v [] s kept = tt
  after_usage v (path ∷ paths) s kept =
      let last : State = record s {
        variable_usages =
            put s.variable_usages v (add_usage (get s.variable_usages v) path.code_path);
      } in
      let kept' : Kept object last s =
        Knows-Kept object s last s
          (record {
            notes = λ x h. h;
            uses = λ x h. ground (
              arith,
              get-put s.variable_usages v x (add_usage (get s.variable_usages v) path.code_path),
            );
          })
          kept in
      record { distinct = kept'.distinct; entries = kept'.entries; stacked = kept'.stacked }

  after_reference :
      (ref : Reference) (v : ℕ) (segments : List Segment) (paths : List CodePathContext)
      (s s' : State)
      → Invariant occurrence object s
      → process_reference occurrence ref segments s.code_path_stack s ≡ some s'
      → object ref.identifier ≡ ref
      → ref.resolved ≡ some v
      → Holds
          (Invariant occurrence object)
          (update_variable_usages v (update_read_variables ref v s') paths)
  unfolding update_variable_usages update_read_variables
  after_reference ref v segments [] s s' kept e same resolved = tt
  after_reference ref v segments (path ∷ paths) s s' kept e same resolved =
      let last = noting ref v path.code_path s' in
      let kept' : Kept object last s' =
        process_reference-Kept occurrence object ref segments s s' last kept e
          (noting-Knows ref v path.code_path s')
          (record { known = noting-IsKnown ref v path.code_path s' resolved; same = same }) in
      record { distinct = kept'.distinct; entries = kept'.entries; stacked = kept'.stacked }

  usage_of-Invariant :
      (variable : Option ℕ) (s : State)
      → Invariant occurrence object s
      → Holds (Invariant occurrence object) (usage_of variable s)
  unfolding usage_of
  usage_of-Invariant none s kept = kept
  usage_of-Invariant (some v) s kept = after_usage v s.code_path_stack s kept

  after_processing :
      (ref : Reference) (variable : Option ℕ) (segments : List Segment) (s s' : State)
      → Invariant occurrence object s
      → process_reference occurrence ref segments s.code_path_stack s ≡ some s'
      → object ref.identifier ≡ ref
      → variable ≡ ref.resolved
      → Holds (Invariant occurrence object) (usage_of variable (read_of ref variable s'))
  unfolding usage_of read_of
  after_processing ref none segments s s' kept e same resolved =
      process_reference-Kept occurrence object ref segments s s' s' kept e
        (record { notes = λ x h. h; uses = λ x h. h })
        (record { known = unresolved-IsKnown ref s' (sym resolved); same = same })
  after_processing ref (some v) segments s s' kept e same resolved =
      after_reference ref v segments (update_read_variables ref v s').code_path_stack s s' kept e
        same (sym resolved)

  pub on_reference :
      (found : Option Reference) (variable : Option ℕ) (segments : List Segment) (s : State)
      → ((ref : Reference) → found ≡ some ref → variable ≡ ref.resolved)
      → ((ref : Reference) → found ≡ some ref → object ref.identifier ≡ ref)
      → Invariant occurrence object s
      → Holds
          (Invariant occurrence object)
          (check_identifier_usage occurrence found variable segments s)
  unfolding check_identifier_usage
  on_reference none variable segments s agrees same kept = usage_of-Invariant variable s kept
  on_reference (some ref) variable segments s agrees same kept =
      elim (Option-cases (process_reference occurrence ref segments s.code_path_stack s)) [
        | inl error ↦ rw (check_identifier_usage, error) tt
        | inr (s', e) ↦
            rw (check_identifier_usage, e)
              (after_processing ref variable segments s s' kept e (same ref refl) (agrees ref refl))
      ]
