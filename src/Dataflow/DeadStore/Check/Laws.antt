-- ===== src/Dataflow/DeadStore/Check/Laws.antt =====
-- What the loops of `checkSegment` and `reportNeverReadVariables` report
-- (src/linting/eslint/rules/no-dead-store.ts).
use mathlib.Core.List.{reverse_aux, append_assoc, reverse-reverse}
use sonar_js.Prelude.{
  ℕ, Bool, true, false, not, ◌&&◌, ◌||◌, Option, none, some, List, [], ◌∷◌, ◌++◌, ◌≡◌, refl, sym,
  ap, ◌∙◌, inl, inr, arith, ltb, length, Bool-cases, Option-cases, if◌then◌else◌, has, set_delete,
  set_of, has-set_add, has-set_delete, get, All, reverse,
}
use sonar_js.Dataflow.Lva.{Reference, LiveVariables}
use sonar_js.Dataflow.DeadStore.Scopes.{Variable, Occurrence}
use sonar_js.Dataflow.DeadStore.Events.{State}
use sonar_js.Dataflow.DeadStore.Known.{IsKnown}
use sonar_js.Dataflow.DeadStore.Reads.{reads, writes, read_first}
use sonar_js.Dataflow.DeadStore.Check.{
  should_report, should_report_reference, reports_store, before_reference, check_references,
  check_segment, variable_used_outside_of_code_path, is_never_read, report_never_read_variables,
}

-- A write of the references whose value is not read first after it.
abbrev pub Overwritten : List ℕ → List Reference → Reference → Type 0
Overwritten out refs ref =
    (before after : List Reference) × (x : ℕ) × (before ++ ref ∷ after ≡ refs)
    × (ref.resolved ≡ some x)
    × (ref.is_write ≡ true)
    × (read_first out after x ≡ false)

has-before_reference :
    (w : List ℕ) (ref : Reference) (v x : ℕ)
    → ref.resolved ≡ some v
    → has (before_reference w ref v) x ≡ (reads x ref || (not (writes x ref) && has w x))
unfolding before_reference
has-before_reference w ref v x e =
    rw (e)
      (ground (arith, has-set_delete w v x, has-set_add (set_delete w v) v x, has-set_add w v x))

read_first-unresolved :
    (out : List ℕ) (ref : Reference) (refs : List Reference) (x : ℕ)
    → ref.resolved ≡ none
    → read_first out (ref ∷ refs) x ≡ read_first out refs x
unfolding read_first
read_first-unresolved out ref refs x h = rw (h) refl

reverse_aux-append : (xs ys : List Reference) → reverse_aux xs ys ≡ reverse_aux xs [] ++ ys
reverse_aux-append [] ys = refl
reverse_aux-append (x ∷ xs) ys =
    reverse_aux-append xs (x ∷ ys)
    ∙ sym (append_assoc (reverse_aux xs []) (x ∷ []) ys)
    ∙ ap (λ zs. zs ++ ys) (sym (reverse_aux-append xs (x ∷ [])))

All-reverse_aux :
    (P : Reference → Type 0) (xs ys : List Reference)
    → All P xs
    → All P ys
    → All P (reverse_aux xs ys)
All-reverse_aux P [] ys h g = g
All-reverse_aux P (x ∷ xs) ys (p, h) g = All-reverse_aux P xs (x ∷ ys) h (p, g)

-- every report of a result, if there is one
abbrev pub Yields : (Reference → Type 0) → Option (List Reference) → Type 0
Yields P none = Unit
Yields P (some reports) = All P reports

Yields-report :
    (P : Reference → Type 0) (ref : Reference) (b : Bool) (r : Option (List Reference))
    → (b ≡ true → P ref)
    → Yields P r
    → Yields P (elim r [ none ↦ none | some reports ↦ some (if b then ref ∷ reports else reports) ])
Yields-report P ref b none p h = tt
Yields-report P ref true (some reports) p h = (p refl, h)
Yields-report P ref false (some reports) p h = h

module _ (s : State) where
  -- A reference of a segment with a variable that is not noted as read.
  abbrev pub Unnoted : List Reference → Reference → Type 0
  Unnoted refs ref =
      (before after : List Reference) × (x : ℕ) × (before ++ ref ∷ after ≡ refs)
      × (ref.resolved ≡ some x)
      × (has s.read_variables x ≡ false)

module _ (occurrence : ℕ → Occurrence) (variable : ℕ → Variable) (s : State) where
  abbrev checks : List ℕ → List Reference → Option (List Reference)
  checks = check_references occurrence variable s

  reports_store-true :
      (w : List ℕ) (ref : Reference) (v : ℕ)
      → reports_store occurrence variable s w ref v ≡ some true
      → (ref.is_write ≡ true) × (has w v ≡ false)
  unfolding reports_store
  reports_store-true w ref v h = ground arith

  check_references-Overwritten :
      (out : List ℕ) (refs : List Reference) (w : List ℕ) (rs after : List Reference)
      → ((x : ℕ) → has w x ≡ read_first out after x)
      → reverse_aux rs after ≡ refs
      → Yields (Overwritten out refs) (checks w rs)
  unfolding check_references read_first
  check_references-Overwritten out refs w [] after same split = tt
  check_references-Overwritten out refs w (ref ∷ rs) after same split =
      elim (Option-cases ref.resolved) [
        | inl unresolved ↦ rw (unresolved) (
            check_references-Overwritten out refs w rs (ref ∷ after)
              (λ x. ground (arith, same x, read_first-unresolved out ref after x unresolved)) split)
        | inr (v, resolved) ↦
            rw (resolved) (elim (Option-cases (reports_store occurrence variable s w ref v)) [
              | inl error ↦ rw (error) tt
              | inr (b, e) ↦ rw (e) (
                  Yields-report (Overwritten out refs) ref b (checks (before_reference w ref v) rs)
                    (λ is.
                      let (written, unread) = reports_store-true w ref v (e ∙ ap some is) in
                      (
                        reverse_aux rs [],
                        after,
                        v,
                        sym (reverse_aux-append rs (ref ∷ after)) ∙ split,
                        resolved,
                        written,
                        sym (same v) ∙ unread,
                      ))
                    (check_references-Overwritten out refs (before_reference w ref v) rs
                      (ref ∷ after)
                      (λ x. ground (arith, same x, has-before_reference w ref v x resolved)) split))
            ])
      ]

  pub check_segment-Overwritten :
      (lv : LiveVariables)
      → Yields
          (Overwritten (set_of lv.live_out) lv.references)
          (check_segment occurrence variable s lv)
  unfolding check_segment read_first
  check_segment-Overwritten lv =
      check_references-Overwritten (set_of lv.live_out) lv.references (set_of lv.live_out)
        (reverse lv.references) [] (λ x. refl) (reverse-reverse lv.references)

  reports_store_total :
      (w : List ℕ) (ref : Reference) (v : ℕ)
      → IsKnown s ref
      → ref.resolved ≡ some v
      → (b : Bool) × (reports_store occurrence variable s w ref v ≡ some b)
  unfolding reports_store should_report variable_used_outside_of_code_path
  reports_store_total w ref v known resolved = elim (Option-cases (get s.variable_usages v)) [
    | inl unknown ↦ absurd (known.used v resolved unknown)
    | inr (usages, e) ↦ rw (e) (elim (Bool-cases (ref.is_write && not (has w v))) [
      | inl written ↦ elim (Bool-cases (should_report_reference occurrence variable s ref)) [
        | inl local ↦
            (not (ltb 1 (length usages)) && has s.read_variables v, rw (written) (rw (local) refl))
        | inr other ↦ (false, rw (written) (rw (other) refl))
      ]
      | inr unwritten ↦ (false, rw (unwritten) refl)
    ])
  ]

  check_references-step :
      (w : List ℕ) (ref : Reference) (rs reports : List Reference) (v : ℕ) (b : Bool)
      → ref.resolved ≡ some v
      → reports_store occurrence variable s w ref v ≡ some b
      → checks (before_reference w ref v) rs ≡ some reports
      → checks w (ref ∷ rs) ≡ some (if b then ref ∷ reports else reports)
  unfolding check_references
  check_references-step w ref rs reports v b resolved e rest = ground (arith)

  check_references_total :
      (w : List ℕ) (rs : List Reference)
      → All (IsKnown s) rs
      → (reports : List Reference) × (checks w rs ≡ some reports)
  unfolding check_references
  check_references_total w [] h = ([], refl)
  check_references_total w (ref ∷ rs) (known, h) = elim (Option-cases ref.resolved) [
    | inl unresolved ↦ rw (unresolved) (check_references_total w rs h)
    | inr (v, resolved) ↦
        let (b, e) = reports_store_total w ref v known resolved in
        let (reports, rest) = check_references_total (before_reference w ref v) rs h in
        (
          if b then ref ∷ reports else reports,
          check_references-step w ref rs reports v b resolved e rest,
        )
  ]

  pub check_segment_total :
      (lv : LiveVariables)
      → All (IsKnown s) lv.references
      → (reports : List Reference) × (check_segment occurrence variable s lv ≡ some reports)
  unfolding check_segment
  check_segment_total lv h =
      check_references_total (set_of lv.live_out) (reverse lv.references)
        (All-reverse_aux (IsKnown s) lv.references [] h tt)

  is_never_read-true :
      (ref : Reference)
      → is_never_read occurrence variable s ref ≡ true
      → (x : ℕ) × (ref.resolved ≡ some x) × (has s.read_variables x ≡ false)
  unfolding is_never_read
  is_never_read-true ref h = elim (Option-cases ref.resolved) [
    | inl unresolved ↦ absurd (ground arith)
    | inr (x, resolved) ↦ (x, resolved, ground arith)
  ]

  -- What is reported as never read is not noted as read.
  pub report_never_read-Unnoted :
      (refs before rest : List Reference)
      → before ++ rest ≡ refs
      → All (Unnoted s refs) (report_never_read_variables occurrence variable s rest)
  unfolding report_never_read_variables
  report_never_read-Unnoted refs before [] e = tt
  report_never_read-Unnoted refs before (ref ∷ rest) e =
      let later : All (Unnoted s refs) (report_never_read_variables occurrence variable s rest) =
        report_never_read-Unnoted refs (before ++ ref ∷ []) rest
          (append_assoc before (ref ∷ []) rest ∙ e) in
      elim (Bool-cases (is_never_read occurrence variable s ref)) [
        | inl never ↦
            let (x, resolved, unnoted) = is_never_read-true ref never in
            rw (never) ((before, rest, x, e, resolved, unnoted), later)
        | inr read ↦ rw (read) later
      ]
