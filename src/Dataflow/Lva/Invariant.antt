-- ===== src/Dataflow/Lva/Invariant.antt =====
-- What every round of the worklist keeps.
use mathlib.Core.List.{reverse_aux}
use sonar_js.Prelude.{
  ℕ, true, false, none, some, List, ◌∷◌, ◌≡◌, ◌≢◌, sym, ◌⊎◌, inl, inr, arith, Bool-cases, ==_iff,
  ◌==◌, if◌then◌else◌, has, get, put, get-put, IsDistinct,
}
use sonar_js.Dataflow.Lva.{LiveVariables, LiveVariablesMap, gather, update}
use sonar_js.Dataflow.Lva.Graph.{IsLive, used, passed, IsGraph}
use sonar_js.Dataflow.Lva.Sets.{flow, has-flow, has-update, gather_sound, gather_complete}

-- The inflow of a segment is at least what the next segments and its own reads ask for.
pub record Settled (m : LiveVariablesMap) (lv : LiveVariables) : Type 0 where
  pub reads : (x : ℕ) → has lv.gen x ≡ true → has lv.live_in x ≡ true
  pub flows :
      (x j : ℕ) (lj : LiveVariables)
      → has lv.segment.next_segments j ≡ true
      → get m j ≡ some lj
      → has lj.live_in x ≡ true
      → has lv.kill x ≡ false
      → has lv.live_in x ≡ true
  pub outs :
      (x j : ℕ) (lj : LiveVariables)
      → has lv.segment.next_segments j ≡ true
      → get m j ≡ some lj
      → has lj.live_in x ≡ true
      → has lv.live_out x ≡ true

-- The inflow of a segment is at most that.
abbrev pub Backed : LiveVariablesMap → LiveVariables → ℕ → Type 0
Backed m lv x =
    (has lv.gen x ≡ true)
    ⊎ ((has lv.kill x ≡ false)
        × ((j : ℕ) × (lj : LiveVariables) × (has lv.segment.next_segments j ≡ true)
            × (get m j ≡ some lj)
            × (has lj.live_in x ≡ true)))

pub record Inv (m0 m : LiveVariablesMap) (work : List ℕ) : Type 0 where
  pub same :
      (k : ℕ) (lv : LiveVariables)
      → get m k ≡ some lv
      → (lv0 : LiveVariables) × (get m0 k ≡ some lv0)
        × (lv.segment ≡ lv0.segment)
        × (lv.gen ≡ lv0.gen)
        × (lv.kill ≡ lv0.kill)
  pub distinct : IsDistinct m
  pub same_references :
      (k : ℕ) (lv lv0 : LiveVariables)
      → get m k ≡ some lv
      → get m0 k ≡ some lv0
      → lv.references ≡ lv0.references
  pub kept : (k : ℕ) → get m0 k ≢ none → get m k ≢ none
  pub listed : (k : ℕ) → has work k ≡ true → get m0 k ≢ none
  pub sound :
      (k x : ℕ) (lv : LiveVariables) → get m k ≡ some lv → has lv.live_in x ≡ true → IsLive m0 x k
  pub backed :
      (k x : ℕ) (lv : LiveVariables) → get m k ≡ some lv → has lv.live_in x ≡ true → Backed m lv x
  pub settled :
      (k : ℕ) (lv : LiveVariables) → get m k ≡ some lv → (has work k ≡ true) ⊎ Settled m lv

pub update-static :
    (lv : LiveVariables) (out : List ℕ)
    → ((update lv out).0.segment ≡ lv.segment)
      × ((update lv out).0.gen ≡ lv.gen)
      × ((update lv out).0.kill ≡ lv.kill)
unfolding update
update-static lv out = ground arith

pub update-references :
    (lv : LiveVariables) (out : List ℕ) → (update lv out).0.references ≡ lv.references
unfolding update
update-references lv out = ground arith

pub update-live_out : (lv : LiveVariables) (out : List ℕ) → (update lv out).0.live_out ≡ out
unfolding update
update-live_out lv out = ground arith

module _ (m0 : LiveVariablesMap) (g : IsGraph m0) (m : LiveVariablesMap) (current : ℕ)
    (rest : List ℕ) (inv : Inv m0 m (current ∷ rest)) (lv : LiveVariables)
    (found : get m current ≡ some lv) (out : List ℕ)
    (gathered : gather m lv.segment.next_segments ≡ some out) where
  abbrev pub next_map : LiveVariablesMap
  next_map = put m current (update lv out).0

  abbrev pub next_work : List ℕ
  next_work = if (update lv out).1 then reverse_aux lv.segment.prev_segments rest else rest

  -- an entry of the new map is the updated one or an old one
  pub cases_next :
      (k : ℕ) (lk : LiveVariables)
      → get next_map k ≡ some lk
      → ((k ≡ current) × (lk ≡ (update lv out).0)) ⊎ ((k ≢ current) × (get m k ≡ some lk))
  cases_next k lk e = elim (Bool-cases (current == k)) [
    | inl h ↦
        inl (sym ((==_iff current k).0 h), ground (arith, get-put m current k (update lv out).0))
    | inr h ↦ inr (ground arith, ground (arith, get-put m current k (update lv out).0))
  ]

  -- what flows in is live at the start of the segment
  pub flow_sound : (x : ℕ) → has (flow lv out) x ≡ true → IsLive m0 x current
  flow_sound x h = elim (Bool-cases (has lv.gen x)) [
    | inl reads ↦ let (lv0, p, s, gs, ks) = inv.same current lv found in used lv0 p (ground arith)
    | inr no_reads ↦
        let (lv0, p, s, gs, ks) = inv.same current lv found in
        let (j, lj, a, b, c) =
          gather_sound m lv.segment.next_segments out x gathered
            (ground (arith, has-flow lv out x)) in
        passed lv0 j p (ground (arith, has-flow lv out x)) (ground arith) (inv.sound j x lj b c)
  ]

  pub flow-Backed : (x : ℕ) → has (flow lv out) x ≡ true → Backed m lv x
  flow-Backed x h = elim (Bool-cases (has lv.gen x)) [
    | inl reads ↦ inl reads
    | inr no_reads ↦ inr (
      ground (arith, has-flow lv out x),
      gather_sound m lv.segment.next_segments out x gathered (ground (arith, has-flow lv out x)),
    )
  ]

  Backed-flow : (x : ℕ) → Backed m lv x → has (flow lv out) x ≡ true
  Backed-flow x (inl reads) = ground (arith, has-flow lv out x)
  Backed-flow x (inr (clear, (j, lj, a, b, c))) = ground (
    arith,
    has-flow lv out x,
    gather_complete m lv.segment.next_segments out x j lj gathered a b c,
  )

  -- the inflow of an entry never shrinks
  pub grows : (x : ℕ) → has lv.live_in x ≡ true → has (update lv out).0.live_in x ≡ true
  grows x h = ground (arith, has-update lv out x, Backed-flow x (inv.backed current x lv found h))

  pub grows_next :
      (j x : ℕ) (lj : LiveVariables)
      → get m j ≡ some lj
      → has lj.live_in x ≡ true
      → (lj' : LiveVariables) × (get next_map j ≡ some lj') × (has lj'.live_in x ≡ true)
  grows_next j x lj e h = elim (Bool-cases (current == j)) [
    | inl p ↦ (
      (update lv out).0,
      ground (arith, get-put m current j (update lv out).0),
      grows x (subst_in ((==_iff current j).0 p) e h),
    )
    | inr p ↦ (lj, ground (arith, get-put m current j (update lv out).0), h)
  ]
    where
      subst_in : current ≡ j → get m j ≡ some lj → has lj.live_in x ≡ true → has lv.live_in x ≡ true
      subst_in q a b = ground (arith, same_get q)
        where
          same_get : current ≡ j → get m current ≡ get m j
          same_get r = cc
