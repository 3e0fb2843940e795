-- ===== src/Dataflow/Lva/Correct.antt =====
-- `lva` ends on every graph of segments, and computes the live variables.
use mathlib.Core.List.{reverse_aux}
use sonar_js.Prelude.{
  ℕ, Bool, false, zero, suc, ◌*◌, ◌≤◌, true, none, some, List, [], ◌∷◌, map, ◌≡◌, ◌≢◌, refl, sym,
  subst, ap, inl, inr, ◌↔◌, arith, Option-cases, if◌then◌else◌, has, has-reverse_aux, get, put,
  length, All, IsDistinct,
}
use sonar_js.Dataflow.Lva.{LiveVariables, LiveVariablesMap, gather, update, round, loop, done, lva}
use sonar_js.Dataflow.Lva.Graph.{IsLive, used, passed, IsGraph, variables, edges, enough}
use sonar_js.Dataflow.Lva.Sets.{gather_total}
use sonar_js.Dataflow.Lva.Invariant.{Inv}
use sonar_js.Dataflow.Lva.Round.{Inv-next}
use sonar_js.Dataflow.Lva.Termination.{
  work_left, work_falls, miss, miss-le, new_map, new_work, length-reverse_aux,
}

abbrev ids : LiveVariablesMap → List ℕ
ids m = map (λ (_, lv). lv.segment.id) m

has-ids :
    (m : LiveVariablesMap) (k : ℕ)
    → All (λ (k, lv). lv.segment.id ≡ k) m
    → (has (ids m) k ≡ true) ↔ (get m k ≢ none)
has-ids [] k h = ground arith
has-ids ((j, w) ∷ m) k (e, h) = ground (arith, has-ids m k h)

length-ids : (m : LiveVariablesMap) → length (ids m) ≡ length m
length-ids [] = refl
length-ids (e ∷ m) = ap suc (length-ids m)

mul_mono : (d a b : ℕ) → a ≤ b → d * a ≤ d * b
mul_mono d a b h = grind arith

round-eq :
    (m : LiveVariablesMap) (current : ℕ) (rest : List ℕ) (lv : LiveVariables)
    → get m current ≡ some lv
    → (out : List ℕ) → gather m lv.segment.next_segments ≡ some out
    → round m current rest
      ≡ some (
        put m current (update lv out).0,
        if (update lv out).1 then reverse_aux lv.segment.prev_segments rest else rest,
      )
unfolding round
round-eq m current rest lv found out gathered = rw (round, found) (rw (gathered, round))

module _ (m0 : LiveVariablesMap) (g : IsGraph m0) where
  Inv-start : Inv m0 m0 (reverse_aux (ids m0) [])
  Inv-start = record {
    same = λ k lv e. (lv, e, refl, refl, refl);
    distinct = g.distinct;
    same_references = λ k lv lv0 e e0. cc;
    kept = λ k h. h;
    listed = λ k h. (has-ids m0 k g.named).0 (ground (arith, has-reverse_aux (ids m0) [] k));
    sound = λ k x lv e h. absurd (empty k x lv e h);
    backed = λ k x lv e h. absurd (empty k x lv e h);
    settled =
        λ k lv e. inl (ground (arith, has-reverse_aux (ids m0) [] k, (has-ids m0 k g.named).1));
  }
    where
      empty : (k x : ℕ) (lv : LiveVariables) → get m0 k ≡ some lv → has lv.live_in x ≡ true → ⊥
      empty k x lv e h = ground (arith, g.fresh k lv e)

  round_defined :
      (m : LiveVariablesMap) (current : ℕ) (rest : List ℕ)
      → Inv m0 m (current ∷ rest)
      → (lv : LiveVariables) × (get m current ≡ some lv)
        × ((out : List ℕ) × (gather m lv.segment.next_segments ≡ some out))
  round_defined m current rest inv =
      let (lv, found) = entry current (inv.listed current (ground arith)) in
      let (lv0, e, s, gs, ks) = inv.same current lv found in
      (
        lv,
        found,
        gather_total m lv.segment.next_segments
            (λ j n. entry j (g.nexts current j lv0 e (ground arith))),
      )
    where
      entry : (k : ℕ) → get m0 k ≢ none → (lv : LiveVariables) × (get m k ≡ some lv)
      entry k h = elim (Option-cases (get m k)) [
        | inl gone ↦ absurd (inv.kept k h gone)
        | inr found ↦ found
      ]

  loop_ends :
      (fuel : ℕ) (m : LiveVariablesMap) (work : List ℕ)
      → Inv m0 m work
      → work_left m0 g m work ≤ fuel
      → (end : LiveVariablesMap) × (loop fuel m work ≡ done end) × Inv m0 end []
  unfolding loop
  loop_ends fuel m [] inv h = (m, refl, inv)
  loop_ends zero m (current ∷ rest) inv h = absurd (omega arith)
  loop_ends (suc fuel) m (current ∷ rest) inv h =
      let (lv, found, (out, gathered)) = round_defined m current rest inv in
      let less = work_falls m0 g m current rest inv lv found out gathered in
      let (end, ends, last) =
        loop_ends fuel (new_map m0 g m current rest inv lv found out gathered)
          (new_work m0 g m current rest inv lv found out gathered)
          (Inv-next m0 g m current rest inv lv found out gathered) (omega arith) in
      (end, rw (round-eq m current rest lv found out gathered, loop) ends, last)

  length-start : length (reverse_aux (ids m0) []) ≡ length m0
  length-start = omega (arith, length-reverse_aux (ids m0) [], length-ids m0)

  start_fits : work_left m0 g m0 (reverse_aux (ids m0) []) ≤ enough m0
  unfolding enough
  start_fits =
      let missing = miss-le (variables m0) m0 in
      let product =
        mul_mono (edges m0) (miss (variables m0) m0) (length m0 * length (variables m0)) missing in
      omega (arith, length-start)

  complete :
      (end : LiveVariablesMap) (x k : ℕ) (lv : LiveVariables)
      → Inv m0 end []
      → get end k ≡ some lv
      → IsLive m0 x k
      → has lv.live_in x ≡ true
  complete end x k lv last e (used l p h) =
      let (lv0, q, s, gs, ks) = last.same k lv e in
      elim (last.settled k lv e) [ inl waiting ↦ cc | inr settled ↦ settled.reads x (ground arith) ]
  complete end x k lv last e (passed l j p clear n rest) =
      let (lv0, q, s, gs, ks) = last.same k lv e in
      elim (last.settled k lv e) [
        | inl waiting ↦ cc
        | inr settled ↦ elim (Option-cases (get end j)) [
          | inl gone ↦ absurd (last.kept j (g.nexts k j l p n) gone)
          | inr (lj, found) ↦
              settled.flows x j lj (ground arith) found (complete end x j lj last found rest)
                (ground arith)
        ]
      ]

-- the inflow of segment `k` holds `x`
pub flows_in : LiveVariablesMap → ℕ → ℕ → Bool
flows_in m k x = elim (get m k) [ none ↦ false | some lv ↦ has lv.live_in x ]

flows_in_iff :
    (m end : LiveVariablesMap) (k x : ℕ)
    → IsGraph m
    → Inv m end []
    → (flows_in end k x ≡ true) ↔ IsLive m x k
unfolding flows_in
flows_in_iff m end k x g last = elim (Option-cases (get end k)) [
  | inl e ↦ (λ h. absurd (ground arith), λ live. absurd (outside live e))
  | inr (lv, e) ↦ (
    λ h. last.sound k x lv e (ground arith),
    λ live. let p = complete m g end x k lv last e live in ground arith,
  )
]
  where
    outside : {j : ℕ} → IsLive m x j → get end j ≡ none → ⊥
    outside (used {k = j} l p h) e = last.kept j (ground arith) e
    outside (passed {k = j} l i p c n rest) e = last.kept j (ground arith) e

lva_ends :
    (m : LiveVariablesMap)
    → IsGraph m
    → (end : LiveVariablesMap) × (lva (enough m) m ≡ done end) × Inv m end []
unfolding lva
lva_ends m g = loop_ends m g (enough m) m (reverse_aux (ids m) []) (Inv-start m g) (start_fits m g)

-- On a graph of segments `lva` ends within `enough` rounds without a TypeError. In the result a
-- variable is in the inflow of a segment exactly if on some path that starts with the segment it is
-- in `gen` of a segment, and in `kill` of no segment before that one.
pub lva_decides :
    (m : LiveVariablesMap)
    → IsGraph m
    → (end : LiveVariablesMap) × (lva (enough m) m ≡ done end)
      × ((k x : ℕ) → (flows_in end k x ≡ true) ↔ IsLive m x k)
lva_decides m g =
    let (end, ends, last) = lva_ends m g in (end, ends, λ k x. flows_in_iff m end k x g last)

-- the outflow of an entry has all that is live at the start of a next segment
outs_complete :
    (m end : LiveVariablesMap) (k : ℕ) (lv : LiveVariables)
    → IsGraph m
    → Inv m end []
    → get end k ≡ some lv
    → (x j : ℕ) → has lv.segment.next_segments j ≡ true
    → IsLive m x j
    → has lv.live_out x ≡ true
outs_complete m end k lv g last e x j n live =
    let (lv0, q, s, gs, ks) = last.same k lv e in
    elim (last.settled k lv e) [
      | inl waiting ↦ cc
      | inr settled ↦ elim (Option-cases (get end j)) [
        | inl gone ↦ absurd (last.kept j (g.nexts k j lv0 q (ground arith)) gone)
        | inr (lj, found) ↦ settled.outs x j lj n found (complete m g end x j lj last found live)
      ]
    ]

-- The analysis keeps each key once.
pub lva-IsDistinct :
    (m end : LiveVariablesMap) → IsGraph m → lva (enough m) m ≡ done end → IsDistinct end
lva-IsDistinct m end g e =
    let (end', ends, last) = lva_ends m g in
    let same_end : end ≡ end' = cc in subst IsDistinct (sym same_end) last.distinct

-- What the rules read after the analysis: each entry has its segment and its references, and its
-- outflow has all that is live at the start of a next segment.
pub lva_out :
    (m end : LiveVariablesMap)
    → IsGraph m
    → lva (enough m) m ≡ done end
    → (k : ℕ) (lv : LiveVariables) → get end k ≡ some lv
    → (lv0 : LiveVariables) × (get m k ≡ some lv0)
      × (lv.segment ≡ lv0.segment)
      × (lv.references ≡ lv0.references)
      × ((x j : ℕ)
          → has lv.segment.next_segments j ≡ true
          → IsLive m x j
          → has lv.live_out x ≡ true)
lva_out m end g e k lv found =
    let (end', ends, last) = lva_ends m g in
    let same_end : end ≡ end' = cc in
    let found' : get end' k ≡ some lv = cc in
    let (lv0, q, s, gs, ks) = last.same k lv found' in
    (lv0, q, s, last.same_references k lv lv0 found' q, outs_complete m end' k lv g last found')
