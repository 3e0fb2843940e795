-- ===== src/Dataflow/Lva/Termination.antt =====
-- The worklist runs empty: a round either takes a segment off or makes an inflow larger.
use mathlib.Core.List.{reverse_aux}
use sonar_js.Prelude.{
  ℕ, ◌+◌, ◌*◌, ◌≤◌, ◌<◌, true, false, some, List, [], ◌∷◌, ◌≡◌, ap, inl, inr, arith, Bool-cases,
  ==_iff, ◌==◌, if◌then◌else◌, has, has-append, get, put, length,
}
use sonar_js.Dataflow.Lva.{Segment, LiveVariables, LiveVariablesMap, gather, update}
use sonar_js.Dataflow.Lva.Graph.{IsLive, used, passed, IsGraph, variables, edges}
use sonar_js.Dataflow.Lva.Sets.{has-update, update-changed}
use sonar_js.Dataflow.Lva.Invariant.{Inv, next_map, next_work, flow_sound, grows}

-- how many of the variables `u` the set `s` lacks
lack : List ℕ → List ℕ → ℕ
lack [] s = 0
lack (x ∷ u) s = (if has s x then 0 else 1) + lack u s

lack-le : (u s : List ℕ) → lack u s ≤ length u
unfolding lack
lack-le [] s = omega arith
lack-le (x ∷ u) s = ground (arith, lack-le u s)

lack_mono : (u s t : List ℕ) → ((x : ℕ) → has s x ≡ true → has t x ≡ true) → lack u t ≤ lack u s
unfolding lack
lack_mono [] s t h = omega arith
lack_mono (x ∷ u) s t h = ground (arith, lack_mono u s t h, h x)

lack_strict :
    (u s t : List ℕ) (a : ℕ)
    → ((x : ℕ) → has s x ≡ true → has t x ≡ true)
    → has u a ≡ true
    → has s a ≡ false
    → has t a ≡ true
    → lack u t < lack u s
unfolding lack
lack_strict [] s t a h in_u out_s in_t = cc
lack_strict (x ∷ u) s t a h in_u out_s in_t = elim (Bool-cases (x == a)) [
  | inl e ↦
      let p : has s x ≡ false = cc ((==_iff x a).0 e) in
      let q : has t x ≡ true = cc ((==_iff x a).0 e) in ground (arith, lack_mono u s t h)
  | inr e ↦ ground (arith, lack_strict u s t a h, h x)
]

pub miss : List ℕ → LiveVariablesMap → ℕ
miss u [] = 0
miss u ((k, lv) ∷ m) = lack u lv.live_in + miss u m

miss-put :
    (u : List ℕ) (m : LiveVariablesMap) (k : ℕ) (lv v : LiveVariables)
    → get m k ≡ some lv
    → miss u (put m k v) + lack u lv.live_in ≡ miss u m + lack u v.live_in
unfolding miss
miss-put u [] k lv v e = cc
miss-put u ((j, w) ∷ m) k lv v e = elim (Bool-cases (j == k)) [
  | inl h ↦
      let is : w ≡ lv = ground arith in
      let same = ap (λ (z : LiveVariables). lack u z.live_in) is in ground arith
  | inr h ↦ ground (arith, miss-put u m k lv v)
]

pub miss-le : (u : List ℕ) (m : LiveVariablesMap) → miss u m ≤ length m * length u
unfolding miss
miss-le u [] = omega arith
miss-le u ((k, lv) ∷ m) = omega (arith, miss-le u m, lack-le u lv.live_in)

prevs-le-edges :
    (m : LiveVariablesMap) (k : ℕ) (lv : LiveVariables)
    → get m k ≡ some lv
    → length lv.segment.prev_segments ≤ edges m
unfolding edges
prevs-le-edges [] k lv e = cc
prevs-le-edges ((j, w) ∷ m) k lv e = elim (Bool-cases (j == k)) [
  | inl h ↦
      let is : w ≡ lv = ground arith in
      let same = ap (λ (z : LiveVariables). length z.segment.prev_segments) is in omega arith
  | inr h ↦ omega (arith, prevs-le-edges m k lv (ground arith))
]

gen-variables :
    (m : LiveVariablesMap) (k x : ℕ) (lv : LiveVariables)
    → get m k ≡ some lv
    → has lv.gen x ≡ true
    → has (variables m) x ≡ true
unfolding variables
gen-variables [] k x lv e h = cc
gen-variables ((j, w) ∷ m) k x lv e h = elim (Bool-cases (j == k)) [
  | inl p ↦
      let is : w ≡ lv = ground arith in
      let same = ap (λ (z : LiveVariables). has z.gen x) is in
      ground (arith, has-append w.gen (variables m) x)
  | inr p ↦ ground (arith, has-append w.gen (variables m) x, gen-variables m k x lv)
]

IsLive-variables :
    (m : LiveVariablesMap) (x : ℕ) {k : ℕ} → IsLive m x k → has (variables m) x ≡ true
IsLive-variables m x (used {k} lv e h) = gen-variables m k x lv e h
IsLive-variables m x (passed lv j e c n rest) = IsLive-variables m x rest

pub length-reverse_aux : (xs ys : List ℕ) → length (reverse_aux xs ys) ≡ length xs + length ys
length-reverse_aux [] ys = omega arith
length-reverse_aux (x ∷ xs) ys = omega (arith, length-reverse_aux xs (x ∷ ys))

mul_gap : (d a b : ℕ) → a < b → d * a + d ≤ d * b
mul_gap d a b h = grind arith

module _ (m0 : LiveVariablesMap) (g : IsGraph m0) where
  -- the size of the work that is left
  abbrev pub work_left : LiveVariablesMap → List ℕ → ℕ
  work_left m work = length work + edges m0 * miss (variables m0) m

  module _ (m : LiveVariablesMap) (current : ℕ) (rest : List ℕ) (inv : Inv m0 m (current ∷ rest))
      (lv : LiveVariables) (found : get m current ≡ some lv) (out : List ℕ)
      (gathered : gather m lv.segment.next_segments ≡ some out) where
    abbrev pub new_map : LiveVariablesMap
    new_map = next_map m0 g m current rest inv lv found out gathered

    abbrev pub new_work : List ℕ
    new_work = next_work m0 g m current rest inv lv found out gathered

    miss-same : (update lv out).1 ≡ false → miss (variables m0) new_map ≡ miss (variables m0) m
    miss-same h =
        let at = miss-put (variables m0) m current lv (update lv out).0 found in
        let up =
          lack_mono (variables m0) lv.live_in (update lv out).0.live_in
            (λ x p. ground (arith, has-update lv out x)) in
        let down =
          lack_mono (variables m0) (update lv out).0.live_in lv.live_in
            (λ x p. ground (arith, has-update lv out x)) in
        omega arith

    miss-lt : (update lv out).1 ≡ true → miss (variables m0) new_map < miss (variables m0) m
    miss-lt h =
        let at = miss-put (variables m0) m current lv (update lv out).0 found in
        let (a, p, q) = update-changed lv out h in
        let live = flow_sound m0 g m current rest inv lv found out gathered a p in
        let less =
          lack_strict (variables m0) lv.live_in (update lv out).0.live_in a
            (grows m0 g m current rest inv lv found out gathered) (IsLive-variables m0 a live) q
            (ground (arith, has-update lv out a)) in
        omega arith

    pub work_falls : work_left new_map new_work < work_left m (current ∷ rest)
    work_falls =
        let (lv0, e, s, gs, ks) = inv.same current lv found in
        let bound = prevs-le-edges m0 current lv0 e in
        let is = ap (λ (z : Segment). length z.prev_segments) s in
        let more = length-reverse_aux lv.segment.prev_segments rest in
        elim (Bool-cases (update lv out).1) [
          | inl changed ↦
              let less = miss-lt changed in
              let product =
                mul_gap (edges m0) (miss (variables m0) new_map) (miss (variables m0) m) less in
              ground arith
          | inr settled ↦ let same = miss-same settled in ground arith
        ]
