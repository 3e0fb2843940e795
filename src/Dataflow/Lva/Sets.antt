-- ===== src/Dataflow/Lva/Sets.antt =====
-- The helpers of `propagate`, read as sets.
use sonar_js.Prelude.{
  ℕ, true, false, not, ◌&&◌, ◌||◌, some, List, [], ◌∷◌, ◌++◌, ◌≡◌, refl, inl, inr, arith,
  if◌then◌else◌, Bool-cases, has, has-append, has-set_of, get, Option-cases,
}
use sonar_js.Dataflow.Lva.{
  LiveVariables, LiveVariablesMap, difference_from, difference, adds_to, should_update, gather,
  update,
}

has-difference_from :
    (a b : List ℕ) (x : ℕ) → has (difference_from a b) x ≡ (has a x && not (has b x))
unfolding difference_from
has-difference_from [] b x = refl
has-difference_from (e ∷ a) b x = elim (Bool-cases (has b e)) [
  | inl h ↦ ground (arith, has-difference_from a b x, same_has)
  | inr h ↦ ground (arith, has-difference_from a b x, same_has)
]
  where
    same_has : e ≡ x → has b e ≡ has b x
    same_has p = cc

pub has-difference : (a b : List ℕ) (x : ℕ) → has (difference a b) x ≡ (has a x && not (has b x))
unfolding difference
has-difference a [] x = ground arith
has-difference a (k ∷ b) x = has-difference_from a (k ∷ b) x

-- A round adds nothing only if the set has all members already.
adds_to-false : (s es : List ℕ) (x : ℕ) → adds_to s es ≡ false → has es x ≡ true → has s x ≡ true
unfolding adds_to
adds_to-false s [] x h e = cc
adds_to-false s (y ∷ es) x h e = ground (arith, adds_to-false s es x, same_has)
  where
    same_has : y ≡ x → has s y ≡ has s x
    same_has p = cc

adds_to-true :
    (s es : List ℕ) → adds_to s es ≡ true → (x : ℕ) × (has es x ≡ true) × (has s x ≡ false)
unfolding adds_to
adds_to-true s [] h = cc
adds_to-true s (y ∷ es) h = elim (Bool-cases (has s y)) [
  | inl old ↦ let (x, p, q) = adds_to-true s es (ground arith) in (x, ground arith, q)
  | inr new ↦ (y, ground arith, new)
]

-- the set that `propagate` computes for `in`
pub flow : LiveVariables → List ℕ → List ℕ
flow lv out = lv.gen ++ difference out lv.kill

pub has-flow :
    (lv : LiveVariables) (out : List ℕ) (x : ℕ)
    → has (flow lv out) x ≡ (has lv.gen x || (has out x && not (has lv.kill x)))
unfolding flow
has-flow lv out x =
    ground (arith, has-append lv.gen (difference out lv.kill) x, has-difference out lv.kill x)

pub update-unchanged :
    (lv : LiveVariables) (out : List ℕ)
    → (update lv out).1 ≡ false
    → (x : ℕ) → has (flow lv out) x ≡ true
    → has lv.live_in x ≡ true
unfolding update flow should_update
update-unchanged lv out h x e = ground (
  arith,
  adds_to-false lv.live_in lv.gen x,
  adds_to-false lv.live_in (difference out lv.kill) x,
  has-append lv.gen (difference out lv.kill) x,
)

pub update-changed :
    (lv : LiveVariables) (out : List ℕ)
    → (update lv out).1 ≡ true
    → (x : ℕ) × (has (flow lv out) x ≡ true) × (has lv.live_in x ≡ false)
unfolding update flow should_update
update-changed lv out h = elim (Bool-cases (adds_to lv.live_in lv.gen)) [
  | inl e ↦
      let (x, p, q) = adds_to-true lv.live_in lv.gen e in
      (x, ground (arith, has-append lv.gen (difference out lv.kill) x), q)
  | inr e ↦
      let (x, p, q) = adds_to-true lv.live_in (difference out lv.kill) (ground arith) in
      (x, ground (arith, has-append lv.gen (difference out lv.kill) x), q)
]

-- what `update` leaves in the entry
pub has-update :
    (lv : LiveVariables) (out : List ℕ) (x : ℕ)
    → has (update lv out).0.live_in x
      ≡ (if (update lv out).1 then has (flow lv out) x else has lv.live_in x)
unfolding update flow
has-update lv out x = ground (arith, has-set_of (lv.gen ++ difference out lv.kill) x)

-- `out` collects what is live at the start of a next segment.
pub gather_sound :
    (m : LiveVariablesMap) (nexts out : List ℕ) (x : ℕ)
    → gather m nexts ≡ some out
    → has out x ≡ true
    → (j : ℕ) × (lj : LiveVariables) × (has nexts j ≡ true)
      × (get m j ≡ some lj)
      × (has lj.live_in x ≡ true)
unfolding gather
gather_sound m [] out x e h = ground arith
gather_sound m (n ∷ nexts) out x e h = elim (Option-cases (get m n)) [
  | inl missing ↦ absurd (ground arith)
  | inr (lj, found) ↦ elim (Option-cases (gather m nexts)) [
    | inl missing ↦ absurd (ground arith)
    | inr (rest, later) ↦ elim (Bool-cases (has lj.live_in x)) [
      | inl here ↦ (n, lj, ground arith, found, here)
      | inr no_here ↦
          let (j, lj', p, q, r) =
            gather_sound m nexts rest x later (ground (arith, has-append lj.live_in rest x)) in
          (j, lj', ground arith, q, r)
    ]
  ]
]

pub gather_complete :
    (m : LiveVariablesMap) (nexts out : List ℕ) (x j : ℕ) (lj : LiveVariables)
    → gather m nexts ≡ some out
    → has nexts j ≡ true
    → get m j ≡ some lj
    → has lj.live_in x ≡ true
    → has out x ≡ true
unfolding gather
gather_complete m [] out x j lj e h g l = cc
gather_complete m (n ∷ nexts) out x j lj e h g l = elim (Option-cases (get m n)) [
  | inl missing ↦ absurd (ground arith)
  | inr (ln, found) ↦ elim (Option-cases (gather m nexts)) [
    | inl missing ↦ absurd (ground arith)
    | inr (rest, later) ↦
        ground
          (arith, has-append ln.live_in rest x, gather_complete m nexts rest x j lj later, same_get)
  ]
]
  where
    same_get : n ≡ j → get m n ≡ get m j
    same_get p = cc

pub gather_total :
    (m : LiveVariablesMap) (nexts : List ℕ)
    → ((j : ℕ) → has nexts j ≡ true → (lj : LiveVariables) × (get m j ≡ some lj))
    → (out : List ℕ) × (gather m nexts ≡ some out)
unfolding gather
gather_total m [] h = ([], refl)
gather_total m (n ∷ nexts) h =
    let (ln, found) = h n (ground arith) in
    let (rest, later) = gather_total m nexts (λ j p. h j (ground arith)) in
    (ln.live_in ++ rest, ground arith)
