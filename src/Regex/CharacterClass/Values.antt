-- ===== src/Regex/CharacterClass/Values.antt =====
-- The value of each code point in the contents of a character class.
use sonar_js.Prelude.{
  ℕ, zero, suc, ◌≤◌, ◌<◌, Option, none, some, ◌≡◌, ◌≢◌, refl, sym, ◌∙◌, ap, inl, inr, arith,
  Option-cases, subst, Bool-cases, ◌==◌, ==_iff,
}
use sonar_js.Regex.CharacterClass.Ordered.{nearest, entry_or}

abbrev value_or : Option (Option ℕ) → Option ℕ → Option ℕ
value_or none below = below
value_or (some v) below = v

-- The value of the entry of the greatest key up to `c`: the element that matches `c`.
unfoldable pub value_of : (ℕ → Option (Option ℕ)) → ℕ → Option ℕ
value_of f zero = value_or (f zero) none
value_of f (suc c) = value_or (f (suc c)) (value_of f c)

pub value_of-here :
    (f : ℕ → Option (Option ℕ)) (c : ℕ) (v : Option ℕ) → f c ≡ some v → value_of f c ≡ v
unfolding value_of
value_of-here f zero v e = rw (e) refl
value_of-here f (suc c) v e = rw (e) refl

pub value_of-below :
    (f : ℕ → Option (Option ℕ)) (c : ℕ) → f (suc c) ≡ none → value_of f (suc c) ≡ value_of f c
unfolding value_of
value_of-below f c e = rw (e) refl

-- Only the keys up to `c` matter.
pub value_of-same :
    (f g : ℕ → Option (Option ℕ)) (c : ℕ)
    → ((j : ℕ) → j ≤ c → f j ≡ g j)
    → value_of f c ≡ value_of g c
unfolding value_of
value_of-same f g zero h = rw (h 0 (omega arith)) refl
value_of-same f g (suc c) h =
    rw (h (suc c) (omega arith))
      (ap (value_or (g (suc c))) (value_of-same f g c (λ j p. h j (omega arith))))

-- From an entry on, only the keys behind it matter.
pub value_of-after :
    (f g : ℕ → Option (Option ℕ)) (n c : ℕ)
    → n ≤ c
    → value_of f n ≡ value_of g n
    → ((j : ℕ) → n < j → f j ≡ g j)
    → value_of f c ≡ value_of g c
unfolding value_of
value_of-after f g n zero p e h =
    let q : n ≡ zero = omega arith in subst (λ i. value_of f i ≡ value_of g i) q e
value_of-after f g n (suc c) p e h = elim (Bool-cases (n == suc c)) [
  | inl here ↦ subst (λ i. value_of f i ≡ value_of g i) ((==_iff n (suc c)).0 here) e
  | inr before ↦ step (h (suc c) (ground arith)) (value_of-after f g n c (ground arith) e h)
]
  where
    step :
        f (suc c) ≡ g (suc c)
        → value_of f c ≡ value_of g c
        → value_of f (suc c) ≡ value_of g (suc c)
    step a b = rw (a) (ap (value_or (g (suc c))) b)

abbrev pub value_in : Option (ℕ × Option ℕ) → Option ℕ
value_in none = none
value_in (some (_, v)) = v

-- `value_of` is the value of the entry that `le` finds
pub value_of-nearest : (f : ℕ → Option (Option ℕ)) (c : ℕ) → value_of f c ≡ value_in (nearest f c)
unfolding value_of nearest
value_of-nearest f zero = of_first (f zero)
  where
    of_first : (o : Option (Option ℕ)) → value_or o none ≡ value_in (entry_or zero o none)
    of_first none = refl
    of_first (some v) = refl
value_of-nearest f (suc c) = elim (Option-cases (f (suc c))) [
  | inl e ↦ rw (e) (value_of-nearest f c)
  | inr (v, e) ↦ rw (e) refl
]

none≢some : {A : Type 0} {a : A} → none ≢ some a
none≢some e = cc

abbrev key_in : Option (ℕ × Option ℕ) → ℕ
key_in none = 0
key_in (some (k, _)) = k

abbrev pub entry : ℕ → Option ℕ → Option (ℕ × Option ℕ)
entry k v = some (k, v)

pub same_pair : {i j : ℕ} {v w : Option ℕ} → entry i v ≡ entry j w → (i ≡ j) × (v ≡ w)
same_pair q = (ap key_in q, ap value_in q)

nearest-zero :
    (f : ℕ → Option (Option ℕ)) (o : Option (Option ℕ)) → f 0 ≡ o → nearest f 0 ≡ entry_or 0 o none
unfolding nearest
nearest-zero f o h = ap (λ p. entry_or 0 p none) h

nearest-suc :
    (f : ℕ → Option (Option ℕ)) (c : ℕ) (o : Option (Option ℕ))
    → f (suc c) ≡ o
    → nearest f (suc c) ≡ entry_or (suc c) o (nearest f c)
unfolding nearest
nearest-suc f c o h = ap (λ p. entry_or (suc c) p (nearest f c)) h

-- The entry next to `c` is below it, with no entry between.
pub nearest-some :
    (f : ℕ → Option (Option ℕ)) (c k : ℕ) (v : Option ℕ)
    → nearest f c ≡ some (k, v)
    → (k ≤ c) × (f k ≡ some v) × ((j : ℕ) → k < j → j ≤ c → f j ≡ none)
nearest-some f zero k v e = elim (Option-cases (f 0)) [
  | inl h ↦ absurd (none≢some (sym (nearest-zero f none h) ∙ e))
  | inr (w, h) ↦
      let q : entry 0 w ≡ entry k v = sym (nearest-zero f (some w) h) ∙ e in
      let (at, is) = same_pair q in (omega arith, cc, λ j a b. absurd (omega arith))
]
nearest-some f (suc c) k v e = elim (Option-cases (f (suc c))) [
  | inl h ↦
      let (a, b, rest) = nearest-some f c k v (sym (nearest-suc f c none h) ∙ e) in
      (
        omega arith,
        b,
        λ j p q. elim (Bool-cases (j == suc c)) [
          | inl is ↦ subst (λ i. f i ≡ none) (sym ((==_iff j (suc c)).0 is)) h
          | inr other ↦ rest j p (ground arith)
        ],
      )
  | inr (w, h) ↦
      let q : entry (suc c) w ≡ entry k v = sym (nearest-suc f c (some w) h) ∙ e in
      let (at, is) = same_pair q in (omega arith, cc, λ j a b. absurd (omega arith))
]

pub nearest-none :
    (f : ℕ → Option (Option ℕ)) (c : ℕ) → nearest f c ≡ none → (j : ℕ) → j ≤ c → f j ≡ none
nearest-none f zero e j p = elim (Option-cases (f 0)) [
  | inl h ↦ let at : 0 ≡ j = omega arith in subst (λ i. f i ≡ none) at h
  | inr (v, h) ↦ absurd (none≢some (sym e ∙ nearest-zero f (some v) h))
]
nearest-none f (suc c) e j p = elim (Option-cases (f (suc c))) [
  | inl h ↦ elim (Bool-cases (j == suc c)) [
    | inl is ↦ subst (λ i. f i ≡ none) (sym ((==_iff j (suc c)).0 is)) h
    | inr other ↦ nearest-none f c (sym (nearest-suc f c none h) ∙ e) j (ground arith)
  ]
  | inr (v, h) ↦ absurd (none≢some (sym e ∙ nearest-suc f c (some v) h))
]

-- Without an entry in between two code points have the same value.
pub value_of-flat :
    (f : ℕ → Option (Option ℕ)) (from c : ℕ)
    → from ≤ c
    → ((j : ℕ) → from < j → j ≤ c → f j ≡ none)
    → value_of f c ≡ value_of f from
value_of-flat f from zero low h =
    let at : from ≡ zero = omega arith in subst (λ i. value_of f zero ≡ value_of f i) (sym at) refl
value_of-flat f from (suc c) low h = elim (Bool-cases (from == suc c)) [
  | inl at ↦ subst (λ i. value_of f (suc c) ≡ value_of f i) (sym ((==_iff from (suc c)).0 at)) refl
  | inr before ↦
      value_of-below f c (h (suc c) (ground arith) (omega arith))
      ∙ value_of-flat f from c (ground arith) (λ j p q. h j p (omega arith))
]
