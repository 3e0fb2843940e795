-- ===== src/Regex/Tokenizer/Laws.antt =====
-- The tokens of a literal without escapes.
use mathlib.Core.List.{append_assoc}
use sonar_js.Prelude.{
  ℕ, zero, suc, ◌+◌, ◌-◌, ◌*◌, ◌/◌, ◌%◌, ◌≤◌, ◌≡◌, refl, sym, ap, subst, ◌∙◌, Bool, true, false,
  ◌&&◌, not, Option, some, List, [], ◌∷◌, ◌++◌, if◌then◌else◌, ltb, leb, ◌==◌, Text, drop, length,
  arith, Bool-cases, inl, inr,
}
use sonar_js.Regex.Tokenizer.{
  is_pair, StringLiteralToken, token, combine, cp, inc, from_code_point, tokenize_at, round_of,
  push_char, is_unit, tokenize_from, done,
}

pair_bounds :
    (c d : ℕ) → is_pair c d ≡ true → (0xd800 ≤ c) × (c ≤ 0xdbff) × (0xdc00 ≤ d) × (d ≤ 0xdfff)
unfolding is_pair
pair_bounds c d h = ground arith

pair_point :
    (c d : ℕ)
    → 0xd800 ≤ c
    → c ≤ 0xdbff
    → 0xdc00 ≤ d
    → d ≤ 0xdfff
    → let x = (c - 0xd800) * 0x400 + (d - 0xdc00) + 0x10000 in
      (ltb x 0x10000 ≡ false)
      × (leb x 0x10ffff ≡ true)
      × (leb 0x10000 x ≡ true)
      × (0xd800 + (x - 0x10000) / 0x400 ≡ c)
      × (0xdc00 + (x - 0x10000) % 0x400 ≡ d)
pair_point c d h1 h2 h3 h4 = (ground arith, ground arith, ground arith, omega arith, omega arith)

surrogates :
    (c d : ℕ) → is_pair c d ≡ true → from_code_point (some (combine c (some d))) ≡ some (c ∷ d ∷ [])
unfolding from_code_point combine
surrogates c d h =
    let (h1, h2, h3, h4) = pair_bounds c d h in
    let (large, valid, two, high, low) = pair_point c d h1 h2 h3 h4 in
    rw (h, large, valid, high, low) refl

drop_next : (s : Text) (i c : ℕ) (rest : Text) → drop i s ≡ c ∷ rest → drop (suc i) s ≡ rest
drop_next [] zero c rest h = ground (arith, h)
drop_next [] (suc i) c rest h = ground (arith, h)
drop_next (x ∷ s) zero c rest h = ap (drop 1) h
drop_next (x ∷ s) (suc i) c rest h = drop_next s i c rest h

pub drop_one : (s : Text) (i c : ℕ) (rest : Text) → drop i s ≡ c ∷ rest → drop (i + 1) s ≡ rest
drop_one s i c rest h =
    let e : suc i ≡ i + 1 = omega arith in subst (λ n. drop n s ≡ rest) e (drop_next s i c rest h)

pub drop_two :
    (s : Text) (i c d : ℕ) (rest : Text) → drop i s ≡ c ∷ d ∷ rest → drop (i + 2) s ≡ rest
drop_two s i c d rest h =
    let e : suc (suc i) ≡ i + 2 = omega arith in
    subst (λ n. drop n s ≡ rest) e (drop_next s (suc i) d rest (drop_next s i c (d ∷ rest) h))

-- The characters of a text: its units, but surrogate pairs as one.
unfoldable pub characters : Text → List Text
characters [] = []
characters (c ∷ []) = (c ∷ []) ∷ []
characters (c ∷ d ∷ s) =
    let after_pair = characters s in
    let after_unit = characters (d ∷ s) in
    if is_pair c d then (c ∷ d ∷ []) ∷ after_pair else (c ∷ []) ∷ after_unit

pub is_slash : Text → Bool
is_slash [] = false
is_slash (c ∷ s) = c == 47

-- The tokens of characters from a position on: one for each, two for a slash.
unfoldable pub tokens_of : List Text → ℕ → List StringLiteralToken
tokens_of [] pos = []
tokens_of (character ∷ later) pos =
    let rest = tokens_of later (pos + length character) in
    let here = token character pos (pos + length character) in
    if is_slash character then here ∷ here ∷ rest else here ∷ rest

-- a unit of 16 bits other than a backslash
unfoldable pub is_plain : ℕ → Bool
is_plain c = ltb c 0x10000 && not (c == 92)

tokens_of-cons :
    (character : Text) (later : List Text) (pos : ℕ)
    → tokens_of (character ∷ later) pos
      ≡ tokens_of (character ∷ []) pos ++ tokens_of later (pos + length character)
unfolding tokens_of
tokens_of-cons character later pos = elim (Bool-cases (is_slash character)) [
  | inl slash ↦ rw (slash) refl
  | inr other ↦ rw (other) refl
]

plain_bounds :
    (c : ℕ)
    → is_plain c ≡ true
    → (ltb c 0x10000 ≡ true) × (leb 0x10000 c ≡ false) × ((c == 92) ≡ false)
unfolding is_plain
plain_bounds c h = (ground arith, ground arith, ground arith)

pair_kind :
    (c d : ℕ)
    → is_pair c d ≡ true
    → (leb 0x10000 (combine c (some d)) ≡ true)
      × ((combine c (some d) == 92) ≡ false)
      × ((combine c (some d) == 47) ≡ false)
      × ((c == 47) ≡ false)
unfolding combine
pair_kind c d h =
    let (h1, h2, h3, h4) = pair_bounds c d h in
    rw (h) (ground arith, ground arith, ground arith, ground arith)

module _ (parse_int : ℕ → Text → Option ℕ) (s : Text) where
  pub unit_round :
      (pos c : ℕ)
      → cp s pos ≡ some c
      → is_plain c ≡ true
      → tokenize_at parse_int s pos ≡ some (tokens_of ((c ∷ []) ∷ []) pos, pos + 1)
  unfolding tokenize_at round_of push_char is_unit from_code_point inc tokens_of is_slash
  unit_round pos c e h =
      let (small, one, plain) = plain_bounds c h in rw (e, small, one, plain) refl

  pub pair_round :
      (pos c d : ℕ)
      → cp s pos ≡ some (combine c (some d))
      → is_pair c d ≡ true
      → tokenize_at parse_int s pos ≡ some (tokens_of ((c ∷ d ∷ []) ∷ []) pos, pos + 2)
  unfolding tokenize_at round_of push_char is_unit inc tokens_of is_slash
  pair_round pos c d e h =
      let (two, plain, other, lead) = pair_kind c d h in
      rw (e, surrogates c d h, two, plain, other, lead) refl

  pub advance :
      (fuel pos : ℕ) (acc : List StringLiteralToken) (character : Text) (later : List Text)
      → ltb pos (length s) ≡ true
      → tokenize_at parse_int s pos ≡ some (tokens_of (character ∷ []) pos, pos + length character)
      → tokenize_from parse_int s fuel
          (pos + length character)
          (acc ++ tokens_of (character ∷ []) pos)
        ≡ done ((acc ++ tokens_of (character ∷ []) pos) ++ tokens_of later (pos + length character))
      → tokenize_from parse_int s (suc fuel) pos acc
        ≡ done (acc ++ tokens_of (character ∷ later) pos)
  unfolding tokenize_from
  advance fuel pos acc character later inside step rest =
      rw (inside, step)
        (rest
          ∙ ap done (
              append_assoc acc (tokens_of (character ∷ []) pos) _
              ∙ ap (λ l. acc ++ l) (sym (tokens_of-cons character later pos))))
