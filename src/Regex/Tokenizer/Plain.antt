-- ===== src/Regex/Tokenizer/Plain.antt =====
-- Literals without escapes: `tokenizeString` of helpers/regex/tokenizer.ts splits them into characters.
use mathlib.Core.List.{append-nil}
use sonar_js.Prelude.{
  ℕ, zero, suc, ◌+◌, ◌≤◌, ◌≡◌, refl, ap, ◌∙◌, true, false, List, [], ◌∷◌, ◌++◌, ltb, Text, drop,
  length, all, arith, Bool-cases, inl, inr, Option, some,
}
use sonar_js.Regex.Tokenizer.{
  is_pair, combine, StringLiteralToken, cp, first_code_point, tokenize_from, tokenize_string, done,
}
use sonar_js.Regex.Tokenizer.Laws.{
  characters, tokens_of, is_plain, drop_one, drop_two, unit_round, pair_round, advance,
}

module _ (parse_int : ℕ → Text → Option ℕ) (s : Text) where
  inside :
      (pos c : ℕ) (rest : Text) → pos + length (c ∷ rest) ≡ length s → ltb pos (length s) ≡ true
  inside pos c rest e = ground (arith, e)

  outside : (pos : ℕ) → pos + 0 ≡ length s → ltb pos (length s) ≡ false
  outside pos e = ground (arith, e)

  cp_last : (pos c : ℕ) → drop pos s ≡ c ∷ [] → cp s pos ≡ some c
  unfolding cp first_code_point
  cp_last pos c e = rw (e) refl

  cp_more :
      (pos c d : ℕ) (rest : Text) → drop pos s ≡ c ∷ d ∷ rest → cp s pos ≡ some (combine c (some d))
  unfolding cp first_code_point
  cp_more pos c d rest e = rw (e) refl

  combine_unit : (c d : ℕ) → is_pair c d ≡ false → combine c (some d) ≡ c
  unfolding combine
  combine_unit c d h = rw (h) refl

  tokenize_rest :
      (rest : Text) (fuel pos : ℕ) (acc : List StringLiteralToken)
      → drop pos s ≡ rest
      → pos + length rest ≡ length s
      → length rest ≤ fuel
      → all is_plain rest ≡ true
      → tokenize_from parse_int s fuel pos acc ≡ done (acc ++ tokens_of (characters rest) pos)
  unfolding tokenize_from characters tokens_of
  tokenize_rest [] zero pos acc e l f h = rw (outside pos l, append-nil acc) refl
  tokenize_rest [] (suc fuel) pos acc e l f h = rw (outside pos l, append-nil acc) refl
  tokenize_rest (c ∷ rest) zero pos acc e l f h = absurd (omega arith)
  tokenize_rest (c ∷ []) (suc fuel) pos acc e l f h =
      advance parse_int s fuel pos acc (c ∷ []) [] (inside pos c [] l)
        (unit_round parse_int s pos c (cp_last pos c e) (ground (arith, h)))
        (tokenize_rest [] fuel (pos + 1) _ (drop_one s pos c [] e) (omega (arith, l)) (omega arith)
          refl)
  tokenize_rest (c ∷ d ∷ rest) (suc fuel) pos acc e l f h = elim (Bool-cases (is_pair c d)) [
    | inl pair ↦ rw (pair) (
        advance parse_int s fuel pos acc (c ∷ d ∷ []) (characters rest) (inside pos c (d ∷ rest) l)
          (pair_round parse_int s pos c d (cp_more pos c d rest e) pair)
          (tokenize_rest rest fuel (pos + 2) _ (drop_two s pos c d rest e) (omega (arith, l))
            (omega arith) (ground (arith, h))))
    | inr unit ↦ rw (unit) (
        advance parse_int s fuel pos acc (c ∷ []) (characters (d ∷ rest))
          (inside pos c (d ∷ rest) l)
          (unit_round parse_int s pos c (cp_more pos c d rest e ∙ ap some (combine_unit c d unit))
            (ground (arith, h)))
          (tokenize_rest (d ∷ rest) fuel (pos + 1) _ (drop_one s pos c (d ∷ rest) e)
            (omega (arith, l)) (omega arith) (ground (arith, h))))
  ]

  -- Without backslashes, `tokenizeString` ends within as many rounds as the literal has units,
  -- without a RangeError. It returns one token for each character, where a surrogate pair is one
  -- character, and two for each slash; their values are the characters, and the range of each
  -- starts where the character before it ends.
  pub tokenize_string-plain :
      all is_plain s ≡ true
      → tokenize_string parse_int s (length s) ≡ done (tokens_of (characters s) 0)
  unfolding tokenize_string
  tokenize_string-plain h = tokenize_rest s (length s) 0 [] refl (omega arith) (omega arith) h
