-- ===== src/Metrics/Cpd/Laws.antt =====
-- What copy-paste detection sees of a file.
use mathlib.Core.Option
use sonar_js.Prelude.{
  ℕ, ◌≡◌, refl, sym, ap, ◌∙◌, true, false, some, List, [], ◌∷◌, codes, has, Text, is_empty, trim,
  trim_nonblank, is_space, starts_with, ◌⊎◌, inl, inr, arith, Bool-cases,
}
use sonar_js.Metrics.Tokens.{Token, SourceCode}
use sonar_js.Metrics.Cpd.{
  ExtractedTokens, is_string_literal_token, cpd_token, cpd_tokens_of, get_cpd_tokens,
  extract_tokens,
}

quoted_nonblank :
    (value : Text) (c : ℕ)
    → is_space c ≡ false
    → starts_with value (c ∷ []) ≡ true
    → is_empty (trim value) ≡ false
quoted_nonblank [] c h e = cc
quoted_nonblank (d ∷ s) c h e = trim_nonblank d s (ground arith)

literal_nonblank : (t : Token) → is_string_literal_token t ≡ true → is_empty (trim t.value) ≡ false
unfolding is_string_literal_token is_space
literal_nonblank t h = elim (Bool-cases (starts_with t.value (codes "\""))) [
  | inl e ↦ quoted_nonblank t.value 34 refl e
  | inr no_double ↦ elim (Bool-cases (starts_with t.value (codes "'"))) [
    | inl e ↦ quoted_nonblank t.value 39 refl e
    | inr no_single ↦ quoted_nonblank t.value 96 refl (ground arith)
  ]
]

module _ (found : ExtractedTokens) where
  -- The same token, but for what a string literal outside of JSX attributes says.
  abbrev pub SameToken : Token → Token → Type 0
  SameToken t u =
      (t ≡ u)
      ⊎ ((t.id ≡ u.id)
          × (t.loc ≡ u.loc)
          × (is_string_literal_token t ≡ true)
          × (is_string_literal_token u ≡ true)
          × (has found.jsx_tokens t.id ≡ false))

  abbrev pub SameTokens : List Token → List Token → Type 0
  SameTokens [] [] = Unit
  SameTokens (t ∷ ts) (u ∷ us) = SameToken t u × SameTokens ts us
  SameTokens _ _ = ⊥

  cpd_token-same : (t u : Token) → SameToken t u → cpd_token found t ≡ cpd_token found u
  unfolding cpd_token
  cpd_token-same t u (inl e) = ap (cpd_token found) e
  cpd_token-same t u (inr (i, l, p, q, j)) =
      ground (arith, literal_nonblank t p, literal_nonblank u q)

  cpd_tokens_of-same :
      (ts us : List Token) → SameTokens ts us → cpd_tokens_of found ts ≡ cpd_tokens_of found us
  unfolding cpd_tokens_of
  cpd_tokens_of-same [] [] h = refl
  cpd_tokens_of-same [] (u ∷ us) h = absurd h
  cpd_tokens_of-same (t ∷ ts) [] h = absurd h
  cpd_tokens_of-same (t ∷ ts) (u ∷ us) (s, h) =
      ground (arith, cpd_token-same t u s, cpd_tokens_of-same ts us h)

-- Copy-paste detection does not see what string literals say: two files whose tokens differ only
-- in the text of string literals outside of JSX attributes have the same tokens.
pub get_cpd_tokens-same :
    (fuel : ℕ) (source : SourceCode) (tokens : List Token) (found : ExtractedTokens)
    → extract_tokens fuel source ≡ some found
    → SameTokens found source.tokens tokens
    → get_cpd_tokens fuel (record source { tokens = tokens }) ≡ get_cpd_tokens fuel source
unfolding get_cpd_tokens extract_tokens
get_cpd_tokens-same fuel source tokens found e h =
    ap (Option.map (λ f. cpd_tokens_of f tokens)) e
    ∙ ap some (sym (cpd_tokens_of-same found source.tokens tokens h))
    ∙ sym (ap (Option.map (λ f. cpd_tokens_of f source.tokens)) e)
