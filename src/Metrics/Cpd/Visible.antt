-- ===== src/Metrics/Cpd/Visible.antt =====
-- The tokens that copy-paste detection is given, read off the nodes of the file.
use mathlib.Core.Option
use sonar_js.Prelude.{
  ℕ, ◌≡◌, refl, ap, ◌∙◌, Bool, false, ◌&&◌, ◌||◌, not, none, some, List, [], ◌∷◌, map, codes, has,
  Text, is_empty, trim, starts_with, inl, inr, arith, Bool-cases, keep, length, ◌≤◌, ◌==◌,
  if◌then◌else◌,
}
use sonar_js.Metrics.Ast.{Node}
use sonar_js.Metrics.Visitor.Preorder.{preorder, flat_map}
use sonar_js.Metrics.Visitor.Laws.{visit-preorder}
use sonar_js.Metrics.Tokens.{Token, SourceCode, convert_location}
use sonar_js.Metrics.Cpd.{
  CpdToken, ExtractedTokens, is_string_literal_token, cpd_token, cpd_tokens_of, get_cpd_tokens,
  extract_tokens, extract_at,
}
use sonar_js.Metrics.Cpd.Extraction.{
  is_import, is_call_of_require, literal_values, ids, extracted, run-extract_at,
}

-- the text begins with a quote or a backtick
quoted : Text → Bool
quoted [] = false
quoted (c ∷ cs) = c == 34 || (c == 39 || c == 96)

module _ (source : SourceCode) where
  abbrev nodes : List Node
  nodes = preorder source.visitor_keys source.ast

  -- not blank, and in no import declaration and no call of `require` of the file
  pub visible : Token → Bool
  visible t =
      not (is_empty (trim t.value))
      && (not (has (ids source.get_tokens (keep is_import nodes)) t.id)
          && not (has (ids source.get_tokens (keep is_call_of_require nodes)) t.id))

  -- the token with its text, or masked if it is quoted and in no literal of a JSX attribute
  pub masked : Token → CpdToken
  masked t = record {
    location = convert_location t.loc;
    image =
        if quoted t.value && not (has (ids source.get_tokens (flat_map literal_values nodes)) t.id)
        then codes "LITERAL"
        else t.value;
  }

quoted_lem : (t : Token) → is_string_literal_token t ≡ quoted t.value
unfolding is_string_literal_token quoted
quoted_lem t = by_text t.value
  where
    by_text :
        (value : Text)
        → (starts_with value (codes "\"")
            || starts_with value (codes "'")
            || starts_with value (codes "`"))
          ≡ quoted value
    by_text [] = refl
    by_text (c ∷ cs) = ground arith

module _ (source : SourceCode) where
  abbrev found_in : ExtractedTokens
  found_in =
      extracted source.get_tokens (ids source.get_tokens (flat_map literal_values (nodes source)))
        (ids source.get_tokens (keep is_import (nodes source)))
        (ids source.get_tokens (keep is_call_of_require (nodes source)))

  cpd_token_lem :
      (t : Token)
      → cpd_token found_in t ≡ (if visible source t then some (masked source t) else none)
  unfolding cpd_token visible masked convert_location
  cpd_token_lem t = elim (Bool-cases (is_empty (trim t.value))) [
    | inl blank ↦ rw (blank) refl
    | inr text ↦ elim (Bool-cases (has found_in.import_tokens t.id)) [
      | inl imports ↦ rw (text, imports) refl
      | inr no_import ↦ elim (Bool-cases (has found_in.require_tokens t.id)) [
        | inl requires ↦ rw (text, no_import, requires) refl
        | inr no_call ↦ rw (text, no_import, no_call, quoted_lem t) refl
      ]
    ]
  ]

  cpd_tokens_of_lem :
      (ts : List Token) → cpd_tokens_of found_in ts ≡ map (masked source) (keep (visible source) ts)
  unfolding cpd_tokens_of
  cpd_tokens_of_lem [] = refl
  cpd_tokens_of_lem (t ∷ ts) =
      ap
        (λ pushed. elim pushed [
          | none ↦ cpd_tokens_of found_in ts
          | some token ↦ token ∷ cpd_tokens_of found_in ts
        ])
        (cpd_token_lem t)
      ∙ elim (Bool-cases (visible source t)) [
        | inl seen ↦ rw (seen) (ap (λ l. masked source t ∷ l) (cpd_tokens_of_lem ts))
        | inr unseen ↦ rw (unseen) (cpd_tokens_of_lem ts)
      ]

-- With a round for each node the tokens for copy-paste detection are computed. They are, in order,
-- those tokens of the file that are not blank and stand in no import declaration and no call of
-- `require`; each has its own location, and its own text unless it begins with a quote or a backtick
-- and stands in no literal that is the value of a JSX attribute: then the text is LITERAL.
pub get_cpd_tokens-visible :
    (fuel : ℕ) (source : SourceCode)
    → length (preorder source.visitor_keys source.ast) ≤ fuel
    → get_cpd_tokens fuel source ≡ some (map (masked source) (keep (visible source) source.tokens))
unfolding get_cpd_tokens extract_tokens
get_cpd_tokens-visible fuel source h =
    let start : ExtractedTokens = extracted source.get_tokens [] [] [] in
    ap (Option.map (λ f. cpd_tokens_of f source.tokens))
      (visit-preorder source.visitor_keys (extract_at source.get_tokens) fuel source.ast start h)
    ∙ ap (λ f. some (cpd_tokens_of f source.tokens))
        (run-extract_at source.get_tokens (nodes source) start)
    ∙ ap some (cpd_tokens_of_lem source source.tokens)
