-- ===== src/Metrics/Ncloc/Laws.antt =====
-- Which lines count as lines of code.
use text.Mathlib.Text.{◌==◌ as str_eq}
use sonar_js.Prelude.{
  ℕ, ◌≡◌, refl, ◌∙◌, Bool, true, false, ◌||◌, ◌&&◌, not, List, [], ◌∷◌, ◌++◌, leb, has, arith, All,
  keep, codes, text_eq, any,
}
use sonar_js.Metrics.Tokens.{Token, TemplateBody, SourceCode}
use sonar_js.Metrics.Lines.{add_lines}
use sonar_js.Metrics.Lines.Laws.{
  has-add_lines, has-sort, Distinct, Increasing, add_lines-Distinct, sort-Increasing,
}
use sonar_js.Metrics.Ncloc.{vue_tokens, extract_vuejs_tokens, add_tokens, ncloc_tokens, find_ncloc}

-- some token of the list covers the line
abbrev pub covered : List Token → ℕ → Bool
covered [] x = false
covered (t ∷ ts) x = (leb t.loc.start.line x && leb x t.loc.end.line) || covered ts x

has-add_tokens :
    (lines : List ℕ) (ts : List Token) (x : ℕ)
    → has (add_tokens lines ts) x ≡ (has lines x || covered ts x)
unfolding add_tokens
has-add_tokens lines [] x = ground arith
has-add_tokens lines (t ∷ ts) x = ground (
  arith,
  has-add_tokens (add_lines t.loc.start.line t.loc.end.line lines) ts x,
  has-add_lines t.loc.start.line t.loc.end.line x lines,
)

add_tokens-Distinct :
    (lines : List ℕ) (ts : List Token) → Distinct lines → Distinct (add_tokens lines ts)
unfolding add_tokens
add_tokens-Distinct lines [] h = h
add_tokens-Distinct lines (t ∷ ts) h =
    add_tokens-Distinct (add_lines t.loc.start.line t.loc.end.line lines) ts
      (add_lines-Distinct t.loc.start.line t.loc.end.line lines h)

-- `findNcloc` returns a strictly increasing array that has a line exactly if a token of the script
-- or a kept token of the template covers it.
pub find_ncloc_lem :
    (source : SourceCode)
    → Increasing (find_ncloc source)
      × ((x : ℕ) → has (find_ncloc source) x ≡ covered (ncloc_tokens source) x)
unfolding find_ncloc
find_ncloc_lem source =
    let tokens = ncloc_tokens source in
    (
      sort-Increasing (add_tokens [] tokens) (add_tokens-Distinct [] tokens tt),
      λ x. has-sort (add_tokens [] tokens) x ∙ has-add_tokens [] tokens x,
    )

abbrev is_style_tag : Token → Bool
is_style_tag t = str_eq t.type "HTMLTagOpen" && text_eq t.value (codes "style")

abbrev pub is_markup : Token → Bool
is_markup t = not (str_eq t.type "HTMLWhitespace") && not (str_eq t.type "HTMLRawText")

vue_tokens_outside :
    (ts : List Token) → any is_style_tag ts ≡ false → vue_tokens false false ts ≡ keep is_markup ts
unfolding vue_tokens
vue_tokens_outside [] h = refl
vue_tokens_outside (t ∷ ts) h = ground (arith, vue_tokens_outside ts)

-- In a template without a style section the kept tokens are those that are neither white space nor
-- raw text.
extract_vuejs_tokens_markup :
    (body : TemplateBody)
    → any is_style_tag body.tokens ≡ false
    → extract_vuejs_tokens body ≡ keep is_markup body.tokens
unfolding extract_vuejs_tokens
extract_vuejs_tokens_markup body h = vue_tokens_outside body.tokens h

-- what a style section holds behind its opening tag: no tag of the section, no white space
abbrev InStyle : Token → Type 0
InStyle t =
    (str_eq t.type "HTMLTagOpen" ≡ false)
    × (str_eq t.type "HTMLEndTagOpen" ≡ false)
    × (str_eq t.type "HTMLWhitespace" ≡ false)

abbrev opens : Token → Bool
opens t = text_eq t.value (codes "/*")

abbrev closes : Token → Bool
closes t = text_eq t.value (codes "*/")

-- A style comment is skipped as a whole: from its opening token over tokens that do not close it
-- up to the one that does.
vue_tokens_comment :
    (body : List Token) (close : Token) (rest : List Token)
    → All InStyle body
    → any closes body ≡ false
    → InStyle close
    → closes close ≡ true
    → vue_tokens true true (body ++ close ∷ rest) ≡ vue_tokens true false rest
unfolding vue_tokens
vue_tokens_comment [] close rest a n c e = ground arith
vue_tokens_comment (t ∷ body) close rest (i, a) n c e =
    ground (arith, vue_tokens_comment body close rest a)

-- A comment in a style section leaves no token: the tokens are those without the comment.
style_comment_skipped :
    (open_token : Token) (body : List Token) (close : Token) (rest : List Token)
    → InStyle open_token
    → opens open_token ≡ true
    → All InStyle body
    → any closes body ≡ false
    → InStyle close
    → closes close ≡ true
    → vue_tokens true false (open_token ∷ (body ++ close ∷ rest)) ≡ vue_tokens true false rest
unfolding vue_tokens
style_comment_skipped open_token body close rest i o a n c e =
    ground (arith, vue_tokens_comment body close rest a)
