-- ===== src/Metrics/Ncloc.antt =====
-- metrics/ncloc.ts.
pub mod Laws
use Prim.Native.String.{String}
use text.Mathlib.Text.{◌==◌ as str_eq}
use sonar_js.Prelude.{
  ℕ, Bool, true, false, ◌||◌, ◌&&◌, not, Option, none, some, List, [], ◌∷◌, ◌++◌, if◌then◌else◌,
  codes, text_eq,
}
use sonar_js.Metrics.Tokens.{Token, TemplateBody, SourceCode}
use sonar_js.Metrics.Lines.{add_lines, sort}

-- `withinStyle` behind the first test of a round
pub style_after : Bool → Token → Bool
style_after within_style token =
    if str_eq token.type "HTMLTagOpen" && text_eq token.value (codes "style")
    then true
    else if str_eq token.type "HTMLEndTagOpen" && text_eq token.value (codes "style")
    then false
    else within_style

-- The rest of a round: whether the token is pushed, and `withinComment` behind it.
pub keep_token : Bool → Bool → Token → Bool × Bool
keep_token within_style within_comment token =
    if str_eq token.type "HTMLWhitespace"
    then (false, within_comment)
    else if str_eq token.type "HTMLRawText" && not within_style
    then (false, within_comment)
    else if within_style && not within_comment && text_eq token.value (codes "/*")
    then (false, true)
    else if within_style && within_comment
    then (false, not (text_eq token.value (codes "*/")))
    else (true, within_comment)

-- the loop of `extractVuejsTokens`
pub vue_tokens : Bool → Bool → List Token → List Token
unfolding keep_token style_after
vue_tokens within_style within_comment [] = []
vue_tokens within_style within_comment (token ∷ rest) =
    let style = style_after within_style token in
    let pushed = (keep_token style within_comment token).0 in
    let later = vue_tokens style (keep_token style within_comment token).1 rest in
    if pushed then token ∷ later else later

unfoldable pub extract_vuejs_tokens : TemplateBody → List Token
unfolding vue_tokens
extract_vuejs_tokens body = vue_tokens false false body.tokens

-- the loop of `findNcloc`
pub add_tokens : List ℕ → List Token → List ℕ
add_tokens lines [] = lines
add_tokens lines (token ∷ tokens) =
    add_tokens (add_lines token.loc.start.line token.loc.end.line lines) tokens

pub ncloc_tokens : SourceCode → List Token
ncloc_tokens source = elim source.template_body [
  | none ↦ source.tokens
  | some body ↦ source.tokens ++ extract_vuejs_tokens body
]

unfoldable pub find_ncloc : SourceCode → List ℕ
unfolding add_tokens ncloc_tokens extract_vuejs_tokens add_lines sort
find_ncloc source = sort (add_tokens [] (ncloc_tokens source))
