-- ===== src/Metrics/Cpd.antt =====
-- Copy-paste tokens: cpd.ts. Arrays of tokens are tested for membership by identity, so the token
-- sets of `extractTokens` are lists of identities.
pub mod Laws
pub mod Extraction
pub mod Visible
use Prim.Native.String.{String}
use text.Mathlib.Text.{◌==◌ as str_eq}
use mathlib.Core.Option
use sonar_js.Prelude.{
  ℕ, zero, suc, Bool, true, false, ◌||◌, ◌&&◌, not, Option, none, some, List, [], ◌∷◌, ◌++◌, map,
  if◌then◌else◌, codes, has, Text, is_empty, trim, starts_with,
}
use sonar_js.Metrics.Ast.{
  Node, Child, absent, single, array, type_of, child_at, text_at, props_of, children_of,
}
use sonar_js.Metrics.Visitor.{visit, visit_loop}
use sonar_js.Metrics.Tokens.{Token, SourceCode, Location}

pub record CpdToken : Type 0 where
  pub location : Location
  pub image : Text

-- the result of `extractTokens`
pub record ExtractedTokens : Type 0 where
  pub jsx_tokens : List ℕ
  pub import_tokens : List ℕ
  pub require_tokens : List ℕ

-- `child?.type === type`
child_has_type : Child → String → Bool
child_has_type (single n) type = str_eq (type_of n) type
child_has_type absent type = false
child_has_type (array ns) type = false

name_is : Child → String → Bool
name_is (single n) name = elim (text_at (props_of n) "name") [
  | none ↦ false
  | some text ↦ str_eq text name
]
name_is absent name = false
name_is (array ns) name = false

-- the identities of `sourceCode.getTokens` of a child
tokens_of_child : (Node → List Token) → Child → List ℕ
tokens_of_child get_tokens (single n) = map (λ t. t.id) (get_tokens n)
tokens_of_child get_tokens absent = []
tokens_of_child get_tokens (array ns) = []

-- the callback of `extractTokens`
pub extract_at : (Node → List Token) → Node → ExtractedTokens → ExtractedTokens
unfolding child_has_type name_is tokens_of_child
extract_at get_tokens n found =
    let value = child_at (props_of n) "value" in
    let callee = child_at (props_of n) "callee" in
    if str_eq (type_of n) "JSXAttribute"
    then if child_has_type value "Literal"
      then record found { jsx_tokens = found.jsx_tokens ++ tokens_of_child get_tokens value }
      else found
    else if str_eq (type_of n) "ImportDeclaration"
    then record found { import_tokens = found.import_tokens ++ map (λ t. t.id) (get_tokens n) }
    else if str_eq (type_of n) "CallExpression"
    then if child_has_type callee "Identifier" && name_is callee "require"
      then record found { require_tokens = found.require_tokens ++ map (λ t. t.id) (get_tokens n) }
      else found
    else found

unfoldable pub extract_tokens : ℕ → SourceCode → Option ExtractedTokens
unfolding extract_at visit visit_loop children_of
extract_tokens fuel source =
    visit source.visitor_keys (extract_at source.get_tokens) fuel source.ast
      (record { jsx_tokens = []; import_tokens = []; require_tokens = [] })

unfoldable pub is_string_literal_token : Token → Bool
is_string_literal_token token =
    starts_with token.value (codes "\"")
    || starts_with token.value (codes "'")
    || starts_with token.value (codes "`")

-- the body of `tokens.forEach`: the token that is pushed, if any
pub cpd_token : ExtractedTokens → Token → Option CpdToken
unfolding is_string_literal_token
cpd_token found token =
    if is_empty (trim token.value)
    then none
    else if has found.import_tokens token.id
    then none
    else if has found.require_tokens token.id
    then none
    else some (record {
      location = record {
        start_line = token.loc.start.line;
        start_col = token.loc.start.column;
        end_line = token.loc.end.line;
        end_col = token.loc.end.column;
      };
      image =
          if is_string_literal_token token && not (has found.jsx_tokens token.id)
          then codes "LITERAL"
          else token.value;
    })

pub cpd_tokens_of : ExtractedTokens → List Token → List CpdToken
cpd_tokens_of found [] = []
cpd_tokens_of found (token ∷ tokens) = elim (cpd_token found token) [
  | none ↦ cpd_tokens_of found tokens
  | some pushed ↦ pushed ∷ cpd_tokens_of found tokens
]

pub get_cpd_tokens : ℕ → SourceCode → Option (List CpdToken)
get_cpd_tokens fuel source =
    Option.map (λ found. cpd_tokens_of found source.tokens) (extract_tokens fuel source)
