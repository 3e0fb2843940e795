-- ===== src/Metrics/Symbols.antt =====
-- Symbol highlighting: symbol-highlighting.ts. `none` is a TypeError: a closing brace with no
-- opening one on the stack.
pub mod Laws
pub mod Variables
use Prim.Native.String.{String}
use text.Mathlib.Text.{◌==◌ as str_eq}
use sonar_js.Prelude.{
  ℕ, Bool, true, false, ◌||◌, ◌&&◌, Option, none, some, List, [], ◌∷◌, ◌++◌, if◌then◌else◌, codes,
  text_eq,
}
use sonar_js.Metrics.Tokens.{Token, Location, convert_location}

pub record SymbolHighlight : Type 0 where
  pub declaration : Location
  pub references : List Location

-- the two stacks, their tops first, and the result
pub record Matching : Type 0 where
  pub open_curly_braces : List Token
  pub open_html_tags : List Token
  pub result : List SymbolHighlight

pub pair : Token → Token → SymbolHighlight
unfolding convert_location
pair opening closing = record {
  declaration = convert_location opening.loc;
  references = convert_location closing.loc ∷ [];
}

-- the kinds of token that the `switch` tells apart
pub data Kind : Type 0 where
  curly_open curly_close tag_open self_closing end_tag other : Kind

unfoldable pub kind_of : Token → Kind
kind_of t =
    if str_eq t.type "Punctuator"
    then if text_eq t.value (codes "{")
      then curly_open
      else if text_eq t.value (codes "}")
      then curly_close
      else other
    else if str_eq t.type "HTMLTagOpen"
    then tag_open
    else if str_eq t.type "HTMLSelfClosingTagClose"
    then self_closing
    else if str_eq t.type "HTMLEndTagOpen"
    then end_tag
    else other

close_curly : Matching → Token → List Token → Option Matching
close_curly s token [] = none
close_curly s token (opening ∷ rest) =
    some (record s { open_curly_braces = rest; result = s.result ++ pair opening token ∷ [] })

pop_tag : Matching → List Token → Matching
pop_tag s [] = s
pop_tag s (opening ∷ rest) = record s { open_html_tags = rest }

close_tag : Matching → Token → List Token → Matching
close_tag s token [] = s
close_tag s token (opening ∷ rest) = record s {
  open_html_tags = rest;
  result = s.result ++ pair opening token ∷ [];
}

-- the body of the loop over the tokens
pub match_token : Kind → Matching → Token → Option Matching
unfolding close_curly pop_tag close_tag
match_token curly_open s token = some (record s { open_curly_braces = token ∷ s.open_curly_braces })
match_token curly_close s token = close_curly s token s.open_curly_braces
match_token tag_open s token = some (record s { open_html_tags = token ∷ s.open_html_tags })
match_token self_closing s token = some (pop_tag s s.open_html_tags)
match_token end_tag s token = some (close_tag s token s.open_html_tags)
match_token other s token = some s

pub match_tokens : Matching → List Token → Option Matching
unfolding match_token
match_tokens s [] = some s
match_tokens s (token ∷ tokens) = elim (match_token (kind_of token) s token) [
  | none ↦ none
  | some s' ↦ match_tokens s' tokens
]
