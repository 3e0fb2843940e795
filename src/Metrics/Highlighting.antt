-- ===== src/Metrics/Highlighting.antt =====
-- Syntax highlighting: syntax-highlighting.ts.
pub mod Laws
use Prim.Native.String.{String}
use text.Mathlib.Text.{◌==◌ as str_eq}
use sonar_js.Prelude.{
  ℕ, Bool, true, false, ◌||◌, ◌&&◌, Option, none, some, List, [], ◌∷◌, ◌++◌, if◌then◌else◌, codes,
  starts_with,
}
use sonar_js.Metrics.Ast.{SourceLocation, includes}
use sonar_js.Metrics.Tokens.{Token, Comment, SourceCode, Location, extract_tokens_and_comments}

pub data TextType : Type 0 where
  constant comment structured_comment keyword string : TextType

pub record SyntaxHighlight : Type 0 where
  pub location : Location
  pub text_type : TextType

-- The `switch` on `token.type`; `none` is no case.
pub token_text_type : String → Option TextType
token_text_type type =
    if includes
      ("HTMLTagOpen" ∷ "HTMLTagClose" ∷ "HTMLEndTagOpen" ∷ "HTMLSelfClosingTagClose" ∷ "Keyword"
        ∷ [])
      type
    then some keyword
    else if includes ("HTMLLiteral" ∷ "String" ∷ "Template" ∷ "RegularExpression" ∷ []) type
    then some string
    else if str_eq type "Numeric"
    then some constant
    else none

pub comment_text_type : Comment → TextType
comment_text_type c =
    if (str_eq c.type "Block" && starts_with c.value (codes "*"))
      || str_eq c.type "HTMLBogusComment"
    then structured_comment
    else comment

pub highlight : Option SourceLocation → TextType → List SyntaxHighlight → List SyntaxHighlight
highlight none kind highlights = highlights
highlight (some loc) kind highlights =
    highlights
    ++ record {
      location = record {
        start_line = loc.start.line;
        start_col = loc.start.column;
        end_line = loc.end.line;
        end_col = loc.end.column;
      };
      text_type = kind;
    }
      ∷ []

-- a token of a listed type is highlighted
pub highlight_token : Option TextType → Token → List SyntaxHighlight → List SyntaxHighlight
highlight_token none token highlights = highlights
highlight_token (some kind) token highlights = highlight (some token.loc) kind highlights

-- the loop over the tokens
pub highlight_tokens : List SyntaxHighlight → List Token → List SyntaxHighlight
unfolding highlight_token
highlight_tokens highlights [] = highlights
highlight_tokens highlights (token ∷ tokens) =
    highlight_tokens (highlight_token (token_text_type token.type) token highlights) tokens

-- the loop over the comments
pub highlight_comments : List SyntaxHighlight → List Comment → List SyntaxHighlight
highlight_comments highlights [] = highlights
highlight_comments highlights (c ∷ comments) =
    highlight_comments (highlight c.loc (comment_text_type c) highlights) comments

unfoldable pub get_syntax_highlighting : SourceCode → List SyntaxHighlight
unfolding highlight_tokens highlight_comments token_text_type comment_text_type highlight
    extract_tokens_and_comments
get_syntax_highlighting source =
    let (tokens, comments) = extract_tokens_and_comments source in
    highlight_comments (highlight_tokens [] tokens) comments
