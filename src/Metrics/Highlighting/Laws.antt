-- ===== src/Metrics/Highlighting/Laws.antt =====
-- The highlights of a file, token by token and comment by comment.
use Prim.Native.String.{String}
use text.Mathlib.Text.{◌==◌ as str_eq}
use text.Mathlib.TextEquality.{eq_iff}
use mathlib.Core.List.{append_assoc, append-nil}
use sonar_js.Prelude.{
  ◌≡◌, refl, sym, ap, ◌∙◌, Option, none, some, List, [], ◌∷◌, ◌++◌, Text, Bool, false,
  if◌then◌else◌, ◌==◌, arith, Bool-cases, inl, inr,
}
use sonar_js.Metrics.Ast.{SourceLocation}
use sonar_js.Metrics.Tokens.{
  Token, Comment, SourceCode, TemplateBody, convert_location, extract_tokens_and_comments,
}
use sonar_js.Metrics.Visitor.Preorder.{flat_map, flat_map-append}
use sonar_js.Metrics.Highlighting.{
  TextType, constant, comment, structured_comment, keyword, string, SyntaxHighlight,
  token_text_type, comment_text_type, highlight, highlight_token, highlight_tokens,
  highlight_comments, get_syntax_highlighting,
}

-- the types of tokens that are highlighted
abbrev pub highlighted_types : List (String × TextType)
highlighted_types =
    ("Keyword", keyword)
    ∷ ("HTMLTagOpen", keyword)
    ∷ ("HTMLTagClose", keyword)
    ∷ ("HTMLEndTagOpen", keyword)
    ∷ ("HTMLSelfClosingTagClose", keyword)
    ∷ ("String", string)
    ∷ ("Template", string)
    ∷ ("RegularExpression", string)
    ∷ ("HTMLLiteral", string)
    ∷ ("Numeric", constant)
    ∷ []

abbrev pub kind_in : List (String × TextType) → String → Option TextType
kind_in [] type = none
kind_in ((name, kind) ∷ entries) type = if str_eq name type then some kind else kind_in entries type

-- `/**` and the comments that HTML has by mistake are structured
abbrev pub starts_with_star : Text → Bool
starts_with_star [] = false
starts_with_star (c ∷ cs) = c == 42

abbrev pub kind_of_comment : Comment → TextType
kind_of_comment c =
    if str_eq c.type "HTMLBogusComment"
    then structured_comment
    else if str_eq c.type "Block"
    then if starts_with_star c.value then structured_comment else comment
    else comment

flipped : (a b : String) → str_eq a b ≡ str_eq b a
flipped a b = elim (Bool-cases (str_eq a b)) [
  | inl same ↦ same ∙ sym ((eq_iff b a).1 (sym ((eq_iff a b).0 same)))
  | inr differ ↦ elim (Bool-cases (str_eq b a)) [
    | inl same ↦ ground (arith, (eq_iff a b).1 (sym ((eq_iff b a).0 same)))
    | inr other ↦ differ ∙ sym other
  ]
]

token_text_type_lem : (type : String) → token_text_type type ≡ kind_in highlighted_types type
unfolding token_text_type
token_text_type_lem type = ground (arith, flipped "Numeric" type)

comment_text_type_lem : (c : Comment) → comment_text_type c ≡ kind_of_comment c
unfolding comment_text_type
comment_text_type_lem c = by_value c.value
  where
    by_value :
        (value : Text)
        → comment_text_type (record c { value = value })
          ≡ kind_of_comment (record c { value = value })
    by_value [] = ground arith
    by_value (d ∷ ds) = ground arith

-- one highlight at the location, none without one
pub highlight_at : Option SourceLocation → TextType → List SyntaxHighlight
highlight_at none kind = []
highlight_at (some loc) kind = record { location = convert_location loc; text_type = kind } ∷ []

pub token_highlights : Token → List SyntaxHighlight
token_highlights t = elim (kind_in highlighted_types t.type) [
  | none ↦ []
  | some kind ↦ highlight_at (some t.loc) kind
]

pub comment_highlights : Comment → List SyntaxHighlight
comment_highlights c = highlight_at c.loc (kind_of_comment c)

highlight_lem :
    (at : Option SourceLocation) (kind : TextType) (hs : List SyntaxHighlight)
    → highlight at kind hs ≡ hs ++ highlight_at at kind
unfolding highlight highlight_at convert_location
highlight_lem none kind hs = sym (append-nil hs)
highlight_lem (some loc) kind hs = refl

highlight_token_lem :
    (t : Token) (kind : Option TextType) (hs : List SyntaxHighlight)
    → highlight_token kind t hs
      ≡ hs ++ elim kind [ none ↦ [] | some k ↦ highlight_at (some t.loc) k ]
unfolding highlight_token
highlight_token_lem t none hs = sym (append-nil hs)
highlight_token_lem t (some k) hs = highlight_lem (some t.loc) k hs

highlight_tokens_lem :
    (hs : List SyntaxHighlight) (ts : List Token)
    → highlight_tokens hs ts ≡ hs ++ flat_map token_highlights ts
unfolding highlight_tokens token_highlights
highlight_tokens_lem hs [] = sym (append-nil hs)
highlight_tokens_lem hs (t ∷ ts) =
    highlight_tokens_lem (highlight_token (token_text_type t.type) t hs) ts
    ∙ ap (λ r. r ++ flat_map token_highlights ts)
        (highlight_token_lem t (token_text_type t.type) hs
          ∙ ap (λ kind. hs ++ elim kind [ none ↦ [] | some k ↦ highlight_at (some t.loc) k ])
              (token_text_type_lem t.type))
    ∙ append_assoc hs (token_highlights t) (flat_map token_highlights ts)

highlight_comments_lem :
    (hs : List SyntaxHighlight) (cs : List Comment)
    → highlight_comments hs cs ≡ hs ++ flat_map comment_highlights cs
unfolding highlight_comments comment_highlights
highlight_comments_lem hs [] = sym (append-nil hs)
highlight_comments_lem hs (c ∷ cs) =
    highlight_comments_lem (highlight c.loc (comment_text_type c) hs) cs
    ∙ ap (λ r. r ++ flat_map comment_highlights cs)
        (highlight_lem c.loc (comment_text_type c) hs
          ∙ ap (λ kind. hs ++ highlight_at c.loc kind) (comment_text_type_lem c))
    ∙ append_assoc hs (comment_highlights c) (flat_map comment_highlights cs)

-- the highlights of a script, with a template around it or without
pub highlights_with : SourceCode → Option TemplateBody → List SyntaxHighlight
highlights_with source none =
    flat_map token_highlights source.tokens ++ flat_map comment_highlights source.comments
highlights_with source (some body) =
    (flat_map token_highlights source.tokens ++ flat_map token_highlights body.tokens)
    ++ (flat_map comment_highlights source.comments ++ flat_map comment_highlights body.comments)

-- The highlights are those of the tokens of the script, then those of the tokens of the template if
-- the file has one, then those of the comments of the script and then those of the template: one for
-- each token of the types of keywords, strings, templates, regular expressions and numbers or of the
-- listed types of HTML, and one for each comment that has a location, structured if it begins like
-- `/**` or is a bogus comment of HTML, each with the location of its token or comment.
pub get_syntax_highlighting_lem :
    (source : SourceCode) (template : Option TemplateBody)
    → source.template_body ≡ template
    → get_syntax_highlighting source ≡ highlights_with source template
unfolding get_syntax_highlighting extract_tokens_and_comments highlights_with
get_syntax_highlighting_lem source none h = rw (h) (
    highlight_comments_lem (highlight_tokens [] source.tokens) source.comments
    ∙ ap (λ r. r ++ flat_map comment_highlights source.comments)
        (highlight_tokens_lem [] source.tokens))
get_syntax_highlighting_lem source (some body) h = rw (h) (
    highlight_comments_lem (highlight_tokens [] (source.tokens ++ body.tokens))
      (source.comments ++ body.comments)
    ∙ rw
        (
          highlight_tokens_lem [] (source.tokens ++ body.tokens),
          flat_map-append token_highlights source.tokens body.tokens,
          flat_map-append comment_highlights source.comments body.comments,
        )
        refl)
