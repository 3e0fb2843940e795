-- ===== src/Metrics/Tokens.antt =====
-- Tokens, comments and locations: metrics/helpers/location.ts and tokens.ts. A token is an object
-- with an identity `id`. `SourceCode` holds what ESLint's object of that name answers.
use Prim.Native.String.{String}
use sonar_js.Prelude.{ℕ, Option, none, some, List, ◌++◌, Text}
use sonar_js.Metrics.Ast.{SourceLocation, Node, VisitorKeys}

pub record Location : Type 0 where
  pub start_line : ℕ
  pub start_col : ℕ
  pub end_line : ℕ
  pub end_col : ℕ

unfoldable pub convert_location : SourceLocation → Location
convert_location loc = record {
  start_line = loc.start.line;
  start_col = loc.start.column;
  end_line = loc.end.line;
  end_col = loc.end.column;
}

pub record Token : Type 0 where
  pub id : ℕ
  pub type : String
  pub value : Text
  pub loc : SourceLocation

pub record Comment : Type 0 where
  pub type : String
  pub value : Text
  pub loc : Option SourceLocation

-- `ast.templateBody` of a Vue file
pub record TemplateBody : Type 0 where
  pub tokens : List Token
  pub comments : List Comment

pub record SourceCode : Type 0 where
  pub ast : Node
  pub tokens : List Token
  pub comments : List Comment
  pub template_body : Option TemplateBody
  pub visitor_keys : VisitorKeys
  -- `getFirstToken(ast)`, and `getCommentsBefore` of it
  pub first_token : Option Token
  pub header : List Comment
  -- `getTokens(node)`
  pub get_tokens : Node → List Token

-- `extractTokensAndComments`
unfoldable pub extract_tokens_and_comments : SourceCode → List Token × List Comment
extract_tokens_and_comments source = elim source.template_body [
  | none ↦ (source.tokens, source.comments)
  | some body ↦ (source.tokens ++ body.tokens, source.comments ++ body.comments)
]
