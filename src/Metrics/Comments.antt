-- ===== src/Metrics/Comments.antt =====
-- metrics/comments.ts and nosonar.ts. Upper-casing is a table of Unicode, the argument `to_upper`.
pub mod Laws
use Prim.Native.String.{String}
use sonar_js.Prelude.{
  ℕ, ◌≡◌, refl, Bool, true, false, Option, none, some, List, [], ◌∷◌, ◌++◌, if◌then◌else◌, Text,
  codes, starts_with, trim, is_empty, drop, length, ◌||◌, ◌&&◌, not, leb, has, arith, Bool-cases,
  inl, inr, get_elem?,
}
use sonar_js.Metrics.Ast.{SourceLocation}
use sonar_js.Metrics.Tokens.{Comment, SourceCode}
use sonar_js.Metrics.Lines.{add_lines, sort}
use sonar_js.Metrics.Lines.Laws.{
  has-add_lines, has-sort, Distinct, Increasing, add_lines-Distinct, sort-Increasing,
}

abbrev nosonar : Text
nosonar = codes "NOSONAR"

-- `commentLines` and `nosonarLines`
pub record CommentLines : Type 0 where
  pub comment_lines : List ℕ
  pub nosonar_lines : List ℕ

-- what a comment says, without the star of a documentation comment
pub comment_value : Text → Text
comment_value value = if starts_with value (codes "*") then trim (drop 1 value) else trim value

pub is_nosonar : (Text → Text) → Text → Bool
unfolding comment_value
is_nosonar to_upper value = starts_with (to_upper (comment_value value)) nosonar

-- a round of the loop over the comments
pub add_comment : (Text → Text) → CommentLines → Comment → CommentLines
add_comment to_upper lines comment = elim comment.loc [
  | none ↦ lines
  | some loc ↦
      if is_nosonar to_upper comment.value
      then record lines {
        nosonar_lines = add_lines loc.start.line loc.end.line lines.nosonar_lines;
      }
      else if is_empty (comment_value comment.value)
      then lines
      else record lines {
        comment_lines = add_lines loc.start.line loc.end.line lines.comment_lines;
      }
]

pub add_comments : (Text → Text) → CommentLines → List Comment → CommentLines
add_comments to_upper lines [] = lines
add_comments to_upper lines (c ∷ cs) = add_comments to_upper (add_comment to_upper lines c) cs

-- the comments without those before the first token, if these are to be ignored
pub selected : SourceCode → Bool → List Comment
selected source ignore_header_comments = elim source.first_token [
  | none ↦ source.comments
  | some token ↦
      if ignore_header_comments
      then drop (length source.header) source.comments
      else source.comments
]

unfoldable pub find_comment_lines : (Text → Text) → SourceCode → Bool → CommentLines
unfolding add_comments add_comment selected is_nosonar comment_value trim add_lines sort
find_comment_lines to_upper source ignore_header_comments =
    let lines =
      add_comments to_upper (record { comment_lines = []; nosonar_lines = [] })
        (selected source ignore_header_comments) in
    record { comment_lines = sort lines.comment_lines; nosonar_lines = sort lines.nosonar_lines }

-- `findNoSonarLines`
unfoldable pub find_no_sonar_lines : (Text → Text) → SourceCode → List ℕ
find_no_sonar_lines to_upper source = (find_comment_lines to_upper source false).nosonar_lines
