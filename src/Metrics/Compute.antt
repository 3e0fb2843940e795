-- ===== src/Metrics/Compute.antt =====
-- metrics/compute.ts and metrics.ts: all metrics of a file.
pub mod Laws
use mathlib.Core.Option
use sonar_js.Prelude.{ℕ, Bool, Option, none, some, List, Text}
use sonar_js.Metrics.Tokens.{SourceCode}
use sonar_js.Metrics.Ncloc.{find_ncloc}
use sonar_js.Metrics.Comments.{find_comment_lines}
use sonar_js.Metrics.Counts.{
  count_classes, count_functions, count_statements, compute_cyclomatic_complexity,
  find_executable_lines,
}

pub record Metrics : Type 0 where
  pub ncloc : List ℕ
  pub comment_lines : List ℕ
  pub nosonar_lines : List ℕ
  pub executable_lines : List ℕ
  pub functions : ℕ
  pub statements : ℕ
  pub classes : ℕ
  pub complexity : ℕ
  pub cognitive_complexity : ℕ

infixl 5 ◌>>=◌
abbrev ◌>>=◌ {ℓ κ} : {A : Type ℓ} {B : Type κ} → Option A → (A → Option B) → Option B
none >>= f = none
some a >>= f = f a

unfoldable pub compute_metrics : (Text → Text) → ℕ → SourceCode → Bool → ℕ → Option Metrics
compute_metrics to_upper fuel source ignore_header_comments cognitive_complexity = do
  let comments = find_comment_lines to_upper source ignore_header_comments
  executable_lines ← find_executable_lines fuel source
  functions ← count_functions fuel source
  statements ← count_statements fuel source
  classes ← count_classes fuel source
  complexity ← compute_cyclomatic_complexity fuel source
  some (record {
    ncloc = find_ncloc source;
    comment_lines = comments.comment_lines;
    nosonar_lines = comments.nosonar_lines;
    executable_lines = executable_lines;
    functions = functions;
    statements = statements;
    classes = classes;
    complexity = complexity;
    cognitive_complexity = cognitive_complexity;
  })
