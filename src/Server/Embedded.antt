-- ===== src/Server/Embedded.antt =====
-- Issues in JavaScript that is embedded in other files:
-- src/services/analysis/analyzers/embedded/analyzer.ts. The linter is an argument.
mod Laws
mod Tests
use sonar_js.Prelude.{
  ℕ, Bool, true, false, Option, none, some, List, [], ◌∷◌, ◌++◌, keep, ◌&&◌, if◌then◌else◌, ltb,
  leb, Text,
}
use sonar_js.Metrics.Ast.{Position}
use sonar_js.Linter.Results.{Result, ok, throw, ◌>>=◌}
use sonar_js.Linter.Issues.{Issue, ℤ, pos, negsuc}
use sonar_js.Linter.Issues.Transform.{LintingResult}

-- A snippet of a file: its number for the linter, `ast.range` and `getLocFromIndex`.
pub record ExtendedSourceCode : Type 0 where
  pub id : ℕ
  pub range_start : ℕ
  pub range_end : ℕ
  pub loc_from_index : ℕ → Position

pub record EmbeddedAnalysisOutput : Type 0 where
  pub issues : List Issue
  pub ucfg_paths : List Text

-- `<=` on columns
pub column_leb : ℤ → ℤ → Bool
column_leb (pos a) (pos b) = leb a b
column_leb (pos a) (negsuc b) = false
column_leb (negsuc a) (pos b) = true
column_leb (negsuc a) (negsuc b) = leb b a

-- `isBeforeOrEqual`
pub is_before_or_equal : ℕ → ℤ → ℕ → ℤ → Bool
unfolding column_leb
is_before_or_equal line_a column_a line_b column_b =
    if ltb line_a line_b
    then true
    else if ltb line_b line_a
    then false
    else column_leb column_a column_b

-- the test of `removeNonJsIssues`
pub in_snippet : ExtendedSourceCode → Issue → Bool
unfolding is_before_or_equal
in_snippet source issue =
    let js_start = source.loc_from_index source.range_start in
    let js_end = source.loc_from_index source.range_end in
    is_before_or_equal js_start.line (pos js_start.column) issue.line issue.column
    && is_before_or_equal issue.line issue.column js_end.line (pos js_end.column)

-- `removeNonJsIssues`
pub remove_non_js_issues : ExtendedSourceCode → List Issue → List Issue
unfolding in_snippet
remove_non_js_issues source issues = keep (in_snippet source) issues

module _ {N : Type 0} (lint : ExtendedSourceCode → Result (LintingResult N)) where
  -- the loop of `analyzeEmbedded`
  pub aggregate : EmbeddedAnalysisOutput → List ExtendedSourceCode → Result EmbeddedAnalysisOutput
  unfolding remove_non_js_issues
  aggregate output [] = ok output
  aggregate output (source ∷ sources) = do
    result ← lint source
    aggregate
        (record {
          issues = output.issues ++ remove_non_js_issues source result.issues;
          ucfg_paths = output.ucfg_paths ++ result.ucfg_paths;
        })
        sources

  -- `analyzeEmbedded` on the snippets that were built
  pub analyze_embedded : List ExtendedSourceCode → Result EmbeddedAnalysisOutput
  unfolding aggregate
  analyze_embedded sources = aggregate (record { issues = []; ucfg_paths = [] }) sources
