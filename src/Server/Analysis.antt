-- ===== src/Server/Analysis.antt =====
-- Analysis of a file: src/services/analysis/analyzers/js/analyzer.ts and
-- src/services/analysis/runner.ts, with the error handler behind it. Reading files and the clock are
-- arguments.
mod Extended
pub mod Laws
mod Output
mod Failures
mod Tests
use sonar_js.Prelude.{
  ℕ, ◌+◌, ◌-◌, ◌/◌, Bool, true, false, ◌||◌, ◌&&◌, not, Option, none, some, List, ◌∷◌, [], Text,
  codes, starts_with, is_empty, if◌then◌else◌,
}
use sonar_js.Metrics.Tokens.{SourceCode}
use sonar_js.Metrics.Compute.{Metrics, compute_metrics}
use sonar_js.Metrics.Comments.{find_no_sonar_lines}
use sonar_js.Metrics.Cpd.{CpdToken, get_cpd_tokens}
use sonar_js.Metrics.Highlighting.{SyntaxHighlight, get_syntax_highlighting}
use sonar_js.Metrics.Symbols.{SymbolHighlight}
use sonar_js.Linter.Config.{Context, FileType, main, test}
use sonar_js.Linter.Issues.{Issue}
use sonar_js.Linter.Issues.Transform.{LintingResult}
use sonar_js.Server.Errors.{
  Error, api_error, error_message, failing_type_script_error, Response, error_middleware,
}
use sonar_js.Server.Outcome.{Outcome, returned, thrown, unfinished, ◌>>=◌}
use sonar_js.Server.Programs.{Store}
use sonar_js.Server.Parsing.{AnalysisInput, Language, Parsers, build_source_code}
use sonar_js.Server.Linters.{Exception, Eslint, LinterWrapper, Linters, lint, get_linter}

-- `metrics` of the output: all of them, or `nosonarLines` alone
pub data FileMetrics : Type 0 where
  all_metrics : Metrics → FileMetrics
  no_sonar_lines : List ℕ → FileMetrics

-- what `computeExtendedMetrics` returns; `none` is a property that is not there
pub record ExtendedMetrics : Type 0 where
  pub highlighted_symbols : Option (List SymbolHighlight)
  pub highlights : Option (List SyntaxHighlight)
  pub metrics : FileMetrics
  pub cpd_tokens : Option (List CpdToken)

pub record FileAnalysis : Type 0 where
  pub issues : List Issue
  pub ucfg_paths : List Text
  pub extended : ExtendedMetrics

-- `JsTsAnalysisOutput` of a file that was analyzed
pub record AnalysisOutput : Type 0 where
  pub analysis : FileAnalysis
  pub parse_time : ℕ
  pub analysis_time : ℕ

-- what is sent for a request
pub data Answer : Type 0 where
  output : AnalysisOutput → Answer
  error_response : Response → Answer

-- `hrtime.bigint()` before and behind the parsing, and before and behind the analysis
pub record Clock : Type 0 where
  pub parse_start : ℕ
  pub parse_end : ℕ
  pub analysis_start : ℕ
  pub analysis_end : ℕ

-- the duration of `measureDuration`: nanoseconds as microseconds, rounded
pub measure_duration : ℕ → ℕ → ℕ
measure_duration start_time end_time = (end_time - start_time + 500) / 1000

-- `text.indexOf(part) > -1`
unfoldable pub contains : Text → Text → Bool
contains [] part = starts_with [] part
contains (c ∷ text) part = starts_with (c ∷ text) part || contains text part

abbrev pub compiler_frame : Text
compiler_frame = codes "typescript.js:"

-- what the `catch` of `analyzeFile` throws
pub rethrown : Exception → Error
unfolding contains
rethrown e =
    if contains e.stack compiler_frame
    then api_error (failing_type_script_error (error_message e.error))
    else e.error

-- the `try` of `analyzeFile`
unfoldable pub catch : {A : Type 0} → Outcome Exception A → Outcome Error A
unfolding rethrown
catch (returned a) = returned a
catch (thrown e) = thrown (rethrown e)
catch unfinished = unfinished

unfoldable pub computed : {E A : Type 0} → Option A → Outcome E A
computed none = unfinished
computed (some a) = returned a

-- the `catch` of `runner`, with the error handler that `next` leads to
unfoldable pub answer : Outcome Error AnalysisOutput → Option Answer
answer (returned o) = some (output o)
answer (thrown e) = some (error_response (error_middleware e))
answer unfinished = none

-- the input with the content of its file
pub with_content : (Text → Outcome Error Text) → AnalysisInput → Outcome Error AnalysisInput
with_content read_file input =
    if not (is_empty input.file_path) && is_empty input.file_content
    then (do
      content ← read_file input.file_path
      returned (record input { file_content = content }))
    else returned input

pub or_zero : Option ℕ → ℕ
or_zero none = 0
or_zero (some n) = n

-- `!!flag`
pub is_set : Option Bool → Bool
is_set none = false
is_set (some flag) = flag

module _ (to_upper : Text → Text) (fuel : ℕ) where
  extended_for :
      FileType
      → Bool
      → SourceCode
      → List SymbolHighlight
      → Option ℕ
      → Outcome Exception ExtendedMetrics
  unfolding computed or_zero
  extended_for main ignore source symbols cognitive_complexity = do
    metrics ← computed (compute_metrics to_upper fuel source ignore (or_zero cognitive_complexity))
    cpd_tokens ← computed (get_cpd_tokens fuel source)
    returned (record {
      highlighted_symbols = some symbols;
      highlights = some (get_syntax_highlighting source);
      metrics = all_metrics metrics;
      cpd_tokens = some cpd_tokens;
    })
  extended_for test ignore source symbols cognitive_complexity = returned (record {
    highlighted_symbols = some symbols;
    highlights = some (get_syntax_highlighting source);
    metrics = no_sonar_lines (find_no_sonar_lines to_upper source);
    cpd_tokens = none;
  })

  -- `computeExtendedMetrics`
  pub compute_extended_metrics :
      Context
      → AnalysisInput
      → SourceCode
      → List SymbolHighlight
      → Option ℕ
      → Outcome Exception ExtendedMetrics
  unfolding extended_for is_set
  compute_extended_metrics context input source symbols cognitive_complexity =
      if context.sonarlint
      then returned (record {
        highlighted_symbols = none;
        highlights = none;
        metrics = no_sonar_lines (find_no_sonar_lines to_upper source);
        cpd_tokens = none;
      })
      else extended_for input.file_type (is_set input.ignore_header_comments) source symbols
          cognitive_complexity

  module _ {V : Type 0} (eslint : Eslint V) (context : Context) where
    -- the object that `analyzeFile` returns for the result of the linter
    unfoldable pub with_metrics :
        AnalysisInput → SourceCode → LintingResult ℕ → Outcome Exception FileAnalysis
    unfolding compute_extended_metrics
    with_metrics input source result = do
      extended ←
          compute_extended_metrics context input source result.highlighted_symbols
            result.cognitive_complexity
      returned
          (record { issues = result.issues; ucfg_paths = result.ucfg_paths; extended = extended })

    -- `analyzeFile`
    pub analyze_file : LinterWrapper V → AnalysisInput → SourceCode → Outcome Error FileAnalysis
    unfolding catch with_metrics lint
    analyze_file wrapper input source =
        catch
          (lint eslint wrapper source input.file_path input.file_type >>= with_metrics input source)

    module _ {P : Type 0} (parsers : Parsers P) (store : Store P) (linters : Linters V)
        (clock : Clock) where
      -- `analyzeJSTS`
      pub analyze_jsts : Language → AnalysisInput → Outcome Error AnalysisOutput
      unfolding analyze_file measure_duration
      analyze_jsts language input = do
        wrapper ← get_linter linters input.linter_id
        source ← build_source_code parsers store input (some context) language
        analysis ← analyze_file wrapper input source
        returned (record {
          analysis = analysis;
          parse_time = measure_duration clock.parse_start clock.parse_end;
          analysis_time = measure_duration clock.analysis_start clock.analysis_end;
        })

      -- `runner` for `analyzeJSTS`; `none` only where the rounds do not suffice
      pub runner : (Text → Outcome Error Text) → Language → AnalysisInput → Option Answer
      unfolding answer with_content analyze_jsts
      runner read_file language input =
          answer (with_content read_file input >>= analyze_jsts language)
