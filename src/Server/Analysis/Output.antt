-- ===== src/Server/Analysis/Output.antt =====
-- The output for a file that is parsed and linted.
use sonar_js.Prelude.{false, ℕ, ◌≤◌, ◌≡◌, refl, List, some, Text}
use sonar_js.Metrics.Tokens.{SourceCode}
use sonar_js.Metrics.Counts.Laws.{tree_size}
use sonar_js.Linter.Config.{Context}
use sonar_js.Linter.QuickFixes.{LintMessage}
use sonar_js.Linter.Results.{ok}
use sonar_js.Linter.Issues.Transform.{LintingResult, transform_messages}
use sonar_js.Server.Outcome.{returned}
use sonar_js.Server.Programs.{Store}
use sonar_js.Server.Parsing.{AnalysisInput, Language, Parsers, build_source_code}
use sonar_js.Server.Linters.{
  Eslint, LinterWrapper, Linters, lint, raised, get_linter, file_config, transformation,
}
use sonar_js.Server.Analysis.{
  FileAnalysis, AnalysisOutput, Clock, or_zero, is_set, with_metrics, catch, measure_duration,
  analyze_file, analyze_jsts,
}
use sonar_js.Server.Analysis.Extended.{Extended, compute_extended_metrics_lem}

module _ (to_upper : Text → Text) (fuel : ℕ) {V : Type 0} (eslint : Eslint V) (context : Context)
    (input : AnalysisInput) (wrapper : LinterWrapper V) (source : SourceCode)
    (messages : List LintMessage) (result : LintingResult ℕ) where
  -- ESLint is given the configuration for the file's type and no inline configuration.
  abbrev pub Verified : Type 0
  Verified =
      eslint.verify source (file_config eslint wrapper input.file_type)
        (record { filename = input.file_path; allow_inline_config = false })
      ≡ returned messages

  abbrev pub Transformed : Type 0
  Transformed = transform_messages (transformation eslint source) messages ≡ ok result

  lint_lem :
      Verified
      → Transformed
      → lint eslint wrapper source input.file_path input.file_type ≡ returned result
  unfolding lint raised
  lint_lem verified transformed = rw (verified, transformed) refl

  analyze_file_lem :
      Verified
      → Transformed
      → tree_size source ≤ fuel
      → (a : FileAnalysis) × (analyze_file to_upper fuel eslint context wrapper input source
          ≡ returned a)
        × (a.issues ≡ result.issues)
        × (a.ucfg_paths ≡ result.ucfg_paths)
        × Extended to_upper fuel context.sonarlint input.file_type
            (is_set input.ignore_header_comments)
            source
            result.highlighted_symbols
            (or_zero result.cognitive_complexity)
            a.extended
  unfolding analyze_file with_metrics catch
  analyze_file_lem verified transformed h =
      let (extended, computes, holds) =
        compute_extended_metrics_lem to_upper fuel context input source result.highlighted_symbols
          result.cognitive_complexity h in
      (_, rw (lint_lem verified transformed, computes) refl, refl, refl, holds)

  -- Let the linter of the input be initialized, the file be parsed, `verify` return messages under
  -- the configuration for the file's type, and these be transformed. With a round for each node
  -- `analyzeJSTS` returns the issues and paths of the result, and what belongs to the file: in
  -- SonarLint only the lines with NOSONAR, else the highlighting and, for a main file, all metrics
  -- and the tokens for copy-paste detection.
  pub analyze_jsts_lem :
      {P : Type 0} (parsers : Parsers P) (store : Store P) (linters : Linters V) (clock : Clock)
      (language : Language)
      → get_linter linters input.linter_id ≡ returned wrapper
      → build_source_code parsers store input (some context) language ≡ returned source
      → Verified
      → Transformed
      → tree_size source ≤ fuel
      → (o : AnalysisOutput) × (analyze_jsts to_upper fuel eslint context parsers store linters
            clock language input
          ≡ returned o)
        × (o.analysis.issues ≡ result.issues)
        × (o.analysis.ucfg_paths ≡ result.ucfg_paths)
        × Extended to_upper fuel context.sonarlint input.file_type
            (is_set input.ignore_header_comments)
            source
            result.highlighted_symbols
            (or_zero result.cognitive_complexity)
            o.analysis.extended
  unfolding analyze_jsts
  analyze_jsts_lem parsers store linters clock language found built verified transformed h =
      let (a, analyzes, issues, paths, holds) = analyze_file_lem verified transformed h in
      let o : AnalysisOutput = record {
        analysis = a;
        parse_time = measure_duration clock.parse_start clock.parse_end;
        analysis_time = measure_duration clock.analysis_start clock.analysis_end;
      } in
      (o, rw (found, built, analyzes) refl, issues, paths, holds)
