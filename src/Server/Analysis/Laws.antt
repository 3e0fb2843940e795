-- ===== src/Server/Analysis/Laws.antt =====
-- Each request is answered.
use sonar_js.Prelude.{
  ℕ, ◌≤◌, ◌≡◌, refl, ◌∙◌, ◌⊎◌, inl, inr, ◌&&◌, not, false, some, List, Text, is_empty,
}
use sonar_js.Metrics.Tokens.{SourceCode}
use sonar_js.Metrics.Counts.Laws.{tree_size}
use sonar_js.Linter.Config.{Context}
use sonar_js.Linter.QuickFixes.{LintMessage}
use sonar_js.Linter.Issues.Transform.{LintingResult, transform_messages}
use sonar_js.Linter.Issues.Transform.Laws.{Result-cases}
use sonar_js.Server.Errors.{Error, ErrorCode, Response, error_middleware}
use sonar_js.Server.Errors.Laws.{code_in, message_in, error_middleware_lem}
use sonar_js.Server.Outcome.{
  Outcome, returned, thrown, unfinished, Finished, Returns-bind, Returns-if,
}
use sonar_js.Server.Programs.{Store}
use sonar_js.Server.Parsing.{AnalysisInput, Language, Parsers, build_source_code}
use sonar_js.Server.Parsing.Returns.{build_source_code-Returns}
use sonar_js.Server.Linters.{
  FileConfig, VerifyOptions, Eslint, LinterWrapper, Linters, get_linter, file_config,
  transformation,
}
use sonar_js.Server.Linters.Laws.{get_linter-Finished}
use sonar_js.Server.Analysis.Extended.{Extended}
use sonar_js.Server.Analysis.Failures.{
  Fails, no_linter, unparsable, crash, untransformable, Fails-Throws,
}
use sonar_js.Server.Analysis.Output.{Verified, Transformed, analyze_jsts_lem}
use sonar_js.Server.Analysis.{
  AnalysisOutput, Clock, Answer, output, error_response, or_zero, is_set, analyze_jsts, answer,
  with_content, runner,
}

-- ESLint's `verify` comes to an end.
abbrev pub VerifyEnds : {V : Type 0} → Eslint V → Type 0
VerifyEnds {V = V} eslint =
    (source : SourceCode) (config : FileConfig V) (options : VerifyOptions)
    → Finished (eslint.verify source config options)

ended :
    {E A : Type 0} (o : Outcome E A)
    → Finished o
    → ((a : A) × (o ≡ returned a)) ⊎ ((e : E) × (o ≡ thrown e))
ended (returned a) h = inl (a, refl)
ended (thrown e) h = inr (e, refl)
ended unfinished h = elim h [ ]

with_content-Finished :
    (read_file : Text → Outcome Error Text) (input : AnalysisInput)
    → ((path : Text) → Finished (read_file path))
    → Finished (with_content read_file input)
unfolding with_content
with_content-Finished read_file input reads =
    Returns-if (λ _. Unit) (not (is_empty input.file_path) && is_empty input.file_content) _ _
      (Returns-bind (λ _. Unit) (λ _. Unit) (read_file input.file_path) _ (reads input.file_path)
        λ _ _. record {})
      (record {})

module _ (to_upper : Text → Text) (fuel : ℕ) {V : Type 0} (eslint : Eslint V) (context : Context)
    {P : Type 0} (parsers : Parsers P) (store : Store P) (linters : Linters V) (clock : Clock)
    (language : Language) where
  -- What a request with its content is answered: the output, if the linter is there, the file is
  -- parsed and verified and the messages are transformed, and else the response to what goes wrong
  -- first.
  pub data Answered (input : AnalysisInput) : Answer → Type 0 where
    analysed :
        (wrapper : LinterWrapper V) (source : SourceCode) (messages : List LintMessage)
        (result : LintingResult ℕ) (o : AnalysisOutput)
        → get_linter linters input.linter_id ≡ returned wrapper
        → build_source_code parsers store input (some context) language ≡ returned source
        → Verified to_upper fuel eslint context input wrapper source messages result
        → Transformed to_upper fuel eslint context input wrapper source messages result
        → o.analysis.issues ≡ result.issues
        → o.analysis.ucfg_paths ≡ result.ucfg_paths
        → Extended to_upper fuel context.sonarlint input.file_type
            (is_set input.ignore_header_comments)
            source
            result.highlighted_symbols
            (or_zero result.cognitive_complexity)
            o.analysis.extended
        → Answered input (output o)
    refused :
        {code : ErrorCode} {message : Text} (r : Response)
        → Fails eslint context parsers store linters language input code message
        → code_in r ≡ code
        → message_in r ≡ message
        → Answered input (error_response r)

  abbrev Decided : AnalysisInput → Type 0
  Decided input =
      (a : Answer) × Answered input a
      × (answer
            (analyze_jsts to_upper fuel eslint context parsers store linters clock language input)
          ≡ some a)

  failed :
      (input : AnalysisInput) {code : ErrorCode} {message : Text}
      → Fails eslint context parsers store linters language input code message
      → Decided input
  unfolding answer
  failed input fails =
      let (e, thrown_e, code, message) =
        Fails-Throws to_upper fuel eslint context parsers store linters clock language input
          fails in
      let (same_code, same_message) = error_middleware_lem e in
      (
        error_response (error_middleware e),
        refused (error_middleware e) fails (same_code ∙ code) (same_message ∙ message),
        rw (thrown_e) refl,
      )

  verified :
      (input : AnalysisInput) (wrapper : LinterWrapper V) (source : SourceCode)
      → VerifyEnds eslint
      → get_linter linters input.linter_id ≡ returned wrapper
      → build_source_code parsers store input (some context) language ≡ returned source
      → tree_size source ≤ fuel
      → Decided input
  unfolding answer
  verified input wrapper source ends found built h =
      elim (ended (eslint.verify source _ _) (
        ends source (file_config eslint wrapper input.file_type)
          (record { filename = input.file_path; allow_inline_config = false }))) [
            | inr (x, crashes) ↦ failed input (crash wrapper source found built crashes)
            | inl (messages, good) ↦
                elim (Result-cases (transform_messages (transformation eslint source) messages)) [
                  | inr (t, fails) ↦
                      failed input (untransformable wrapper source messages found built good fails)
                  | inl (result, transformed) ↦
                      let (o, e, issues, paths, extended) =
                        analyze_jsts_lem to_upper fuel eslint context input wrapper source messages
                          result parsers store linters clock language found built good transformed
                          h in
                      (
                        output o,
                        analysed wrapper source messages result o found built good transformed
                            issues paths extended,
                        rw (e) refl,
                      )
                ]
          ]

  decided :
      (input : AnalysisInput)
      → VerifyEnds eslint
      → ((source : SourceCode)
          → build_source_code parsers store input (some context) language ≡ returned source
          → tree_size source ≤ fuel)
      → Decided input
  decided input ends enough =
      elim (ended (get_linter linters input.linter_id)
        (get_linter-Finished linters input.linter_id)) [
          | inr (e, missing) ↦ failed input (no_linter missing)
          | inl (wrapper, found) ↦
              elim (ended (build_source_code parsers store input (some context) language) (
                build_source_code-Returns parsers store input (λ _. Unit) (λ _ _ _ _. record {})
                  (λ _ _ _ _. record {}) (λ _ _ _ _. record {}) (some context) language)) [
                    | inr (e, fails) ↦ failed input (unparsable wrapper found fails)
                    | inl (source, built) ↦
                        verified input wrapper source ends found built (enough source built)
                  ]
        ]

  -- Each request for an analysis is answered, if reading a file and `verify` come to an end and there
  -- is a round for each node of the tree that is built for this request. If the file cannot be read,
  -- it is the response to that error. Else, with the content in place, it is the output, with the
  -- issues, the paths and the metrics of the file, if the linter is there, the file is parsed and
  -- verified and the messages are transformed; or it is the response with the code and the message
  -- of the first of these that fails.
  pub runner-answers :
      (read_file : Text → Outcome Error Text) (input : AnalysisInput)
      → ((path : Text) → Finished (read_file path))
      → VerifyEnds eslint
      → ((full : AnalysisInput) (source : SourceCode)
          → with_content read_file input ≡ returned full
          → build_source_code parsers store full (some context) language ≡ returned source
          → tree_size source ≤ fuel)
      → ((e : Error) × (with_content read_file input ≡ thrown e)
          × (runner to_upper fuel eslint context parsers store linters clock read_file language
                input
              ≡ some (error_response (error_middleware e))))
        ⊎ ((full : AnalysisInput) × (with_content read_file input ≡ returned full)
            × (a : Answer) × Answered full a
            × (runner to_upper fuel eslint context parsers store linters clock read_file language
                  input
                ≡ some a))
  unfolding runner answer
  runner-answers read_file input reads ends enough =
      elim (ended (with_content read_file input) (with_content-Finished read_file input reads)) [
        | inr (e, unread) ↦ inl (e, unread, rw (unread) refl)
        | inl (full, read) ↦
            let (a, answered, e) = decided full ends (λ source. enough full source read) in
            inr (full, read, a, answered, rw (read) e)
      ]
