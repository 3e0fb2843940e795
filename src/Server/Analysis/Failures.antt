-- ===== src/Server/Analysis/Failures.antt =====
-- The responses to requests that fail.
use sonar_js.Prelude.{
  and_false, ℕ, ◌≡◌, refl, ◌∙◌, inl, inr, false, some, Text, List, if◌then◌else◌, not, is_empty,
  Bool-cases,
}
use sonar_js.Metrics.Tokens.{SourceCode}
use sonar_js.Linter.Config.{Context}
use sonar_js.Linter.QuickFixes.{LintMessage}
use sonar_js.Linter.Results.{throw, Thrown}
use sonar_js.Linter.Issues.Transform.{transform_messages}
use sonar_js.Server.Errors.{
  Error, ErrorCode, failing_type_script, failing_type_script_error, Response, error_middleware,
  error_message, as_api_error,
}
use sonar_js.Server.Errors.Laws.{code_in, message_in, error_middleware_lem}
use sonar_js.Server.Outcome.{Outcome, returned, thrown}
use sonar_js.Server.Programs.{Store}
use sonar_js.Server.Parsing.{AnalysisInput, Language, Parsers, build_source_code}
use sonar_js.Server.Linters.{
  Exception, Eslint, LinterWrapper, Linters, lint, raised, get_linter, file_config, transformation,
}
use sonar_js.Server.Analysis.{
  Clock, error_response, contains, compiler_frame, rethrown, catch, analyze_file, analyze_jsts,
  answer, with_content, runner,
}

-- The code of a failing compiler where the stack mentions it; the code of the error itself elsewhere.
abbrev pub code_of_exception : Exception → ErrorCode
code_of_exception x =
    if contains x.stack compiler_frame then failing_type_script else (as_api_error x.error).code

module _ {V : Type 0} (eslint : Eslint V) (context : Context) {P : Type 0} (parsers : Parsers P)
    (store : Store P) (linters : Linters V) (language : Language) (input : AnalysisInput) where
  -- What goes wrong first, with the code and the message that the client is to be told.
  pub data Fails : ErrorCode → Text → Type 0 where
    no_linter :
        {e : Error}
        → get_linter linters input.linter_id ≡ thrown e
        → Fails (as_api_error e).code (error_message e)
    unparsable :
        {e : Error} (wrapper : LinterWrapper V)
        → get_linter linters input.linter_id ≡ returned wrapper
        → build_source_code parsers store input (some context) language ≡ thrown e
        → Fails (as_api_error e).code (error_message e)
    crash :
        {x : Exception} (wrapper : LinterWrapper V) (source : SourceCode)
        → get_linter linters input.linter_id ≡ returned wrapper
        → build_source_code parsers store input (some context) language ≡ returned source
        → eslint.verify source
            (file_config eslint wrapper input.file_type)
            (record { filename = input.file_path; allow_inline_config = false })
          ≡ thrown x
        → Fails (code_of_exception x) (error_message x.error)
    untransformable :
        {t : Thrown} (wrapper : LinterWrapper V) (source : SourceCode) (messages : List LintMessage)
        → get_linter linters input.linter_id ≡ returned wrapper
        → build_source_code parsers store input (some context) language ≡ returned source
        → eslint.verify source
            (file_config eslint wrapper input.file_type)
            (record { filename = input.file_path; allow_inline_config = false })
          ≡ returned messages
        → transform_messages (transformation eslint source) messages ≡ throw t
        → Fails
            (code_of_exception (eslint.exception_of t))
            (error_message (eslint.exception_of t).error)

module _ (to_upper : Text → Text) (fuel : ℕ) {V : Type 0} (eslint : Eslint V)
    (context : Context) where
  rethrown_lem :
      (x : Exception)
      → ((as_api_error (rethrown x)).code ≡ code_of_exception x)
        × (error_message (rethrown x) ≡ error_message x.error)
  unfolding rethrown as_api_error error_message failing_type_script_error
  rethrown_lem x = elim (Bool-cases (contains x.stack compiler_frame)) [
    | inl e ↦ rw (e) (refl, refl)
    | inr e ↦ rw (e) (refl, refl)
  ]

  module _ (wrapper : LinterWrapper V) (input : AnalysisInput) (source : SourceCode) where
    verify-thrown :
        {x : Exception}
        → eslint.verify source
            (file_config eslint wrapper input.file_type)
            (record { filename = input.file_path; allow_inline_config = false })
          ≡ thrown x
        → analyze_file to_upper fuel eslint context wrapper input source ≡ thrown (rethrown x)
    unfolding analyze_file catch lint
    verify-thrown e = rw (e) refl

    transform-thrown :
        {t : Thrown} (messages : List LintMessage)
        → eslint.verify source
            (file_config eslint wrapper input.file_type)
            (record { filename = input.file_path; allow_inline_config = false })
          ≡ returned messages
        → transform_messages (transformation eslint source) messages ≡ throw t
        → analyze_file to_upper fuel eslint context wrapper input source
          ≡ thrown (rethrown (eslint.exception_of t))
    unfolding analyze_file catch lint raised
    transform-thrown messages e e' = rw (e, e') refl

  module _ {P : Type 0} (parsers : Parsers P) (store : Store P) (linters : Linters V)
      (clock : Clock) (language : Language) (input : AnalysisInput) where
    -- the analysis throws an error with this code and message
    abbrev pub Throws : ErrorCode → Text → Type 0
    Throws code message =
        (e : Error) × (analyze_jsts to_upper fuel eslint context parsers store linters clock
            language input
          ≡ thrown e)
        × ((as_api_error e).code ≡ code)
        × (error_message e ≡ message)

    Throws-rethrown :
        (x : Exception) (wrapper : LinterWrapper V) (source : SourceCode)
        → get_linter linters input.linter_id ≡ returned wrapper
        → build_source_code parsers store input (some context) language ≡ returned source
        → analyze_file to_upper fuel eslint context wrapper input source ≡ thrown (rethrown x)
        → Throws (code_of_exception x) (error_message x.error)
    unfolding analyze_jsts
    Throws-rethrown x wrapper source found built e =
        let (code, message) = rethrown_lem x in
        (rethrown x, rw (found, built, e) refl, code, message)

    pub Fails-Throws :
        {code : ErrorCode} {message : Text}
        → Fails eslint context parsers store linters language input code message
        → Throws code message
    unfolding analyze_jsts
    Fails-Throws (no_linter {e = e} missing) = (e, rw (missing) refl, refl, refl)
    Fails-Throws (unparsable {e = e} wrapper found fails) = (e, rw (found, fails) refl, refl, refl)
    Fails-Throws (crash {x = x} wrapper source found built e) =
        Throws-rethrown x wrapper source found built (verify-thrown wrapper input source e)
    Fails-Throws (untransformable {t = t} wrapper source messages found built verified e) =
        Throws-rethrown (eslint.exception_of t) wrapper source found built
          (transform-thrown wrapper input source messages verified e)

    -- Let the content of the file come with the request. What goes wrong first decides the answer:
    -- the response carries its message, and the code of its error, but of a failing compiler if the
    -- stack of an exception of the linter or the transformation mentions typescript.js.
    pub runner_failure :
        {code : ErrorCode} {message : Text} (read_file : Text → Outcome Error Text)
        → is_empty input.file_content ≡ false
        → Fails eslint context parsers store linters language input code message
        → (r : Response) × (runner to_upper fuel eslint context parsers store linters clock
              read_file language input
            ≡ some (error_response r))
          × (code_in r ≡ code)
          × (message_in r ≡ message)
    unfolding runner answer with_content
    runner_failure read_file given fails =
        let (e, thrown_e, code, message) = Fails-Throws fails in
        let (same_code, same_message) = error_middleware_lem e in
        (
          error_middleware e,
          rw (given, and_false (not (is_empty input.file_path)), thrown_e) refl,
          same_code ∙ code,
          same_message ∙ message,
        )
