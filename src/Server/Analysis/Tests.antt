-- ===== src/Server/Analysis/Tests.antt =====
-- Requests for an empty program, for one that crashes the compiler and for one that no parser takes.
use Prim.Native.String.{String}
use sonar_js.Prelude.{
  ap, subst, ◌⊎◌, ℕ, ◌≤◌, ◌≡◌, refl, Bool, true, false, none, some, List, [], ◌∷◌, Text, codes,
  arith, if◌then◌else◌, text_eq,
}
use sonar_js.Metrics.Ast.{node, no_props, children_of, height}
use sonar_js.Metrics.Tokens.{SourceCode}
use sonar_js.Metrics.Counts.Laws.{tree_size}
use sonar_js.Linter.Config.{Context, main, create_config}
use sonar_js.Linter.QuickFixes.{LintMessage}
use sonar_js.Linter.Issues.Transform.{LintingResult, transform_messages}
use sonar_js.Linter.Issues.Transform.Laws.{transform_messages_nothing}
use sonar_js.Linter.Results.{ok}
use sonar_js.Metrics.Visitor.Preorder.{preorder}
use sonar_js.Server.Errors.{
  Error, Response, error_middleware, other_error, error_message, as_api_error, failing_type_script,
}
use sonar_js.Server.Errors.Laws.{code_in, message_in}
use sonar_js.Server.Outcome.{Outcome, returned, thrown, Finished, Returns}
use sonar_js.Server.Programs.{initial}
use sonar_js.Server.Parsing.{
  AnalysisInput, js, ParserOptions, Parsed, parsed, failed, Parsers, build_source_code,
  build_js_or_vue, build_js, is_vue_file, or_else_try, script_or_throw, parse_with,
  build_parser_options, programs_of, parse_for_eslint, should_try_type_script_parser,
}
use sonar_js.Server.Linters.{
  FileConfig, VerifyOptions, Exception, Eslint, Linters, LinterWrapper, get_linter, or_default,
  linter_or_throw, transformation,
}
use sonar_js.Server.Analysis.{
  Clock, Answer, contains, or_zero, is_set, AnalysisOutput, error_response, runner, with_content,
  analyze_jsts,
}
use sonar_js.Server.Parsing.Returns.{AllParsed, build_source_code-Returns}
use sonar_js.Server.Analysis.Extended.{Extended}
use sonar_js.Server.Analysis.Laws.{VerifyEnds, Answered, runner-answers}
use sonar_js.Server.Analysis.Output.{analyze_jsts_lem}
use sonar_js.Server.Analysis.Failures.{runner_failure, Fails, crash}

abbrev source : SourceCode
source = record {
  ast = node "Program" none no_props;
  tokens = [];
  comments = [];
  template_body = none;
  visitor_keys = λ type. none;
  first_token = none;
  header = [];
  get_tokens = λ n. [];
}

abbrev parse : Text → ParserOptions ℕ → Parsed
parse content options = parsed source

abbrev parsers : Parsers ℕ
parsers = record { javascript = parse; typescript = parse; vuejs = parse; id_text = λ id. id ∷ [] }

abbrev crash_exception : Exception
crash_exception = record {
  error = other_error (codes "Debug Failure");
  stack = codes "at typescript.js:1";
}

-- `verify` of a linter that finds nothing, and of one that crashes on the file `b.js`
abbrev verify : SourceCode → FileConfig ℕ → VerifyOptions → Outcome Exception (List LintMessage)
verify s config options =
    if text_eq options.filename (codes "b.js") then thrown crash_exception else returned []

abbrev eslint : Eslint ℕ
eslint = record {
  rules = λ key. none;
  verify = verify;
  loc_from_index = λ s i. record { line = 1; column = i };
  parse_encoded = λ text. none;
  parse_symbols = λ text. none;
  number = λ text. none;
  exception_of = λ e. crash_exception;
}

abbrev context : Context
context = record {
  work_dir = "";
  should_use_type_script_parser_for_js = true;
  sonarlint = false;
  bundles = [];
}

abbrev wrapper : LinterWrapper ℕ
wrapper = record { config = create_config context (λ key. none) [] [] [] }

abbrev linters : Linters ℕ
linters = ("default", wrapper) ∷ []

abbrev input : String → AnalysisInput
input path = record {
  file_path = codes path;
  file_content = codes "x";
  linter_id = none;
  file_type = main;
  ignore_header_comments = none;
  ts_configs = none;
  program_id = none;
}

abbrev clock : Clock
clock = record { parse_start = 0; parse_end = 1500; analysis_start = 2000; analysis_end = 4000 }

abbrev read_nothing : Text → Outcome Error Text
read_nothing path = returned []

linter_found : get_linter linters none ≡ returned wrapper
unfolding get_linter or_default linter_or_throw
linter_found = refl

parsed_a : build_source_code parsers initial (input "a.js") (some context) js ≡ returned source
unfolding build_source_code build_js_or_vue build_js is_vue_file or_else_try script_or_throw
    parse_with build_parser_options programs_of parse_for_eslint should_try_type_script_parser
parsed_a = refl

parsed_b : build_source_code parsers initial (input "b.js") (some context) js ≡ returned source
unfolding build_source_code build_js_or_vue build_js is_vue_file or_else_try script_or_throw
    parse_with build_parser_options programs_of parse_for_eslint should_try_type_script_parser
parsed_b = refl

one_node : tree_size source ≤ 1
unfolding preorder children_of height
one_node = omega arith

abbrev result : LintingResult ℕ
result = record {
  issues = [];
  ucfg_paths = [];
  highlighted_symbols = [];
  cognitive_complexity = none;
}

transformed : transform_messages (transformation eslint source) [] ≡ ok result
transformed = transform_messages_nothing (transformation eslint source)

crashes :
    Fails eslint context parsers initial linters js
      (input "b.js")
      failing_type_script
      (codes "Debug Failure")
unfolding contains error_message as_api_error
crashes = crash wrapper source linter_found parsed_b refl

runner_failure_example :
    (r : Response) × (runner
        (λ t. t)
        1
        eslint
        context
        parsers
        initial
        linters
        clock
        read_nothing
        js
        (input "b.js")
      ≡ some (error_response r))
    × (code_in r ≡ failing_type_script)
    × (message_in r ≡ codes "Debug Failure")
runner_failure_example =
    runner_failure (λ t. t) 1 eslint context parsers initial linters clock js (input "b.js")
      read_nothing refl crashes

verify-ends : VerifyEnds eslint
verify-ends s config options = ended (text_eq options.filename (codes "b.js"))
  where
    ended :
        (b : Bool)
        → Finished {A = List LintMessage} (if b then thrown crash_exception else returned [])
    ended true = record {}
    ended false = record {}

reads : (path : Text) → Finished (read_nothing path)
reads path = record {}

Small : SourceCode → Type 0
Small s = tree_size s ≤ 1

parsed-Small : AllParsed Small parse
unfolding Small
parsed-Small content options s e = subst Small (ap source_of e) one_node
  where
    source_of : Parsed → SourceCode
    source_of (parsed s) = s
    source_of (failed line message) = source

-- whatever the request is, there is a round for the node that is built
enough :
    (full : AnalysisInput) (s : SourceCode)
    → with_content read_nothing (input "a.js") ≡ returned full
    → build_source_code parsers initial full (some context) js ≡ returned s
    → tree_size s ≤ 1
unfolding Small
enough full s read built = subst (Returns Small) built (
    build_source_code-Returns parsers initial full Small parsed-Small parsed-Small parsed-Small
      (some context) js)

runner-answers_example :
    ((e : Error) × (with_content read_nothing (input "a.js") ≡ thrown e)
      × (runner
            (λ t. t)
            1
            eslint
            context
            parsers
            initial
            linters
            clock
            read_nothing
            js
            (input "a.js")
          ≡ some (error_response (error_middleware e))))
    ⊎ ((full : AnalysisInput) × (with_content read_nothing (input "a.js") ≡ returned full)
        × (a : Answer) × Answered (λ t. t) 1 eslint context parsers initial linters clock js full a
        × (runner
              (λ t. t)
              1
              eslint
              context
              parsers
              initial
              linters
              clock
              read_nothing
              js
              (input "a.js")
            ≡ some a))
runner-answers_example =
    runner-answers (λ t. t) 1 eslint context parsers initial linters clock js read_nothing
      (input "a.js") reads verify-ends enough

analyze_jsts_lem_example :
    (o : AnalysisOutput) × (analyze_jsts
        (λ t. t)
        1
        eslint
        context
        parsers
        initial
        linters
        clock
        js
        (input "a.js")
      ≡ returned o)
    × (o.analysis.issues ≡ result.issues)
    × (o.analysis.ucfg_paths ≡ result.ucfg_paths)
    × Extended (λ t. t) 1 false main false source [] 0 o.analysis.extended
unfolding or_zero is_set
analyze_jsts_lem_example =
    analyze_jsts_lem (λ t. t) 1 eslint context (input "a.js") wrapper source [] result parsers
      initial linters clock js linter_found parsed_a refl transformed one_node
