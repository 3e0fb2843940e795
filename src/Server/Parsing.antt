-- ===== src/Server/Parsing.antt =====
-- Parsing of a file: src/parsing/jsts. The parsers and what TypeScript calls a program are
-- arguments.
pub mod Returns
mod Laws
mod Tests
use Prim.Native.String.{String}
use sonar_js.Prelude.{
  ℕ, Bool, true, false, Option, none, some, List, [], ◌∷◌, ◌++◌, reverse, if◌then◌else◌, Text,
  codes, starts_with,
}
use sonar_js.Metrics.Tokens.{SourceCode}
use sonar_js.Linter.Config.{Context, FileType}
use sonar_js.Server.Errors.{
  ApiError, Error, api_error, other_error, parsing_error, failing_type_script_error,
}
use sonar_js.Server.Outcome.{Outcome, returned, thrown, unfinished, ◌>>=◌}
use sonar_js.Server.Programs.{Store, get_program_by_id}

-- `JsTsAnalysisInput`; the content is empty where it is missing
pub record AnalysisInput : Type 0 where
  pub file_path : Text
  pub file_content : Text
  pub linter_id : Option String
  pub file_type : FileType
  pub ignore_header_comments : Option Bool
  pub ts_configs : Option (List Text)
  pub program_id : Option ℕ

pub data Language : Type 0 where
  js ts : Language

pub data SourceType : Type 0 where
  script module_type : SourceType

-- `Linter.ParserOptions`, without its constants
pub record ParserOptions (P : Type 0) : Type 0 where
  pub source_type : SourceType
  pub using_babel : Bool
  pub parser : Option String
  pub file_path : Text
  pub project : Option (List Text)
  pub programs : Option P

-- What a parser and `new SourceCode` come to: `failed` has the message and the line, which is read of
-- errors other than those of the TypeScript compiler.
pub data Parsed : Type 0 where
  parsed : SourceCode → Parsed
  failed : ℕ → Text → Parsed

-- `parsers`, and how a program's identifier is written
pub record Parsers (P : Type 0) : Type 0 where
  pub javascript : Text → ParserOptions P → Parsed
  pub typescript : Text → ParserOptions P → Parsed
  pub vuejs : Text → ParserOptions P → Parsed
  pub id_text : ℕ → Text

abbrev pub javascript_parser : String
javascript_parser = "@babel/eslint-parser"

abbrev pub typescript_parser : String
typescript_parser = "@typescript-eslint/parser"

-- the error of the `catch` in `parseForESLint`
pub parse_failure : ℕ → Text → ApiError
parse_failure line message =
    if starts_with message (codes "Debug Failure")
    then failing_type_script_error message
    else parsing_error message line

-- `parseForESLint`
unfoldable pub parse_for_eslint : Parsed → Outcome Error SourceCode
unfolding parse_failure
parse_for_eslint (parsed source) = returned source
parse_for_eslint (failed line message) = thrown (api_error (parse_failure line message))

-- `try { return first } catch { }`, followed by other code
unfoldable pub or_else_try :
    Outcome Error SourceCode → Outcome Error SourceCode → Outcome Error SourceCode
or_else_try (returned source) other = returned source
or_else_try (thrown e) other = other
or_else_try unfinished other = unfinished

-- the last `try` of `buildJs`: its own error gives way to that of the module
unfoldable pub script_or_throw :
    Outcome Error SourceCode → Outcome Error SourceCode → Outcome Error SourceCode
script_or_throw (returned source) other = returned source
script_or_throw unfinished other = unfinished
script_or_throw (thrown module_error) (returned source) = returned source
script_or_throw (thrown module_error) (thrown e) = thrown module_error
script_or_throw (thrown module_error) unfinished = unfinished

-- `filePath.endsWith('.vue')`
unfoldable pub is_vue_file : Text → Bool
is_vue_file file_path = starts_with (reverse file_path) (reverse (codes ".vue"))

-- `shouldTryTypeScriptParser`
unfoldable pub should_try_type_script_parser : Option Context → Bool
should_try_type_script_parser none = true
should_try_type_script_parser (some context) = context.should_use_type_script_parser_for_js

module _ {P : Type 0} (parsers : Parsers P) (store : Store P) where
  program_or_throw : ℕ → Option P → Outcome Error (Option P)
  program_or_throw id none =
      thrown (other_error (codes "Failed to find program " ++ parsers.id_text id))
  program_or_throw id (some program) = returned (some program)

  -- the programs of `buildParserOptions`
  unfoldable pub programs_of : Option ℕ → Outcome Error (Option P)
  unfolding program_or_throw
  programs_of none = returned none
  programs_of (some id) = program_or_throw id (get_program_by_id store id)

  module _ (input : AnalysisInput) where
    -- `buildParserOptions`
    unfoldable pub build_parser_options :
        Bool → Option String → SourceType → Outcome Error (ParserOptions P)
    unfolding programs_of
    build_parser_options using_babel parser source_type = do
      programs ← programs_of input.program_id
      returned (record {
        source_type = source_type;
        using_babel = using_babel;
        parser = parser;
        file_path = input.file_path;
        project = input.ts_configs;
        programs = programs;
      })

    -- a parser on the content of the file with options that are built for it
    unfoldable pub parse_with :
        (Text → ParserOptions P → Parsed)
        → Bool
        → Option String
        → SourceType
        → Outcome Error SourceCode
    unfolding build_parser_options parse_for_eslint
    parse_with parse using_babel parser source_type = do
      options ← build_parser_options using_babel parser source_type
      parse_for_eslint (parse input.file_content options)

    -- the attempts of `buildJs`
    abbrev pub as_type_script : Outcome Error SourceCode
    as_type_script = parse_with parsers.typescript false none module_type

    abbrev pub as_module : Outcome Error SourceCode
    as_module = parse_with parsers.javascript true none module_type

    abbrev pub as_script : Outcome Error SourceCode
    as_script = parse_with parsers.javascript true none script

    -- `buildJs`
    unfoldable pub build_js : Bool → Outcome Error SourceCode
    unfolding or_else_try script_or_throw
    build_js try_type_script =
        let as_js = script_or_throw as_module as_script in
        if try_type_script then or_else_try as_type_script as_js else as_js

    -- `buildVue`
    unfoldable pub build_vue : Bool → Outcome Error SourceCode
    unfolding or_else_try parse_with
    build_vue try_type_script =
        let as_js = parse_with parsers.vuejs true (some javascript_parser) module_type in
        if try_type_script
        then or_else_try (parse_with parsers.vuejs false (some typescript_parser) module_type) as_js
        else as_js

    -- `buildTs`
    unfoldable pub build_ts : Bool → Outcome Error SourceCode
    unfolding parse_with
    build_ts is_vue =
        if is_vue
        then parse_with parsers.vuejs false (some typescript_parser) module_type
        else parse_with parsers.typescript false none module_type

    unfoldable pub build_js_or_vue : Option Context → Outcome Error SourceCode
    unfolding build_js build_vue is_vue_file should_try_type_script_parser
    build_js_or_vue context =
        if is_vue_file input.file_path
        then build_vue (should_try_type_script_parser context)
        else build_js (should_try_type_script_parser context)

    -- `buildSourceCode`
    unfoldable pub build_source_code : Option Context → Language → Outcome Error SourceCode
    unfolding build_js_or_vue build_ts is_vue_file
    build_source_code context ts = build_ts (is_vue_file input.file_path)
    build_source_code context js = build_js_or_vue context
