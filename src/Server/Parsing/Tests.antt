-- ===== src/Server/Parsing/Tests.antt =====
-- A script that is no module, where the TypeScript parser is not to be tried.
use sonar_js.Prelude.{ℕ, ◌≡◌, inr, refl, false, none, some, [], ◌∷◌, Text, codes, true}
use sonar_js.Metrics.Ast.{node, no_props}
use sonar_js.Metrics.Tokens.{SourceCode}
use sonar_js.Linter.Config.{main}
use sonar_js.Server.Outcome.{returned}
use sonar_js.Server.Programs.{Store, initial, get_program_by_id}
use sonar_js.Server.Parsing.{
  AnalysisInput, SourceType, script, module_type, ParserOptions, Parsed, parsed, failed, Parsers,
  build_js, script_or_throw, parse_with, build_parser_options, programs_of, parse_for_eslint,
}
use sonar_js.Server.Parsing.Laws.{ComesTo, preferred, options_for, build_js_lem}

abbrev source : SourceCode
source = record {
  ast = node "Program" none no_props;
  tokens = [];
  comments = [];
  template_body = none;
  visitor_keys = λ type. none;
  first_token = none;
  header = [];
  get_tokens = λ n. [];
}

-- a parser that takes scripts only
abbrev parse_as : SourceType → Parsed
parse_as script = parsed source
parse_as module_type = failed 1 (codes "Unexpected token")

abbrev parse : Text → ParserOptions ℕ → Parsed
parse content options = parse_as options.source_type

abbrev parsers : Parsers ℕ
parsers = record { javascript = parse; typescript = parse; vuejs = parse; id_text = λ id. [] }

abbrev input : AnalysisInput
input = record {
  file_path = codes "a.js";
  file_content = codes "with (a) {}";
  linter_id = none;
  file_type = main;
  ignore_header_comments = none;
  ts_configs = none;
  program_id = none;
}

parsed_as_script : build_js parsers initial input false ≡ returned source
unfolding build_js script_or_throw parse_with build_parser_options programs_of parse_for_eslint
parsed_as_script = refl

abbrev input_with_program : AnalysisInput
input_with_program = record input { program_id = some 1 }

abbrev store : Store ℕ
store = record { programs = (1, 7) ∷ []; program_count = 1 }

stored : get_program_by_id store 1 ≡ some 7
unfolding get_program_by_id
stored = refl

build_js_lem_example :
    ComesTo
      (preferred true
        (parsers.typescript input.file_content
          (options_for parsers store input_with_program (some 7) false module_type))
        (parsers.javascript input.file_content
          (options_for parsers store input_with_program (some 7) true module_type))
        (parsers.javascript input.file_content
          (options_for parsers store input_with_program (some 7) true script)))
      (build_js parsers store input_with_program true)
build_js_lem_example =
    build_js_lem parsers store input_with_program (some 7) true (inr (1, 7, refl, stored, refl))
