-- ===== src/Server/Parsing/Returns.antt =====
-- Parsing comes to an end, and what it returns is what a parser returned.
use Prim.Native.String.{String}
use sonar_js.Prelude.{◌≡◌, refl, Bool, true, false, Option, none, some, Text, ℕ}
use sonar_js.Metrics.Tokens.{SourceCode}
use sonar_js.Linter.Config.{Context}
use sonar_js.Server.Errors.{Error}
use sonar_js.Server.Outcome.{
  Outcome, returned, thrown, unfinished, Finished, Returns, Returns-bind, Returns-if,
}
use sonar_js.Server.Programs.{Store, get_program_by_id}
use sonar_js.Server.Parsing.{
  AnalysisInput, Language, js, ts, SourceType, script, module_type, javascript_parser,
  typescript_parser, ParserOptions, Parsed, parsed, failed, Parsers, parse_for_eslint, or_else_try,
  script_or_throw, program_or_throw, programs_of, build_parser_options, parse_with, build_js,
  build_vue, build_ts, build_js_or_vue, build_source_code, is_vue_file,
  should_try_type_script_parser,
}

module _ (Good : SourceCode → Type 0) where
  parse_for_eslint-Returns :
      (p : Parsed)
      → ((source : SourceCode) → p ≡ parsed source → Good source)
      → Returns Good (parse_for_eslint p)
  unfolding parse_for_eslint
  parse_for_eslint-Returns (parsed source) h = h source refl
  parse_for_eslint-Returns (failed line message) h = record {}

  or_else_try-Returns :
      (first other : Outcome Error SourceCode)
      → Returns Good first
      → Returns Good other
      → Returns Good (or_else_try first other)
  unfolding or_else_try
  or_else_try-Returns (returned source) other h g = h
  or_else_try-Returns (thrown e) other h g = g
  or_else_try-Returns unfinished other h g = elim h [ ]

  script_or_throw-Returns :
      (first other : Outcome Error SourceCode)
      → Returns Good first
      → Returns Good other
      → Returns Good (script_or_throw first other)
  unfolding script_or_throw
  script_or_throw-Returns (returned source) other h g = h
  script_or_throw-Returns (thrown e) (returned source) h g = g
  script_or_throw-Returns (thrown e) (thrown e') h g = record {}
  script_or_throw-Returns (thrown e) unfinished h g = elim g [ ]
  script_or_throw-Returns unfinished other h g = elim h [ ]

-- Each file that the parser takes is parsed to source code with `Good`.
abbrev pub AllParsed :
    {P : Type 0} → (SourceCode → Type 0) → (Text → ParserOptions P → Parsed) → Type 0
AllParsed {P = P} Good parse =
    (content : Text) (options : ParserOptions P) (source : SourceCode)
    → parse content options ≡ parsed source
    → Good source

module _ {P : Type 0} (parsers : Parsers P) (store : Store P) where
  program_or_throw-Finished :
      (id : ℕ) (found : Option P) → Finished (program_or_throw parsers store id found)
  unfolding program_or_throw
  program_or_throw-Finished id none = record {}
  program_or_throw-Finished id (some program) = record {}

  programs_of-Finished : (id : Option ℕ) → Finished (programs_of parsers store id)
  unfolding programs_of
  programs_of-Finished none = record {}
  programs_of-Finished (some id) = program_or_throw-Finished id (get_program_by_id store id)

  module _ (input : AnalysisInput) where
    module _ (Good : SourceCode → Type 0) where
      pub parse_with-Returns :
          (parse : Text → ParserOptions P → Parsed) (babel : Bool) (parser : Option String)
          (type : SourceType)
          → AllParsed Good parse
          → Returns Good (parse_with parsers store input parse babel parser type)
      unfolding parse_with build_parser_options
      parse_with-Returns parse babel parser type good =
          Returns-bind (λ _. Unit) Good (build_parser_options parsers store input babel parser type)
            _
            (Returns-bind (λ _. Unit) (λ _. Unit) (programs_of parsers store input.program_id) _
              (programs_of-Finished input.program_id) (λ _ _. record {}))
            λ options _.
              parse_for_eslint-Returns Good (parse input.file_content options)
                (good input.file_content options)

      build_ts-Returns :
          AllParsed Good parsers.typescript
          → AllParsed Good parsers.vuejs
          → (is_vue : Bool) → Returns Good (build_ts parsers store input is_vue)
      unfolding build_ts
      build_ts-Returns ts_good vue_good is_vue =
          Returns-if Good is_vue _ _
            (parse_with-Returns parsers.vuejs false (some typescript_parser) module_type vue_good)
            (parse_with-Returns parsers.typescript false none module_type ts_good)

      build_vue-Returns :
          AllParsed Good parsers.vuejs
          → (try_ts : Bool) → Returns Good (build_vue parsers store input try_ts)
      unfolding build_vue
      build_vue-Returns good try_ts =
          let as_js =
            parse_with-Returns parsers.vuejs true (some javascript_parser) module_type good in
          Returns-if Good try_ts _ _
            (or_else_try-Returns Good _ _
              (parse_with-Returns parsers.vuejs false (some typescript_parser) module_type good)
              as_js)
            as_js

      build_js-Returns :
          AllParsed Good parsers.javascript
          → AllParsed Good parsers.typescript
          → (try_ts : Bool) → Returns Good (build_js parsers store input try_ts)
      unfolding build_js
      build_js-Returns js_good ts_good try_ts =
          let as_js =
            script_or_throw-Returns Good _ _
              (parse_with-Returns parsers.javascript true none module_type js_good)
              (parse_with-Returns parsers.javascript true none script js_good) in
          Returns-if Good try_ts _ _
            (or_else_try-Returns Good _ _
              (parse_with-Returns parsers.typescript false none module_type ts_good) as_js)
            as_js

      pub build_source_code-Returns :
          AllParsed Good parsers.javascript
          → AllParsed Good parsers.typescript
          → AllParsed Good parsers.vuejs
          → (context : Option Context) (language : Language)
          → Returns Good (build_source_code parsers store input context language)
      unfolding build_source_code build_js_or_vue
      build_source_code-Returns js_good ts_good vue_good context ts =
          build_ts-Returns ts_good vue_good (is_vue_file input.file_path)
      build_source_code-Returns js_good ts_good vue_good context js =
          Returns-if Good (is_vue_file input.file_path) _ _
            (build_vue-Returns vue_good (should_try_type_script_parser context))
            (build_js-Returns js_good ts_good (should_try_type_script_parser context))
