-- ===== src/Server/Parsing/Laws.antt =====
-- Which attempt at parsing a file counts.
use sonar_js.Prelude.{
  ◌≡◌, refl, ◌⊎◌, inl, inr, Bool, true, false, Option, none, some, ℕ, codes, starts_with,
  Bool-cases, if◌then◌else◌,
}
use sonar_js.Metrics.Tokens.{SourceCode}
use sonar_js.Server.Errors.{Error, api_error, parsing_error, failing_type_script_error}
use sonar_js.Server.Outcome.{Outcome, returned, thrown}
use sonar_js.Server.Programs.{Store, get_program_by_id}
use sonar_js.Server.Parsing.{
  AnalysisInput, SourceType, script, module_type, ParserOptions, Parsed, parsed, failed, Parsers,
  parse_failure, parse_for_eslint, or_else_try, script_or_throw, program_or_throw, programs_of,
  build_parser_options, parse_with, build_js,
}

-- what counts of the file as a module and as a script: the first that is parsed, or the error of
-- the module
abbrev pub module_or_script : Parsed → Parsed → Parsed
module_or_script (parsed source) as_script = parsed source
module_or_script (failed line message) (parsed source) = parsed source
module_or_script (failed line message) (failed line' message') = failed line message

-- what counts if the TypeScript parser is to be tried or not
abbrev pub preferred : Bool → Parsed → Parsed → Parsed → Parsed
preferred true (parsed source) as_module as_script = parsed source
preferred true (failed line message) as_module as_script = module_or_script as_module as_script
preferred false as_ts as_module as_script = module_or_script as_module as_script

-- The outcome has the source code, or the error, which is one of TypeScript exactly if its message
-- begins so.
abbrev pub ComesTo : Parsed → Outcome Error SourceCode → Type 0
ComesTo (parsed source) o = o ≡ returned source
ComesTo (failed line message) o =
    ((starts_with message (codes "Debug Failure") ≡ true)
      × (o ≡ thrown (api_error (failing_type_script_error message))))
    ⊎ ((starts_with message (codes "Debug Failure") ≡ false)
        × (o ≡ thrown (api_error (parsing_error message line))))

parse_for_eslint-ComesTo : (p : Parsed) → ComesTo p (parse_for_eslint p)
unfolding parse_for_eslint parse_failure
parse_for_eslint-ComesTo (parsed source) = refl
parse_for_eslint-ComesTo (failed line message) =
    elim (Bool-cases (starts_with message (codes "Debug Failure"))) [
      | inl begins ↦ inl (begins, rw (begins) refl)
      | inr other ↦ inr (other, rw (other) refl)
    ]

module_or_script-ComesTo :
    (m s : Parsed)
    → ComesTo (module_or_script m s) (script_or_throw (parse_for_eslint m) (parse_for_eslint s))
unfolding script_or_throw parse_for_eslint
module_or_script-ComesTo (parsed source) s = refl
module_or_script-ComesTo (failed line message) (parsed source) = refl
module_or_script-ComesTo (failed line message) (failed line' message') =
    parse_for_eslint-ComesTo (failed line message)

preferred-ComesTo :
    (try_ts : Bool) (t m s : Parsed)
    → ComesTo (preferred try_ts t m s) (
        let as_js = script_or_throw (parse_for_eslint m) (parse_for_eslint s) in
        if try_ts then or_else_try (parse_for_eslint t) as_js else as_js)
unfolding or_else_try parse_for_eslint
preferred-ComesTo true (parsed source) m s = refl
preferred-ComesTo true (failed line message) m s = module_or_script-ComesTo m s
preferred-ComesTo false t m s = module_or_script-ComesTo m s

module _ {P : Type 0} (parsers : Parsers P) (store : Store P) (input : AnalysisInput)
    (programs : Option P) where
  -- The programs for the parser are there: none are asked for, or the store has the one asked for.
  abbrev pub HasPrograms : Type 0
  HasPrograms =
      ((input.program_id ≡ none) × (programs ≡ none))
      ⊎ ((id : ℕ) × (program : P) × (input.program_id ≡ some id)
          × (get_program_by_id store id ≡ some program)
          × (programs ≡ some program))

  abbrev pub options_for : Bool → SourceType → ParserOptions P
  options_for using_babel source_type = record {
    source_type = source_type;
    using_babel = using_babel;
    parser = none;
    file_path = input.file_path;
    project = input.ts_configs;
    programs = programs;
  }

  programs_found : HasPrograms → programs_of parsers store input.program_id ≡ returned programs
  unfolding programs_of program_or_throw
  programs_found (inl (e, f)) = rw (e, f) refl
  programs_found (inr (id, program, e, found, f)) = rw (e, found, f) refl

  parse_with_lem :
      (parse : _) (using_babel : Bool) (source_type : SourceType)
      → HasPrograms
      → parse_with parsers store input parse using_babel none source_type
        ≡ parse_for_eslint (parse input.file_content (options_for using_babel source_type))
  unfolding parse_with build_parser_options
  parse_with_lem parse using_babel source_type h = rw (programs_found h) refl

  -- Let the programs that the input asks for be there. Then `buildJs` answers with what the
  -- TypeScript parser makes of the content as a module, without Babel, if it is to be tried and
  -- succeeds; else with what the JavaScript parser makes of the content as a module or, if that
  -- fails, as a script, with Babel in both cases. If that fails too, the error is the one of the
  -- module. The options carry the path of the file, its projects and the programs.
  pub build_js_lem :
      (try_ts : Bool)
      → HasPrograms
      → ComesTo
          (preferred try_ts
            (parsers.typescript input.file_content (options_for false module_type))
            (parsers.javascript input.file_content (options_for true module_type))
            (parsers.javascript input.file_content (options_for true script)))
          (build_js parsers store input try_ts)
  unfolding build_js
  build_js_lem try_ts h =
      rw
        (
          parse_with_lem parsers.typescript false module_type h,
          parse_with_lem parsers.javascript true module_type h,
          parse_with_lem parsers.javascript true script h,
        )
        (preferred-ComesTo try_ts _ _ _)
