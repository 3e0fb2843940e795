-- ===== src/Server/Linters/Tests.antt =====
-- Two requests for the default linter.
use Prim.Native.String.{String}
use sonar_js.Prelude.{ℕ, ◌≡◌, ◌⊎◌, true, Option, none, some, List, [], ◌∷◌, ◌++◌, codes}
use sonar_js.Linter.Config.{Context}
use sonar_js.Server.Errors.{api_error, linter_error}
use sonar_js.Server.Outcome.{returned, thrown}
use sonar_js.Server.Linters.{Eslint, get_linter, or_default}
use sonar_js.Server.Linters.Laws.{
  InitRequest, last_for, initialize_all, wrapper_for, get_linter_lem,
}

abbrev eslint : Eslint ℕ
eslint = record {
  rules = λ key. none;
  verify = λ source config options. returned [];
  loc_from_index = λ source i. record { line = 1; column = i };
  parse_encoded = λ text. none;
  parse_symbols = λ text. none;
  number = λ text. none;
  exception_of = λ e. record { error = api_error (linter_error []); stack = [] };
}

abbrev context : Context
context = record {
  work_dir = "";
  should_use_type_script_parser_for_js = true;
  sonarlint = true;
  bundles = [];
}

abbrev request : Option String → InitRequest ℕ
request id = record {
  input_rules = [];
  environments = some ("node" ∷ []);
  globals = none;
  linter_id = id;
}

abbrev requests : List (InitRequest ℕ)
requests = request none ∷ request (some "unchanged") ∷ request (some "default") ∷ []

get_linter_lem_example :
    ((last_for (or_default none) requests ≡ none)
      × (get_linter (initialize_all eslint context [] requests) none
          ≡ thrown (
              api_error (
                linter_error (
                  codes "Linter "
                  ++ codes (or_default none)
                  ++ codes " does not exist. Did you call /init-linter?")))))
    ⊎ ((r : InitRequest ℕ) × (last_for (or_default none) requests ≡ some r)
        × (get_linter (initialize_all eslint context [] requests) none
            ≡ returned (wrapper_for eslint context r)))
get_linter_lem_example = get_linter_lem eslint context requests none
