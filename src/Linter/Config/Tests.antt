-- ===== src/Linter/Config/Tests.antt =====
-- A configuration with a rule that is given twice.
use Prim.Native.String.{String}
use sonar_js.Prelude.{ℕ, ◌≡◌, true, false, Option, none, List, [], ◌∷◌, keep}
use sonar_js.Linter.Rules.{RuleModule}
use sonar_js.Linter.Properties.{get_property}
use sonar_js.Linter.Config.{
  Context, main, test, RuleConfig, create_config, targets, internal_custom_rules,
}
use sonar_js.Linter.Config.Laws.{or_else, last_options, create_config_rules}

abbrev server : Context
server = record {
  work_dir = "/tmp";
  should_use_type_script_parser_for_js = true;
  sonarlint = false;
  bundles = [];
}

abbrev no_modules : String → Option RuleModule
no_modules key = none

abbrev inputs : List (RuleConfig ℕ)
inputs =
    record { key = "max-lines"; configurations = 1 ∷ []; file_type_target = main ∷ [] }
    ∷ record { key = "max-lines"; configurations = 2 ∷ []; file_type_target = main ∷ test ∷ [] }
    ∷ []

create_config_rules_example :
    get_property (create_config server no_modules inputs [] [] main).rules "max-lines"
    ≡ or_else
        (get_property internal_custom_rules "max-lines")
        (last_options server no_modules (keep (targets main) inputs) "max-lines")
create_config_rules_example = create_config_rules server no_modules inputs [] [] main "max-lines"
