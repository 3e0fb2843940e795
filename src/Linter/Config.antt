-- ===== src/Linter/Config.antt =====
-- The linter's configuration: config/{linter-config,rule-config}.ts and `createConfig` of
-- wrapper.ts. The configurations of rules come from the analyzer, so their type is an argument.
mod Laws
mod Tests
use Prim.Native.String.{String}
use text.Mathlib.Text.{◌==◌ as str_eq}
use sonar_js.Prelude.{
  ℕ, Bool, true, false, ◌||◌, ◌&&◌, not, Option, none, some, List, [], ◌∷◌, ◌++◌, map, any,
  if◌then◌else◌,
}
use sonar_js.Linter.Rules.{RuleModule, has_sonar_runtime_option, has_sonar_context_option}
use sonar_js.Linter.Properties.{Properties, set_property}

-- `Context` of src/helpers/context.ts
pub record Context : Type 0 where
  pub work_dir : String
  pub should_use_type_script_parser_for_js : Bool
  pub sonarlint : Bool
  pub bundles : List String

pub data FileType : Type 0 where
  main test : FileType

pub record RuleConfig (V : Type 0) : Type 0 where
  pub key : String
  pub configurations : List V
  pub file_type_target : List FileType

-- what stands behind 'error' in the configuration of a rule
pub data RuleOption (V : Type 0) : Type 0 where
  configured : V → RuleOption V
  marker : String → RuleOption V
  context_option : Context → RuleOption V

abbrev pub sonar_runtime : String
sonar_runtime = "sonar-runtime"

pub record LinterConfig (V : Type 0) : Type 0 where
  pub env : Properties Bool
  pub globals : Properties Bool
  pub source_type : String
  pub ecma_version : ℕ
  pub rules : Properties (List (RuleOption V))
  pub react_version : String

-- `createEnv`, and `createGlobals` from the empty object
pub enable_all : Properties Bool → List String → Properties Bool
enable_all object [] = object
enable_all object (key ∷ keys) = enable_all (set_property object key true) keys

pub create_env : List String → Properties Bool
unfolding enable_all
create_env environments = enable_all (("es6", true) ∷ []) environments

pub create_globals : List String → Properties Bool
unfolding enable_all
create_globals globs = enable_all [] globs

abbrev pub file_type_eq : FileType → FileType → Bool
file_type_eq main main = true
file_type_eq test test = true
file_type_eq _ _ = false

module _ {V : Type 0} where
  -- `customRules`: the keys of the internal rules and their configurations
  pub internal_custom_rules : Properties (List (RuleOption V))
  internal_custom_rules =
      ("internal-cognitive-complexity", marker "metric" ∷ [])
      ∷ ("internal-symbol-highlighting", [])
      ∷ []

  -- the loop of `enableInternalCustomRules`
  pub enable_each :
      Properties (List (RuleOption V))
      → Properties (List (RuleOption V))
      → Properties (List (RuleOption V))
  enable_each rules [] = rules
  enable_each rules ((key, options) ∷ internal) =
      enable_each (set_property rules key options) internal

  pub targets : FileType → RuleConfig V → Bool
  targets file_type input = any (file_type_eq file_type) input.file_type_target

  -- the loop of `createConfig`: the rules for main files and those for test files
  pub split_rules :
      List (RuleConfig V)
      → List (RuleConfig V)
      → List (RuleConfig V)
      → List (RuleConfig V) × List (RuleConfig V)
  unfolding targets
  split_rules main_rules test_rules [] = (main_rules, test_rules)
  split_rules main_rules test_rules (input ∷ inputs) =
      split_rules (if targets main input then main_rules ++ input ∷ [] else main_rules)
        (if targets test input then test_rules ++ input ∷ [] else test_rules) inputs

module _ {V : Type 0} (context : Context) (linter_rules : String → Option RuleModule) where
  -- `extendRuleConfig`
  pub extend_rule_config : Option RuleModule → RuleConfig V → List (RuleOption V)
  extend_rule_config rule_module input =
      map configured input.configurations
      ++ (if has_sonar_runtime_option rule_module then marker sonar_runtime ∷ [] else [])
      ++ (if has_sonar_context_option rule_module then context_option context ∷ [] else [])

  -- `enableRules`
  pub enable_rules :
      Properties (List (RuleOption V)) → List (RuleConfig V) → Properties (List (RuleOption V))
  unfolding extend_rule_config
  enable_rules rules [] = rules
  enable_rules rules (input ∷ inputs) =
      enable_rules
        (set_property rules input.key (extend_rule_config (linter_rules input.key) input)) inputs

  -- `enableInternalCustomRules`
  pub enable_internal_custom_rules :
      Properties (List (RuleOption V)) → Properties (List (RuleOption V))
  unfolding enable_each
  enable_internal_custom_rules rules =
      if not context.sonarlint then enable_each rules internal_custom_rules else rules

  -- `createLinterConfig`
  pub create_linter_config : List (RuleConfig V) → List String → List String → LinterConfig V
  unfolding create_env create_globals enable_rules enable_internal_custom_rules
  create_linter_config input_rules environments globs = record {
    env = create_env environments;
    globals = create_globals globs;
    source_type = "module";
    ecma_version = 2018;
    rules = enable_internal_custom_rules (enable_rules [] input_rules);
    react_version = "999.999.999";
  }

  -- `createConfig`, as a function of the type of file
  pub create_config : List (RuleConfig V) → List String → List String → FileType → LinterConfig V
  unfolding split_rules create_linter_config
  create_config input_rules environments globs main =
      create_linter_config ((split_rules [] [] input_rules).0) environments globs
  create_config input_rules environments globs test =
      create_linter_config ((split_rules [] [] input_rules).1) environments globs
