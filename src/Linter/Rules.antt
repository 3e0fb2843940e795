-- ===== src/Linter/Rules.antt =====
-- Rule modules as the wrapper reads them: parameters/*.ts and parameters/helpers/schema.ts.
use Prim.Native.String.{String}
use text.Mathlib.Text.{◌==◌ as str_eq}
use sonar_js.Prelude.{Bool, false, Option, none, some, List, [], ◌∷◌, any}
use sonar_js.Metrics.Ast.{includes}

-- an entry of a rule's schema: its `title` and its `enum`
pub record SchemaOption : Type 0 where
  pub title : Option String
  pub enum : Option (List String)

-- `meta.schema` is one option or an array of them
pub data Schema : Type 0 where
  one : SchemaOption → Schema
  several : List SchemaOption → Schema

-- `meta.schema` of the module; `none` where `meta` or its schema is missing
pub record RuleModule : Type 0 where
  pub schema : Option Schema

pub options_of : Schema → List SchemaOption
options_of (one option) = option ∷ []
options_of (several options) = options

-- `getRuleSchema`
pub get_rule_schema : Option RuleModule → Option (List SchemaOption)
unfolding options_of
get_rule_schema none = none
get_rule_schema (some m) = elim m.schema [ none ↦ none | some schema ↦ some (options_of schema) ]

is_title : String → Option String → Bool
is_title name none = false
is_title name (some title) = str_eq title name

enum_has : String → Option (List String) → Bool
enum_has name none = false
enum_has name (some names) = includes names name

-- `hasSonarContextOption`
unfoldable pub has_sonar_context_option : Option RuleModule → Bool
unfolding get_rule_schema is_title
has_sonar_context_option m = elim (get_rule_schema m) [
  | none ↦ false
  | some schema ↦ any (λ option. is_title "sonar-context" option.title) schema
]

-- `hasSonarRuntimeOption`
unfoldable pub has_sonar_runtime_option : Option RuleModule → Bool
unfolding get_rule_schema enum_has
has_sonar_runtime_option m = elim (get_rule_schema m) [
  | none ↦ false
  | some schema ↦ any (λ option. enum_has "sonar-runtime" option.enum) schema
]
