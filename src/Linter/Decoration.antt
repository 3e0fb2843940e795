-- ===== src/Linter/Decoration.antt =====
-- The decoration of rules of other packages: src/linting/eslint/linter/decoration/{sanitize,decorate}.ts
-- and the loader of the external rules in src/linting/eslint/linter/bundle-loader.ts.
-- A number stands for each name of a rule. The contexts of ESLint and the listeners that a rule
-- returns are arguments. `none` is a TypeError: a rule is undefined where its fields are read.
pub mod Laws
mod Tests
use sonar_js.Prelude.{
  ℕ, Bool, true, false, not, ◌&&◌, Option, none, some, List, [], ◌∷◌, if◌then◌else◌, Keyed, get,
  put,
}

-- `requires_types` is `meta.docs.requiresTypeChecking === true`
pub record RuleModule (Context Listeners : Type 0) : Type 0 where
  pub requires_types : Bool
  pub create : Context → Listeners

abbrev pub comma_dangle : ℕ
comma_dangle = 0

abbrev pub enforce_trailing_comma : ℕ
enforce_trailing_comma = 1

abbrev pub no_throw_literal : ℕ
no_throw_literal = 2

module _ {Context Listeners : Type 0} (has_types : Context → Bool) (no_listeners : Listeners) where
  abbrev pub Rule : Type 0
  Rule = RuleModule Context Listeners

  -- an object of rules; the value of a name can be undefined
  abbrev pub Rules : Type 0
  Rules = Keyed (Option Rule)

  abbrev pub value_of : Option (Option Rule) → Option Rule
  value_of none = none
  value_of (some rule) = rule

  abbrev pub rule_named : Rules → ℕ → Option Rule
  rule_named rules name = value_of (get rules name)

  -- `sanitizeTypeScriptESLintRule`
  pub sanitize : Rule → Rule
  sanitize rule = record {
    requires_types = rule.requires_types;
    create = λ context.
        if rule.requires_types && not (has_types context)
        then no_listeners
        else rule.create context;
  }

  sanitize_named : Option Rule → ℕ → Rules → Option Rules
  unfolding sanitize
  sanitize_named none name rules = none
  sanitize_named (some rule) name rules = some (put rules name (some (sanitize rule)))

  pub sanitize_all : List ℕ → Rules → Option Rules
  unfolding sanitize_named
  sanitize_all [] rules = some rules
  sanitize_all (name ∷ names) rules = elim (sanitize_named (rule_named rules name) name rules) [
    | none ↦ none
    | some rules' ↦ sanitize_all names rules'
  ]

  -- A decorator reads `rule.meta`, in `interceptReport` at the latest.
  decorate_named : (Rule → Rule) → Option Rule → ℕ → Rules → Option Rules
  decorate_named decorator none name rules = none
  decorate_named decorator (some rule) name rules = some (put rules name (some (decorator rule)))

  -- the loop over the decorators
  pub apply_decorators : Keyed (Rule → Rule) → Rules → Option Rules
  unfolding decorate_named
  apply_decorators [] rules = some rules
  apply_decorators ((name, decorator) ∷ decorators) rules =
      elim (decorate_named decorator (rule_named rules name) name rules) [
        | none ↦ none
        | some rules' ↦ apply_decorators decorators rules'
      ]

  -- the entries of one package after the other
  pub add_rules : Rules → Rules → Rules
  add_rules rules [] = rules
  add_rules rules ((name, rule) ∷ entries) = add_rules (put rules name rule) entries

  pub keys_of : Rules → List ℕ
  keys_of [] = []
  keys_of ((name, rule) ∷ rules) = name ∷ keys_of rules

  module _ (eslint_rules typescript_rules : Rules) (decorators : Keyed (Rule → Rule)) where
    -- `decorateExternalRules`
    pub decorate_external_rules : Rules → Option Rules
    unfolding sanitize_all apply_decorators keys_of
    decorate_external_rules external_rules =
        let with_comma =
          put external_rules enforce_trailing_comma (rule_named eslint_rules comma_dangle) in
        let with_core =
          put with_comma no_throw_literal (rule_named eslint_rules no_throw_literal) in
        elim (sanitize_all (keys_of typescript_rules) with_core) [
          | none ↦ none
          | some sanitized ↦ apply_decorators decorators sanitized
        ]

    -- the rules that `externalRules` of the loaders defines
    pub external_rules : Rules → Option Rules
    unfolding decorate_external_rules add_rules
    external_rules react_rules =
        decorate_external_rules
          (add_rules (add_rules (add_rules [] eslint_rules) typescript_rules) react_rules)
