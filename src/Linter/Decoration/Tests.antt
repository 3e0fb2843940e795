-- ===== src/Linter/Decoration/Tests.antt =====
-- A TypeScript rule 7 that asks for types, in a context without them, and a decorator of another rule.
use sonar_js.Prelude.{
  ℕ, Bool, true, false, none, some, [], ◌∷◌, ◌≡◌, ◌≢◌, ◌⊎◌, refl, arith, has, suc, keys,
}
use sonar_js.Linter.Decoration.{
  comma_dangle, no_throw_literal, Rule, Rules, rule_named, keys_of, decorate_external_rules,
  sanitize_all, sanitize_named, apply_decorators, decorate_named, sanitize,
}
use sonar_js.Linter.Decoration.Laws.{Decorators, decorate_external_rules-safe}

-- a context says whether it has types, and the listeners are counted
abbrev has_types : Bool → Bool
has_types b = b

abbrev silent : ℕ
silent = 0

abbrev typed_rule : Rule has_types silent
typed_rule = record { requires_types = true; create = λ context. 5 }

abbrev core : Rules has_types silent
core = (comma_dangle, some typed_rule) ∷ (no_throw_literal, some typed_rule) ∷ []

abbrev typescript : Rules has_types silent
typescript = (7, some typed_rule) ∷ []

abbrev all_rules : Rules has_types silent
all_rules =
    (comma_dangle, some typed_rule)
    ∷ (no_throw_literal, some typed_rule)
    ∷ (7, some typed_rule)
    ∷ []

abbrev counted : Rule has_types silent → Rule has_types silent
counted rule = record rule { create = λ context. suc (rule.create context) }

abbrev some_decorators : Decorators has_types silent
some_decorators = (no_throw_literal, counted) ∷ []

all_decorated :
    (k : ℕ) → has (keys some_decorators) k ≡ true → rule_named has_types silent all_rules k ≢ none
all_decorated k h e = ground arith

listed :
    (k : ℕ)
    → has (keys_of has_types silent typescript) k ≡ true
    → rule_named has_types silent all_rules k ≢ none
unfolding keys_of
listed k h e = ground arith

decorate_external_rules-safe_example :
    (rules : Rules has_types silent) × (rule : Rule has_types silent) × (decorate_external_rules
        has_types silent core typescript some_decorators all_rules
      ≡ some rules)
    × (rule_named has_types silent rules 7 ≡ some rule)
    × ((rule.create false ≡ silent) ⊎ (rule.requires_types ≡ false))
unfolding keys_of
decorate_external_rules-safe_example =
    decorate_external_rules-safe has_types silent core typescript all_rules some_decorators
      (λ e. cc) (λ e. cc) listed all_decorated 7 false refl refl refl

-- a decorator of a rule that is not there is a TypeError
undefined_decorated :
    decorate_external_rules has_types silent core typescript ((9, counted) ∷ []) all_rules ≡ none
unfolding decorate_external_rules sanitize_all sanitize_named keys_of apply_decorators
    decorate_named sanitize
undefined_decorated = refl
