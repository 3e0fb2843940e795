-- ===== src/Linter/Config/Laws.antt =====
-- Which rules, environments and globals the linter's configuration enables.
use Prim.Native.String.{String}
use text.Mathlib.Text.{◌==◌ as str_eq}
use text.Mathlib.TextEquality.{eq_iff}
use sonar_js.Prelude.{
  ◌≡◌, refl, sym, ap, ◌∙◌, subst, Bool, true, false, ◌||◌, Option, none, some, List, [], ◌∷◌, ◌++◌,
  keep, if◌then◌else◌, Bool-cases, inl, inr,
}
use mathlib.Core.List.{append_assoc, append-nil}
use sonar_js.Metrics.Ast.{includes}
use sonar_js.Linter.Rules.{RuleModule}
use sonar_js.Linter.Properties.{Properties, get_property, set_property, get-set}
use sonar_js.Linter.Config.{
  Context, FileType, main, test, RuleConfig, RuleOption, enable_all, create_env, create_globals,
  marker, extend_rule_config, enable_rules, enable_each, enable_internal_custom_rules,
  internal_custom_rules, create_linter_config, targets, split_rules, create_config,
}

abbrev pub or_else {ℓ} : {A : Type ℓ} → Option A → Option A → Option A
or_else none b = b
or_else (some a) b = some a

or_else_assoc {ℓ} :
    {A : Type ℓ} (a b c : Option A) → or_else (or_else a b) c ≡ or_else a (or_else b c)
or_else_assoc none b c = refl
or_else_assoc (some a) b c = refl

or_else-none {ℓ} : {A : Type ℓ} (a : Option A) → or_else a none ≡ a
or_else-none none = refl
or_else-none (some a) = refl

enable_all_lem :
    (object : Properties Bool) (names : List String) (key : String)
    → get_property (enable_all object names) key
      ≡ (if includes names key then some true else get_property object key)
unfolding enable_all
enable_all_lem object [] key = refl
enable_all_lem object (name ∷ names) key =
    enable_all_lem (set_property object name true) names key
    ∙ rw (get-set object name true key) (merge _ (includes names key) (str_eq name key))
  where
    merge :
        (o : Option Bool) (b c : Bool)
        → (if b then some true else (if c then some true else o))
          ≡ (if c || b then some true else o)
    merge o true true = refl
    merge o true false = refl
    merge o false true = refl
    merge o false false = refl

-- Exactly the given environments and es6 are enabled, and exactly the given globals.
create_env_lem :
    (names : List String) (key : String)
    → (get_property (create_env names) key
        ≡ (if includes names key || str_eq "es6" key then some true else none))
      × (get_property (create_globals names) key ≡ (if includes names key then some true else none))
unfolding create_env create_globals
create_env_lem names key = (
  enable_all_lem (("es6", true) ∷ []) names key ∙ nested (includes names key) (str_eq "es6" key),
  enable_all_lem [] names key,
)
  where
    nested :
        (b c : Bool)
        → (if b then some true else (if c then some true else none))
          ≡ (if b || c then some true else none)
    nested true c = refl
    nested false c = refl

module _ {V : Type 0} where
  each_lem :
      (rules : Properties (List (RuleOption V))) (key : String)
      → get_property (enable_each rules internal_custom_rules) key
        ≡ or_else (get_property internal_custom_rules key) (get_property rules key)
  unfolding enable_each internal_custom_rules
  each_lem rules key = elim (Bool-cases (str_eq "internal-cognitive-complexity" key)) [
    | inl first ↦
        let apart =
          subst (λ t. str_eq "internal-symbol-highlighting" t ≡ false)
            ((eq_iff "internal-cognitive-complexity" key).0 first) refl in
        rw
          (
            get-set (set_property rules "internal-cognitive-complexity" (marker "metric" ∷ []))
                "internal-symbol-highlighting" [] key,
            get-set rules "internal-cognitive-complexity" (marker "metric" ∷ []) key,
            apart,
            first,
          )
          refl
    | inr other ↦ elim (Bool-cases (str_eq "internal-symbol-highlighting" key)) [
      | inl second ↦
          rw
            (
              get-set (set_property rules "internal-cognitive-complexity" (marker "metric" ∷ []))
                  "internal-symbol-highlighting" [] key,
              second,
              other,
            )
            refl
      | inr neither ↦
          rw
            (
              get-set (set_property rules "internal-cognitive-complexity" (marker "metric" ∷ []))
                  "internal-symbol-highlighting" [] key,
              get-set rules "internal-cognitive-complexity" (marker "metric" ∷ []) key,
              neither,
              other,
            )
            refl
    ]
  ]

  push_keep :
      (xs ys : List (RuleConfig V)) (x : RuleConfig V) (b : Bool)
      → (if b then xs ++ x ∷ [] else xs) ++ ys ≡ xs ++ (if b then x ∷ ys else ys)
  push_keep xs ys x true = append_assoc xs (x ∷ []) ys
  push_keep xs ys x false = refl

  split_rules_lem :
      (main_rules test_rules inputs : List (RuleConfig V))
      → ((split_rules main_rules test_rules inputs).0 ≡ main_rules ++ keep (targets main) inputs)
        × ((split_rules main_rules test_rules inputs).1 ≡ test_rules ++ keep (targets test) inputs)
  unfolding split_rules
  split_rules_lem main_rules test_rules [] =
      (sym (append-nil main_rules), sym (append-nil test_rules))
  split_rules_lem main_rules test_rules (input ∷ inputs) =
      let rest =
        split_rules_lem (if targets main input then main_rules ++ input ∷ [] else main_rules)
          (if targets test input then test_rules ++ input ∷ [] else test_rules) inputs in
      (
        rest.0 ∙ push_keep main_rules _ input (targets main input),
        rest.1 ∙ push_keep test_rules _ input (targets test input),
      )

module _ {V : Type 0} (context : Context) (linter_rules : String → Option RuleModule) where
  -- the options of the last input of a rule
  pub last_options : List (RuleConfig V) → String → Option (List (RuleOption V))
  last_options [] key = none
  last_options (input ∷ inputs) key = or_else (last_options inputs key) (
      if str_eq input.key key
      then some (extend_rule_config context linter_rules (linter_rules input.key) input)
      else none)

  enable_rules_lem :
      (rules : Properties (List (RuleOption V))) (inputs : List (RuleConfig V)) (key : String)
      → get_property (enable_rules context linter_rules rules inputs) key
        ≡ or_else (last_options inputs key) (get_property rules key)
  unfolding enable_rules last_options
  enable_rules_lem rules [] key = refl
  enable_rules_lem rules (input ∷ inputs) key =
      let options = extend_rule_config context linter_rules (linter_rules input.key) input in
      enable_rules_lem (set_property rules input.key options) inputs key
      ∙ ap (or_else (last_options inputs key))
          (get-set rules input.key options key ∙ choose options _ (str_eq input.key key))
      ∙ sym (or_else_assoc (last_options inputs key) _ (get_property rules key))
    where
      choose :
          (o : List (RuleOption V)) (r : Option (List (RuleOption V))) (b : Bool)
          → (if b then some o else r) ≡ or_else (if b then some o else none) r
      choose o r true = refl
      choose o r false = refl

  -- the internal rules are enabled last
  enable_internal_lem :
      (rules : Properties (List (RuleOption V))) (key : String)
      → get_property (enable_internal_custom_rules context linter_rules rules) key
        ≡ or_else
            (if context.sonarlint then none else get_property internal_custom_rules key)
            (get_property rules key)
  unfolding enable_internal_custom_rules
  enable_internal_lem rules key = elim (Bool-cases context.sonarlint) [
    | inl on ↦ rw (on) refl
    | inr off ↦ rw (off) (each_lem rules key)
  ]

  created :
      (inputs : List (RuleConfig V)) (key : String)
      → get_property
          (enable_internal_custom_rules context linter_rules
            (enable_rules context linter_rules [] inputs))
          key
        ≡ or_else
            (if context.sonarlint then none else get_property internal_custom_rules key)
            (last_options inputs key)
  created inputs key =
      enable_internal_lem (enable_rules context linter_rules [] inputs) key
      ∙ ap (or_else (if context.sonarlint then none else get_property internal_custom_rules key))
          (enable_rules_lem [] inputs key ∙ or_else-none (last_options inputs key))

  -- A rule is enabled for a type of file exactly if it is an internal one, outside of SonarLint, or
  -- an input rule for that type of file. Its options are those of the internal rule, and otherwise
  -- those that the last such input rule has, extended.
  pub create_config_rules :
      (inputs : List (RuleConfig V)) (environments globs : List String) (file_type : FileType)
      (key : String)
      → get_property
          (create_config context linter_rules inputs environments globs file_type).rules
          key
        ≡ or_else
            (if context.sonarlint then none else get_property internal_custom_rules key)
            (last_options (keep (targets file_type) inputs) key)
  unfolding create_config create_linter_config
  create_config_rules inputs environments globs main key =
      rw ((split_rules_lem [] [] inputs).0) (created (keep (targets main) inputs) key)
  create_config_rules inputs environments globs test key =
      rw ((split_rules_lem [] [] inputs).1) (created (keep (targets test) inputs) key)
