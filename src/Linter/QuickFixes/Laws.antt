-- ===== src/Linter/QuickFixes/Laws.antt =====
-- When `transformFixes` of quickfixes/transform.ts returns, and what.
use Prim.Native.String.{String}
use text.Mathlib.Text.{◌==◌ as str_eq}
use text.Mathlib.TextEquality.{eq_iff}
use sonar_js.Prelude.{
  ℕ, ◌≡◌, refl, sym, subst, ◌↔◌, inl, inr, Bool, true, none, some, List, [], ◌∷◌, all, arith, keep,
  ◌&&◌, and_false, false, ap, ◌∙◌, Bool-cases, Option-cases,
}
use sonar_js.Metrics.Ast.{Position, includes}
use sonar_js.Linter.Results.{throw, missing_quick_fix_message}
use sonar_js.Linter.QuickFixes.{
  LintMessage, Fix, transform_fixes, all_fixes, from_fix, has_quick_fix, has_some, truthy,
  get_quick_fix_message, quick_fix_messages, quick_fix_rules, lookup, message_or_throw,
}

keyed : List String → String × String → Bool
keyed rules entry = includes rules entry.0

lookup_found :
    (entries : List (String × String)) (rules : List String) (key value : String)
    → all (keyed rules) entries ≡ true
    → lookup entries key ≡ some value
    → includes rules key ≡ true
unfolding lookup keyed
lookup_found [] rules key value h found = ground arith
lookup_found ((k, v) ∷ entries) rules key value h found = elim (Bool-cases (str_eq k key)) [
  | inl same ↦ subst (λ t. includes rules t ≡ true) ((eq_iff k key).0 same) (ground (arith, h))
  | inr differ ↦ lookup_found entries rules key value (ground (arith, h)) (rw (differ) at found)
]

tables : all (keyed quick_fix_rules) quick_fix_messages ≡ true
unfolding keyed quick_fix_rules quick_fix_messages
tables = refl

nameless : lookup quick_fix_messages "" ≡ none
unfolding lookup quick_fix_messages
nameless = refl

-- A rule with a message for its quick fix has a name, and its quick fix is enabled.
listed :
    (id message : String)
    → lookup quick_fix_messages id ≡ some message
    → (truthy (some id) ≡ some id) × (includes quick_fix_rules id ≡ true)
unfolding truthy
listed id message found = (
  elim (Bool-cases (str_eq id "")) [
    | inl empty ↦
        let none_found =
          subst (λ t. lookup quick_fix_messages t ≡ none) (sym ((eq_iff id "").0 empty)) nameless in
        ground (arith, found, none_found)
    | inr named ↦ rw (named) refl
  ],
  lookup_found quick_fix_messages quick_fix_rules id message tables found,
)

enabled :
    (m : LintMessage) (id message : String) (fix : Fix)
    → m.rule_id ≡ some id
    → m.fix ≡ some fix
    → lookup quick_fix_messages id ≡ some message
    → has_quick_fix m ≡ true
unfolding has_quick_fix has_some
enabled m id message fix e f found =
    rw (e, f, (listed id message found).0) ((listed id message found).1)

-- rules whose quick fix is enabled and that have no message for it
abbrev pub unnamed_fixes : List String
unnamed_fixes =
    "no-unsafe-negation" ∷ "prefer-regex-literals" ∷ "no-dupe-keys" ∷ "no-duplicate-imports"
    ∷ "no-empty" ∷ "no-empty-function" ∷ "no-throw-literal" ∷ "no-unreachable" ∷ "use-isnan"
    ∷ "no-collection-size-mischeck" ∷ "no-inverted-boolean-check" ∷ "no-redundant-jump"
    ∷ "non-existent-operator" ∷ "prefer-single-boolean-return" ∷ "no-explicit-any" ∷ "prefer-for-of"
    ∷ "different-types-comparison" ∷ "inverted-assertion-arguments" ∷ "no-alphabetical-sort"
    ∷ "no-commented-code" ∷ "no-duplicate-in-composite" ∷ "no-exclusive-tests" ∷ "no-global-this"
    ∷ "no-in-misuse" ∷ "no-primitive-wrappers" ∷ "no-redundant-optional"
    ∷ "no-redundant-parentheses" ∷ "no-undefined-argument" ∷ "no-unthrown-error"
    ∷ "no-unused-function-argument" ∷ "prefer-promise-shorthand" ∷ "prefer-type-guard"
    ∷ "unused-import" ∷ []

lacks_message : String → Bool
lacks_message id = elim (lookup quick_fix_messages id) [ none ↦ true | some message ↦ false ]

includes-keep :
    (rules : List String) (id : String)
    → includes (keep lacks_message rules) id ≡ (includes rules id && lacks_message id)
includes-keep [] id = refl
includes-keep (rule ∷ rules) id = elim (Bool-cases (str_eq rule id)) [
  | inr differ ↦ elim (Bool-cases (lacks_message rule)) [
    | inl lacks ↦ rw (lacks, differ) (includes-keep rules id)
    | inr named ↦ rw (named, differ) (includes-keep rules id)
  ]
  | inl same ↦ elim (Bool-cases (lacks_message rule)) [
    | inl lacks ↦
        let also : lacks_message id ≡ true =
          subst (λ t. lacks_message t ≡ true) ((eq_iff rule id).0 same) lacks in
        rw (lacks, same, also) refl
    | inr named ↦
        let also : lacks_message id ≡ false =
          subst (λ t. lacks_message t ≡ false) ((eq_iff rule id).0 same) named in
        rw (named, same, includes-keep rules id, also) (and_false (includes rules id))
  ]
]

unnamed_fixes_lem : keep lacks_message quick_fix_rules ≡ unnamed_fixes
unfolding lacks_message quick_fix_rules quick_fix_messages lookup
unnamed_fixes_lem = refl

no_empty_rule : includes quick_fix_rules "" ≡ false
unfolding quick_fix_rules
no_empty_rule = refl

has_quick_fix_iff :
    (m : LintMessage) (id : String) (fix : Fix)
    → m.rule_id ≡ some id
    → m.fix ≡ some fix
    → has_quick_fix m ≡ includes quick_fix_rules id
unfolding has_quick_fix has_some truthy
has_quick_fix_iff m id fix e f =
    rw (e, f)
      (elim (Bool-cases (str_eq id "")) [
        | inl empty ↦ rw (empty) (
            sym (
              subst (λ t. includes quick_fix_rules t ≡ false) (sym ((eq_iff id "").0 empty))
                no_empty_rule))
        | inr named ↦ rw (named) refl
      ])

unnamed :
    (id : String) → includes unnamed_fixes id ≡ (includes quick_fix_rules id && lacks_message id)
unnamed id = ap (λ l. includes l id) (sym unnamed_fixes_lem) ∙ includes-keep quick_fix_rules id

-- `transformFixes` throws on a message with a fix exactly if its rule is one of the 33 that
-- `unnamed_fixes` lists, which are those whose quick fix is enabled without a quick fix message.
pub transform_fixes-throw :
    (loc_from_index : ℕ → Position) (m : LintMessage) (id : String) (fix : Fix)
    → m.rule_id ≡ some id
    → m.fix ≡ some fix
    → (transform_fixes loc_from_index m ≡ throw missing_quick_fix_message)
      ↔ (includes unnamed_fixes id ≡ true)
unfolding transform_fixes all_fixes from_fix get_quick_fix_message message_or_throw lacks_message
transform_fixes-throw loc_from_index m id fix e f =
    let fixed = has_quick_fix_iff m id fix e f in
    elim (Bool-cases (includes quick_fix_rules id)) [
      | inr disabled ↦ rw (fixed, disabled, unnamed id, disabled) (ground arith)
      | inl enabled ↦ elim (Option-cases (lookup quick_fix_messages id)) [
        | inl missing ↦ rw (fixed, enabled, unnamed id, enabled, e, f, missing) (ground arith)
        | inr (message, found) ↦
            rw (fixed, enabled, unnamed id, enabled, e, f, found) (ground arith)
      ]
    ]
