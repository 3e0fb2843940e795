-- ===== src/Linter/Decoration/Laws.antt =====
-- Which rules of other packages run without type information:
-- src/linting/eslint/linter/decoration/{sanitize,decorate}.ts.
use sonar_js.Prelude.{
  ℕ, Bool, true, false, Option, none, some, List, [], ◌∷◌, ◌≡◌, ◌≢◌, refl, sym, ◌∙◌, ap, ◌⊎◌, inl,
  inr, arith, Option-cases, Bool-cases, ◌==◌, if◌then◌else◌, Keyed, get, put, get-put, has, subst,
  keys,
}
use sonar_js.Linter.Decoration.{
  comma_dangle, enforce_trailing_comma, no_throw_literal, Rule, Rules, rule_named, value_of,
  sanitize, sanitize_named, sanitize_all, decorate_named, apply_decorators, keys_of,
  decorate_external_rules,
}

module _ {Context Listeners : Type 0} (has_types : Context → Bool) (no_listeners : Listeners) where
  abbrev pub R : Type 0
  R = Rules has_types no_listeners

  abbrev pub named : R → ℕ → Option (Rule has_types no_listeners)
  named = rule_named has_types no_listeners

  -- Without type information a rule that asks for it listens to nothing.
  abbrev pub IsSafe : Option (Rule has_types no_listeners) → Type 0
  IsSafe none = Unit
  IsSafe (some rule) =
      (context : Context)
      → rule.requires_types ≡ true
      → has_types context ≡ false
      → rule.create context ≡ no_listeners

  sanitize-IsSafe :
      (rule : Rule has_types no_listeners) → IsSafe (some (sanitize has_types no_listeners rule))
  unfolding sanitize
  sanitize-IsSafe rule context a b = rw (a) (rw (b) refl)

  named-put :
      (rules : R) (k j : ℕ) (v : Option (Rule has_types no_listeners))
      → named (put rules k v) j ≡ (if k == j then v else named rules j)
  named-put rules k j v =
      ap (value_of has_types no_listeners) (get-put rules k j v) ∙ by_name (k == j)
    where
      by_name :
          (b : Bool)
          → value_of has_types no_listeners (if b then some v else get rules j)
            ≡ (if b then v else named rules j)
      by_name true = refl
      by_name false = refl

  -- all names are those of rules
  abbrev pub AllNamed : List ℕ → R → Type 0
  AllNamed names rules = (k : ℕ) → has names k ≡ true → named rules k ≢ none

  sanitize_all-step :
      (name : ℕ) (names : List ℕ) (rules : R) (rule : Rule has_types no_listeners)
      → named rules name ≡ some rule
      → sanitize_all has_types no_listeners (name ∷ names) rules
        ≡ sanitize_all has_types no_listeners names
            (put rules name (some (sanitize has_types no_listeners rule)))
  unfolding sanitize_all sanitize_named
  sanitize_all-step name names rules rule e =
      ap
        (λ o. elim (sanitize_named has_types no_listeners o name rules) [
          | none ↦ none
          | some rules' ↦ sanitize_all has_types no_listeners names rules'
        ])
        e

  sanitize_all-IsSafe :
      (names : List ℕ) (rules : R)
      → AllNamed names rules
      → (rules' : R) × (sanitize_all has_types no_listeners names rules ≡ some rules')
        × ((k : ℕ) → (has names k ≡ true) ⊎ IsSafe (named rules k) → IsSafe (named rules' k))
        × ((k : ℕ) → named rules k ≢ none → named rules' k ≢ none)
  unfolding sanitize_all
  sanitize_all-IsSafe [] rules h = (
    rules,
    refl,
    λ k c. elim c [ inl listed ↦ absurd (ground arith) | inr safe ↦ safe ],
    λ k n. n,
  )
  sanitize_all-IsSafe (name ∷ names) rules h = elim (Option-cases (named rules name)) [
    | inl missing ↦ absurd (h name (ground arith) missing)
    | inr (rule, found) ↦
        let clean = sanitize has_types no_listeners rule in
        let next : R = put rules name (some clean) in
        let stays : (k : ℕ) → named rules k ≢ none → named next k ≢ none =
          λ k n e. ground (arith, named-put rules name k (some clean), n) in
        let (rules', e, safe, kept) =
          sanitize_all-IsSafe names next (λ k n. stays k (h k (ground arith))) in
        (
          rules',
          sanitize_all-step name names rules rule found ∙ e,
          λ k c. elim (Bool-cases (name == k)) [
            | inl same ↦
                let new : named next k ≡ some clean =
                  ground (arith, named-put rules name k (some clean)) in
                safe k (inr (subst IsSafe (sym new) (sanitize-IsSafe rule)))
            | inr other ↦
                let old : named next k ≡ named rules k =
                  ground (arith, named-put rules name k (some clean)) in
                elim c [
                  | inl listed ↦ safe k (inl (ground arith))
                  | inr before ↦ safe k (inr (subst IsSafe (sym old) before))
                ]
          ],
          λ k n. kept k (stays k n),
        )
  ]

  abbrev pub Decorators : Type 0
  Decorators = Keyed (Rule has_types no_listeners → Rule has_types no_listeners)

  apply_decorators-step :
      (name : ℕ) (decorator : Rule has_types no_listeners → Rule has_types no_listeners)
      (decorators : Decorators) (rules : R) (rule : Rule has_types no_listeners)
      → named rules name ≡ some rule
      → apply_decorators has_types no_listeners ((name, decorator) ∷ decorators) rules
        ≡ apply_decorators has_types no_listeners decorators
            (put rules name (some (decorator rule)))
  unfolding apply_decorators decorate_named
  apply_decorators-step name decorator decorators rules rule e =
      ap
        (λ o. elim (decorate_named has_types no_listeners decorator o name rules) [
          | none ↦ none
          | some rules' ↦ apply_decorators has_types no_listeners decorators rules'
        ])
        e

  -- on rules that are there the decorators return, and they change only the rules that they name
  apply_decorators-other :
      (decorators : Decorators) (rules : R)
      → AllNamed (keys decorators) rules
      → (rules' : R) × (apply_decorators has_types no_listeners decorators rules ≡ some rules')
        × ((k : ℕ) → get decorators k ≡ none → named rules' k ≡ named rules k)
        × ((k : ℕ) → named rules k ≢ none → named rules' k ≢ none)
  unfolding apply_decorators
  apply_decorators-other [] rules h = (rules, refl, λ k e. refl, λ k n. n)
  apply_decorators-other ((name, decorator) ∷ decorators) rules h =
      elim (Option-cases (named rules name)) [
        | inl missing ↦ absurd (h name (ground arith) missing)
        | inr (rule, found) ↦
            let done = decorator rule in
            let next : R = put rules name (some done) in
            let stays : (k : ℕ) → named rules k ≢ none → named next k ≢ none =
              λ k n e. ground (arith, named-put rules name k (some done), n) in
            let (rules', e, other, kept) =
              apply_decorators-other decorators next (λ k n. stays k (h k (ground arith))) in
            (
              rules',
              apply_decorators-step name decorator decorators rules rule found ∙ e,
              λ k u.
                  let old : named next k ≡ named rules k =
                    ground (arith, named-put rules name k (some done)) in
                  other k (ground arith) ∙ old,
              λ k n. kept k (stays k n),
            )
      ]

  module _ (eslint_rules typescript_rules externals : R) (decorators : Decorators)
      (comma : named eslint_rules comma_dangle ≢ none)
      (throw_literal : named eslint_rules no_throw_literal ≢ none)
      (listed : AllNamed (keys_of has_types no_listeners typescript_rules) externals)
      (all_decorated : AllNamed (keys decorators) externals) where
    abbrev typescript_keys : List ℕ
    typescript_keys = keys_of has_types no_listeners typescript_rules

    abbrev with_comma : R
    with_comma = put externals enforce_trailing_comma (named eslint_rules comma_dangle)

    abbrev with_core : R
    with_core = put with_comma no_throw_literal (named eslint_rules no_throw_literal)

    with_core-AllNamed : (ks : List ℕ) → AllNamed ks externals → AllNamed ks with_core
    with_core-AllNamed ks all k h e = ground (
      arith,
      named-put externals enforce_trailing_comma k (named eslint_rules comma_dangle),
      named-put with_comma no_throw_literal k (named eslint_rules no_throw_literal),
      all k h,
      comma,
      throw_literal,
    )

    decorated :
        (k : ℕ)
        → has typescript_keys k ≡ true
        → get decorators k ≡ none
        → (rules : R) × (decorate_external_rules has_types no_listeners eslint_rules
              typescript_rules decorators externals
            ≡ some rules)
          × IsSafe (named rules k)
          × (named rules k ≢ none)
    unfolding decorate_external_rules
    decorated k h plain =
        let core = with_core-AllNamed typescript_keys listed in
        let (sanitized, e, safe, kept) = sanitize_all-IsSafe typescript_keys with_core core in
        let there : AllNamed (keys decorators) sanitized =
          λ j n. kept j (with_core-AllNamed (keys decorators) all_decorated j n) in
        let (rules, f, other, stays) = apply_decorators-other decorators sanitized there in
        (
          rules,
          ap
                (λ o. elim o [
                  | none ↦ none
                  | some r ↦ apply_decorators has_types no_listeners decorators r
                ])
                e
              ∙ f,
          subst IsSafe (sym (other k plain)) (safe k (inl h)),
          stays k (kept k (core k h)),
        )

-- Let the core rules comma-dangle and no-throw-literal be there, and let each TypeScript rule and
-- each rule that has a decorator be among the external rules. Then `decorateExternalRules` returns
-- without a TypeError; a TypeScript rule without a decorator is among the rules that it returns, and
-- in a context without type information it listens to nothing, or it does not ask for type
-- information.
pub decorate_external_rules-safe :
    {Context Listeners : Type 0} (has_types : Context → Bool) (no_listeners : Listeners)
    (eslint_rules typescript_rules externals : R has_types no_listeners)
    (decorators : Decorators has_types no_listeners)
    → named has_types no_listeners eslint_rules comma_dangle ≢ none
    → named has_types no_listeners eslint_rules no_throw_literal ≢ none
    → AllNamed has_types no_listeners (keys_of has_types no_listeners typescript_rules) externals
    → AllNamed has_types no_listeners (keys decorators) externals
    → (k : ℕ) (context : Context) → has (keys_of has_types no_listeners typescript_rules) k ≡ true
    → get decorators k ≡ none
    → has_types context ≡ false
    → (rules : R has_types no_listeners) × (rule : Rule has_types no_listeners)
      × (decorate_external_rules has_types no_listeners eslint_rules typescript_rules decorators
            externals
          ≡ some rules)
      × (named has_types no_listeners rules k ≡ some rule)
      × ((rule.create context ≡ no_listeners) ⊎ (rule.requires_types ≡ false))
decorate_external_rules-safe has_types no_listeners eslint_rules typescript_rules externals
      decorators comma throw_literal listed all_decorated k context h plain untyped =
    let (rules, e, safe, kept) =
      decorated has_types no_listeners eslint_rules typescript_rules externals decorators comma
        throw_literal listed all_decorated k h plain in
    elim (Option-cases (named has_types no_listeners rules k)) [
      | inl gone ↦ absurd (kept gone)
      | inr (rule, found) ↦
          let safe_rule = subst (IsSafe has_types no_listeners) found safe in
          (
            rules,
            rule,
            e,
            found,
            elim (Bool-cases rule.requires_types) [
              | inl asks ↦ inl (safe_rule context asks untyped)
              | inr plain_rule ↦ inr plain_rule
            ],
          )
    ]
