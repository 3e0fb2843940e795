-- ===== src/Linter/Issues/Transform/Outcome.antt =====
-- What `transformMessages` of issues/transform.ts returns for a whole file, and what it throws.
use Prim.Native.String.{String}
use text.Mathlib.Text.{◌==◌ as str_eq}
use text.Mathlib.TextEquality.{eq_iff}
use mathlib.Core.List.{append_assoc, append-nil}
use sonar_js.Prelude.{
  Bool, subst, ◌≡◌, refl, sym, ap, ◌∙◌, true, false, Option, none, some, List, [], ◌∷◌, ◌++◌, map,
  all, keep, arith, Bool-cases, Option-cases, inl, inr,
}
use sonar_js.Metrics.Symbols.{SymbolHighlight}
use sonar_js.Linter.Results.{Result, ok, throw, ◌>>=◌, bad_symbols}
use sonar_js.Linter.QuickFixes.{LintMessage, truthy}
use sonar_js.Linter.Issues.{Issue, find_and_remove_first_issue}
use sonar_js.Linter.Issues.Transform.{
  Context, LintingResult, Collected, issue_of, is_ucfg, push_issue, complexity_in, collect_message,
  collect_messages, transform_messages, extract_highlighted_symbols, extract_cognitive_complexity,
  symbols_in, with_symbols, result_of, symbol_highlighting_rule, cognitive_complexity_rule,
}
use sonar_js.Linter.Issues.Transform.Laws.{
  reported, reported_by, without, key_of, ucfg_message, message_of, transformable,
  collect_message_lem, ok_injective, Result-cases, find_and_remove-without,
}

keep-cons :
    (m : LintMessage) (messages : List LintMessage)
    → map message_of (keep ucfg_message (m ∷ messages))
      ≡ map message_of (keep ucfg_message (m ∷ [])) ++ map message_of (keep ucfg_message messages)
keep-cons m messages = elim (Bool-cases (ucfg_message m)) [
  | inl path ↦ rw (path) refl
  | inr other ↦ rw (other) refl
]

reported-cons :
    (m : LintMessage) (messages : List LintMessage)
    → reported (m ∷ messages) ≡ reported (m ∷ []) ++ reported messages
unfolding reported
reported-cons m messages = elim (Bool-cases (is_ucfg m.rule_id)) [
  | inl path ↦ rw (path) refl
  | inr other ↦ rw (other, append-nil (reported_by (truthy m.rule_id) m.line)) refl
]

of_rule : String → Issue → Bool
of_rule rule_id issue = str_eq issue.rule_id rule_id

head_of : List Issue → Option Issue
head_of [] = none
head_of (issue ∷ issues) = some issue

-- the first issue of a rule
pub first_of : String → List Issue → Option Issue
unfolding of_rule head_of
first_of rule_id issues = head_of (keep (of_rule rule_id) issues)

find_and_remove-first :
    (issues : List Issue) (rule_id : String)
    → (find_and_remove_first_issue issues rule_id).0 ≡ first_of rule_id issues
unfolding find_and_remove_first_issue first_of of_rule head_of
find_and_remove-first [] rule_id = refl
find_and_remove-first (issue ∷ issues) rule_id = elim (Bool-cases (str_eq issue.rule_id rule_id)) [
  | inl same ↦ rw (same) refl
  | inr differ ↦ rw (differ) (find_and_remove-first issues rule_id)
]

-- an issue of symbol highlighting is none of cognitive complexity
other_rule :
    (id : String)
    → str_eq id symbol_highlighting_rule ≡ true
    → str_eq id cognitive_complexity_rule ≡ false
other_rule id h =
    subst (λ t. str_eq t cognitive_complexity_rule ≡ false)
      (sym ((eq_iff id symbol_highlighting_rule).0 h)) refl

first_of-left :
    (issues : List Issue)
    → first_of cognitive_complexity_rule
        (find_and_remove_first_issue issues symbol_highlighting_rule).1
      ≡ first_of cognitive_complexity_rule issues
unfolding find_and_remove_first_issue first_of of_rule head_of
first_of-left [] = refl
first_of-left (issue ∷ issues) = elim (Bool-cases (str_eq issue.rule_id symbol_highlighting_rule)) [
  | inl same ↦ rw (same, other_rule issue.rule_id same) refl
  | inr differ ↦ elim (Bool-cases (str_eq issue.rule_id cognitive_complexity_rule)) [
    | inl found ↦ rw (differ, found) refl
    | inr other ↦ rw (differ, other) (first_of-left issues)
  ]
]

module _ {N : Type 0} (ctx : Context N) where
  collect_messages_lem :
      (acc : Collected) (messages : List LintMessage)
      → all (transformable ctx) messages ≡ true
      → (c : Collected) × (collect_messages ctx acc messages ≡ ok c)
        × (c.ucfg_paths ≡ acc.ucfg_paths ++ map message_of (keep ucfg_message messages))
        × (map key_of c.issues ≡ map key_of acc.issues ++ reported messages)
  unfolding collect_messages reported
  collect_messages_lem acc [] h =
      (acc, refl, sym (append-nil acc.ucfg_paths), sym (append-nil (map key_of acc.issues)))
  collect_messages_lem acc (m ∷ messages) h =
      let (next, e, paths, issues) = collect_message_lem ctx acc m (ground (arith, h)) in
      let (c, d, all_paths, all_issues) = collect_messages_lem next messages (ground (arith, h)) in
      (
        c,
        rw (e) d,
        all_paths
            ∙ ap (λ l. l ++ map message_of (keep ucfg_message messages)) paths
            ∙ append_assoc acc.ucfg_paths _ _
            ∙ ap (λ l. acc.ucfg_paths ++ l) (sym (keep-cons m messages)),
        all_issues
            ∙ ap (λ l. l ++ reported messages) issues
            ∙ append_assoc (map key_of acc.issues) _ _
            ∙ ap (λ l. map key_of acc.issues ++ l) (sym (reported-cons m messages)),
      )

  -- The messages become these issues, one after the other: not those of ucfg, which are paths, and
  -- not those without a rule.
  pub data Made : List LintMessage → List Issue → Type 0 where
    nothing_left : Made [] []
    a_path :
        (m : LintMessage) {messages : List LintMessage} {issues : List Issue}
        → is_ucfg m.rule_id ≡ true
        → Made messages issues
        → Made (m ∷ messages) issues
    no_issue :
        (m : LintMessage) {messages : List LintMessage} {issues : List Issue}
        → is_ucfg m.rule_id ≡ false
        → issue_of ctx m ≡ ok none
        → Made messages issues
        → Made (m ∷ messages) issues
    an_issue :
        (m : LintMessage) (issue : Issue) {messages : List LintMessage} {issues : List Issue}
        → is_ucfg m.rule_id ≡ false
        → issue_of ctx m ≡ ok (some issue)
        → Made messages issues
        → Made (m ∷ messages) (issue ∷ issues)

  collect_messages-Made :
      (acc : Collected) (messages : List LintMessage) (c : Collected)
      → collect_messages ctx acc messages ≡ ok c
      → (issues : List Issue) × Made messages issues × (c.issues ≡ acc.issues ++ issues)
  unfolding collect_messages collect_message push_issue
  collect_messages-Made acc [] c h =
      let same : c.issues ≡ acc.issues = ap (λ x. x.issues) (sym (ok_injective h)) in
      ([], nothing_left, same ∙ sym (append-nil acc.issues))
  collect_messages-Made acc (m ∷ messages) c h = elim (Bool-cases (is_ucfg m.rule_id)) [
    | inl path ↦
        let (issues, made, e) = collect_messages-Made _ messages c (rw (path) at h) in
        (issues, a_path m path made, e)
    | inr other ↦ elim (Result-cases (issue_of ctx m)) [
      | inr (e, failed) ↦ absurd (ground (arith, rw (other, failed) at h))
      | inl (none, found) ↦
          let (issues, made, e) = collect_messages-Made acc messages c (rw (other, found) at h) in
          (issues, no_issue m other found made, e)
      | inl (some issue, found) ↦
          let (issues, made, e) = collect_messages-Made _ messages c (rw (other, found) at h) in
          (
            issue ∷ issues,
            an_issue m issue other found made,
            e ∙ append_assoc acc.issues (issue ∷ []) issues,
          )
    ]
  ]

  -- the symbols that are read of the issue of symbol highlighting, or none without one
  abbrev pub Symbols : Option Issue → List SymbolHighlight → Type 0
  Symbols none symbols = symbols ≡ []
  Symbols (some issue) symbols = ctx.parse_symbols issue.message ≡ some symbols

  -- the number that is read of the issue of cognitive complexity
  abbrev pub Complexity : Option Issue → Option N → Type 0
  Complexity none complexity = complexity ≡ none
  Complexity (some issue) complexity = complexity ≡ ctx.number issue.message

  abbrev pub Refused : Option Issue → Type 0
  Refused none = ⊥
  Refused (some issue) = ctx.parse_symbols issue.message ≡ none

  -- Of the messages that become issues, rule and line in order, the first of each internal rule
  -- is taken out, and its message is read; the paths are the texts of the messages of ucfg, in
  -- order. The only exception is the one of `JSON.parse` on the first issue of symbol highlighting.
  pub Outcome : List LintMessage → Result (LintingResult N) → Type 0
  Outcome messages (ok result) =
      (map key_of result.issues
        ≡ without cognitive_complexity_rule (without symbol_highlighting_rule (reported messages)))
      × (result.ucfg_paths ≡ map message_of (keep ucfg_message messages))
      × (issues : List Issue) × Made messages issues
      × Symbols (first_of symbol_highlighting_rule issues) result.highlighted_symbols
      × Complexity (first_of cognitive_complexity_rule issues) result.cognitive_complexity
  Outcome messages (throw e) =
      (e ≡ bad_symbols)
      × (issues : List Issue) × Made messages issues
      × Refused (first_of symbol_highlighting_rule issues)

  complexity_in-Complexity : (found : Option Issue) → Complexity found (complexity_in ctx found)
  unfolding complexity_in
  complexity_in-Complexity none = refl
  complexity_in-Complexity (some issue) = refl

  -- the extractions from the issues that the loop has made
  module _ (messages : List LintMessage) (c : Collected)
      (paths : c.ucfg_paths ≡ map message_of (keep ucfg_message messages))
      (issues : map key_of c.issues ≡ reported messages) (made : Made messages c.issues)
      (left : List Issue)
      (l : map key_of left ≡ without symbol_highlighting_rule (map key_of c.issues))
      (same_complexity : (find_and_remove_first_issue left cognitive_complexity_rule).0
        ≡ first_of cognitive_complexity_rule c.issues) where
    keys_left :
        map key_of (find_and_remove_first_issue left cognitive_complexity_rule).1
        ≡ without cognitive_complexity_rule (without symbol_highlighting_rule (reported messages))
    keys_left =
        find_and_remove-without left cognitive_complexity_rule
        ∙ ap (without cognitive_complexity_rule) (l ∙ ap (without symbol_highlighting_rule) issues)

    Complexity-left :
        Complexity
          (first_of cognitive_complexity_rule c.issues)
          (complexity_in ctx (find_and_remove_first_issue left cognitive_complexity_rule).0)
    Complexity-left =
        subst
          (λ f.
            Complexity f
              (complexity_in ctx (find_and_remove_first_issue left cognitive_complexity_rule).0))
          same_complexity (complexity_in-Complexity _)

    extractions :
        (found : Option Issue)
        → found ≡ first_of symbol_highlighting_rule c.issues
        → Outcome messages
            (with_symbols ctx (found, left) >>= λ extracted. ok (result_of ctx c extracted))
    unfolding Outcome with_symbols symbols_in result_of extract_cognitive_complexity
    extractions none f =
        (keys_left, paths, c.issues, made, subst (λ o. Symbols o []) f refl, Complexity-left)
    extractions (some issue) f = elim (Option-cases (ctx.parse_symbols issue.message)) [
      | inl bad ↦ rw (bad, Outcome) (refl, c.issues, made, subst Refused f bad)
      | inr (symbols, good) ↦
          rw (good, Outcome)
            (
              keys_left,
              paths,
              c.issues,
              made,
              subst (λ o. Symbols o symbols) f good,
              Complexity-left,
            )
    ]

  -- If no message fails to be transformed, then `transformMessages` returns the issues of the
  -- messages with a rule other than ucfg, less the first one of symbol highlighting and the first
  -- one of cognitive complexity, with their rules and lines and in order, and as paths the texts of
  -- the messages of ucfg in order. The symbols are what `JSON.parse` makes of the message of that
  -- first issue of symbol highlighting, and none without one; the complexity is the number in the
  -- message of the other. Or it throws because `JSON.parse` refuses the message of the first issue
  -- of symbol highlighting.
  pub transform_messages_lem :
      (messages : List LintMessage)
      → all (transformable ctx) messages ≡ true
      → Outcome messages (transform_messages ctx messages)
  unfolding transform_messages extract_highlighted_symbols
  transform_messages_lem messages h =
      let start : Collected = record { issues = []; ucfg_paths = [] } in
      let (c, e, paths, issues) = collect_messages_lem start messages h in
      let (all_issues, made, same) = collect_messages-Made start messages c e in
      let found = find_and_remove_first_issue c.issues symbol_highlighting_rule in
      rw (e) (
        extractions messages c paths issues (subst (Made messages) (sym same) made) found.1
          (find_and_remove-without c.issues symbol_highlighting_rule)
          (find_and_remove-first found.1 cognitive_complexity_rule ∙ first_of-left c.issues) found.0
          (find_and_remove-first c.issues symbol_highlighting_rule))
