-- ===== src/Linter/Issues/Transform/Laws.antt =====
-- What `transformMessages` of issues/transform.ts returns, and when it throws.
use Prim.Native.String.{String}
use text.Mathlib.Text.{◌==◌ as str_eq}
use mathlib.Core.List.{append-nil, map-append}
use mathlib.Core.Bool.{false≢true}
use sonar_js.Prelude.{
  ℕ, ◌≡◌, refl, sym, ap, ◌∙◌, subst, Bool, true, false, ◌||◌, Option, none, some, List, [], ◌∷◌,
  ◌++◌, map, if◌then◌else◌, keep, Text, arith, Bool-cases, inl, inr, ◌⊎◌, Option-cases,
}
use sonar_js.Linter.Results.{Result, ok, throw, Thrown}
use sonar_js.Linter.Rules.{RuleModule, has_sonar_runtime_option}
use sonar_js.Linter.QuickFixes.{transform_fixes, LintMessage, truthy}
use sonar_js.Linter.Issues.{
  Issue, issue_with, EncodedMessage, decode_sonar_runtime, parsed, spread, convert_message,
  convert_with, normalize_location, find_and_remove_first_issue,
}
use sonar_js.Linter.Issues.Transform.{
  Context, Collected, issue_of, finish, is_ucfg, push_issue, collect_message, collect_messages,
  extract_highlighted_symbols, with_symbols, symbols_in, result_of, extract_cognitive_complexity,
  complexity_in, transform_messages,
}

abbrev pub is_ok {ℓ} : {A : Type ℓ} → Result A → Bool
is_ok (ok a) = true
is_ok (throw e) = false

-- the rule of a reported message, if it has one, and its line
abbrev pub reported_by : Option String → ℕ → List (String × ℕ)
reported_by none line = []
reported_by (some rule_id) line = (rule_id, line) ∷ []

-- The messages that become issues are those with a rule other than ucfg.
unfoldable pub reported : List LintMessage → List (String × ℕ)
reported [] = []
reported (m ∷ messages) =
    let rest = reported messages in
    if is_ucfg m.rule_id then rest else reported_by (truthy m.rule_id) m.line ++ rest

-- a list without the first entry of a rule
pub without : String → List (String × ℕ) → List (String × ℕ)
without rule_id [] = []
without rule_id (entry ∷ entries) =
    let rest = without rule_id entries in if str_eq entry.0 rule_id then entries else entry ∷ rest

pub key_of : Issue → String × ℕ
key_of issue = (issue.rule_id, issue.line)

pub ucfg_message : LintMessage → Bool
ucfg_message m = is_ucfg m.rule_id

pub message_of : LintMessage → Text
message_of m = m.message

pub ok_injective {ℓ} : {A : Type ℓ} {a b : A} → ok a ≡ ok b → a ≡ b
ok_injective {a = a} h = ap (λ r. elim r [ ok x ↦ x | throw e ↦ a ]) h

pub Result-cases {ℓ} :
    {A : Type ℓ} (r : Result A) → ((a : A) × (r ≡ ok a)) ⊎ ((e : Thrown) × (r ≡ throw e))
Result-cases (ok a) = inl (a, refl)
Result-cases (throw e) = inr (e, refl)

decode_sonar_runtime-key :
    (parse : Text → Option EncodedMessage) (rule_module : Option RuleModule) (issue decoded : Issue)
    → decode_sonar_runtime parse rule_module issue ≡ ok decoded
    → key_of decoded ≡ key_of issue
unfolding decode_sonar_runtime parsed spread key_of
decode_sonar_runtime-key parse rule_module issue decoded h =
    elim (Bool-cases (has_sonar_runtime_option rule_module)) [
      | inr plain ↦ ap key_of (sym (ok_injective (rw (plain) at h)))
      | inl runtime ↦ elim (Option-cases (parse issue.message)) [
        | inl bad ↦ ground (arith, rw (runtime, bad) at h)
        | inr (content, good) ↦ ap key_of (sym (ok_injective (rw (runtime, good) at h)))
      ]
    ]

pub find_and_remove-without :
    (issues : List Issue) (rule_id : String)
    → map key_of ((find_and_remove_first_issue issues rule_id).1)
      ≡ without rule_id (map key_of issues)
unfolding find_and_remove_first_issue without key_of
find_and_remove-without [] rule_id = refl
find_and_remove-without (issue ∷ issues) rule_id =
    elim (Bool-cases (str_eq issue.rule_id rule_id)) [
      | inl same ↦ rw (same) refl
      | inr differ ↦
          rw (differ)
            (ap (λ l. (issue.rule_id, issue.line) ∷ l) (find_and_remove-without issues rule_id))
    ]

maybe : Option Issue → List Issue
maybe none = []
maybe (some issue) = issue ∷ []

push_issue-maybe :
    (acc : Collected) (found : Option Issue)
    → ((push_issue acc found).issues ≡ acc.issues ++ maybe found)
      × ((push_issue acc found).ucfg_paths ≡ acc.ucfg_paths)
unfolding push_issue maybe
push_issue-maybe acc none = (sym (append-nil acc.issues), refl)
push_issue-maybe acc (some issue) = (refl, refl)

module _ {N : Type 0} (ctx : Context N) where
  -- The message becomes an issue, a path or nothing, and nothing is thrown.
  unfoldable pub transformable : LintMessage → Bool
  transformable m = is_ucfg m.rule_id || is_ok (issue_of ctx m)

  finish-key :
      (issue : Issue) (found : Option Issue)
      → finish ctx (some issue) ≡ ok found
      → map key_of (maybe found) ≡ key_of issue ∷ []
  unfolding finish maybe normalize_location key_of
  finish-key issue found h =
      elim (Result-cases (decode_sonar_runtime ctx.parse_encoded (ctx.rules issue.rule_id) issue)) [
        | inr failed ↦ ground (arith, rw (failed.1) at h)
        | inl decoded ↦
            subst (λ f. map key_of (maybe f) ≡ key_of issue ∷ [])
              (ok_injective (rw (decoded.1) at h))
              (ap (λ k. k ∷ [])
                (decode_sonar_runtime-key ctx.parse_encoded (ctx.rules issue.rule_id) issue
                  decoded.0 decoded.1))
      ]

  issue_of-key :
      (m : LintMessage) (found : Option Issue)
      → issue_of ctx m ≡ ok found
      → map key_of (maybe found) ≡ reported_by (truthy m.rule_id) m.line
  unfolding issue_of convert_message convert_with issue_with key_of maybe
  issue_of-key m found h = elim (Option-cases (truthy m.rule_id)) [
    | inl nameless ↦
        subst (λ f. map key_of (maybe f) ≡ reported_by (truthy m.rule_id) m.line)
          (ok_injective (rw (nameless) at h)) (rw (nameless) refl)
    | inr (id, named) ↦ elim (Result-cases (transform_fixes ctx.loc_from_index m)) [
      | inr failed ↦ ground (arith, rw (named, failed.1) at h)
      | inl fixes ↦
          rw (named) (finish-key (issue_with m id fixes.0) found (rw (named, fixes.1) at h))
    ]
  ]

  -- one round: the path or the issue of the message is pushed
  pub collect_message_lem :
      (acc : Collected) (m : LintMessage)
      → transformable m ≡ true
      → (next : Collected) × (collect_message ctx acc m ≡ ok next)
        × (next.ucfg_paths ≡ acc.ucfg_paths ++ map message_of (keep ucfg_message (m ∷ [])))
        × (map key_of next.issues ≡ map key_of acc.issues ++ reported (m ∷ []))
  unfolding collect_message transformable ucfg_message message_of reported
  collect_message_lem acc m h = elim (Bool-cases (is_ucfg m.rule_id)) [
    | inl path ↦ (
      record { issues = acc.issues; ucfg_paths = acc.ucfg_paths ++ m.message ∷ [] },
      rw (path) refl,
      rw (path) refl,
      rw (path) (sym (append-nil (map key_of acc.issues))),
    )
    | inr issue ↦ elim (Result-cases (issue_of ctx m)) [
      | inr failed ↦ absurd (false≢true (rw (issue, failed.1) at h))
      | inl found ↦
          let pushed = push_issue-maybe acc found.0 in
          (
            push_issue acc found.0,
            rw (issue, found.1) refl,
            rw (issue) (pushed.1 ∙ sym (append-nil acc.ucfg_paths)),
            rw (issue, append-nil (reported_by (truthy m.rule_id) m.line))
                (ap (map key_of) pushed.0
                  ∙ map-append key_of acc.issues (maybe found.0)
                  ∙ ap (λ l. map key_of acc.issues ++ l) (issue_of-key m found.0 found.1)),
          )
    ]
  ]

-- without messages there is nothing in the result
pub transform_messages_nothing :
    {N : Type 0} (ctx : Context N)
    → transform_messages ctx []
      ≡ ok (record {
        issues = [];
        ucfg_paths = [];
        highlighted_symbols = [];
        cognitive_complexity = none;
      })
unfolding transform_messages collect_messages extract_highlighted_symbols with_symbols symbols_in
    result_of extract_cognitive_complexity complexity_in find_and_remove_first_issue
transform_messages_nothing ctx = refl
