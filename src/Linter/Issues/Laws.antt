-- ===== src/Linter/Issues/Laws.antt =====
-- `findAndRemoveFirstIssue` of issues/extract.ts removes one issue and keeps the order.
use Prim.Native.String.{String}
use text.Mathlib.Text.{◌==◌ as str_eq}
use sonar_js.Prelude.{
  ◌≡◌, refl, ap, Bool, true, false, not, Option, none, some, List, [], ◌∷◌, ◌++◌, all, Bool-cases,
  inl, inr,
}
use sonar_js.Linter.Issues.{Issue, find_and_remove_first_issue}

pub is_of : String → Issue → Bool
is_of rule_id issue = str_eq issue.rule_id rule_id

pub other_than : String → Issue → Bool
unfolding is_of
other_than rule_id issue = not (is_of rule_id issue)

-- What is found and what is left, beside what there was.
pub FirstRemoved : List Issue → String → Option Issue → List Issue → Type 0
FirstRemoved issues rule_id none left = (left ≡ issues) × (all (other_than rule_id) issues ≡ true)
FirstRemoved issues rule_id (some issue) left =
    (before : List Issue) × (after : List Issue) × (issues ≡ before ++ issue ∷ after)
    × (left ≡ before ++ after)
    × (all (other_than rule_id) before ≡ true)
    × (is_of rule_id issue ≡ true)

FirstRemoved-cons :
    (issues : List Issue) (rule_id : String) (found : Option Issue) (left : List Issue)
    (issue : Issue)
    → is_of rule_id issue ≡ false
    → FirstRemoved issues rule_id found left
    → FirstRemoved (issue ∷ issues) rule_id found (issue ∷ left)
unfolding FirstRemoved other_than
FirstRemoved-cons issues rule_id none left issue h (same, others) =
    (ap (λ l. issue ∷ l) same, rw (h) others)
FirstRemoved-cons issues rule_id (some i) left issue h (before, after, e, l, others, is) =
    (issue ∷ before, after, ap (λ l. issue ∷ l) e, ap (λ l. issue ∷ l) l, rw (h) others, is)

-- The search takes out the first issue of the rule, if there is one: the issues before it are of
-- other rules, and they and those behind it are left in order. If there is none, all are left.
find_and_remove_first_issue_lem :
    (issues : List Issue) (rule_id : String)
    → let found = find_and_remove_first_issue issues rule_id in
      FirstRemoved issues rule_id found.0 found.1
unfolding find_and_remove_first_issue FirstRemoved is_of
find_and_remove_first_issue_lem [] rule_id = (refl, refl)
find_and_remove_first_issue_lem (issue ∷ issues) rule_id = elim (Bool-cases (is_of rule_id issue)) [
  | inl same ↦ rw (same) ([], issues, refl, refl, refl, same)
  | inr differ ↦
      let found = find_and_remove_first_issue issues rule_id in
      rw (differ) (
        FirstRemoved-cons issues rule_id found.0 found.1 issue differ
          (find_and_remove_first_issue_lem issues rule_id))
]
