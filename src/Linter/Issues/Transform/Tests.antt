-- ===== src/Linter/Issues/Transform/Tests.antt =====
-- The issues of a file with a path of ucfg, an internal issue and one of a rule.
use Prim.Native.String.{String}
use text.Mathlib.Text.{◌==◌ as str_eq}
use sonar_js.Prelude.{if◌then◌else◌, ℕ, ◌≡◌, refl, true, none, some, List, [], ◌∷◌, codes, all}
use sonar_js.Linter.Rules.{RuleModule, one, has_sonar_runtime_option}
use sonar_js.Linter.QuickFixes.{LintMessage, has_quick_fix}
use sonar_js.Linter.Issues.{Issue, pos, convert_message, decode_sonar_runtime}
use sonar_js.Linter.Issues.Transform.{Context, is_ucfg, issue_of, transform_messages}
use sonar_js.Linter.Issues.Transform.Laws.{transformable}
use sonar_js.Linter.Issues.Transform.Outcome.{Outcome, transform_messages_lem}

abbrev encoding_rule : RuleModule
encoding_rule = record {
  schema = some (one (record { title = none; enum = some ("sonar-runtime" ∷ []) }));
}

abbrev context : Context ℕ
context = record {
  parse_encoded = λ text. none;
  parse_symbols = λ text. some [];
  number = λ text. some 3;
  loc_from_index = λ i. record { line = 1; column = i };
  rules = λ key. if str_eq key "no-sparse" then some encoding_rule else none;
}

abbrev lint_message : String → LintMessage
lint_message rule_id = record {
  rule_id = some rule_id;
  line = 2;
  column = 4;
  end_line = none;
  end_column = none;
  message = codes "text";
  fix = none;
  suggestions = none;
}

abbrev messages : List LintMessage
messages =
    lint_message "ucfg"
    ∷ lint_message "internal-symbol-highlighting"
    ∷ lint_message "no-labels"
    ∷ []

messages-transformable : all (transformable context) messages ≡ true
unfolding transformable issue_of is_ucfg convert_message has_quick_fix decode_sonar_runtime
    has_sonar_runtime_option
messages-transformable = refl

transform_messages_lem_example : Outcome context messages (transform_messages context messages)
transform_messages_lem_example = transform_messages_lem context messages messages-transformable

abbrev issue : String → Issue
issue rule_id = record {
  rule_id = rule_id;
  line = 1;
  column = pos 0;
  end_line = none;
  end_column = none;
  message = [];
  cost = none;
  secondary_locations = [];
  quick_fixes = [];
}
