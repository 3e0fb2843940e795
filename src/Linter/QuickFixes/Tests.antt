-- ===== src/Linter/QuickFixes/Tests.antt =====
-- Quick fixes of a missing semicolon, with and without a message.
use Prim.Native.String.{String}
use sonar_js.Prelude.{ℕ, ◌≡◌, refl, true, ◌↔◌, none, some, [], ◌∷◌, codes}
use sonar_js.Metrics.Ast.{Position, includes}
use sonar_js.Linter.Results.{throw, missing_quick_fix_message}
use sonar_js.Linter.QuickFixes.{LintMessage, Fix, transform_fixes}
use sonar_js.Linter.QuickFixes.Laws.{unnamed_fixes, transform_fixes-throw}

abbrev first_line : ℕ → Position
first_line i = record { line = 1; column = i }

abbrev insert : Fix
insert = record { start = 3; end = 3; text = codes ";" }

abbrev fixed_by : String → LintMessage
fixed_by rule_id = record {
  rule_id = some rule_id;
  line = 1;
  column = 4;
  end_line = none;
  end_column = none;
  message = codes "Missing";
  fix = some insert;
  suggestions = some (record { desc = "Remove"; fix = insert } ∷ []);
}

transform_fixes-throw_example :
    (transform_fixes first_line (fixed_by "use-isnan") ≡ throw missing_quick_fix_message)
    ↔ (includes unnamed_fixes "use-isnan" ≡ true)
transform_fixes-throw_example =
    transform_fixes-throw first_line (fixed_by "use-isnan") "use-isnan" insert refl refl
