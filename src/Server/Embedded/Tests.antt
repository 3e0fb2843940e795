-- ===== src/Server/Embedded/Tests.antt =====
-- One snippet with an issue inside and one behind it.
use sonar_js.Prelude.{ℕ, ◌≡◌, ◌⊎◌, none, [], ◌∷◌}
use sonar_js.Linter.Results.{Result, Thrown, ok, throw}
use sonar_js.Linter.Issues.{Issue, pos}
use sonar_js.Linter.Issues.Transform.{LintingResult}
use sonar_js.Server.Embedded.{ExtendedSourceCode, EmbeddedAnalysisOutput, analyze_embedded}
use sonar_js.Server.Embedded.Laws.{Reports, Fails, analyze_embedded_lem}

abbrev snippet : ExtendedSourceCode
snippet = record {
  id = 0;
  range_start = 10;
  range_end = 20;
  loc_from_index = λ i. record { line = 2; column = i };
}

abbrev issue_at : ℕ → Issue
issue_at line = record {
  rule_id = "semi";
  line = line;
  column = pos 12;
  end_line = none;
  end_column = none;
  message = [];
  cost = none;
  secondary_locations = [];
  quick_fixes = [];
}

abbrev result_of_snippet : ExtendedSourceCode → LintingResult ℕ
result_of_snippet source = record {
  issues = issue_at 2 ∷ issue_at 3 ∷ [];
  ucfg_paths = [];
  highlighted_symbols = [];
  cognitive_complexity = none;
}

abbrev lint_snippet : ExtendedSourceCode → Result (LintingResult ℕ)
lint_snippet source = ok (result_of_snippet source)

analyze_embedded_lem_example :
    ((output : EmbeddedAnalysisOutput) × Reports lint_snippet
        (snippet ∷ [])
        output.issues
        output.ucfg_paths
      × (analyze_embedded lint_snippet (snippet ∷ []) ≡ ok output))
    ⊎ ((e : Thrown) × Fails lint_snippet (snippet ∷ []) e
        × (analyze_embedded lint_snippet (snippet ∷ []) ≡ throw e))
analyze_embedded_lem_example = analyze_embedded_lem lint_snippet (snippet ∷ [])
