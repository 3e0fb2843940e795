-- ===== src/Server/Embedded/Laws.antt =====
-- What `analyzeEmbedded` reports of a file with several snippets.
use mathlib.Core.List.{append_assoc, append-nil}
use sonar_js.Prelude.{
  ℕ, ◌<◌, ◌≤◌, ◌≡◌, refl, ◌∙◌, true, ◌⊎◌, inl, inr, ◌↔◌, Bool-cases, List, [], ◌∷◌, ◌++◌, arith,
  Text, keep,
}
use sonar_js.Linter.Results.{Result, Thrown, ok, throw}
use sonar_js.Linter.Issues.{Issue, ℤ, pos, negsuc}
use sonar_js.Linter.Issues.Transform.{LintingResult}
use sonar_js.Server.Embedded.{
  ExtendedSourceCode, EmbeddedAnalysisOutput, is_before_or_equal, column_leb, in_snippet,
  remove_non_js_issues, aggregate, analyze_embedded,
}

-- A place in a file: a line and a column.
abbrev pub Place : Type 0
Place = ℕ × ℤ

-- the order of columns, some of which are negative
abbrev pub ColumnAtMost : ℤ → ℤ → Type 0
ColumnAtMost (pos a) (pos b) = a ≤ b
ColumnAtMost (pos a) (negsuc b) = ⊥
ColumnAtMost (negsuc a) (pos b) = Unit
ColumnAtMost (negsuc a) (negsuc b) = b ≤ a

-- the order by line and then by column
abbrev pub AtMost : Place → Place → Type 0
AtMost p q = (p.0 < q.0) ⊎ ((p.0 ≡ q.0) × ColumnAtMost p.1 q.1)

abbrev pub place_of : Issue → Place
place_of issue = (issue.line, issue.column)

abbrev pub place_at : ExtendedSourceCode → ℕ → Place
place_at source index =
    ((source.loc_from_index index).line, pos (source.loc_from_index index).column)

-- The issue starts neither before the snippet nor behind its end.
abbrev pub Within : ExtendedSourceCode → Issue → Type 0
Within source issue =
    AtMost (place_at source source.range_start) (place_of issue)
    × AtMost (place_of issue) (place_at source source.range_end)

-- The second list has the issues of the first that lie within the snippet, in order, and no other.
pub data Selected (source : ExtendedSourceCode) : List Issue → List Issue → Type 0 where
  no_issues : Selected source [] []
  in_place :
      (issue : Issue) {issues kept : List Issue}
      → Within source issue
      → Selected source issues kept
      → Selected source (issue ∷ issues) (issue ∷ kept)
  out_of_place :
      (issue : Issue) {issues kept : List Issue}
      → ¬ Within source issue
      → Selected source issues kept
      → Selected source (issue ∷ issues) kept

column_leb_iff : (a b : ℤ) → (column_leb a b ≡ true) ↔ ColumnAtMost a b
unfolding column_leb
column_leb_iff (pos a) (pos b) = ground arith
column_leb_iff (pos a) (negsuc b) = ground arith
column_leb_iff (negsuc a) (pos b) = (λ e. tt, λ e. refl)
column_leb_iff (negsuc a) (negsuc b) = ground arith

is_before_or_equal_iff : (p q : Place) → (is_before_or_equal p.0 p.1 q.0 q.1 ≡ true) ↔ AtMost p q
unfolding is_before_or_equal
is_before_or_equal_iff p q = ground (arith, column_leb_iff p.1 q.1)

in_snippet_iff :
    (source : ExtendedSourceCode) (issue : Issue)
    → (in_snippet source issue ≡ true) ↔ Within source issue
unfolding in_snippet
in_snippet_iff source issue = ground (
  arith,
  is_before_or_equal_iff (place_at source source.range_start) (place_of issue),
  is_before_or_equal_iff (place_of issue) (place_at source source.range_end),
)

keep-Selected :
    (source : ExtendedSourceCode) (issues : List Issue)
    → Selected source issues (keep (in_snippet source) issues)
keep-Selected source [] = no_issues
keep-Selected source (issue ∷ issues) = elim (Bool-cases (in_snippet source issue)) [
  | inl inside ↦
      rw (inside)
        (in_place issue ((in_snippet_iff source issue).0 inside) (keep-Selected source issues))
  | inr outside ↦ rw (outside) (
      out_of_place issue (λ within. ground (arith, outside, (in_snippet_iff source issue).1 within))
        (keep-Selected source issues))
]

module _ {N : Type 0} (lint : ExtendedSourceCode → Result (LintingResult N)) where
  -- All snippets are linted: the issues that lie within their own snippet, and all paths, snippet by
  -- snippet.
  pub data Reports : List ExtendedSourceCode → List Issue → List Text → Type 0 where
    no_snippets : Reports [] [] []
    linted :
        (source : ExtendedSourceCode) (result : LintingResult N) {sources : List ExtendedSourceCode}
        {kept issues : List Issue} {paths : List Text}
        → lint source ≡ ok result
        → Selected source result.issues kept
        → Reports sources issues paths
        → Reports (source ∷ sources) (kept ++ issues) (result.ucfg_paths ++ paths)

  -- The first snippet that the linter fails on fails with this exception.
  pub data Fails : List ExtendedSourceCode → Thrown → Type 0 where
    fails_here :
        (source : ExtendedSourceCode) {sources : List ExtendedSourceCode} {e : Thrown}
        → lint source ≡ throw e
        → Fails (source ∷ sources) e
    fails_later :
        (source : ExtendedSourceCode) (result : LintingResult N) {sources : List ExtendedSourceCode}
        {e : Thrown}
        → lint source ≡ ok result
        → Fails sources e
        → Fails (source ∷ sources) e

  -- the output with issues and paths behind its own
  abbrev with_more : EmbeddedAnalysisOutput → List Issue → List Text → EmbeddedAnalysisOutput
  with_more output issues paths = record {
    issues = output.issues ++ issues;
    ucfg_paths = output.ucfg_paths ++ paths;
  }

  abbrev Aggregated : EmbeddedAnalysisOutput → List ExtendedSourceCode → Type 0
  Aggregated output sources =
      ((issues : List Issue) × (paths : List Text) × Reports sources issues paths
        × (aggregate lint output sources ≡ ok (with_more output issues paths)))
      ⊎ ((e : Thrown) × Fails sources e × (aggregate lint output sources ≡ throw e))

  aggregate_next :
      (output : EmbeddedAnalysisOutput) (source : ExtendedSourceCode)
      (sources : List ExtendedSourceCode)
      (rest : (more : EmbeddedAnalysisOutput) → Aggregated more sources)
      (answer : Result (LintingResult N))
      → lint source ≡ answer
      → Aggregated output (source ∷ sources)
  unfolding aggregate remove_non_js_issues
  aggregate_next output source sources rest (throw e) failed =
      inr (e, fails_here source failed, rw (failed) refl)
  aggregate_next output source sources rest (ok result) good =
      let kept = keep (in_snippet source) result.issues in
      elim (rest (with_more output kept result.ucfg_paths)) [
        | inl (issues, paths, reports, e) ↦ inl (
          kept ++ issues,
          result.ucfg_paths ++ paths,
          linted source result good (keep-Selected source result.issues) reports,
          rw (good) (
              e
              ∙ rw
                  (
                    append_assoc output.issues kept issues,
                    append_assoc output.ucfg_paths result.ucfg_paths paths,
                  )
                  refl),
        )
        | inr (e, fails, f) ↦ inr (e, fails_later source result good fails, rw (good) f)
      ]

  aggregate-Aggregated :
      (output : EmbeddedAnalysisOutput) (sources : List ExtendedSourceCode)
      → Aggregated output sources
  unfolding aggregate
  aggregate-Aggregated output [] =
      inl ([], [], no_snippets, rw (append-nil output.issues, append-nil output.ucfg_paths) refl)
  aggregate-Aggregated output (source ∷ sources) =
      aggregate_next output source sources (λ more. aggregate-Aggregated more sources) (lint source)
        refl

  -- Either every snippet is linted, and `analyzeEmbedded` returns, for one snippet after the other,
  -- the issues of the snippet that start neither before it nor behind its end, in order, and all
  -- paths; or it throws the exception of the first snippet that the linter fails on.
  pub analyze_embedded_lem :
      (sources : List ExtendedSourceCode)
      → ((output : EmbeddedAnalysisOutput) × Reports sources output.issues output.ucfg_paths
          × (analyze_embedded lint sources ≡ ok output))
        ⊎ ((e : Thrown) × Fails sources e × (analyze_embedded lint sources ≡ throw e))
  unfolding analyze_embedded
  analyze_embedded_lem sources =
      elim (aggregate-Aggregated (record { issues = []; ucfg_paths = [] }) sources) [
        | inl (issues, paths, reports, e) ↦
            let output : EmbeddedAnalysisOutput = record { issues = issues; ucfg_paths = paths } in
            inl (output, reports, e)
        | inr failed ↦ inr failed
      ]
