-- ===== src/Server/Analysis/Extended.antt =====
-- What `computeExtendedMetrics` returns.
use sonar_js.Prelude.{
  ℕ, ◌≤◌, ◌≡◌, refl, Bool, true, false, Option, none, some, List, Text, if◌then◌else◌,
}
use sonar_js.Metrics.Tokens.{SourceCode}
use sonar_js.Metrics.Compute.{Metrics, compute_metrics}
use sonar_js.Metrics.Compute.Laws.{compute_metrics_lem}
use sonar_js.Metrics.Counts.Laws.{tree_size}
use sonar_js.Metrics.Comments.{find_no_sonar_lines}
use sonar_js.Metrics.Cpd.{CpdToken, get_cpd_tokens}
use sonar_js.Metrics.Cpd.Visible.{get_cpd_tokens-visible}
use sonar_js.Metrics.Highlighting.{get_syntax_highlighting}
use sonar_js.Metrics.Symbols.{SymbolHighlight}
use sonar_js.Linter.Config.{Context, FileType, main, test}
use sonar_js.Server.Outcome.{returned}
use sonar_js.Server.Parsing.{AnalysisInput}
use sonar_js.Server.Analysis.{
  all_metrics, no_sonar_lines, ExtendedMetrics, computed, or_zero, is_set, extended_for,
  compute_extended_metrics,
}

module _ (to_upper : Text → Text) (fuel : ℕ) where
  -- What is computed for a file besides its issues: in SonarLint only the lines with NOSONAR; else
  -- the highlighting and, for a main file, all metrics and the tokens for copy-paste detection.
  pub Extended :
      Bool → FileType → Bool → SourceCode → List SymbolHighlight → ℕ → ExtendedMetrics → Type 0
  Extended true type ignore source symbols cognitive e =
      (e.highlighted_symbols ≡ none)
      × (e.highlights ≡ none)
      × (e.cpd_tokens ≡ none)
      × (e.metrics ≡ no_sonar_lines (find_no_sonar_lines to_upper source))
  Extended false test ignore source symbols cognitive e =
      (e.highlighted_symbols ≡ some symbols)
      × (e.highlights ≡ some (get_syntax_highlighting source))
      × (e.cpd_tokens ≡ none)
      × (e.metrics ≡ no_sonar_lines (find_no_sonar_lines to_upper source))
  Extended false main ignore source symbols cognitive e =
      (m : Metrics) × (tokens : List CpdToken) × (e.highlighted_symbols ≡ some symbols)
      × (e.highlights ≡ some (get_syntax_highlighting source))
      × (e.cpd_tokens ≡ some tokens)
      × (e.metrics ≡ all_metrics m)
      × (get_cpd_tokens fuel source ≡ some tokens)
      × (compute_metrics to_upper fuel source ignore cognitive ≡ some m)

  extended_for_lem :
      (type : FileType) (ignore : Bool) (source : SourceCode) (symbols : List SymbolHighlight)
      (cognitive : Option ℕ)
      → tree_size source ≤ fuel
      → (e : ExtendedMetrics) × (extended_for to_upper fuel type ignore source symbols cognitive
          ≡ returned e)
        × Extended false type ignore source symbols (or_zero cognitive) e
  unfolding extended_for Extended computed
  extended_for_lem test ignore source symbols cognitive h = (_, refl, (refl, refl, refl, refl))
  extended_for_lem main ignore source symbols cognitive h =
      let all = compute_metrics_lem to_upper fuel source ignore (or_zero cognitive) h in
      let computes = all.1 in
      let cpd = get_cpd_tokens-visible fuel source h in
      (_, rw (computes, cpd) refl, (all.0, _, refl, refl, refl, refl, cpd, computes))

  limited_or_full :
      (b : Bool) (type : FileType) (ignore : Bool) (source : SourceCode)
      (symbols : List SymbolHighlight) (cognitive : Option ℕ)
      → tree_size source ≤ fuel
      → (e : ExtendedMetrics) × ((if b
            then returned (record {
              highlighted_symbols = none;
              highlights = none;
              metrics = no_sonar_lines (find_no_sonar_lines to_upper source);
              cpd_tokens = none;
            })
            else extended_for to_upper fuel type ignore source symbols cognitive)
          ≡ returned e)
        × Extended b type ignore source symbols (or_zero cognitive) e
  unfolding Extended
  limited_or_full true type ignore source symbols cognitive h = (_, refl, (refl, refl, refl, refl))
  limited_or_full false type ignore source symbols cognitive h =
      extended_for_lem type ignore source symbols cognitive h

  pub compute_extended_metrics_lem :
      (context : Context) (input : AnalysisInput) (source : SourceCode)
      (symbols : List SymbolHighlight) (cognitive : Option ℕ)
      → tree_size source ≤ fuel
      → (e : ExtendedMetrics) × (compute_extended_metrics to_upper fuel context input source symbols
            cognitive
          ≡ returned e)
        × Extended context.sonarlint input.file_type
            (is_set input.ignore_header_comments)
            source
            symbols
            (or_zero cognitive)
            e
  unfolding compute_extended_metrics
  compute_extended_metrics_lem context input source symbols cognitive h =
      limited_or_full context.sonarlint input.file_type (is_set input.ignore_header_comments) source
        symbols cognitive h
