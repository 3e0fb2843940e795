-- ===== src/Metrics/Compute/Laws.antt =====
-- All metrics of a file are computed.
use sonar_js.Prelude.{ℕ, ◌≤◌, ◌≡◌, refl, Bool, some, Text, has}
use sonar_js.Metrics.Tokens.{SourceCode}
use sonar_js.Metrics.Visitor.Preorder.{preorder}
use sonar_js.Metrics.Lines.Laws.{Increasing}
use sonar_js.Metrics.Ncloc.{find_ncloc}
use sonar_js.Metrics.Comments.{find_comment_lines}
use sonar_js.Metrics.Counts.{class_nodes, function_nodes, statement_nodes, complexity_nodes}
use sonar_js.Metrics.Counts.Laws.{
  tree_size, of_types, counts_lem, find_executable_lines_lem, starts_on,
}
use sonar_js.Metrics.Compute.{Metrics, compute_metrics}

-- Given a round for each node of the tree, `computeMetrics` returns: the four counts are the
-- numbers of nodes of the listed types, the complexity is at least the number of functions, the
-- executable lines are those on which an executable node starts, and the lines of code and of
-- comments are those that `findNcloc` and `findCommentLines` return.
pub compute_metrics_lem :
    (to_upper : Text → Text) (fuel : ℕ) (source : SourceCode) (ignore : Bool) (cognitive : ℕ)
    → tree_size source ≤ fuel
    → (m : Metrics) × (compute_metrics to_upper fuel source ignore cognitive ≡ some m)
      × (m.functions ≡ of_types source function_nodes)
      × (m.statements ≡ of_types source statement_nodes)
      × (m.classes ≡ of_types source class_nodes)
      × (m.complexity ≡ of_types source complexity_nodes)
      × (m.functions ≤ m.complexity)
      × (m.cognitive_complexity ≡ cognitive)
      × (m.ncloc ≡ find_ncloc source)
      × (m.comment_lines ≡ (find_comment_lines to_upper source ignore).comment_lines)
      × (m.nosonar_lines ≡ (find_comment_lines to_upper source ignore).nosonar_lines)
      × Increasing m.executable_lines
      × ((x : ℕ) → has m.executable_lines x ≡ starts_on (preorder source.visitor_keys source.ast) x)
unfolding compute_metrics
compute_metrics_lem to_upper fuel source ignore cognitive h =
    let (classes, functions, statements, complexity, le) = counts_lem source fuel h in
    let (lines, e, increasing, starts) = find_executable_lines_lem source fuel h in
    let comments = find_comment_lines to_upper source ignore in
    (
      record {
        ncloc = find_ncloc source;
        comment_lines = comments.comment_lines;
        nosonar_lines = comments.nosonar_lines;
        executable_lines = lines;
        functions = of_types source function_nodes;
        statements = of_types source statement_nodes;
        classes = of_types source class_nodes;
        complexity = of_types source complexity_nodes;
        cognitive_complexity = cognitive;
      },
      rw (e, compute_metrics)
          (rw (functions) (rw (statements) (rw (classes) (rw (complexity) refl)))),
      refl,
      refl,
      refl,
      refl,
      le,
      refl,
      refl,
      refl,
      refl,
      increasing,
      starts,
    )
