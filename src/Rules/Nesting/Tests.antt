-- ===== src/Rules/Nesting/Tests.antt =====
-- `if (a) { for (;;) {} } else if (b) { for (;;) {} }` where one level is allowed: the loops lie at
-- the depth of the threshold.
use Prim.Native.String.{String}
use sonar_js.Prelude.{ℕ, ◌≡◌, refl, none, some, [], ◌∷◌, map, All, Option}
use sonar_js.Metrics.Ast.{SourceLocation}
use sonar_js.Rules.Traversal.{Tree, Trees, tree, no_trees, more_trees}
use sonar_js.Rules.Nesting.{Node, check_nesting, is_else_if, control_flow_nodes, same_node}
use sonar_js.Rules.Nesting.Nodes.{own_report, nested_of, report_loc, Deep}
use sonar_js.Rules.Nesting.Laws.{check_nesting_lem}

abbrev token : ℕ → SourceLocation
token line = record {
  start = record { line = line; column = 0 };
  end = record { line = line; column = 2 };
}

abbrev node_of : ℕ → String → Option ℕ → Node
node_of id type alternate = record {
  id = id;
  type = type;
  alternate = alternate;
  first_token = token id;
}

abbrev loop : ℕ → Tree Node
loop id = tree (node_of id "ForStatement" none) no_trees

abbrev statements : Trees Node
statements =
    more_trees
      (tree (node_of 1 "IfStatement" (some 3)) (
        more_trees (loop 2) (
          more_trees (tree (node_of 3 "IfStatement" none) (more_trees (loop 4) no_trees))
            no_trees)))
      no_trees

abbrev program : Node
program = node_of 0 "Program" none

check_nesting_lem_example :
    (map report_loc (check_nesting 1 program statements).reports ≡ nested_of 1 0 program statements)
    × All (Deep 1) (check_nesting 1 program statements).reports
    × ((check_nesting 1 program statements).node_stack ≡ [])
check_nesting_lem_example = check_nesting_lem 1 program statements refl

loops_nested : nested_of 1 0 program statements ≡ token 2 ∷ token 4 ∷ []
unfolding nested_of own_report is_else_if control_flow_nodes same_node
loops_nested = refl
