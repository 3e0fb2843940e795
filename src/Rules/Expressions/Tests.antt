-- ===== src/Rules/Expressions/Tests.antt =====
-- `a ? b && f(c || d) : e` where one operator is allowed, so that only the outer conditional is
-- reported.
use Prim.Native.String.{String}
use sonar_js.Prelude.{ℕ, ◌≡◌, refl, false, some, [], ◌∷◌}
use sonar_js.Rules.Traversal.{Tree, Trees, tree, no_trees, more_trees, run, events, events_of}
use sonar_js.Rules.Expressions.{
  Node, new_expression, check_expressions, handle, on_event, on_enter, on_exit, enter_conditional,
  leave_conditional, add_operator, increment, decrement, decrement_nested, reset_operators,
  reported_on_exit, is_zero, tail, report_if_complex, is_conditional_like, is_scope_like,
}
use sonar_js.Rules.Expressions.Laws.{reported, check_expressions_lem}

abbrev node_of : ℕ → String → Node
node_of id type = record {
  id = id;
  type = type;
  generator = false;
  operator = record {
    start = record { line = 1; column = id };
    end = record { line = 1; column = id };
  };
}

abbrev one : Tree Node → Trees Node
one t = more_trees t no_trees

abbrev expression : Tree Node
expression = tree (node_of 1 "ConditionalExpression") (
    one (
      tree (node_of 2 "LogicalExpression") (
        one (
          tree (node_of 3 "CallExpression")
            (one (tree (node_of 4 "LogicalExpression") no_trees))))))

check_expressions_lem_example :
    check_expressions 1 (node_of 0 "Program") expression
    ≡ some (record { statement_level = new_expression ∷ []; reports = reported 1 false expression })
check_expressions_lem_example = check_expressions_lem 1 (node_of 0 "Program") expression

outer_reported :
    check_expressions 1 (node_of 0 "Program") expression
    ≡ some (record {
      statement_level = new_expression ∷ [];
      reports =
          record {
            node = 1;
            secondary = (node_of 1 "").operator ∷ (node_of 2 "").operator ∷ [];
            cost = 1;
          }
          ∷ [];
    })
unfolding check_expressions handle on_event on_enter on_exit enter_conditional leave_conditional
    add_operator increment decrement decrement_nested reset_operators reported_on_exit is_zero tail
    report_if_complex is_conditional_like is_scope_like run events events_of
outer_reported = refl
