-- ===== src/Rules/Jumps/Tests.antt =====
-- A loop with a `break` and a `continue`, and one whose jumps stay in a `switch`.
use sonar_js.Prelude.{ℕ, ◌≡◌, refl, none, [], ◌∷◌, ◌++◌, map}
use sonar_js.Rules.Traversal.{Tree, Trees, tree, no_trees, more_trees, run, events, events_of}
use sonar_js.Rules.Jumps.{
  NodeType, break_statement, continue_statement, switch_statement, while_statement, other_node,
  Node, State, check_program, on_program, handle, on_enter, on_exit, enter_target,
  increate_number_of_jumps_in_scopes, increase_jumps, push_jump, same_label, leave_scope,
  pop_target, leave_scope_and_check_number_of_jumps, check_target, check_jumps, new_target,
}
use sonar_js.Rules.Jumps.Laws.{reported_of, check_program_lem}

abbrev at_line : NodeType → ℕ → Node
at_line type line = record {
  type = type;
  first_token = record {
    start = record { line = line; column = 0 };
    end = record { line = line; column = 5 };
  };
}

abbrev leaf : NodeType → ℕ → Tree Node
leaf type line = tree (at_line type line) no_trees

abbrev two_jumps : Trees Node
two_jumps =
    more_trees (leaf (break_statement none) 3)
      (more_trees (leaf (continue_statement none) 4) no_trees)

abbrev statements : Trees Node
statements = more_trees (tree (at_line while_statement 2) two_jumps) (
    more_trees
      (tree (at_line while_statement 5)
        (more_trees (tree (at_line switch_statement 6) two_jumps) no_trees))
      no_trees)

abbrev program : Node
program = at_line other_node 1

abbrev fresh : State
fresh = record { jump_targets = []; reports = [] }

first_loop_reported :
    map (λ r. r.loc.start.line) (check_program program statements fresh).reports ≡ 2 ∷ []
unfolding check_program on_program handle run events events_of on_enter on_exit enter_target
    increate_number_of_jumps_in_scopes increase_jumps push_jump same_label leave_scope pop_target
    leave_scope_and_check_number_of_jumps check_target check_jumps new_target
first_loop_reported = refl

check_program_lem_example :
    ((check_program program statements fresh).reports ≡ [] ++ reported_of statements)
    × ((check_program program statements fresh).jump_targets ≡ [])
check_program_lem_example = check_program_lem program statements fresh
