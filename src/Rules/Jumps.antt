-- ===== src/Rules/Jumps.antt =====
-- src/linting/eslint/rules/too-many-break-or-continue-in-loop.ts. The stack of targets is a list
-- that begins with the innermost one. The wording of the message is left out.
mod Laws
mod Tests
use Prim.Native.String.{String}
use text.Mathlib.Text.{◌==◌ as str_eq}
use sonar_js.Prelude.{
  ℕ, Bool, true, false, Option, none, some, List, [], ◌∷◌, ◌++◌, map, length, ltb, if◌then◌else◌,
}
use sonar_js.Metrics.Ast.{SourceLocation}
use sonar_js.Rules.Traversal.{Trees, Event, enter, leave, events_of, run}

-- the nodes that have a handler, with their label's name
pub data NodeType : Type 0 where
  break_statement continue_statement : Option String → NodeType
  labeled_statement : String → NodeType
  switch_statement for_statement for_in_statement for_of_statement : NodeType
  while_statement do_while_statement other_node : NodeType

-- a node with the location of its first token
pub record Node : Type 0 where
  pub type : NodeType
  pub first_token : SourceLocation

pub record JumpTarget : Type 0 where
  pub label : Option String
  pub jumps : List Node

pub record Report : Type 0 where
  pub loc : SourceLocation
  pub secondary : List (Node × String)

pub record State : Type 0 where
  pub jump_targets : List JumpTarget
  pub reports : List Report

-- `===` of labels that may be undefined
pub same_label : Option String → Option String → Bool
same_label none none = true
same_label (some a) (some b) = str_eq a b
same_label _ _ = false

pub new_target : Option String → JumpTarget
new_target label = record { label = label; jumps = [] }

push_jump : Node → JumpTarget → JumpTarget
push_jump jump target = record target { jumps = target.jumps ++ jump ∷ [] }

-- the loop of `increateNumberOfJumpsInScopes`
pub increase_jumps : Node → Option String → List JumpTarget → List JumpTarget
unfolding push_jump same_label
increase_jumps jump label [] = []
increase_jumps jump label (target ∷ targets) =
    let outer = increase_jumps jump label targets in
    push_jump jump target ∷ (if same_label label target.label then targets else outer)

increate_number_of_jumps_in_scopes : Node → Option String → State → State
unfolding increase_jumps
increate_number_of_jumps_in_scopes jump label s = record s {
  jump_targets = increase_jumps jump label s.jump_targets;
}

enter_target : Option String → State → State
unfolding new_target
enter_target label s = record s { jump_targets = new_target label ∷ s.jump_targets }

-- `jumpTargets.pop()`: the target and those that are left
pub pop_target : List JumpTarget → Option JumpTarget × List JumpTarget
pop_target [] = (none, [])
pop_target (target ∷ targets) = (some target, targets)

leave_scope : State → State
unfolding pop_target
leave_scope s = record s { jump_targets = (pop_target s.jump_targets).1 }

pub jump_message : NodeType → String
jump_message (break_statement label) = "\"break\" statement."
jump_message _ = "\"continue\" statement."

-- what is reported for the jumps of a loop
pub check_jumps : Node → List Node → List Report
unfolding jump_message
check_jumps n jumps =
    if ltb 1 (length jumps)
    then record { loc = n.first_token; secondary = map (λ j. (j, jump_message j.type)) jumps } ∷ []
    else []

check_target : Node → Option JumpTarget → List Report
unfolding check_jumps
check_target n none = []
check_target n (some target) = check_jumps n target.jumps

leave_scope_and_check_number_of_jumps : Node → State → State
unfolding pop_target check_target
leave_scope_and_check_number_of_jumps n s =
    let popped = pop_target s.jump_targets in
    record { jump_targets = popped.1; reports = s.reports ++ check_target n popped.0 }

-- the handlers of nodes that are entered
on_enter : NodeType → Node → State → State
unfolding increate_number_of_jumps_in_scopes enter_target
on_enter (break_statement label) n s = increate_number_of_jumps_in_scopes n label s
on_enter (continue_statement label) n s = increate_number_of_jumps_in_scopes n label s
on_enter (labeled_statement label) n s = enter_target (some label) s
on_enter switch_statement n s = enter_target none s
on_enter for_statement n s = enter_target none s
on_enter for_in_statement n s = enter_target none s
on_enter for_of_statement n s = enter_target none s
on_enter while_statement n s = enter_target none s
on_enter do_while_statement n s = enter_target none s
on_enter other_node n s = s

-- the handlers of nodes that are left
on_exit : NodeType → Node → State → State
unfolding leave_scope leave_scope_and_check_number_of_jumps
on_exit (labeled_statement label) n s = leave_scope s
on_exit switch_statement n s = leave_scope s
on_exit for_statement n s = leave_scope_and_check_number_of_jumps n s
on_exit for_in_statement n s = leave_scope_and_check_number_of_jumps n s
on_exit for_of_statement n s = leave_scope_and_check_number_of_jumps n s
on_exit while_statement n s = leave_scope_and_check_number_of_jumps n s
on_exit do_while_statement n s = leave_scope_and_check_number_of_jumps n s
on_exit (break_statement label) n s = s
on_exit (continue_statement label) n s = s
on_exit other_node n s = s

pub handle : Event Node → State → State
unfolding on_enter on_exit
handle (enter parent n) s = on_enter n.type n s
handle (leave parent n) s = on_exit n.type n s

-- the handler of the program
pub on_program : State → State
on_program s = record s { jump_targets = [] }

-- the rule on a program and its statements
pub check_program : Node → Trees Node → State → State
unfolding handle on_program
check_program program statements s = run handle (events_of program statements) (on_program s)
