-- ===== src/Rules/Jumps/Laws.antt =====
-- Which loops are reported.
use Prim.Native.String.{String}
use mathlib.Core.List.{append_assoc, append-nil}
use sonar_js.Prelude.{
  ◌≡◌, refl, ap, sym, ◌∙◌, Bool, true, false, not, Option, none, some, List, [], ◌∷◌, ◌++◌, map,
  keep, length, ltb, arith, if◌then◌else◌, Bool-cases, inl, inr,
}
use sonar_js.Rules.Traversal.{
  Tree, Trees, tree, no_trees, more_trees, events, events_of, run, run-node, run-siblings,
}
use sonar_js.Rules.Jumps.{
  NodeType, break_statement, continue_statement, labeled_statement, switch_statement, for_statement,
  for_in_statement, for_of_statement, while_statement, do_while_statement, other_node, Node,
  JumpTarget, Report, State, same_label, new_target, push_jump, increase_jumps,
  increate_number_of_jumps_in_scopes, enter_target, pop_target, leave_scope, jump_message,
  check_jumps, check_target, leave_scope_and_check_number_of_jumps, on_enter, on_exit, handle,
  on_program, check_program,
}

-- a jump with its label
abbrev pub Jump : Type 0
Jump = Node × Option String

-- whether a jump leads out of a target with this label
passes : Option String → Jump → Bool
passes label jump = not (same_label jump.1 label)

own_jumps : NodeType → Node → List Jump → List Jump
own_jumps (break_statement label) n inner = (n, label) ∷ inner
own_jumps (continue_statement label) n inner = (n, label) ∷ inner
own_jumps (labeled_statement label) n inner = keep (passes (some label)) inner
own_jumps switch_statement n inner = keep (passes none) inner
own_jumps for_statement n inner = keep (passes none) inner
own_jumps for_in_statement n inner = keep (passes none) inner
own_jumps for_of_statement n inner = keep (passes none) inner
own_jumps while_statement n inner = keep (passes none) inner
own_jumps do_while_statement n inner = keep (passes none) inner
own_jumps other_node n inner = inner

-- The jumps of a tree that lead out of it: an unlabeled one stays in the next loop or switch around
-- it, a labeled one in the next statement with its label.
unfoldable mutual
  unfolding own_jumps passes

  pub escaping : Tree Node → List Jump
  escaping (tree n ts) = own_jumps n.type n (escaping_of ts)

  pub escaping_of : Trees Node → List Jump
  escaping_of no_trees = []
  escaping_of (more_trees t ts) = escaping t ++ escaping_of ts

jump_node : Jump → Node
jump_node jump = jump.0

is_loop : NodeType → Bool
is_loop for_statement = true
is_loop for_in_statement = true
is_loop for_of_statement = true
is_loop while_statement = true
is_loop do_while_statement = true
is_loop _ = false

-- a jump with what is said of it
secondary : NodeType → Node → Node × String
secondary (break_statement label) jump = (jump, "\"break\" statement.")
secondary _ jump = (jump, "\"continue\" statement.")

-- the report of two jumps or more; fewer are not reported
several : Node → List Node → List Report
unfolding secondary
several n [] = []
several n (jump ∷ []) = []
several n (first ∷ second ∷ jumps) =
    record {
      loc = n.first_token;
      secondary = map (λ jump. secondary jump.type jump) (first ∷ second ∷ jumps);
    }
    ∷ []

secondary_lem : (type : NodeType) (jump : Node) → (jump, jump_message type) ≡ secondary type jump
unfolding jump_message secondary
secondary_lem (break_statement label) jump = refl
secondary_lem (continue_statement label) jump = refl
secondary_lem (labeled_statement label) jump = refl
secondary_lem switch_statement jump = refl
secondary_lem for_statement jump = refl
secondary_lem for_in_statement jump = refl
secondary_lem for_of_statement jump = refl
secondary_lem while_statement jump = refl
secondary_lem do_while_statement jump = refl
secondary_lem other_node jump = refl

all_secondary :
    (jumps : List Node)
    → map (λ j. (j, jump_message j.type)) jumps ≡ map (λ j. secondary j.type j) jumps
all_secondary [] = refl
all_secondary (jump ∷ jumps) = rw (secondary_lem jump.type jump, all_secondary jumps) refl

check_jumps_lem : (n : Node) (jumps : List Node) → check_jumps n jumps ≡ several n jumps
unfolding check_jumps several
check_jumps_lem n [] = refl
check_jumps_lem n (jump ∷ []) = refl
check_jumps_lem n (first ∷ second ∷ jumps) =
    let many : ltb 1 (length (first ∷ second ∷ jumps)) ≡ true = ground arith in
    rw (many, all_secondary (first ∷ second ∷ jumps)) refl

own_report : NodeType → Node → List Jump → List Report
unfolding several
own_report type n inner = if is_loop type then several n (map jump_node inner) else []

-- A loop is reported for the jumps that lead out of its parts, behind the loops inside of it.
unfoldable mutual
  unfolding own_report is_loop jump_node

  pub reported : Tree Node → List Report
  reported (tree n ts) = reported_of ts ++ own_report n.type n (escaping_of ts)

  pub reported_of : Trees Node → List Report
  reported_of no_trees = []
  reported_of (more_trees t ts) = reported t ++ reported_of ts

-- the jumps are entered one after the other
add_jumps : List Jump → List JumpTarget → List JumpTarget
add_jumps [] targets = targets
add_jumps (jump ∷ jumps) targets = add_jumps jumps (increase_jumps jump.0 jump.1 targets)

add_jumps-append :
    (js ks : List Jump) (targets : List JumpTarget)
    → add_jumps (js ++ ks) targets ≡ add_jumps ks (add_jumps js targets)
unfolding add_jumps
add_jumps-append [] ks targets = refl
add_jumps-append (j ∷ js) ks targets = add_jumps-append js ks (increase_jumps j.0 j.1 targets)

abbrev target_with : Option String → List Node → JumpTarget
target_with label jumps = record { label = label; jumps = jumps }

-- A target takes all the jumps; those that pass it go on to the targets around it.
add_jumps-target :
    (js : List Jump) (label : Option String) (jumps : List Node) (targets : List JumpTarget)
    → add_jumps js (target_with label jumps ∷ targets)
      ≡ target_with label (jumps ++ map jump_node js) ∷ add_jumps (keep (passes label) js) targets
unfolding add_jumps increase_jumps push_jump passes jump_node
add_jumps-target [] label jumps targets =
    ap (λ l. target_with label l ∷ targets) (sym (append-nil jumps))
add_jumps-target (j ∷ js) label jumps targets = elim (Bool-cases (same_label j.1 label)) [
  | inl stays ↦ rw (stays) (
      add_jumps-target js label (jumps ++ j.0 ∷ []) targets
      ∙ ap (λ l. target_with label l ∷ add_jumps (keep (passes label) js) targets)
          (append_assoc jumps (j.0 ∷ []) (map jump_node js)))
  | inr goes ↦ rw (goes) (
      add_jumps-target js label (jumps ++ j.0 ∷ []) (increase_jumps j.0 j.1 targets)
      ∙ ap
          (λ l.
            target_with label l
            ∷ add_jumps (keep (passes label) js) (increase_jumps j.0 j.1 targets))
          (append_assoc jumps (j.0 ∷ []) (map jump_node js)))
]

-- what the handlers do to the targets and the reports
abbrev after : List Jump → List Report → State → State
after jumps found s = record {
  jump_targets = add_jumps jumps s.jump_targets;
  reports = s.reports ++ found;
}

abbrev state_with : List JumpTarget → List Report → State
state_with targets reports = record { jump_targets = targets; reports = reports }

-- a loop pops its target and checks the jumps
loop_handled :
    (n : Node) (inner : List Jump) (found : List Report) (s : State)
    → leave_scope_and_check_number_of_jumps n (after inner found (enter_target none s))
      ≡ after (keep (passes none) inner) (found ++ several n (map jump_node inner)) s
unfolding leave_scope_and_check_number_of_jumps enter_target new_target pop_target check_target
loop_handled n inner found s =
    rw (add_jumps-target inner none [] s.jump_targets, check_jumps_lem n (map jump_node inner))
      (ap (λ r. state_with (add_jumps (keep (passes none) inner) s.jump_targets) r)
        (append_assoc s.reports found (several n (map jump_node inner))))

-- a switch or a labeled statement pops its target
scope_handled :
    (label : Option String) (inner : List Jump) (found : List Report) (s : State)
    → leave_scope (after inner found (enter_target label s))
      ≡ after (keep (passes label) inner) (found ++ []) s
unfolding leave_scope enter_target new_target pop_target
scope_handled label inner found s =
    rw (add_jumps-target inner label [] s.jump_targets, append-nil found) refl

node_handled :
    (type : NodeType) (n : Node) (inner : List Jump) (found : List Report) (s : State)
    → on_exit type n (after inner found (on_enter type n s))
      ≡ after (own_jumps type n inner) (found ++ own_report type n inner) s
unfolding on_enter on_exit own_jumps own_report is_loop increate_number_of_jumps_in_scopes add_jumps
node_handled (break_statement label) n inner found s = rw (append-nil found) refl
node_handled (continue_statement label) n inner found s = rw (append-nil found) refl
node_handled (labeled_statement label) n inner found s = scope_handled (some label) inner found s
node_handled switch_statement n inner found s = scope_handled none inner found s
node_handled for_statement n inner found s = loop_handled n inner found s
node_handled for_in_statement n inner found s = loop_handled n inner found s
node_handled for_of_statement n inner found s = loop_handled n inner found s
node_handled while_statement n inner found s = loop_handled n inner found s
node_handled do_while_statement n inner found s = loop_handled n inner found s
node_handled other_node n inner found s = rw (append-nil found) refl

after-append :
    (js ks : List Jump) (found more : List Report) (s : State)
    → after ks more (after js found s) ≡ after (js ++ ks) (found ++ more) s
after-append js ks found more s =
    rw (add_jumps-append js ks s.jump_targets, append_assoc s.reports found more) refl

mutual
  unfolding escaping escaping_of reported reported_of handle run events events_of add_jumps

  traversed :
      (parent : Node) (t : Tree Node) (s : State)
      → run handle (events parent t) s ≡ after (escaping t) (reported t) s
  traversed parent (tree n ts) s =
      run-node handle parent n ts s
      ∙ ap (on_exit n.type n) (traversed_all n ts (on_enter n.type n s))
      ∙ node_handled n.type n (escaping_of ts) (reported_of ts) s

  traversed_all :
      (parent : Node) (ts : Trees Node) (s : State)
      → run handle (events_of parent ts) s ≡ after (escaping_of ts) (reported_of ts) s
  traversed_all parent no_trees s = rw (append-nil s.reports) refl
  traversed_all parent (more_trees t ts) s =
      run-siblings handle parent t ts s
      ∙ ap (run handle (events_of parent ts)) (traversed parent t s)
      ∙ traversed_all parent ts (after (escaping t) (reported t) s)
      ∙ after-append (escaping t) (escaping_of ts) (reported t) (reported_of ts) s

add_jumps-nowhere : (js : List Jump) → add_jumps js [] ≡ []
unfolding add_jumps increase_jumps
add_jumps-nowhere [] = refl
add_jumps-nowhere (j ∷ js) = add_jumps-nowhere js

-- Whatever the state is left in, the rule reports on a program exactly the loops out of whose parts
-- more than one jump leads, each with these jumps in order and behind the loops inside of it; an
-- unlabeled jump leads out of what lies inside the next loop or switch, a labeled one out of what
-- lies inside the statement with its label. The stack of targets is empty in the end.
pub check_program_lem :
    (program : Node) (statements : Trees Node) (s : State)
    → ((check_program program statements s).reports ≡ s.reports ++ reported_of statements)
      × ((check_program program statements s).jump_targets ≡ [])
unfolding check_program on_program
check_program_lem program statements s =
    let e = traversed_all program statements (on_program s) in
    (
      ap (λ state. state.reports) e,
      ap (λ state. state.jump_targets) e ∙ add_jumps-nowhere (escaping_of statements),
    )
