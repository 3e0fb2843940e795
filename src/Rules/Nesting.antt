-- ===== src/Rules/Nesting.antt =====
-- src/linting/eslint/rules/nested-control-flow.ts. The stack `nodeStack` is a list that begins with
-- its last entry; its tokens are read for their locations. The wording of the message is left out.
mod Nodes
mod Laws
mod Tests
use Prim.Native.String.{String}
use text.Mathlib.Text.{◌==◌ as str_eq}
use sonar_js.Prelude.{
  ℕ, Bool, true, false, ◌&&◌, Option, none, some, List, [], ◌∷◌, ◌++◌, reverse, length, ◌==◌,
  if◌then◌else◌,
}
use sonar_js.Metrics.Ast.{SourceLocation, includes}
use sonar_js.Rules.Traversal.{Trees, Event, enter, leave, events_of, run}

-- a node with its identity, that of its `alternate` and the location of its first token
pub record Node : Type 0 where
  pub id : ℕ
  pub type : String
  pub alternate : Option ℕ
  pub first_token : SourceLocation

pub record Report : Type 0 where
  pub loc : SourceLocation
  pub secondary : List SourceLocation

pub record State : Type 0 where
  pub node_stack : List SourceLocation
  pub reports : List Report

pub control_flow_nodes : List String
control_flow_nodes =
    "ForStatement" ∷ "ForInStatement" ∷ "ForOfStatement" ∷ "WhileStatement" ∷ "DoWhileStatement"
    ∷ "IfStatement" ∷ "TryStatement" ∷ "SwitchStatement" ∷ []

same_node : ℕ → Option ℕ → Bool
same_node id none = false
same_node id (some other) = id == other

-- `isElseIf`; the parent is the last of the ancestors
pub is_else_if : Node → Node → Bool
unfolding same_node
is_else_if parent n =
    str_eq n.type "IfStatement"
    && str_eq parent.type "IfStatement"
    && same_node n.id parent.alternate

pub pop : List SourceLocation → List SourceLocation
pop [] = []
pop (token ∷ stack) = stack

module _ (threshold : ℕ) where
  -- `check`: what is reported
  pub check : Node → List SourceLocation → List Report
  check n stack =
      if length stack == threshold
      then record { loc = n.first_token; secondary = reverse stack } ∷ []
      else []

  -- the handler of a control flow node that is entered
  pub on_enter : Node → Node → State → State
  unfolding is_else_if pop check
  on_enter parent n s =
      if is_else_if parent n
      then record s { node_stack = n.first_token ∷ pop s.node_stack }
      else record {
        node_stack = n.first_token ∷ s.node_stack;
        reports = s.reports ++ check n s.node_stack;
      }

  -- the handler of a control flow node that is left
  pub on_exit : Node → Node → State → State
  unfolding is_else_if pop
  on_exit parent n s = if is_else_if parent n then s else record s { node_stack = pop s.node_stack }

  -- the selector of the two handlers
  pub handle : Event Node → State → State
  unfolding on_enter on_exit control_flow_nodes
  handle (enter parent n) s = if includes control_flow_nodes n.type then on_enter parent n s else s
  handle (leave parent n) s = if includes control_flow_nodes n.type then on_exit parent n s else s

  -- the rule on a program and its statements
  pub check_nesting : Node → Trees Node → State
  unfolding handle
  check_nesting program statements =
      run handle (events_of program statements) (record { node_stack = []; reports = [] })
