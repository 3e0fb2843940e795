-- ===== src/Regex/Complexity.antt =====
-- The complexity of regular expressions: src/linting/eslint/rules/regex-complexity.ts.
-- The parser of regular expressions and its visitor are arguments: `parse` is undefined for a part
-- that it refuses, and `visit` is the sequence of the visitor's calls. A component is a node with
-- its increment; its location and the wording of its message are left out.
pub mod Laws
pub mod Reports
mod Tests
use sonar_js.Prelude.{
  ℕ, suc, ◌+◌, ◌-◌, Bool, true, false, Option, none, some, List, [], ◌∷◌, ◌++◌, ltb, if◌then◌else◌,
}

-- `lookaround` is an assertion of the kinds lookahead and lookbehind.
pub data NodeType : Type 0 where
  pattern_node group capturing_group lookaround backreference character_class quantifier : NodeType
  other_node : NodeType

-- Nodes with their children; the children of a disjunction are its alternatives.
mutual
  pub data RegexNode : Type 0 where
    regex_node : (id : ℕ) (node_type : NodeType) (children : RegexNodes) → RegexNode

  pub data RegexNodes : Type 0 where
    no_nodes : RegexNodes
    more_nodes : RegexNode → RegexNodes → RegexNodes

-- the calls of the visitor
pub data Event : Type 0 where
  enter leave : RegexNode → Event

pub record Component : Type 0 where
  pub node : ℕ
  pub increment : ℕ

pub record Calculator : Type 0 where
  pub nesting : ℕ
  pub complexity : ℕ
  pub components : List Component

abbrev pub new_calculator : Calculator
new_calculator = record { nesting = 1; complexity = 0; components = [] }

abbrev pub node_id : RegexNode → ℕ
node_id (regex_node id node_type children) = id

pub increase_complexity : ℕ → ℕ → Calculator → Calculator
increase_complexity increment node c = record c {
  complexity = c.complexity + increment;
  components = c.components ++ record { node = node; increment = increment } ∷ [];
}

nest : Calculator → Calculator
nest c = record c { nesting = c.nesting + 1 }

unnest : Calculator → Calculator
unnest c = record c { nesting = c.nesting - 1 }

-- the `while` loop of `onDisjunctionEnter`, over the alternatives but the first
add_alternatives : ℕ → RegexNodes → Calculator → Calculator
unfolding increase_complexity
add_alternatives increment no_nodes c = c
add_alternatives increment (more_nodes n ns) c =
    add_alternatives 1 ns (increase_complexity increment (node_id n) c)

on_disjunction_enter : RegexNodes → Calculator → Calculator
unfolding add_alternatives nest
on_disjunction_enter no_nodes c = c
on_disjunction_enter (more_nodes n no_nodes) c = c
on_disjunction_enter (more_nodes n (more_nodes m ns)) c =
    nest (add_alternatives c.nesting (more_nodes m ns) c)

on_disjunction_leave : RegexNodes → Calculator → Calculator
unfolding unnest
on_disjunction_leave no_nodes c = c
on_disjunction_leave (more_nodes n no_nodes) c = c
on_disjunction_leave (more_nodes n (more_nodes m ns)) c = unnest c

-- the handlers of the visitor
pub on_enter : ℕ → NodeType → RegexNodes → Calculator → Calculator
unfolding increase_complexity nest on_disjunction_enter
on_enter id pattern_node children c = on_disjunction_enter children c
on_enter id group children c = on_disjunction_enter children c
on_enter id capturing_group children c = on_disjunction_enter children c
on_enter id lookaround children c =
    on_disjunction_enter children (nest (increase_complexity c.nesting id c))
on_enter id backreference children c = increase_complexity 1 id c
on_enter id character_class children c = nest (increase_complexity 1 id c)
on_enter id quantifier children c = nest (increase_complexity c.nesting id c)
on_enter id other_node children c = c

pub on_leave : NodeType → RegexNodes → Calculator → Calculator
unfolding unnest on_disjunction_leave
on_leave pattern_node children c = on_disjunction_leave children c
on_leave group children c = on_disjunction_leave children c
on_leave capturing_group children c = on_disjunction_leave children c
on_leave lookaround children c = unnest (on_disjunction_leave children c)
on_leave backreference children c = c
on_leave character_class children c = unnest c
on_leave quantifier children c = unnest c
on_leave other_node children c = c

pub handle : Event → Calculator → Calculator
unfolding on_enter on_leave
handle (enter (regex_node id node_type children)) c = on_enter id node_type children c
handle (leave (regex_node id node_type children)) c = on_leave node_type children c

pub calculate : List Event → Calculator → Calculator
unfolding handle
calculate [] c = c
calculate (event ∷ events) c = calculate events (handle event c)

pub record Report : Type 0 where
  pub complexity : ℕ
  pub effort : ℕ
  pub components : List Component

module _ {Part : Type 0} (parse : Part → Option RegexNode) (visit : RegexNode → List Event) where
  -- `ComplexityCalculator.visit`
  calculate_parsed : Option RegexNode → Calculator
  unfolding calculate
  calculate_parsed none = new_calculator
  calculate_parsed (some ast) = calculate (visit ast) new_calculator

  -- the loop over the parts of a regular expression
  pub sum_parts : List Part → ℕ → List Component → ℕ × List Component
  unfolding calculate_parsed
  sum_parts [] complexity components = (complexity, components)
  sum_parts (part ∷ parts) complexity components =
      let c = calculate_parsed (parse part) in
      sum_parts parts (complexity + c.complexity) (components ++ c.components)

  -- the body of the loop of `checkRegexComplexity`
  pub check_regex_complexity : ℕ → List Part → Option Report
  unfolding sum_parts
  check_regex_complexity threshold parts =
      let (complexity, components) = sum_parts parts 0 [] in
      if ltb threshold complexity
      then some (record {
        complexity = complexity;
        effort = complexity - threshold;
        components = components;
      })
      else none
