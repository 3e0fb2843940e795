-- ===== src/Regex/Complexity/Reports.antt =====
-- What the rule on the complexity of regular expressions reports:
-- src/linting/eslint/rules/regex-complexity.ts.
use sonar_js.Prelude.{
  ℕ, ◌+◌, ◌-◌, ◌≤◌, ◌<◌, Option, none, some, List, [], ◌∷◌, ◌++◌, ◌≡◌, refl, sym, ◌∙◌, ap, ltb, ◌⊎◌,
  inl, inr, arith, Bool-cases,
}
use sonar_js.Regex.Complexity.{
  NodeType, pattern_node, group, capturing_group, lookaround, backreference, character_class,
  quantifier, other_node, RegexNode, regex_node, RegexNodes, no_nodes, more_nodes, Event, enter,
  leave, Component, Calculator, node_id, new_calculator, increase_complexity, nest, unnest,
  add_alternatives, on_disjunction_enter, on_disjunction_leave, on_enter, on_leave, handle,
  calculate, calculate_parsed, sum_parts, check_regex_complexity, Report,
}
use sonar_js.Regex.Complexity.Laws.{sum_increments, cost, calls, calculate-cost}

-- The complexity is the sum of the increments of the components.
abbrev IsAccounted : Calculator → Type 0
IsAccounted c = c.complexity ≡ sum_increments c.components

sum_increments-append :
    (xs ys : List Component) → sum_increments (xs ++ ys) ≡ sum_increments xs + sum_increments ys
sum_increments-append [] ys = omega arith
sum_increments-append (x ∷ xs) ys = omega (arith, sum_increments-append xs ys)

increase_complexity-IsAccounted :
    (increment node : ℕ) (c : Calculator)
    → IsAccounted c
    → IsAccounted (increase_complexity increment node c)
unfolding increase_complexity
increase_complexity-IsAccounted increment node c h =
    let new : Component = record { node = node; increment = increment } in
    omega (arith, h, sum_increments-append c.components (new ∷ []))

add_alternatives-IsAccounted :
    (increment : ℕ) (ns : RegexNodes) (c : Calculator)
    → IsAccounted c
    → IsAccounted (add_alternatives increment ns c)
unfolding add_alternatives
add_alternatives-IsAccounted increment no_nodes c h = h
add_alternatives-IsAccounted increment (more_nodes n ns) c h =
    add_alternatives-IsAccounted 1 ns (increase_complexity increment (node_id n) c)
      (increase_complexity-IsAccounted increment (node_id n) c h)

on_disjunction_enter-IsAccounted :
    (ns : RegexNodes) (c : Calculator) → IsAccounted c → IsAccounted (on_disjunction_enter ns c)
unfolding on_disjunction_enter nest
on_disjunction_enter-IsAccounted no_nodes c h = h
on_disjunction_enter-IsAccounted (more_nodes n no_nodes) c h = h
on_disjunction_enter-IsAccounted (more_nodes n (more_nodes m ns)) c h =
    add_alternatives-IsAccounted c.nesting (more_nodes m ns) c h

on_enter-IsAccounted :
    (id : ℕ) (t : NodeType) (ns : RegexNodes) (c : Calculator)
    → IsAccounted c
    → IsAccounted (on_enter id t ns c)
unfolding on_enter nest
on_enter-IsAccounted id pattern_node ns c h = on_disjunction_enter-IsAccounted ns c h
on_enter-IsAccounted id group ns c h = on_disjunction_enter-IsAccounted ns c h
on_enter-IsAccounted id capturing_group ns c h = on_disjunction_enter-IsAccounted ns c h
on_enter-IsAccounted id lookaround ns c h =
    on_disjunction_enter-IsAccounted ns (nest (increase_complexity c.nesting id c))
      (increase_complexity-IsAccounted c.nesting id c h)
on_enter-IsAccounted id backreference ns c h = increase_complexity-IsAccounted 1 id c h
on_enter-IsAccounted id character_class ns c h = increase_complexity-IsAccounted 1 id c h
on_enter-IsAccounted id quantifier ns c h = increase_complexity-IsAccounted c.nesting id c h
on_enter-IsAccounted id other_node ns c h = h

on_disjunction_leave-IsAccounted :
    (ns : RegexNodes) (c : Calculator) → IsAccounted c → IsAccounted (on_disjunction_leave ns c)
unfolding on_disjunction_leave unnest
on_disjunction_leave-IsAccounted no_nodes c h = h
on_disjunction_leave-IsAccounted (more_nodes n no_nodes) c h = h
on_disjunction_leave-IsAccounted (more_nodes n (more_nodes m ns)) c h = h

on_leave-IsAccounted :
    (t : NodeType) (ns : RegexNodes) (c : Calculator)
    → IsAccounted c
    → IsAccounted (on_leave t ns c)
unfolding on_leave unnest
on_leave-IsAccounted pattern_node ns c h = on_disjunction_leave-IsAccounted ns c h
on_leave-IsAccounted group ns c h = on_disjunction_leave-IsAccounted ns c h
on_leave-IsAccounted capturing_group ns c h = on_disjunction_leave-IsAccounted ns c h
on_leave-IsAccounted lookaround ns c h = on_disjunction_leave-IsAccounted ns c h
on_leave-IsAccounted backreference ns c h = h
on_leave-IsAccounted character_class ns c h = h
on_leave-IsAccounted quantifier ns c h = h
on_leave-IsAccounted other_node ns c h = h

calculate-IsAccounted :
    (es : List Event) (c : Calculator) → IsAccounted c → IsAccounted (calculate es c)
unfolding calculate handle
calculate-IsAccounted [] c h = h
calculate-IsAccounted (enter (regex_node id t ns) ∷ es) c h =
    calculate-IsAccounted es (on_enter id t ns c) (on_enter-IsAccounted id t ns c h)
calculate-IsAccounted (leave (regex_node id t ns) ∷ es) c h =
    calculate-IsAccounted es (on_leave t ns c) (on_leave-IsAccounted t ns c h)

module _ {Part : Type 0} (parse : Part → Option RegexNode) (visit : RegexNode → List Event)
    (in_order : (n : RegexNode) → visit n ≡ calls n) where
  abbrev pub parsed_cost : Option RegexNode → ℕ
  parsed_cost none = 0
  parsed_cost (some ast) = cost 1 ast

  abbrev pub parts_cost : List Part → ℕ
  parts_cost [] = 0
  parts_cost (part ∷ parts) = parsed_cost (parse part) + parts_cost parts

  calculate_parsed-cost :
      (ast : Option RegexNode)
      → ((calculate_parsed parse visit ast).complexity ≡ parsed_cost ast)
        × IsAccounted (calculate_parsed parse visit ast)
  unfolding calculate_parsed
  calculate_parsed-cost none = (refl, refl)
  calculate_parsed-cost (some ast) = (
    ap (λ es. (calculate es new_calculator).complexity) (in_order ast)
        ∙ (calculate-cost ast new_calculator).1
        ∙ omega arith,
    calculate-IsAccounted (visit ast) new_calculator refl,
  )

  abbrev sums : List Part → ℕ → List Component → ℕ × List Component
  sums = sum_parts parse visit

  sum_parts-cost :
      (parts : List Part) (complexity : ℕ) (components : List Component)
      → complexity ≡ sum_increments components
      → ((sums parts complexity components).0 ≡ complexity + parts_cost parts)
        × ((sums parts complexity components).0
            ≡ sum_increments (sums parts complexity components).1)
  unfolding sum_parts
  sum_parts-cost [] complexity components h = (omega arith, h)
  sum_parts-cost (part ∷ parts) complexity components h =
      let c = calculate_parsed parse visit (parse part) in
      let (a, b) = calculate_parsed-cost (parse part) in
      let (a', b') =
        sum_parts-cost parts (complexity + c.complexity) (components ++ c.components)
          (omega (arith, sum_increments-append components c.components)) in
      (a' ∙ omega arith, b')

-- If the visitor calls in its documented order, then the rule reports a regular expression exactly if
-- its complexity, computed by the structure of its parts, is above the threshold. The report has
-- that complexity, its excess over the threshold, and components whose increments add up to it.
pub check_regex_complexity_lem :
    {Part : Type 0} (parse : Part → Option RegexNode) (visit : RegexNode → List Event)
    (in_order : (n : RegexNode) → visit n ≡ calls n) (threshold : ℕ) (parts : List Part)
    → ((parts_cost parse visit in_order parts ≤ threshold)
        × (check_regex_complexity parse visit threshold parts ≡ none))
      ⊎ ((r : Report) × (threshold < parts_cost parse visit in_order parts)
          × (check_regex_complexity parse visit threshold parts ≡ some r)
          × (r.complexity ≡ parts_cost parse visit in_order parts)
          × (r.effort + threshold ≡ r.complexity)
          × (sum_increments r.components ≡ r.complexity))
unfolding check_regex_complexity
check_regex_complexity_lem parse visit in_order threshold parts =
    let (a, b) = sum_parts-cost parse visit in_order parts 0 [] refl in
    let total = (sum_parts parse visit parts 0 []).0 in
    elim (Bool-cases (ltb threshold total)) [
      | inl over ↦
          let above : threshold < total = ground arith in
          inr (
            record {
              complexity = total;
              effort = total - threshold;
              components = (sum_parts parse visit parts 0 []).1;
            },
            omega arith,
            rw (over) refl,
            omega arith,
            omega arith,
            sym b,
          )
      | inr under ↦
          let below : total ≤ threshold = ground arith in inl (omega arith, rw (under) refl)
    ]
