-- ===== src/Regex/Complexity/Tests.antt =====
-- The complexity of `(?:a|b|[cd])+` with the threshold 5.
use sonar_js.Prelude.{ℕ, ◌+◌, ◌≤◌, ◌<◌, none, some, [], ◌∷◌, ◌≡◌, ◌⊎◌, refl}
use sonar_js.Regex.Complexity.{
  RegexNode, regex_node, RegexNodes, no_nodes, more_nodes, pattern_node, group, character_class,
  quantifier, other_node, check_regex_complexity, Report,
}
use sonar_js.Regex.Complexity.Laws.{calls, cost, sum_increments}
use sonar_js.Regex.Complexity.Reports.{parts_cost, check_regex_complexity_lem}

abbrev letter : ℕ → RegexNode
letter id = regex_node id other_node no_nodes

abbrev alternatives : RegexNodes
alternatives =
    more_nodes (letter 4)
      (more_nodes (letter 5) (more_nodes (regex_node 6 character_class no_nodes) no_nodes))

abbrev expression : RegexNode
expression = regex_node 1 pattern_node (
    more_nodes (regex_node 2 quantifier (more_nodes (regex_node 3 group alternatives) no_nodes))
      no_nodes)

-- One for the quantifier, two and one for the alternatives, and one for the character class.
expression_cost : cost 1 expression ≡ 5
unfolding cost
expression_cost = refl

check_regex_complexity_example :
    ((parts_cost some calls (λ n. refl) (expression ∷ []) ≤ 5)
      × (check_regex_complexity some calls 5 (expression ∷ []) ≡ none))
    ⊎ ((r : Report) × (5 < parts_cost some calls (λ n. refl) (expression ∷ []))
        × (check_regex_complexity some calls 5 (expression ∷ []) ≡ some r)
        × (r.complexity ≡ parts_cost some calls (λ n. refl) (expression ∷ []))
        × (r.effort + 5 ≡ r.complexity)
        × (sum_increments r.components ≡ r.complexity))
check_regex_complexity_example =
    check_regex_complexity_lem some calls (λ n. refl) 5 (expression ∷ [])
