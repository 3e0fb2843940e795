-- ===== src/Regex/Complexity/Laws.antt =====
-- The complexity of a regular expression by the structure of its syntax tree:
-- src/linting/eslint/rules/regex-complexity.ts.
use sonar_js.Prelude.{ℕ, suc, ◌+◌, List, [], ◌∷◌, ◌++◌, ◌≡◌, refl, sym, ◌∙◌, ap, arith, subst}
use sonar_js.Regex.Complexity.{
  NodeType, pattern_node, group, capturing_group, lookaround, backreference, character_class,
  quantifier, other_node, RegexNode, regex_node, RegexNodes, no_nodes, more_nodes, Event, enter,
  leave, Component, Calculator, node_id, increase_complexity, nest, unnest, add_alternatives,
  on_disjunction_enter, on_disjunction_leave, on_enter, on_leave, handle, calculate,
}

abbrev pub sum_increments : List Component → ℕ
sum_increments [] = 0
sum_increments (c ∷ cs) = c.increment + sum_increments cs

abbrev pub count : RegexNodes → ℕ
count no_nodes = 0
count (more_nodes n ns) = suc (count ns)

-- the nesting of what stands in a disjunction, and what the disjunction costs
abbrev pub inside : ℕ → RegexNodes → ℕ
inside n no_nodes = n
inside n (more_nodes m no_nodes) = n
inside n (more_nodes m (more_nodes m' ns)) = n + 1

abbrev pub branching : ℕ → RegexNodes → ℕ
branching n no_nodes = 0
branching n (more_nodes m no_nodes) = 0
branching n (more_nodes m (more_nodes m' ns)) = n + count ns

abbrev pub own_nesting : ℕ → NodeType → RegexNodes → ℕ
own_nesting n pattern_node ns = inside n ns
own_nesting n group ns = inside n ns
own_nesting n capturing_group ns = inside n ns
own_nesting n lookaround ns = inside (n + 1) ns
own_nesting n backreference ns = n
own_nesting n character_class ns = n + 1
own_nesting n quantifier ns = n + 1
own_nesting n other_node ns = n

abbrev pub own_cost : ℕ → NodeType → RegexNodes → ℕ
own_cost n pattern_node ns = branching n ns
own_cost n group ns = branching n ns
own_cost n capturing_group ns = branching n ns
own_cost n lookaround ns = n + branching (n + 1) ns
own_cost n backreference ns = 1
own_cost n character_class ns = 1
own_cost n quantifier ns = n
own_cost n other_node ns = 0

-- The complexity of a node at a depth of nesting: its own cost and that of its children.
unfoldable mutual
  pub cost : ℕ → RegexNode → ℕ
  cost n (regex_node id node_type ns) =
      own_cost n node_type ns + costs (own_nesting n node_type ns) ns

  pub costs : ℕ → RegexNodes → ℕ
  costs n no_nodes = 0
  costs n (more_nodes m ms) = cost n m + costs n ms

-- The documented order of the visitor's calls: a node, its children in order, and the node again.
unfoldable mutual
  pub calls : RegexNode → List Event
  calls (regex_node id node_type ns) =
      enter (regex_node id node_type ns) ∷ (calls_of ns ++ leave (regex_node id node_type ns) ∷ [])

  pub calls_of : RegexNodes → List Event
  calls_of no_nodes = []
  calls_of (more_nodes m ms) = calls m ++ calls_of ms

-- What the calculator has added since: nesting as before, and the given amount.
abbrev Adds : Calculator → ℕ → ℕ → Calculator → Type 0
Adds c nesting amount c' = (c'.nesting ≡ nesting) × (c'.complexity ≡ c.complexity + amount)

add_alternatives-Adds :
    (increment : ℕ) (m : RegexNode) (ns : RegexNodes) (c : Calculator)
    → Adds c c.nesting (increment + count ns) (add_alternatives increment (more_nodes m ns) c)
unfolding add_alternatives increase_complexity
add_alternatives-Adds increment m no_nodes c = (refl, omega arith)
add_alternatives-Adds increment m (more_nodes n ns) c =
    let (a, b) = add_alternatives-Adds 1 n ns (increase_complexity increment (node_id m) c) in
    (a, omega arith)

on_disjunction_enter-Adds :
    (ns : RegexNodes) (c : Calculator)
    → Adds c (inside c.nesting ns) (branching c.nesting ns) (on_disjunction_enter ns c)
unfolding on_disjunction_enter nest
on_disjunction_enter-Adds no_nodes c = (refl, omega arith)
on_disjunction_enter-Adds (more_nodes n no_nodes) c = (refl, omega arith)
on_disjunction_enter-Adds (more_nodes n (more_nodes m ns)) c =
    let (a, b) = add_alternatives-Adds c.nesting m ns c in (ap (λ k. k + 1) a, b ∙ omega arith)

on_disjunction_leave-Adds :
    (ns : RegexNodes) (n : ℕ) (c : Calculator)
    → c.nesting ≡ inside n ns
    → Adds c n 0 (on_disjunction_leave ns c)
unfolding on_disjunction_leave unnest
on_disjunction_leave-Adds no_nodes n c e = (e, omega arith)
on_disjunction_leave-Adds (more_nodes m no_nodes) n c e = (e, omega arith)
on_disjunction_leave-Adds (more_nodes m (more_nodes m' ns)) n c e = (omega arith, omega arith)

on_enter-Adds :
    (id : ℕ) (t : NodeType) (ns : RegexNodes) (c : Calculator)
    → Adds c (own_nesting c.nesting t ns) (own_cost c.nesting t ns) (on_enter id t ns c)
unfolding on_enter nest increase_complexity
on_enter-Adds id pattern_node ns c = on_disjunction_enter-Adds ns c
on_enter-Adds id group ns c = on_disjunction_enter-Adds ns c
on_enter-Adds id capturing_group ns c = on_disjunction_enter-Adds ns c
on_enter-Adds id lookaround ns c =
    let (a, b) = on_disjunction_enter-Adds ns (nest (increase_complexity c.nesting id c)) in
    (a, omega arith)
on_enter-Adds id backreference ns c = (refl, refl)
on_enter-Adds id character_class ns c = (refl, refl)
on_enter-Adds id quantifier ns c = (refl, refl)
on_enter-Adds id other_node ns c = (refl, omega arith)

on_leave-Adds :
    (t : NodeType) (ns : RegexNodes) (n : ℕ) (c : Calculator)
    → c.nesting ≡ own_nesting n t ns
    → Adds c n 0 (on_leave t ns c)
unfolding on_leave unnest
on_leave-Adds pattern_node ns n c e = on_disjunction_leave-Adds ns n c e
on_leave-Adds group ns n c e = on_disjunction_leave-Adds ns n c e
on_leave-Adds capturing_group ns n c e = on_disjunction_leave-Adds ns n c e
on_leave-Adds lookaround ns n c e =
    let (a, b) = on_disjunction_leave-Adds ns (n + 1) c e in (omega arith, b)
on_leave-Adds backreference ns n c e = (e, omega arith)
on_leave-Adds character_class ns n c e = (omega arith, omega arith)
on_leave-Adds quantifier ns n c e = (omega arith, omega arith)
on_leave-Adds other_node ns n c e = (e, omega arith)

calculate-append :
    (es fs : List Event) (c : Calculator) → calculate (es ++ fs) c ≡ calculate fs (calculate es c)
unfolding calculate
calculate-append [] fs c = refl
calculate-append (e ∷ es) fs c = calculate-append es fs (handle e c)

mutual
  unfolding calculate handle cost calls

  pub calculate-cost :
      (m : RegexNode) (c : Calculator) → Adds c c.nesting (cost c.nesting m) (calculate (calls m) c)
  calculate-cost (regex_node id t ns) c =
      let entered = on_enter id t ns c in
      let (a, b) = on_enter-Adds id t ns c in
      let (a', b') = calculate-costs ns entered in
      let inner = calculate (calls_of ns) entered in
      let (a'', b'') = on_leave-Adds t ns c.nesting inner (a' ∙ a) in
      subst (Adds c c.nesting (cost c.nesting (regex_node id t ns)))
        (sym (calculate-append (calls_of ns) (leave (regex_node id t ns) ∷ []) entered))
        (a'', b'' ∙ omega (arith, ap (λ k. costs k ns) a))

  calculate-costs :
      (ms : RegexNodes) (c : Calculator)
      → Adds c c.nesting (costs c.nesting ms) (calculate (calls_of ms) c)
  calculate-costs no_nodes c = (refl, omega arith)
  calculate-costs (more_nodes m ms) c =
      let (a, b) = calculate-cost m c in
      let next = calculate (calls m) c in
      let (a', b') = calculate-costs ms next in
      subst (Adds c c.nesting (costs c.nesting (more_nodes m ms)))
        (sym (calculate-append (calls m) (calls_of ms) c))
        (a' ∙ a, omega (arith, ap (λ k. costs k ms) a))
