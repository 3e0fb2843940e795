-- ===== src/Rules/Nesting/Laws.antt =====
-- Which statements are reported.
use text.Mathlib.Text.{◌==◌ as str_eq}
use mathlib.Core.Bool.{false≢true}
use mathlib.Core.List.{append-nil}
use sonar_js.Prelude.{
  ℕ, suc, ◌≡◌, refl, ap, sym, ◌∙◌, subst, false, [], map, Bool-cases, inl, inr, All, arith,
}
use sonar_js.Rules.Traversal.{Tree, Trees, tree, no_trees, more_trees, events, events_of, run}
use sonar_js.Rules.Nesting.Nodes.{
  is_control_flow, nested, nested_of, report_loc, Deep, Reports, Above, state_with, if-control_flow,
  empty, elseif-above, other_node, else_if_node, flow_node, siblings,
}
use sonar_js.Rules.Nesting.{Node, State, is_else_if, handle, check_nesting}

module _ (threshold : ℕ) where
  Above-flow : (n : Node) (depth : ℕ) → is_control_flow n ≡ false → Above n depth
  Above-flow n depth other e = absurd (false≢true (sym other ∙ if-control_flow n e))

  mutual
    unfolding nested nested_of run events events_of

    Reports-tree :
        (parent : Node) (t : Tree Node) (depth : ℕ)
        → Above parent depth
        → Reports threshold
            (run (handle threshold) (events parent t))
            depth
            (nested threshold depth parent t)
    Reports-tree parent (tree n ts) depth above = elim (Bool-cases (is_control_flow n)) [
      | inr other ↦
          other_node threshold parent n ts depth other
            (Reports-trees n ts depth (Above-flow n depth other))
      | inl flow ↦ elim (Bool-cases (is_else_if parent n)) [
        | inl elseif ↦
            let some_above = above (elseif-above parent n elseif) in
            else_if_node threshold parent n ts depth flow elseif some_above
              (Reports-trees n ts depth (λ _. some_above))
        | inr not_elseif ↦
            flow_node threshold parent n ts depth flow not_elseif
              (Reports-trees n ts (suc depth) (λ _. omega arith))
      ]
    ]

    Reports-trees :
        (parent : Node) (ts : Trees Node) (depth : ℕ)
        → Above parent depth
        → Reports threshold
            (run (handle threshold) (events_of parent ts))
            depth
            (nested_of threshold depth parent ts)
    Reports-trees parent no_trees depth above =
        λ s h. (s.node_stack, [], rw (append-nil s.reports) refl, h, refl, record {})
    Reports-trees parent (more_trees t ts) depth above =
        siblings threshold parent t ts depth (Reports-tree parent t depth above)
          (Reports-trees parent ts depth above)

  -- The program being no `if`, the rule reports exactly the statements at the depth of the threshold,
  -- at their first tokens and in order, where an `else if` lies as deep as its `if`; each report has
  -- as many secondary locations as the threshold says, and the stack is empty in the end.
  pub check_nesting_lem :
      (program : Node) (statements : Trees Node)
      → str_eq program.type "IfStatement" ≡ false
      → (map report_loc (check_nesting threshold program statements).reports
          ≡ nested_of threshold 0 program statements)
        × All (Deep threshold) (check_nesting threshold program statements).reports
        × ((check_nesting threshold program statements).node_stack ≡ [])
  unfolding check_nesting
  check_nesting_lem program statements h =
      let (stack, found, e, left, locs, deep) =
        Reports-trees program statements 0 (λ yes. absurd (false≢true (sym h ∙ yes)))
          (state_with [] []) refl in
      (
        ap (λ s. map report_loc s.reports) e ∙ locs,
        subst (λ (s : State). All (Deep threshold) s.reports) (sym e) deep,
        ap (λ s. s.node_stack) e ∙ empty stack left,
      )
