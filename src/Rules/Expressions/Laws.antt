-- ===== src/Rules/Expressions/Laws.antt =====
-- Which expressions are reported.
use mathlib.Core.List.{append_assoc, append-nil}
use sonar_js.Prelude.{
  ℕ, suc, ◌≡◌, refl, ap, ◌∙◌, Bool, true, false, Option, some, List, [], ◌∷◌, ◌++◌, if◌then◌else◌,
  Bool-cases, inl, inr, ◌⊎◌, ◌<◌, ◌≤◌, ◌-◌, length, ltb, arith,
}
use sonar_js.Metrics.Ast.{SourceLocation}
use sonar_js.Linter.Issues.{ℤ, pos}
use sonar_js.Rules.Traversal.{
  Tree, Trees, tree, no_trees, more_trees, events, events_of, run, run-node, run-siblings,
}
use sonar_js.Rules.Expressions.{
  Node, ExpressionComplexity, Report, State, is_scope_like, is_conditional_like, increment,
  decrement, is_zero, new_expression, add_operator, decrement_nested, reset_operators, tail,
  report_if_complex, reported_on_exit, enter_conditional, leave_conditional, on_enter, on_exit,
  on_event, handle, check_expressions,
}

-- The operators of the conditionals in a tree, but for those inside of a scope.
unfoldable mutual
  pub operators_in : Tree Node → List SourceLocation
  operators_in (tree n ts) =
      let inner = operators_of ts in
      if is_conditional_like n then n.operator ∷ inner else if is_scope_like n then [] else inner

  pub operators_of : Trees Node → List SourceLocation
  operators_of no_trees = []
  operators_of (more_trees t ts) = operators_in t ++ operators_of ts

-- Whether the children of a node lie inside of a conditional, if the node itself does or not.
abbrev pub inside : Bool → Node → Bool
inside b n = if is_conditional_like n then true else if is_scope_like n then false else b

module _ (max : ℕ) where
  more_or_not : (a b : ℕ) → (a < b) ⊎ (b ≤ a)
  more_or_not a b = ground arith

  -- the report of operators, if `max` is less than their number
  costly :
      (n : Node) (operators : List SourceLocation)
      → (max < length operators) ⊎ (length operators ≤ max)
      → List Report
  costly n operators (inl many) =
      record { node = n.id; secondary = operators; cost = length operators - max } ∷ []
  costly n operators (inr few) = []

  by_order :
      (n : Node) (operators : List SourceLocation)
      (order : (max < length operators) ⊎ (length operators ≤ max))
      → report_if_complex max n operators ≡ costly n operators order
  unfolding report_if_complex costly
  by_order n operators (inl many) =
      let test : ltb max (length operators) ≡ true = ground (arith, many) in rw (test) refl
  by_order n operators (inr few) =
      let test : ltb max (length operators) ≡ false = ground (arith, few) in rw (test) refl

  report_if_complex_lem :
      (n : Node) (operators : List SourceLocation)
      → report_if_complex max n operators ≡ costly n operators (more_or_not max (length operators))
  report_if_complex_lem n operators = by_order n operators (more_or_not max (length operators))

  own_report : Bool → Node → List SourceLocation → List Report
  own_report true n operators = []
  own_report false n operators =
      if is_conditional_like n
      then costly n (n.operator ∷ operators) (more_or_not max (length (n.operator ∷ operators)))
      else []

  -- A conditional outside of others is reported for the operators in it, behind what lies in it.
  unfoldable mutual
    unfolding own_report costly more_or_not

    pub reported : Bool → Tree Node → List Report
    reported b (tree n ts) = reported_of (inside b n) ts ++ own_report b n (operators_of ts)

    pub reported_of : Bool → Trees Node → List Report
    reported_of b no_trees = []
    reported_of b (more_trees t ts) = reported b t ++ reported_of b ts

  abbrev level_with : ℤ → List SourceLocation → ExpressionComplexity
  level_with level operators = record { nested_level = level; operators = operators }

  abbrev state_with :
      ℤ → List SourceLocation → List ExpressionComplexity → List Report → Option State
  state_with level operators levels reports =
      some (record { statement_level = level_with level operators ∷ levels; reports = reports })

  -- what a tree and what some trees do to the state inside of a conditional
  abbrev Inside : (Option State → Option State) → List SourceLocation → List Report → Type 0
  Inside f operators found =
      (k : ℕ) (os : List SourceLocation) (levels : List ExpressionComplexity) (rs : List Report)
      → f (state_with (pos (suc k)) os levels rs)
        ≡ state_with (pos (suc k)) (os ++ operators) levels (rs ++ found)

  -- and outside of all
  abbrev Outside : (Option State → Option State) → List Report → Type 0
  Outside f found =
      (levels : List ExpressionComplexity) (rs : List Report)
      → f (state_with (pos 0) [] levels rs) ≡ state_with (pos 0) [] levels (rs ++ found)

  Inside-node :
      (parent n : Node) (ts : Trees Node)
      → Inside (run (handle max) (events_of n ts)) (operators_of ts) (reported_of true ts)
      → Outside (run (handle max) (events_of n ts)) (reported_of false ts)
      → Inside
          (run (handle max) (events parent (tree n ts)))
          (operators_in (tree n ts))
          (reported true (tree n ts))
  unfolding operators_in reported handle on_event on_enter on_exit enter_conditional
      leave_conditional add_operator increment decrement decrement_nested reset_operators
      reported_on_exit is_zero tail own_report
  Inside-node parent n ts in_h out_h k os levels rs =
      run-node (handle max) parent n ts (state_with (pos (suc k)) os levels rs)
      ∙ elim (Bool-cases (is_conditional_like n)) [
        | inl c ↦
            rw (c, in_h (suc k) (os ++ n.operator ∷ []) levels rs, c)
              (rw
                (
                  append_assoc os (n.operator ∷ []) (operators_of ts),
                  append_assoc rs (reported_of true ts) [],
                )
                refl)
        | inr not_c ↦ elim (Bool-cases (is_scope_like n)) [
          | inl s ↦
              rw (not_c, s, out_h (level_with (pos (suc k)) os ∷ levels) rs, not_c, s)
                (rw (append-nil os, append-nil (reported_of false ts)) refl)
          | inr not_s ↦
              rw (not_c, not_s, in_h k os levels rs, not_c, not_s)
                (rw (append-nil (reported_of true ts)) refl)
        ]
      ]

  Outside-node :
      (parent n : Node) (ts : Trees Node)
      → Inside (run (handle max) (events_of n ts)) (operators_of ts) (reported_of true ts)
      → Outside (run (handle max) (events_of n ts)) (reported_of false ts)
      → Outside (run (handle max) (events parent (tree n ts))) (reported false (tree n ts))
  unfolding operators_in reported handle on_event on_enter on_exit enter_conditional
      leave_conditional add_operator increment decrement decrement_nested reset_operators
      reported_on_exit is_zero tail own_report
  Outside-node parent n ts in_h out_h levels rs =
      run-node (handle max) parent n ts (state_with (pos 0) [] levels rs)
      ∙ elim (Bool-cases (is_conditional_like n)) [
        | inl c ↦
            let operators = n.operator ∷ operators_of ts in
            let report = costly n operators (more_or_not max (length operators)) in
            rw (c, in_h 0 (n.operator ∷ []) levels rs, c)
              (rw (report_if_complex_lem n operators, append_assoc rs (reported_of true ts) report)
                refl)
        | inr not_c ↦ elim (Bool-cases (is_scope_like n)) [
          | inl s ↦
              rw (not_c, s, out_h (level_with (pos 0) [] ∷ levels) rs, not_c, s)
                (rw (append-nil (reported_of false ts)) refl)
          | inr not_s ↦
              rw (not_c, not_s, out_h levels rs, not_c, not_s)
                (rw (append-nil (reported_of false ts)) refl)
        ]
      ]

  mutual
    unfolding operators_of reported_of run events_of

    Inside-tree :
        (parent : Node) (t : Tree Node)
        → Inside (run (handle max) (events parent t)) (operators_in t) (reported true t)
    Inside-tree parent (tree n ts) =
        Inside-node parent n ts (Inside-trees n ts) (Outside-trees n ts)

    Inside-trees :
        (parent : Node) (ts : Trees Node)
        → Inside (run (handle max) (events_of parent ts)) (operators_of ts) (reported_of true ts)
    Inside-trees parent no_trees k os levels rs = rw (append-nil os, append-nil rs) refl
    Inside-trees parent (more_trees t ts) k os levels rs =
        run-siblings (handle max) parent t ts (state_with (pos (suc k)) os levels rs)
        ∙ ap (run (handle max) (events_of parent ts)) (Inside-tree parent t k os levels rs)
        ∙ Inside-trees parent ts k (os ++ operators_in t) levels (rs ++ reported true t)
        ∙ rw
            (
              append_assoc os (operators_in t) (operators_of ts),
              append_assoc rs (reported true t) (reported_of true ts),
            )
            refl

    Outside-tree :
        (parent : Node) (t : Tree Node)
        → Outside (run (handle max) (events parent t)) (reported false t)
    Outside-tree parent (tree n ts) =
        Outside-node parent n ts (Inside-trees n ts) (Outside-trees n ts)

    Outside-trees :
        (parent : Node) (ts : Trees Node)
        → Outside (run (handle max) (events_of parent ts)) (reported_of false ts)
    Outside-trees parent no_trees levels rs = rw (append-nil rs) refl
    Outside-trees parent (more_trees t ts) levels rs =
        run-siblings (handle max) parent t ts (state_with (pos 0) [] levels rs)
        ∙ ap (run (handle max) (events_of parent ts)) (Outside-tree parent t levels rs)
        ∙ Outside-trees parent ts levels (rs ++ reported false t)
        ∙ rw (append_assoc rs (reported false t) (reported_of false ts)) refl

  -- On each program the handlers run without a TypeError, and the rule reports exactly the
  -- conditionals outside of others, where scopes begin anew, in which there are more operators than
  -- `max`: each for all of them, but for those in scopes, and behind what is reported inside of it.
  pub check_expressions_lem :
      (above : Node) (program : Tree Node)
      → check_expressions max above program
        ≡ some (record { statement_level = new_expression ∷ []; reports = reported false program })
  unfolding check_expressions
  check_expressions_lem above program = Outside-tree above program [] []
