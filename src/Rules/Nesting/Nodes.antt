-- ===== src/Rules/Nesting/Nodes.antt =====
-- What a node does to the reports and to the stack.
use text.Mathlib.Text.{◌==◌ as str_eq}
use text.Mathlib.TextEquality.{eq_iff}
use mathlib.Core.List.{append_assoc, map-append}
use sonar_js.Prelude.{
  ℕ, suc, zero, ◌≡◌, ◌≤◌, refl, ap, sym, ◌∙◌, subst, Bool, true, false, List, [], ◌∷◌, ◌++◌, map,
  length, ◌==◌, if◌then◌else◌, length-reverse, ==_iff, Bool-cases, inl, inr, All, All-append, arith,
}
use sonar_js.Metrics.Ast.{SourceLocation, includes}
use sonar_js.Rules.Traversal.{
  Tree, Trees, tree, no_trees, more_trees, events, events_of, run, run-node, run-siblings,
}
use sonar_js.Rules.Nesting.{
  Node, Report, State, control_flow_nodes, is_else_if, pop, check, on_enter, on_exit, handle,
}

abbrev pub is_control_flow : Node → Bool
is_control_flow n = includes control_flow_nodes n.type

pub report_loc : Report → SourceLocation
report_loc r = r.loc

abbrev pub state_with : List SourceLocation → List Report → State
state_with stack reports = record { node_stack = stack; reports = reports }

-- Below an `if` the stack is not empty.
abbrev pub Above : Node → ℕ → Type 0
Above parent depth = str_eq parent.type "IfStatement" ≡ true → 1 ≤ depth

pub if-control_flow : (n : Node) → str_eq n.type "IfStatement" ≡ true → is_control_flow n ≡ true
unfolding control_flow_nodes
if-control_flow n e =
    subst (λ t. includes control_flow_nodes t ≡ true) (sym ((eq_iff n.type "IfStatement").0 e)) refl

pub empty : (stack : List SourceLocation) → length stack ≡ 0 → stack ≡ []
empty [] h = refl
empty (token ∷ stack) h = absurd (omega arith)

length-pop :
    (stack : List SourceLocation) (depth : ℕ)
    → length stack ≡ suc depth
    → length (pop stack) ≡ depth
unfolding pop
length-pop [] depth h = cc
length-pop (token ∷ stack) depth h = omega arith

pub elseif-above :
    (parent n : Node) → is_else_if parent n ≡ true → str_eq parent.type "IfStatement" ≡ true
unfolding is_else_if
elseif-above parent n h = ground arith

module _ (threshold : ℕ) where
  unfoldable pub own_report : ℕ → Node → List SourceLocation
  own_report depth n = if depth == threshold then n.first_token ∷ [] else []

  -- The first tokens of the statements at the depth of the threshold, where an `else if` lies at the
  -- depth of the `if` that it belongs to.
  unfoldable mutual
    unfolding own_report

    pub nested : ℕ → Node → Tree Node → List SourceLocation
    nested depth parent (tree n ts) =
        let same = nested_of depth n ts in
        let deeper = nested_of (suc depth) n ts in
        if is_control_flow n
        then if is_else_if parent n then same else own_report depth n ++ deeper
        else same

    pub nested_of : ℕ → Node → Trees Node → List SourceLocation
    nested_of depth parent no_trees = []
    nested_of depth parent (more_trees t ts) = nested depth parent t ++ nested_of depth parent ts

  -- each report has a secondary location for each statement around
  abbrev pub Deep : Report → Type 0
  Deep r = length r.secondary ≡ threshold

  -- From a stack with `depth` tokens on, `f` reports the statements with these first tokens and leaves
  -- as many tokens.
  abbrev pub Reports : (State → State) → ℕ → List SourceLocation → Type 0
  Reports f depth locs =
      (s : State)
      → length s.node_stack ≡ depth
      → (stack : List SourceLocation) × (found : List Report) × (f s
          ≡ record { node_stack = stack; reports = s.reports ++ found })
        × (length stack ≡ depth)
        × (map report_loc found ≡ locs)
        × All Deep found

  check_lem :
      (n : Node) (stack : List SourceLocation)
      → (map report_loc (check threshold n stack) ≡ own_report (length stack) n)
        × All Deep (check threshold n stack)
  unfolding check own_report report_loc
  check_lem n stack = elim (Bool-cases (length stack == threshold)) [
    | inl e ↦
        rw (e) (refl, (length-reverse stack ∙ (==_iff (length stack) threshold).0 e, record {}))
    | inr e ↦ rw (e) (refl, record {})
  ]

  -- a node that is no control flow node is passed by
  pub other_node :
      (parent n : Node) (ts : Trees Node) (depth : ℕ)
      → is_control_flow n ≡ false
      → Reports (run (handle threshold) (events_of n ts)) depth (nested_of depth n ts)
      → Reports
          (run (handle threshold) (events parent (tree n ts)))
          depth
          (nested depth parent (tree n ts))
  unfolding handle nested
  other_node parent n ts depth other inner s h =
      let (stack, found, e, long, locs, deep) = inner s h in
      (
        stack,
        found,
        run-node (handle threshold) parent n ts s ∙ rw (other, e) refl,
        long,
        rw (other) locs,
        deep,
      )

  -- an `else if` takes the place of its `if`
  pub else_if_node :
      (parent n : Node) (ts : Trees Node) (depth : ℕ)
      → is_control_flow n ≡ true
      → is_else_if parent n ≡ true
      → 1 ≤ depth
      → Reports (run (handle threshold) (events_of n ts)) depth (nested_of depth n ts)
      → Reports
          (run (handle threshold) (events parent (tree n ts)))
          depth
          (nested depth parent (tree n ts))
  unfolding handle nested on_enter on_exit
  else_if_node parent n ts (suc depth) flow elseif (some_above) inner s h =
      let long = length-pop s.node_stack depth h in
      let (stack, found, e, left, locs, deep) =
        inner (state_with (n.first_token ∷ pop s.node_stack) s.reports) (omega arith) in
      (
        stack,
        found,
        run-node (handle threshold) parent n ts s ∙ rw (flow, elseif, e) refl,
        left,
        rw (flow, elseif) locs,
        deep,
      )
  else_if_node parent n ts zero flow elseif h inner s e = absurd (omega arith)

  -- another control flow node is checked
  pub flow_node :
      (parent n : Node) (ts : Trees Node) (depth : ℕ)
      → is_control_flow n ≡ true
      → is_else_if parent n ≡ false
      → Reports (run (handle threshold) (events_of n ts)) (suc depth) (nested_of (suc depth) n ts)
      → Reports
          (run (handle threshold) (events parent (tree n ts)))
          depth
          (nested depth parent (tree n ts))
  unfolding handle nested on_enter on_exit
  flow_node parent n ts depth flow not_elseif inner s h =
      let (checked, checked_deep) = check_lem n s.node_stack in
      let own = check threshold n s.node_stack in
      let (stack, found, e, left, locs, deep) =
        inner (state_with (n.first_token ∷ s.node_stack) (s.reports ++ own)) (omega arith) in
      (
        pop stack,
        own ++ found,
        run-node (handle threshold) parent n ts s
            ∙ rw (flow, not_elseif, e)
                (ap (state_with (pop stack)) (append_assoc s.reports own found)),
        length-pop stack depth left,
        rw (flow, not_elseif)
            (map-append report_loc own found
              ∙ ap (λ l. l ++ map report_loc found) (checked ∙ ap (λ k. own_report k n) h)
              ∙ ap (λ l. own_report depth n ++ l) locs),
        All-append Deep own found checked_deep deep,
      )

  -- trees one after the other
  pub siblings :
      (parent : Node) (t : Tree Node) (ts : Trees Node) (depth : ℕ)
      → Reports (run (handle threshold) (events parent t)) depth (nested depth parent t)
      → Reports (run (handle threshold) (events_of parent ts)) depth (nested_of depth parent ts)
      → Reports
          (run (handle threshold) (events_of parent (more_trees t ts)))
          depth
          (nested_of depth parent (more_trees t ts))
  unfolding nested_of
  siblings parent t ts depth first rest s h =
      let (stack, found, e, left, locs, deep) = first s h in
      let (stack', found', e', left', locs', deep') =
        rest (state_with stack (s.reports ++ found)) left in
      (
        stack',
        found ++ found',
        run-siblings (handle threshold) parent t ts s
            ∙ ap (run (handle threshold) (events_of parent ts)) e
            ∙ e'
            ∙ ap (state_with stack') (append_assoc s.reports found found'),
        left',
        (map-append report_loc found found'
            ∙ ap (λ l. l ++ map report_loc found') locs
            ∙ ap (λ l. nested depth parent t ++ l) locs'),
        All-append Deep found found' deep deep',
      )
