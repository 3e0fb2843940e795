-- ===== src/Metrics/Visitor/Laws.antt =====
-- The traversal meets every node once, in preorder.
use mathlib.Core.List.{reverse_aux, reverse-reverse, append-nil, reverse_aux-eq}
use native.Mathlib.Nat.{le_refl}
use sonar_js.Prelude.{
  ℕ, zero, suc, ◌+◌, ◌≤◌, some, List, [], ◌∷◌, ◌++◌, ◌≡◌, refl, ap, ◌∙◌, arith, length, All,
  All-append, reverse, Bool, if◌then◌else◌,
}
use sonar_js.Metrics.Ast.{Node, VisitorKeys, children_of, height, height_props}
use sonar_js.Metrics.Visitor.{visit_loop, visit, visit_and_count_if}
use sonar_js.Metrics.Visitor.Preorder.{
  preorder, preorder_to, preorder_to_stable, flat_map, flat_map-append, flat_map-eq,
  children_of-height, height_pos,
}

-- a callback on each node of a list in turn
abbrev pub run {ℓ} : {S : Type ℓ} → (Node → S → S) → List Node → S → S
run callback [] s = s
run callback (n ∷ ns) s = run callback ns (callback n s)

-- A node comes first in its preorder, and then the preorders of its children in their order.
pub preorder_lem :
    (vk : VisitorKeys) (n : Node) → preorder vk n ≡ n ∷ flat_map (preorder vk) (children_of vk n)
unfolding preorder height
preorder_lem vk (Node.node type loc props) =
    ap (λ r. Node.node type loc props ∷ r)
      (flat_map-eq (preorder_to vk (height_props props)) (preorder vk)
        (λ c. height c ≤ height_props props) (children_of vk (Node.node type loc props))
        (children_of-height vk (Node.node type loc props) (height_props props) (le_refl _))
        (λ c h. preorder_to_stable vk (height_props props) (height c) c h (le_refl _)))

push_children : (ns stack : List Node) → reverse_aux (reverse ns) stack ≡ ns ++ stack
push_children ns stack =
    reverse_aux-eq (reverse ns) stack ∙ ap (λ r. r ++ stack) (reverse-reverse ns)

module _ {ℓ} {S : Type ℓ} (vk : VisitorKeys) (callback : Node → S → S) where
  visit_loop_lem :
      (d fuel : ℕ) (stack : List Node) (s : S)
      → All (λ n. height n ≤ d) stack
      → length (flat_map (preorder_to vk d) stack) ≤ fuel
      → visit_loop vk callback fuel stack s
        ≡ some (run callback (flat_map (preorder_to vk d) stack) s)
  unfolding visit_loop preorder_to
  visit_loop_lem d fuel [] s h e = refl
  visit_loop_lem zero fuel (n ∷ stack) s (p, h) e = absurd (omega (arith, height_pos n))
  visit_loop_lem (suc d) zero (n ∷ stack) s (p, h) e = absurd (omega arith)
  visit_loop_lem (suc d) (suc fuel) (n ∷ stack) s (p, h) e =
      let low = children_of-height vk n d p in
      let high = weaken (children_of vk n) low in
      let same = flattened in
      rw (push_children (children_of vk n) stack, visit_loop)
        (visit_loop_lem (suc d) fuel (children_of vk n ++ stack) (callback n s)
            (All-append (λ c. height c ≤ suc d) (children_of vk n) stack high h)
            (omega (arith, ap length same))
          ∙ ap (λ r. some (run callback r (callback n s))) same)
    where
      weaken : (xs : List Node) → All (λ c. height c ≤ d) xs → All (λ c. height c ≤ suc d) xs
      weaken [] g = tt
      weaken (x ∷ xs) (q, g) = (omega arith, weaken xs g)

      flattened :
          flat_map (preorder_to vk (suc d)) (children_of vk n ++ stack)
          ≡ flat_map (preorder_to vk d) (children_of vk n)
            ++ flat_map (preorder_to vk (suc d)) stack
      flattened =
          flat_map-append (preorder_to vk (suc d)) (children_of vk n) stack
          ∙ ap (λ r. r ++ flat_map (preorder_to vk (suc d)) stack)
              (flat_map-eq (preorder_to vk (suc d)) (preorder_to vk d) (λ c. height c ≤ d)
                (children_of vk n) (children_of-height vk n d p)
                (λ c q. preorder_to_stable vk (suc d) d c (omega arith) q))

  -- With a round for each node met, `visit` calls back on the nodes of the tree in preorder, each
  -- as often as it stands there, and then ends.
  pub visit-preorder :
      (fuel : ℕ) (ast : Node) (s : S)
      → length (preorder vk ast) ≤ fuel
      → visit vk callback fuel ast s ≡ some (run callback (preorder vk ast) s)
  unfolding visit preorder
  visit-preorder fuel ast s h =
      let whole = append-nil (preorder_to vk (height ast) ast) in
      visit_loop_lem (height ast) fuel (ast ∷ []) s (le_refl _, tt) (omega (arith, ap length whole))
      ∙ ap (λ r. some (run callback r s)) whole

-- how many nodes of a list pass a test
unfoldable pub count_if : (Node → Bool) → List Node → ℕ
count_if predicate [] = 0
count_if predicate (n ∷ ns) = (if predicate n then 1 else 0) + count_if predicate ns

run-count :
    (predicate : Node → Bool) (ns : List Node) (k : ℕ)
    → run (λ n results. if predicate n then results + 1 else results) ns k
      ≡ k + count_if predicate ns
unfolding count_if
run-count predicate [] k = omega arith
run-count predicate (n ∷ ns) k =
    ground (arith, run-count predicate ns (k + 1), run-count predicate ns k)

-- `visitAndCountIf` counts the nodes of the preorder that pass the test.
pub visit_and_count_if-preorder :
    (vk : VisitorKeys) (fuel : ℕ) (ast : Node) (predicate : Node → Bool)
    → length (preorder vk ast) ≤ fuel
    → visit_and_count_if vk fuel ast predicate ≡ some (count_if predicate (preorder vk ast))
unfolding visit_and_count_if
visit_and_count_if-preorder vk fuel ast predicate h =
    visit-preorder vk (λ n results. if predicate n then results + 1 else results) fuel ast 0 h
    ∙ ap some (run-count predicate (preorder vk ast) 0 ∙ zero_add _)
  where
    zero_add : (k : ℕ) → 0 + k ≡ k
    zero_add k = omega arith
