-- ===== src/Metrics/Visitor.antt =====
-- The traversal of src/linting/eslint/linter/visitors/visitor.ts and the counter of
-- metrics/helpers/counter.ts. The callback changes a state `S`.
pub mod Preorder
pub mod Laws
use mathlib.Core.List.{reverse_aux}
use sonar_js.Prelude.{
  ℕ, zero, suc, ◌+◌, Option, none, some, List, [], ◌∷◌, ◌++◌, reverse, Bool, if◌then◌else◌, length,
}
use sonar_js.Metrics.Ast.{Node, VisitorKeys, children_of, height}

module _ {ℓ} {S : Type ℓ} (visitor_keys : VisitorKeys) (callback : Node → S → S) where
  -- the `while` loop; the top of the stack is its head
  unfoldable pub visit_loop : ℕ → List Node → S → Option S
  visit_loop fuel [] s = some s
  visit_loop zero (n ∷ stack) s = none
  visit_loop (suc fuel) (n ∷ stack) s =
      visit_loop fuel (reverse_aux (reverse (children_of visitor_keys n)) stack) (callback n s)

  unfoldable pub visit : ℕ → Node → S → Option S
  unfolding visit_loop
  visit fuel ast s = visit_loop fuel (ast ∷ []) s

-- `visitAndCountIf`
unfoldable pub visit_and_count_if : VisitorKeys → ℕ → Node → (Node → Bool) → Option ℕ
unfolding visit
visit_and_count_if visitor_keys fuel ast predicate =
    visit visitor_keys (λ n results. if predicate n then results + 1 else results) fuel ast 0
