-- ===== src/Metrics/Visitor/Preorder.antt =====
-- The order of a depth-first walk, defined by recursion on the tree.
use Prim.Native.String.{String}
use sonar_js.Prelude.{
  ℕ, zero, suc, ◌≤◌, ◌<◌, none, some, List, [], ◌∷◌, ◌++◌, ◌≡◌, refl, ap, sym, ◌∙◌, arith, All,
  All-append, Option-cases, inl, inr, subst,
}
use mathlib.Core.List.{append_assoc}
use native.Mathlib.Nat.{le_trans}
use sonar_js.Metrics.Ast.{
  Node, Props, Child, Nodes, node, no_props, prop, text_prop, absent, single, array, no_nodes, item,
  hole, VisitorKeys, children_of, gather_children, height, height_props, height_child, height_nodes,
  child_at, nodes_of, to_list, props_of, type_of,
}

abbrev pub flat_map {ℓ κ} : {A : Type ℓ} {B : Type κ} → (A → List B) → List A → List B
flat_map f [] = []
flat_map f (x ∷ xs) = f x ++ flat_map f xs

pub flat_map-append {ℓ κ} :
    {A : Type ℓ} {B : Type κ} (f : A → List B) (xs ys : List A)
    → flat_map f (xs ++ ys) ≡ flat_map f xs ++ flat_map f ys
flat_map-append f [] ys = refl
flat_map-append f (x ∷ xs) ys =
    ap (λ r. f x ++ r) (flat_map-append f xs ys)
    ∙ sym (append_assoc (f x) (flat_map f xs) (flat_map f ys))

-- the nodes from `n` on, down to depth `d`
unfoldable pub preorder_to : VisitorKeys → ℕ → Node → List Node
preorder_to vk zero n = []
preorder_to vk (suc d) n = n ∷ flat_map (preorder_to vk d) (children_of vk n)

-- A node, and then what its children hold, from the first child to the last.
unfoldable pub preorder : VisitorKeys → Node → List Node
unfolding preorder_to
preorder vk n = preorder_to vk (height n) n

to_list-height : (ns : Nodes) → All (λ c. height c ≤ height_nodes ns) (to_list ns)
unfolding height
to_list-height no_nodes = tt
to_list-height (item n ns) = (omega arith, weaken (to_list ns) (to_list-height ns))
  where
    weaken :
        (xs : List Node)
        → All (λ c. height c ≤ height_nodes ns) xs
        → All (λ c. height c ≤ height_nodes (item n ns)) xs
    weaken [] h = tt
    weaken (x ∷ xs) (p, h) = (omega arith, weaken xs h)
to_list-height (hole ns) = to_list-height ns

nodes_of-height : (c : Child) (d : ℕ) → height_child c ≤ d → All (λ n. height n ≤ d) (nodes_of c)
unfolding height
nodes_of-height absent d h = tt
nodes_of-height (single n) d h = (h, tt)
nodes_of-height (array ns) d h = weaken (to_list ns) (to_list-height ns)
  where
    weaken :
        (xs : List Node) → All (λ c. height c ≤ height_nodes ns) xs → All (λ c. height c ≤ d) xs
    weaken [] g = tt
    weaken (x ∷ xs) (p, g) = (omega arith, weaken xs g)

child_at-height : (ps : Props) (key : String) → height_child (child_at ps key) ≤ height_props ps
unfolding height
child_at-height no_props key = omega arith
child_at-height (prop name child rest) key = ground (arith, child_at-height rest key)
child_at-height (text_prop name value rest) key = ground (arith, child_at-height rest key)

gather_children-height :
    (ps : Props) (keys : List String) (d : ℕ)
    → height_props ps ≤ d
    → All (λ n. height n ≤ d) (gather_children ps keys)
unfolding gather_children
gather_children-height ps [] d h = tt
gather_children-height ps (key ∷ keys) d h =
    All-append (λ n. height n ≤ d) (nodes_of (child_at ps key)) (gather_children ps keys)
      (nodes_of-height (child_at ps key) d (le_trans (child_at-height ps key) h))
      (gather_children-height ps keys d h)

children_of-keys :
    (vk : VisitorKeys) (n : Node) (keys : List String)
    → vk (type_of n) ≡ some keys
    → children_of vk n ≡ gather_children (props_of n) keys
unfolding children_of
children_of-keys vk n keys e = rw (e, children_of)

children_of-none : (vk : VisitorKeys) (n : Node) → vk (type_of n) ≡ none → children_of vk n ≡ []
unfolding children_of
children_of-none vk n e = rw (e, children_of)

-- The children of a node are lower than the node.
pub children_of-height :
    (vk : VisitorKeys) (n : Node) (d : ℕ)
    → height n ≤ suc d
    → All (λ c. height c ≤ d) (children_of vk n)
unfolding height
children_of-height vk (node type loc props) d h = elim (Option-cases (vk type)) [
  | inl e ↦ subst (All (λ c. height c ≤ d)) (sym (children_of-none vk (node type loc props) e)) tt
  | inr (keys, e) ↦
      subst (All (λ c. height c ≤ d)) (sym (children_of-keys vk (node type loc props) keys e))
        (gather_children-height props keys d (omega arith))
]

pub height_pos : (n : Node) → 0 < height n
unfolding height
height_pos (node type loc props) = omega arith

pub flat_map-eq {ℓ} :
    {B : Type ℓ} (f g : Node → List B) (P : Node → Type 0) (xs : List Node)
    → All P xs
    → ((x : Node) → P x → f x ≡ g x)
    → flat_map f xs ≡ flat_map g xs
flat_map-eq f g P [] h e = refl
flat_map-eq f g P (x ∷ xs) (p, h) e = rw (e x p) (rw (flat_map-eq f g P xs h e))

-- A depth beyond the height changes nothing.
pub preorder_to_stable :
    (vk : VisitorKeys) (d e : ℕ) (n : Node)
    → height n ≤ d
    → height n ≤ e
    → preorder_to vk d n ≡ preorder_to vk e n
unfolding preorder_to height
preorder_to_stable vk zero e (node type loc props) h k = absurd (omega arith)
preorder_to_stable vk (suc d) zero (node type loc props) h k = absurd (omega arith)
preorder_to_stable vk (suc d) (suc e) (node type loc props) h k =
    ap (λ r. node type loc props ∷ r)
      (flat_map-eq (preorder_to vk d) (preorder_to vk e) (λ c. (height c ≤ d) × (height c ≤ e))
        (children_of vk (node type loc props))
        (both (children_of vk (node type loc props))
          (children_of-height vk (node type loc props) d h)
          (children_of-height vk (node type loc props) e k))
        (λ c (p, q). preorder_to_stable vk d e c p q))
  where
    both :
        (xs : List Node)
        → All (λ c. height c ≤ d) xs
        → All (λ c. height c ≤ e) xs
        → All (λ c. (height c ≤ d) × (height c ≤ e)) xs
    both [] g k' = tt
    both (x ∷ xs) (p, g) (q, k') = ((p, q), both xs g k')
