-- ===== src/Regex/CharacterClass/Ordered.antt =====
-- The package functional-red-black-tree, as far as
-- src/linting/eslint/rules/helpers/regex/simplified-regex-character-class.ts uses it: persistent maps
-- from numbers, ordered by their keys.
use sonar_js.Prelude.{
  ℕ, zero, suc, ◌<◌, Option, none, some, List, [], ◌∷◌, ◌++◌, ◌≡◌, if◌then◌else◌, ◌==◌, All,
}

abbrev pub entry_or : {V : Type 0} → ℕ → Option V → Option (ℕ × V) → Option (ℕ × V)
entry_or k none below = below
entry_or k (some v) below = some (k, v)

-- the entry of the greatest key up to `k`
unfoldable pub nearest : {V : Type 0} → (ℕ → Option V) → ℕ → Option (ℕ × V)
nearest f zero = entry_or zero (f zero) none
nearest f (suc k) = entry_or (suc k) (f (suc k)) (nearest f k)

abbrev pub Ascending : {V : Type 0} → List (ℕ × V) → Type 0
Ascending [] = Unit
Ascending ((k, v) ∷ es) = All (λ (j, _). k < j) es × Ascending es

-- `find` has the value of a key, `le` and `gt` the entries next to a key, `insert` and `update`
-- return a new version of the tree, and `entries` is what an iterator meets from `begin` on.
pub record Trees (V : Type 0) : Type 1 where
  pub Tree : Type 0
  pub empty : Tree
  pub find : Tree → ℕ → Option V
  pub le : Tree → ℕ → Option (ℕ × V)
  pub gt : Tree → ℕ → Option (ℕ × V)
  pub insert : Tree → ℕ → V → Tree
  pub update : Tree → ℕ → V → Tree
  pub entries : Tree → List (ℕ × V)

-- The documented behaviour of these operations.
pub record IsTrees (V : Type 0) (trees : Trees V) : Type 0 where
  pub find-empty : (k : ℕ) → trees.find trees.empty k ≡ none
  pub find-insert :
      (t : trees.Tree) (k j : ℕ) (v : V)
      → trees.find t k ≡ none
      → trees.find (trees.insert t k v) j ≡ (if k == j then some v else trees.find t j)
  pub find-update :
      (t : trees.Tree) (k j : ℕ) (v w : V)
      → trees.find t k ≡ some w
      → trees.find (trees.update t k v) j ≡ (if k == j then some v else trees.find t j)
  pub le_nearest : (t : trees.Tree) (k : ℕ) → trees.le t k ≡ nearest (trees.find t) k
  pub gt_none :
      (t : trees.Tree) (k : ℕ) → trees.gt t k ≡ none → (j : ℕ) → k < j → trees.find t j ≡ none
  pub gt_some :
      (t : trees.Tree) (k n : ℕ) (v : V)
      → trees.gt t k ≡ some (n, v)
      → (k < n) × (trees.find t n ≡ some v) × ((j : ℕ) → k < j → j < n → trees.find t j ≡ none)
  pub entries-Ascending : (t : trees.Tree) → Ascending (trees.entries t)
  pub entries_sound : (t : trees.Tree) → All (λ (k, v). trees.find t k ≡ some v) (trees.entries t)
  pub entries_complete :
      (t : trees.Tree) (k : ℕ) (v : V)
      → trees.find t k ≡ some v
      → (before after : List (ℕ × V)) × (trees.entries t ≡ before ++ (k, v) ∷ after)
