-- ===== src/Dataflow/Lva/Graph.antt =====
-- What a live variable is, on the graph of segments that the analysis is given.
use sonar_js.Prelude.{
  ℕ, ◌+◌, ◌*◌, true, false, none, some, List, [], ◌∷◌, ◌++◌, ◌≡◌, ◌≢◌, has, get, length, All,
  IsDistinct,
}
use sonar_js.Dataflow.Lva.{LiveVariables, LiveVariablesMap}

-- On some path that starts with segment `k`, `x` is in `gen` of a segment and in `kill` of none before
-- that one.
pub data IsLive (m : LiveVariablesMap) (x : ℕ) : ℕ → Type 0 where
  used : {k : ℕ} (lv : LiveVariables) → get m k ≡ some lv → has lv.gen x ≡ true → IsLive m x k
  passed :
      {k : ℕ} (lv : LiveVariables) (j : ℕ)
      → get m k ≡ some lv
      → has lv.kill x ≡ false
      → has lv.segment.next_segments j ≡ true
      → IsLive m x j
      → IsLive m x k

-- The map that the rules hand over: each entry stands under its segment's id, the next segments
-- have entries, the two directions agree, and nothing has been propagated yet.
pub record IsGraph (m : LiveVariablesMap) : Type 0 where
  pub distinct : IsDistinct m
  pub named : All (λ (k, lv). lv.segment.id ≡ k) m
  pub nexts :
      (k j : ℕ) (lv : LiveVariables)
      → get m k ≡ some lv
      → has lv.segment.next_segments j ≡ true
      → get m j ≢ none
  pub prevs :
      (k j : ℕ) (lv : LiveVariables)
      → get m k ≡ some lv
      → has lv.segment.prev_segments j ≡ true
      → get m j ≢ none
  pub agree :
      (k j : ℕ) (lv lj : LiveVariables)
      → get m k ≡ some lv
      → get m j ≡ some lj
      → has lv.segment.next_segments j ≡ true
      → has lj.segment.prev_segments k ≡ true
  pub fresh : (k : ℕ) (lv : LiveVariables) → get m k ≡ some lv → lv.live_in ≡ []

-- all variables that some segment reads
unfoldable pub variables : LiveVariablesMap → List ℕ
variables [] = []
variables ((k, lv) ∷ m) = lv.gen ++ variables m

-- the number of edges, counted at their targets
unfoldable pub edges : LiveVariablesMap → ℕ
edges [] = 0
edges ((k, lv) ∷ m) = length lv.segment.prev_segments + edges m

-- Rounds that are enough: each segment once, and its predecessors again for each variable.
unfoldable pub enough : LiveVariablesMap → ℕ
unfolding variables edges
enough m = length m + edges m * (length m * length (variables m))
