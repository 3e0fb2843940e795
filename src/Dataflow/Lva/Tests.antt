-- ===== src/Dataflow/Lva/Tests.antt =====
-- Runs of the live variable analysis on a small graph.
use sonar_js.Prelude.{ℕ, true, [], ◌∷◌, ◌≡◌, refl, ◌↔◌, arith}
use sonar_js.Dataflow.Lva.{LiveVariablesMap, lva, done}
use sonar_js.Dataflow.Lva.Graph.{IsLive, IsGraph, enough}
use sonar_js.Dataflow.Lva.Correct.{lva_decides, flows_in}

-- Segment 1 writes variable 7 and leads to segment 2, which reads it and leads to itself.
abbrev sample : LiveVariablesMap
sample =
    (
      1,
      record {
        segment = record { id = 1; next_segments = 2 ∷ []; prev_segments = [] };
        gen = [];
        kill = 7 ∷ [];
        live_in = [];
        live_out = [];
        references = [];
      },
    )
    ∷ (
      2,
      record {
        segment = record { id = 2; next_segments = 2 ∷ []; prev_segments = 1 ∷ 2 ∷ [] };
        gen = 7 ∷ 8 ∷ [];
        kill = [];
        live_in = [];
        live_out = [];
        references = [];
      },
    )
    ∷ []

sample-IsGraph : IsGraph sample
sample-IsGraph = record {
  distinct = (refl, (refl, tt));
  named = omega arith;
  nexts = λ k j lv e h. ground arith;
  prevs = λ k j lv e h. ground arith;
  agree = λ k j lv lj e f h. ground arith;
  fresh = λ k lv e. ground arith;
}

lva_decides_example :
    (end : LiveVariablesMap) × (lva (enough sample) sample ≡ done end)
    × ((k x : ℕ) → (flows_in end k x ≡ true) ↔ IsLive sample x k)
lva_decides_example = lva_decides sample sample-IsGraph
