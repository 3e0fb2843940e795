-- ===== src/Metrics/Lines.antt =====
-- Sets of lines: metrics/helpers/lines.ts, and the sorted arrays that the metrics make of them.
pub mod Laws
use sonar_js.Prelude.{ℕ, zero, suc, ◌+◌, ◌-◌, Bool, List, [], ◌∷◌, if◌then◌else◌, leb, set_add}

-- the loop of `addLines`, with the rounds that are left
add_lines_from : ℕ → ℕ → List ℕ → List ℕ
add_lines_from zero line lines = lines
add_lines_from (suc rounds) line lines = add_lines_from rounds (line + 1) (set_add lines line)

unfoldable pub add_lines : ℕ → ℕ → List ℕ → List ℕ
unfolding add_lines_from
add_lines start_line end_line lines = add_lines_from (end_line + 1 - start_line) start_line lines

insert : ℕ → List ℕ → List ℕ
insert a [] = a ∷ []
insert a (b ∷ bs) = let rest = insert a bs in if leb a b then a ∷ b ∷ bs else b ∷ rest

-- `Array.from(lines).sort((a, b) => a - b)`
unfoldable pub sort : List ℕ → List ℕ
unfolding insert
sort [] = []
sort (a ∷ as') = insert a (sort as')
