-- ===== src/Metrics/Lines/Laws.antt =====
-- `addLines` adds the closed range, and a sorted set of lines is strictly increasing.
use sonar_js.Prelude.{
  ℕ, zero, suc, ◌+◌, ◌-◌, ◌≤◌, false, ◌||◌, ◌&&◌, List, [], ◌∷◌, ◌≡◌, refl, inl, inr, arith, leb,
  ◌==◌, has, set_add, has-set_add, Bool-cases, ◌++◌,
}
use sonar_js.Metrics.Lines.{add_lines_from, add_lines, insert, sort}

has-add_lines_from :
    (rounds line x : ℕ) (lines : List ℕ)
    → has (add_lines_from rounds line lines) x
      ≡ (has lines x || (leb line x && leb (x + 1) (line + rounds)))
unfolding add_lines_from
has-add_lines_from zero line x lines = ground arith
has-add_lines_from (suc rounds) line x lines =
    ground
      (arith, has-add_lines_from rounds (line + 1) x (set_add lines line), has-set_add lines line x)

-- A line is in the set after `addLines` if it was, or lies in the range.
pub has-add_lines :
    (start_line end_line x : ℕ) (lines : List ℕ)
    → has (add_lines start_line end_line lines) x
      ≡ (has lines x || (leb start_line x && leb x end_line))
unfolding add_lines
has-add_lines start_line end_line x lines =
    ground (arith, has-add_lines_from (end_line + 1 - start_line) start_line x lines)

has-insert : (a x : ℕ) (s : List ℕ) → has (insert a s) x ≡ (a == x || has s x)
unfolding insert
has-insert a x [] = refl
has-insert a x (b ∷ bs) = ground (arith, has-insert a x bs)

pub has-sort : (s : List ℕ) (x : ℕ) → has (sort s) x ≡ has s x
unfolding sort
has-sort [] x = refl
has-sort (a ∷ s) x = ground (arith, has-insert a x (sort s), has-sort s x)

-- strictly increasing from a lower bound on
abbrev pub Above : ℕ → List ℕ → Type 0
Above n [] = Unit
Above n (x ∷ xs) = (n ≤ x) × Above (suc x) xs

-- Each line is larger than the one before.
abbrev pub Increasing : List ℕ → Type 0
Increasing = Above 0

-- no member twice
abbrev pub Distinct : List ℕ → Type 0
Distinct [] = Unit
Distinct (x ∷ xs) = (has xs x ≡ false) × Distinct xs

insert-Above : (n a : ℕ) (s : List ℕ) → n ≤ a → Above n s → has s a ≡ false → Above n (insert a s)
unfolding insert
insert-Above n a [] h k e = (h, tt)
insert-Above n a (b ∷ bs) h (p, k) e = elim (Bool-cases (leb a b)) [
  | inl below ↦ rw (below, insert) (h, (ground arith, k))
  | inr above ↦ rw (above, insert) (p, insert-Above (suc b) a bs (ground arith) k (ground arith))
]

sort-Above : (s : List ℕ) → Distinct s → Above 0 (sort s)
unfolding sort
sort-Above [] h = tt
sort-Above (a ∷ s) (fresh, h) =
    insert-Above 0 a (sort s) (omega arith) (sort-Above s h) (ground (arith, has-sort s a))

append-Distinct : (s : List ℕ) (a : ℕ) → Distinct s → has s a ≡ false → Distinct (s ++ a ∷ [])
append-Distinct [] a h e = (refl, tt)
append-Distinct (x ∷ s) a (p, h) e =
    (ground (arith, has-snoc s), append-Distinct s a h (ground arith))
  where
    has-snoc : (t : List ℕ) → has (t ++ a ∷ []) x ≡ (has t x || a == x)
    has-snoc [] = ground arith
    has-snoc (y ∷ t) = ground (arith, has-snoc t)

pub set_add-Distinct : (s : List ℕ) (a : ℕ) → Distinct s → Distinct (set_add s a)
set_add-Distinct s a h = elim (Bool-cases (has s a)) [
  | inl e ↦ rw e h
  | inr e ↦ rw e (append-Distinct s a h e)
]

add_lines_from-Distinct :
    (rounds line : ℕ) (s : List ℕ) → Distinct s → Distinct (add_lines_from rounds line s)
unfolding add_lines_from
add_lines_from-Distinct zero line s h = h
add_lines_from-Distinct (suc rounds) line s h =
    add_lines_from-Distinct rounds (line + 1) (set_add s line) (set_add-Distinct s line h)

pub add_lines-Distinct : (a b : ℕ) (s : List ℕ) → Distinct s → Distinct (add_lines a b s)
unfolding add_lines
add_lines-Distinct a b s h = add_lines_from-Distinct (b + 1 - a) a s h

pub sort-Increasing : (s : List ℕ) → Distinct s → Increasing (sort s)
sort-Increasing = sort-Above
