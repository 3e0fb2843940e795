-- ===== src/Regex/CharacterClass/Sorted.antt =====
-- Sorted lists as ordered maps: the trees of the test runs.
use sonar_js.Prelude.{
  ℕ, ◌≤◌, ◌<◌, Option, none, some, List, [], ◌∷◌, ◌++◌, ◌≡◌, refl, ap, inl, inr, arith, All,
  Bool-cases, ◌==◌, ==_iff, ltb, if◌then◌else◌, get, IsDistinct, All-get,
}
use sonar_js.Regex.CharacterClass.Ordered.{Trees, IsTrees, nearest, Ascending}
use sonar_js.Regex.CharacterClass.Values.{entry, same_pair}

abbrev Entries : Type 0
Entries = List (ℕ × Option ℕ)

abbrev pub set : Entries → ℕ → Option ℕ → Entries
set [] k v = (k, v) ∷ []
set ((j, w) ∷ es) k v =
    if ltb k j then (k, v) ∷ (j, w) ∷ es else (if k == j then (k, v) ∷ es else (j, w) ∷ set es k v)

abbrev pub above : Entries → ℕ → Option (ℕ × Option ℕ)
above [] k = none
above ((j, w) ∷ es) k = if ltb k j then some (j, w) else above es k

get-set :
    (es : Entries) (k j : ℕ) (v : Option ℕ)
    → get (set es k v) j ≡ (if k == j then some v else get es j)
get-set [] k j v = refl
get-set ((i, w) ∷ es) k j v = ground (arith, get-set es k j v)

abbrev Above : ℕ → Entries → Type 0
Above m es = All (λ (j, _). m < j) es

set-Above :
    (m : ℕ) (es : Entries) (k : ℕ) (v : Option ℕ) → m < k → Above m es → Above m (set es k v)
set-Above m [] k v h g = (h, tt)
set-Above m ((j, w) ∷ es) k v h (p, g) = elim (Bool-cases (ltb k j)) [
  | inl low ↦ rw (low) (h, (p, g))
  | inr high ↦ elim (Bool-cases (k == j)) [
    | inl same ↦ rw (high) (rw (same) (h, g))
    | inr other ↦ rw (high) (rw (other) (p, set-Above m es k v h g))
  ]
]

Above-trans : (i j : ℕ) (es : Entries) → i ≤ j → Above j es → Above i es
Above-trans i j [] h g = tt
Above-trans i j ((k, w) ∷ es) h (p, g) = (omega arith, Above-trans i j es h g)

pub set-Ascending : (es : Entries) (k : ℕ) (v : Option ℕ) → Ascending es → Ascending (set es k v)
set-Ascending [] k v h = (tt, tt)
set-Ascending ((j, w) ∷ es) k v (p, h) = elim (Bool-cases (ltb k j)) [
  | inl low ↦
      let under : k < j = ground arith in
      rw (low) ((under, Above-trans k j es (omega arith) p), (p, h))
  | inr high ↦ elim (Bool-cases (k == j)) [
    | inl same ↦ rw (high) (rw (same) (Above-trans k j es (ground arith) p, h))
    | inr other ↦
        rw (high) (rw (other) (set-Above j es k v (ground arith) p, set-Ascending es k v h))
  ]
]

get-Above : (m : ℕ) (es : Entries) (i : ℕ) → Above m es → i ≤ m → get es i ≡ none
get-Above m [] i h p = refl
get-Above m ((j, w) ∷ es) i (q, h) p = ground (arith, get-Above m es i h p)

Ascending-IsDistinct : (es : Entries) → Ascending es → IsDistinct es
Ascending-IsDistinct [] h = tt
Ascending-IsDistinct ((j, w) ∷ es) (p, h) =
    (get-Above j es j p (omega arith), Ascending-IsDistinct es h)

above_none : (es : Entries) (k : ℕ) → above es k ≡ none → (j : ℕ) → k < j → get es j ≡ none
above_none [] k e j h = refl
above_none ((i, w) ∷ es) k e j h = elim (Bool-cases (ltb k i)) [
  | inl low ↦ absurd (ground arith)
  | inr high ↦ let rest = above_none es k (ground arith) j h in ground arith
]

above_some :
    (es : Entries) (k n : ℕ) (v : Option ℕ)
    → Ascending es
    → above es k ≡ some (n, v)
    → (k < n) × (get es n ≡ some v) × ((j : ℕ) → k < j → j < n → get es j ≡ none)
above_some [] k n v h e = absurd (ground arith)
above_some ((i, w) ∷ es) k n v (p, h) e = elim (Bool-cases (ltb k i)) [
  | inl low ↦
      let q : entry i w ≡ entry n v = ground arith in
      let (at, is) = same_pair q in
      (ground arith, ground arith, λ j a b. ground (arith, get-Above i es j p))
  | inr high ↦
      let (a, b, c) = above_some es k n v h (ground arith) in
      (a, ground arith, λ j q r. ground (arith, c j q r))
]

get_split :
    (es : Entries) (k : ℕ) (v : Option ℕ)
    → get es k ≡ some v
    → (before after : Entries) × (es ≡ before ++ (k, v) ∷ after)
get_split [] k v e = absurd (ground arith)
get_split ((j, w) ∷ es) k v e = elim (Bool-cases (j == k)) [
  | inl same ↦ let at : j ≡ k = (==_iff j k).0 same in let is : w ≡ v = ground arith in ([], es, cc)
  | inr other ↦
      let (before, after, split) = get_split es k v (ground arith) in
      ((j, w) ∷ before, after, ap (λ xs. (j, w) ∷ xs) split)
]

abbrev pub SortedEntries : Type 0
SortedEntries = (es : Entries) × Ascending es

abbrev pub sorted_trees : Trees (Option ℕ)
sorted_trees = record {
  Tree = SortedEntries;
  empty = ([], tt);
  find = λ (es, h) k. get es k;
  le = λ (es, h) k. nearest (get es) k;
  gt = λ (es, h) k. above es k;
  insert = λ (es, h) k v. (set es k v, set-Ascending es k v h);
  update = λ (es, h) k v. (set es k v, set-Ascending es k v h);
  entries = λ (es, h). es;
}

pub sorted_trees-IsTrees : IsTrees (Option ℕ) sorted_trees
sorted_trees-IsTrees = record {
  find-empty = λ k. refl;
  find-insert = λ (es, h) k j v e. get-set es k j v;
  find-update = λ (es, h) k j v w e. get-set es k j v;
  le_nearest = λ (es, h) k. refl;
  gt_none = λ (es, h) k e j p. above_none es k e j p;
  gt_some = λ (es, h) k n v e. above_some es k n v h e;
  entries-Ascending = λ (es, h). h;
  entries_sound =
      λ (es, h). All-get (λ (k, v). get es k ≡ some v) es (Ascending-IsDistinct es h) (λ k v e. e);
  entries_complete = λ (es, h) k v e. get_split es k v e;
}
