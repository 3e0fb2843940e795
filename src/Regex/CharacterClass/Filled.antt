-- ===== src/Regex/CharacterClass/Filled.antt =====
-- The entries of the tree that `addRange` leaves:
-- src/linting/eslint/rules/helpers/regex/simplified-regex-character-class.ts.
use sonar_js.Prelude.{
  ℕ, suc, ◌+◌, ◌≤◌, ◌<◌, Bool, true, false, Option, none, some, ◌≡◌, refl, sym, ◌∙◌, ap, ◌⊎◌, inl,
  inr, arith, All, subst, Bool-cases, ◌==◌, leb, if◌then◌else◌,
}
use sonar_js.Regex.CharacterClass.Ordered.{Trees, IsTrees}
use sonar_js.Regex.CharacterClass.Values.{value_of}
use sonar_js.Regex.CharacterClass.{put, fill_gaps, end_of, put_end, add_range, max_code_point}
use sonar_js.Regex.CharacterClass.Ranges.{
  find-put, IsGap, IsChanged, IsFilled, fill_gaps-IsFilled, fill_gaps_at,
}
use sonar_js.Regex.CharacterClass.Ends.{put_end-IsEnded, IsEnded}

if_true : {A : Type 0} (b : Bool) (x y : A) → b ≡ true → (if b then x else y) ≡ x
if_true b x y h = rw (h) refl

if_false : {A : Type 0} (b : Bool) (x y : A) → b ≡ false → (if b then x else y) ≡ y
if_false b x y h = rw (h) refl

module _ (trees : Trees (Option ℕ)) (laws : IsTrees (Option ℕ) trees) (t : trees.Tree)
    (from to element : ℕ) (ordered : from ≤ to) where
  -- At most one gap lies in the range.
  abbrev pub OneGap : Type 0
  OneGap = (i j : ℕ) → IsGap trees laws t from to i → IsGap trees laws t from to j → i ≡ j

  abbrev pub started : trees.Tree
  started = put trees from (some element) t

  abbrev pub filled : trees.Tree
  filled = fill_gaps trees started from to element (trees.entries started) started

  find-started :
      (j : ℕ) → trees.find started j ≡ (if from == j then some (some element) else trees.find t j)
  find-started j = find-put trees laws from j (some element) t

  started-IsFilled : IsFilled trees laws started from to element filled
  started-IsFilled =
      fill_gaps-IsFilled trees laws started from to element (trees.entries started) started
        (laws.entries_sound started) (inl (λ j. refl))

  -- the keys outside of the range
  pub filled_outside : (j : ℕ) → (j < from) ⊎ (to < j) → trees.find filled j ≡ trees.find t j
  filled_outside j out = elim started-IsFilled [
    | inl same ↦ same j ∙ find-started j ∙ away out
    | inr (k, (low, high, e), changed) ↦ changed j ∙ off k low high out ∙ find-started j ∙ away out
  ]
    where
      away :
          (j < from) ⊎ (to < j)
          → (if from == j then some (some element) else trees.find t j) ≡ trees.find t j
      away (inl p) = ground arith
      away (inr p) = ground arith

      off :
          (k : ℕ)
          → from < k
          → k ≤ to
          → (j < from) ⊎ (to < j)
          → (if k == j then some (some element) else trees.find started j) ≡ trees.find started j
      off k a b (inl p) = ground arith
      off k a b (inr p) = ground arith

  pub filled_start : trees.find filled from ≡ some (some element)
  filled_start = elim started-IsFilled [
    | inl same ↦ same from ∙ find-started from ∙ here
    | inr (k, (low, high, e), changed) ↦ changed from ∙ off k low ∙ find-started from ∙ here
  ]
    where
      here : (if from == from then some (some element) else trees.find t from) ≡ some (some element)
      here = ground arith

      off :
          (k : ℕ)
          → from < k
          → (if k == from then some (some element) else trees.find started from)
            ≡ trees.find started from
      off k a = ground arith

  pub filled_inside :
      (j : ℕ)
      → from < j
      → (trees.find filled j ≡ trees.find t j) ⊎ (trees.find filled j ≡ some (some element))
  filled_inside j low = elim started-IsFilled [
    | inl same ↦ inl (same j ∙ find-started j ∙ away)
    | inr (k, (a, b, e), changed) ↦ elim (Bool-cases (k == j)) [
      | inl is ↦ inr (changed j ∙ hit k is)
      | inr other ↦ inl (changed j ∙ miss k other ∙ find-started j ∙ away)
    ]
  ]
    where
      away : (if from == j then some (some element) else trees.find t j) ≡ trees.find t j
      away = ground arith

      hit :
          (k : ℕ)
          → k == j ≡ true
          → (if k == j then some (some element) else trees.find started j) ≡ some (some element)
      hit k is = rw (is) refl

      miss :
          (k : ℕ)
          → k == j ≡ false
          → (if k == j then some (some element) else trees.find started j) ≡ trees.find started j
      miss k is = rw (is) refl

  started_gap : (j : ℕ) → from < j → trees.find started j ≡ trees.find t j
  started_gap j low = find-started j ∙ away
    where
      away : (if from == j then some (some element) else trees.find t j) ≡ trees.find t j
      away = ground arith

  pub filled_gap :
      OneGap → (j : ℕ) → IsGap trees laws t from to j → trees.find filled j ≡ some (some element)
  filled_gap one j (low, high, e) =
      let is_none = started_gap j low ∙ e in
      let (before, after, split) = laws.entries_complete started j none is_none in
      let sound =
        subst (All (λ (k, v). trees.find started k ≡ some v)) split (laws.entries_sound started) in
      let (k, (a, b, c), changed) =
        subst
          (λ es.
            IsChanged trees laws started from to element
              (fill_gaps trees started from to element es started))
          (sym split)
          (fill_gaps_at trees laws started from to element j before after started
            (low, high, is_none) sound) in
      let at = one k j (a, b, sym (started_gap k a) ∙ c) (low, high, e) in changed j ∙ hit k at
    where
      hit :
          (k : ℕ)
          → k ≡ j
          → (if k == j then some (some element) else trees.find started j) ≡ some (some element)
      hit k is = ground arith

  abbrev pub last : trees.Tree
  last = add_range trees from to element t

  behind : ℕ → trees.Tree
  behind next = put_end trees next (trees.le t to) (end_of trees t (trees.le t to)) filled

  last_inner : leb (to + 1) max_code_point ≡ true → last ≡ behind (suc to)
  unfolding add_range behind
  last_inner h =
      if_true (leb (to + 1) max_code_point) (behind (to + 1)) filled h ∙ ap behind (omega arith)

  last_final : leb (to + 1) max_code_point ≡ false → last ≡ filled
  unfolding add_range behind
  last_final h = if_false (leb (to + 1) max_code_point) (behind (to + 1)) filled h

  ended :
      IsEnded trees laws t filled to (filled_outside (suc to) (inr (omega arith))) (behind (suc to))
  unfolding behind
  ended =
      put_end-IsEnded trees laws t filled to (filled_outside (suc to) (inr (omega arith)))
        (trees.le t to) refl

  -- the keys up to the end of the range
  pub last-filled : (j : ℕ) → j ≤ to → trees.find last j ≡ trees.find filled j
  last-filled j high = elim (Bool-cases (leb (to + 1) max_code_point)) [
    | inl inner ↦ ap (λ u. trees.find u j) (last_inner inner) ∙ ended.1 j (ground arith)
    | inr final ↦ ap (λ u. trees.find u j) (last_final final)
  ]

  -- the entry behind the range, and those behind it
  pub last_next :
      leb (to + 1) max_code_point ≡ true
      → (trees.find last (suc to) ≡ some (value_of (trees.find t) (suc to)))
        × ((j : ℕ) → suc to < j → trees.find last j ≡ trees.find t j)
  last_next inner =
      let (a, b) = ended in
      (
        ap (λ u. trees.find u (suc to)) (last_inner inner) ∙ a,
        λ j high.
            ap (λ u. trees.find u j) (last_inner inner)
            ∙ b j (ground arith)
            ∙ filled_outside j (inr (omega arith)),
      )
