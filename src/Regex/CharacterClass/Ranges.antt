-- ===== src/Regex/CharacterClass/Ranges.antt =====
-- What `addRange` does to a character class:
-- src/linting/eslint/rules/helpers/regex/simplified-regex-character-class.ts.
use sonar_js.Prelude.{
  ℕ, ◌≤◌, ◌<◌, Bool, true, false, ◌&&◌, Option, none, some, List, [], ◌∷◌, ◌++◌, ◌≡◌, refl, ◌⊎◌,
  inl, inr, arith, Option-cases, All, subst, ◌==◌, leb, ltb, if◌then◌else◌,
}
use sonar_js.Regex.CharacterClass.Ordered.{Trees, IsTrees}
use sonar_js.Regex.CharacterClass.{put, is_undefined, fill_gaps}

module _ (trees : Trees (Option ℕ)) (laws : IsTrees (Option ℕ) trees) where
  pub find-put :
      (key j : ℕ) (value : Option ℕ) (t : trees.Tree)
      → trees.find (put trees key value t) j ≡ (if key == j then some value else trees.find t j)
  unfolding put
  find-put key j value t = elim (Option-cases (trees.find t key)) [
    | inl e ↦ rw (put, e) (laws.find-insert t key j value e)
    | inr (w, e) ↦ rw (put, e) (laws.find-update t key j value w e)
  ]

  -- a key in the range whose entry has no element
  abbrev pub IsGap : trees.Tree → ℕ → ℕ → ℕ → Type 0
  IsGap t from to k = (from < k) × (k ≤ to) × (trees.find t k ≡ some none)

  -- A version of the tree in which one gap of the range has got the element.
  abbrev pub IsChanged : trees.Tree → ℕ → ℕ → ℕ → trees.Tree → Type 0
  IsChanged t from to element contents =
      (k : ℕ) × IsGap t from to k
      × ((j : ℕ) → trees.find contents j ≡ (if k == j then some (some element) else trees.find t j))

  abbrev pub IsFilled : trees.Tree → ℕ → ℕ → ℕ → trees.Tree → Type 0
  IsFilled t from to element contents =
      ((j : ℕ) → trees.find contents j ≡ trees.find t j) ⊎ IsChanged t from to element contents

  if_holds :
      (P : trees.Tree → Type 0) (b : Bool) (x y : trees.Tree)
      → (b ≡ true → P x)
      → P y
      → P (if b then x else y)
  if_holds P true x y h g = h refl
  if_holds P false x y h g = g

  -- an update at an entry of the tree that the loop fills
  update-IsChanged :
      (t : trees.Tree) (from to element key : ℕ) (value : Option ℕ)
      → trees.find t key ≡ some value
      → (ltb from key && leb key to && is_undefined trees value) ≡ true
      → IsChanged t from to element (trees.update t key (some element))
  unfolding is_undefined
  update-IsChanged t from to element key none e is =
      (key, (ground arith, ground arith, e), λ j. laws.find-update t key j (some element) none e)
  update-IsChanged t from to element key (some v) e is = absurd (ground arith)

  module _ (t : trees.Tree) (from to element : ℕ) where
    abbrev pub Sound : List (ℕ × Option ℕ) → Type 0
    Sound es = All (λ (k, v). trees.find t k ≡ some v) es

    pub fill_gaps-IsFilled :
        (es : List (ℕ × Option ℕ)) (contents : trees.Tree)
        → Sound es
        → IsFilled t from to element contents
        → IsFilled t from to element (fill_gaps trees t from to element es contents)
    unfolding fill_gaps
    fill_gaps-IsFilled [] contents h filled = filled
    fill_gaps-IsFilled ((key, value) ∷ es) contents (e, h) filled = fill_gaps-IsFilled es _ h (
        if_holds (IsFilled t from to element)
          (ltb from key && leb key to && is_undefined trees value)
          (trees.update t key (some element)) contents
          (λ is. inr (update-IsChanged t from to element key value e is)) filled)

    fill_gaps-IsChanged :
        (es : List (ℕ × Option ℕ)) (contents : trees.Tree)
        → Sound es
        → IsChanged t from to element contents
        → IsChanged t from to element (fill_gaps trees t from to element es contents)
    unfolding fill_gaps
    fill_gaps-IsChanged [] contents h changed = changed
    fill_gaps-IsChanged ((key, value) ∷ es) contents (e, h) changed = fill_gaps-IsChanged es _ h (
        if_holds (IsChanged t from to element)
          (ltb from key && leb key to && is_undefined trees value)
          (trees.update t key (some element)) contents
          (update-IsChanged t from to element key value e) changed)

    -- if there is a gap, one is filled
    pub fill_gaps_at :
        (k : ℕ) (before after : List (ℕ × Option ℕ)) (contents : trees.Tree)
        → IsGap t from to k
        → Sound (before ++ (k, none) ∷ after)
        → IsChanged t from to element
            (fill_gaps trees t from to element (before ++ (k, none) ∷ after) contents)
    unfolding fill_gaps is_undefined
    fill_gaps_at k [] after contents (low, high, e) (g, h) = fill_gaps-IsChanged after _ h (
        subst (IsChanged t from to element) (chosen (ground arith))
          (k, (low, high, e), λ j. laws.find-update t k j (some element) none e))
      where
        chosen :
            (ltb from k && leb k to && true) ≡ true
            → trees.update t k (some element) ≡ (
                if ltb from k && leb k to && true
                then trees.update t k (some element)
                else contents)
        chosen is = rw (is) refl
    fill_gaps_at k ((key, value) ∷ before) after contents gap (g, h) =
        fill_gaps_at k before after _ gap h
