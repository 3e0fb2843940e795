-- ===== src/Regex/CharacterClass/Added.antt =====
-- The values of code points after `addRange`:
-- src/linting/eslint/rules/helpers/regex/simplified-regex-character-class.ts.
use sonar_js.Prelude.{
  ℕ, zero, suc, ◌+◌, ◌≤◌, ◌<◌, Option, none, some, ◌≡◌, sym, ◌∙◌, ◌⊎◌, inl, inr, arith,
  Option-cases, subst, Bool-cases, ◌==◌, ==_iff, ltb, le→leb,
}
use sonar_js.Regex.CharacterClass.Ordered.{Trees, IsTrees}
use sonar_js.Regex.CharacterClass.Values.{
  value_of, value_of-here, value_of-below, value_of-same, value_of-after,
}
use sonar_js.Regex.CharacterClass.{add_range, max_code_point}
use sonar_js.Regex.CharacterClass.Filled.{
  OneGap, last, filled_outside, filled_start, filled_inside, filled_gap, last-filled, last_next,
}

module _ (trees : Trees (Option ℕ)) (laws : IsTrees (Option ℕ) trees) (t : trees.Tree)
    (from to element : ℕ) (ordered : from ≤ to) where
  abbrev end : trees.Tree
  end = last trees laws t from to element ordered

  value_below : (c : ℕ) → c < from → value_of (trees.find end) c ≡ value_of (trees.find t) c
  value_below c low = value_of-same (trees.find end) (trees.find t) c (λ j p.
      (last-filled trees laws t from to element ordered) j (omega arith)
      ∙ (filled_outside trees laws t from to element ordered) j (inl (omega arith)))

  value_above :
      (c : ℕ)
      → to < c
      → c ≤ max_code_point
      → value_of (trees.find end) c ≡ value_of (trees.find t) c
  value_above c high bound =
      let (a, b) =
        (last_next trees laws t from to element ordered)
          (le→leb (to + 1) max_code_point (omega arith)) in
      value_of-after (trees.find end) (trees.find t) (suc to) c (omega arith)
        (value_of-here (trees.find end) (suc to) (value_of (trees.find t) (suc to)) a) b

  value_start : value_of (trees.find end) from ≡ some element
  value_start = value_of-here (trees.find end) from (some element) (
      (last-filled trees laws t from to element ordered) from ordered
      ∙ (filled_start trees laws t from to element ordered))

  -- In the range a code point gets the element, or keeps the value that it had.
  value_inside :
      (c : ℕ)
      → from ≤ c
      → c ≤ to
      → (value_of (trees.find end) c ≡ some element)
        ⊎ (value_of (trees.find end) c ≡ value_of (trees.find t) c)
  value_inside zero low high =
      let at : from ≡ zero = omega arith in
      inl (subst (λ i. value_of (trees.find end) i ≡ some element) at value_start)
  value_inside (suc c) low high = elim (Bool-cases (from == suc c)) [
    | inl at ↦ inl (
        subst (λ i. value_of (trees.find end) i ≡ some element) ((==_iff from (suc c)).0 at)
          value_start)
    | inr later ↦
        elim ((filled_inside trees laws t from to element ordered) (suc c) (ground arith)) [
          | inr fresh ↦ inl (
              value_of-here (trees.find end) (suc c) (some element)
                ((last-filled trees laws t from to element ordered) (suc c) high ∙ fresh))
          | inl same ↦
              let kept = (last-filled trees laws t from to element ordered) (suc c) high ∙ same in
              elim (Option-cases (trees.find t (suc c))) [
                | inr (v, found) ↦ inr (
                    value_of-here (trees.find end) (suc c) v (kept ∙ found)
                    ∙ sym (value_of-here (trees.find t) (suc c) v found))
                | inl missing ↦
                    let down = value_of-below (trees.find end) c (kept ∙ missing) in
                    elim (value_inside c (ground arith) (omega arith)) [
                      | inl fresh ↦ inl (down ∙ fresh)
                      | inr old ↦ inr (down ∙ old ∙ sym (value_of-below (trees.find t) c missing))
                    ]
              ]
        ]
  ]

  -- With one gap at most all of the range is in the class.
  value_covered :
      OneGap trees laws t from to element ordered
      → (c : ℕ) → from ≤ c
      → c ≤ to
      → (e : ℕ) × (value_of (trees.find end) c ≡ some e)
  value_covered one zero low high =
      let at : from ≡ zero = omega arith in
      (element, subst (λ i. value_of (trees.find end) i ≡ some element) at value_start)
  value_covered one (suc c) low high = elim (Bool-cases (from == suc c)) [
    | inl at ↦ (
      element,
      subst (λ i. value_of (trees.find end) i ≡ some element) ((==_iff from (suc c)).0 at)
          value_start,
    )
    | inr later ↦
        let before : from < suc c = ground arith in
        elim ((filled_inside trees laws t from to element ordered) (suc c) before) [
          | inr fresh ↦ (
            element,
            value_of-here (trees.find end) (suc c) (some element)
                ((last-filled trees laws t from to element ordered) (suc c) high ∙ fresh),
          )
          | inl same ↦
              let kept = (last-filled trees laws t from to element ordered) (suc c) high ∙ same in
              elim (Option-cases (trees.find t (suc c))) [
                | inl missing ↦
                    let (e, is) = value_covered one c (ground arith) (omega arith) in
                    (e, value_of-below (trees.find end) c (kept ∙ missing) ∙ is)
                | inr (some e, found) ↦
                    (e, value_of-here (trees.find end) (suc c) (some e) (kept ∙ found))
                | inr (none, found) ↦ (
                  element,
                  value_of-here (trees.find end) (suc c) (some element) (
                      (last-filled trees laws t from to element ordered) (suc c) high
                      ∙ (filled_gap trees laws t from to element ordered) one (suc c)
                          (before, high, found)),
                )
              ]
        ]
  ]

-- After `addRange` each code point has the element that it had, or it lies in the range and has the
-- new element.
pub add_range-value :
    (trees : Trees (Option ℕ)) (laws : IsTrees (Option ℕ) trees) (t : trees.Tree)
    (from to element c : ℕ)
    → from ≤ to
    → c ≤ max_code_point
    → (value_of (trees.find (add_range trees from to element t)) c ≡ value_of (trees.find t) c)
      ⊎ ((from ≤ c)
          × (c ≤ to)
          × (value_of (trees.find (add_range trees from to element t)) c ≡ some element))
add_range-value trees laws t from to element c ordered bound = elim (Bool-cases (ltb c from)) [
  | inl low ↦ inl (value_below trees laws t from to element ordered c (ground arith))
  | inr not_low ↦ elim (Bool-cases (ltb to c)) [
    | inl high ↦ inl (value_above trees laws t from to element ordered c (ground arith) bound)
    | inr not_high ↦
        let low : from ≤ c = ground arith in
        let high : c ≤ to = ground arith in
        elim (value_inside trees laws t from to element ordered c low high) [
          | inl fresh ↦ inr (low, high, fresh)
          | inr old ↦ inl old
        ]
  ]
]

-- If at most one gap, an entry without an element, lies behind the start of the range and up to its
-- end, then `addRange` leaves each code point of the range with an element.
pub add_range_covers :
    (trees : Trees (Option ℕ)) (laws : IsTrees (Option ℕ) trees) (t : trees.Tree)
    (from to element : ℕ) (ordered : from ≤ to)
    → OneGap trees laws t from to element ordered
    → (c : ℕ) → from ≤ c
    → c ≤ to
    → (e : ℕ) × (value_of (trees.find (add_range trees from to element t)) c ≡ some e)
add_range_covers trees laws t from to element ordered one =
    value_covered trees laws t from to element ordered one
