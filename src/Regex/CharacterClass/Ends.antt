-- ===== src/Regex/CharacterClass/Ends.antt =====
-- The entry that `addRange` leaves behind a range:
-- src/linting/eslint/rules/helpers/regex/simplified-regex-character-class.ts.
use sonar_js.Prelude.{
  ℕ, suc, ◌≤◌, ◌<◌, false, Option, none, some, ◌≡◌, ◌≢◌, refl, sym, ◌∙◌, ap, inl, inr, arith,
  Option-cases, subst, Bool-cases, ◌==◌, leb, ltb, if◌then◌else◌,
}
use sonar_js.Regex.CharacterClass.Ordered.{Trees, IsTrees}
use sonar_js.Regex.CharacterClass.Values.{
  value_of, value_of-here, value_of-below, value_of-nearest, value_in, nearest-some,
}
use sonar_js.Regex.CharacterClass.{put, end_of, reaches_past, put_if_missing, put_end}
use sonar_js.Regex.CharacterClass.Ranges.{find-put}

module _ (trees : Trees (Option ℕ)) (laws : IsTrees (Option ℕ) trees) (t filled : trees.Tree)
    (to : ℕ) (same : trees.find filled (suc to) ≡ trees.find t (suc to)) where
  -- The tree has an entry behind the range that keeps the value there.
  abbrev pub IsEnded : trees.Tree → Type 0
  IsEnded last =
      (trees.find last (suc to) ≡ some (value_of (trees.find t) (suc to)))
      × ((j : ℕ) → j ≢ suc to → trees.find last j ≡ trees.find filled j)

  put-IsEnded :
      (v : Option ℕ) → v ≡ value_of (trees.find t) (suc to) → IsEnded (put trees (suc to) v filled)
  put-IsEnded v e = (
    find-put trees laws (suc to) (suc to) v filled ∙ here ∙ ap some e,
    λ j off. find-put trees laws (suc to) j v filled ∙ away j off,
  )
    where
      here : (if suc to == suc to then some v else trees.find filled (suc to)) ≡ some v
      here = ground arith

      away :
          (j : ℕ)
          → j ≢ suc to
          → (if suc to == j then some v else trees.find filled j) ≡ trees.find filled j
      away j off = ground arith

  put_if_missing-IsEnded :
      (trees.find t (suc to) ≡ none → value_of (trees.find t) (suc to) ≡ none)
      → IsEnded (put_if_missing trees (suc to) filled)
  unfolding put_if_missing
  put_if_missing-IsEnded h = elim (Option-cases (trees.find filled (suc to))) [
    | inl missing ↦ rw (put_if_missing, missing) (put-IsEnded none (sym (h (sym same ∙ missing))))
    | inr (v, found) ↦
        rw (put_if_missing, found)
          (
            found ∙ ap some (sym (value_of-here (trees.find t) (suc to) v (sym same ∙ found))),
            λ j off. refl,
          )
  ]

  end_of-none : (k : ℕ) (w : Option ℕ) → trees.gt t k ≡ none → end_of trees t (some (k, w)) ≡ none
  unfolding end_of
  end_of-none k w e = rw (end_of, e) refl

  end_of-some :
      (k n : ℕ) (v w : Option ℕ)
      → trees.gt t k ≡ some (n, v)
      → end_of trees t (some (k, w)) ≡ some n
  unfolding end_of
  end_of-some k n v w e = rw (end_of, e) refl

  -- the next entry behind the old one stands right behind the range, or further on
  near_end :
      (k n : ℕ) (v : Option ℕ)
      → k < n
      → trees.find t n ≡ some v
      → ((j : ℕ) → k < j → j ≤ to → trees.find t j ≡ none)
      → ltb (suc to) n ≡ false
      → trees.find t (suc to) ≡ none
      → ⊥
  near_end k n v low found between near missing = elim (Bool-cases (leb n to)) [
    | inl inside ↦ cc (between n low (ground arith), found)
    | inr outside ↦ let at : n ≡ suc to = ground arith in cc (at, found, missing)
  ]

  -- without an entry behind the range its value is that of the old entry
  carried :
      (o : Option (ℕ × Option ℕ))
      → trees.le t to ≡ o
      → trees.find t (suc to) ≡ none
      → value_of (trees.find t) (suc to) ≡ value_in o
  carried o e missing =
      value_of-below (trees.find t) to missing
      ∙ value_of-nearest (trees.find t) to
      ∙ ap value_in (sym (laws.le_nearest t to) ∙ e)

  abbrev pub ended : Option (ℕ × Option ℕ) → Option ℕ → trees.Tree
  ended o end = put_end trees (suc to) o end filled

  put_end-value :
      (k value : ℕ)
      → trees.le t to ≡ some (k, some value)
      → IsEnded (ended (some (k, some value)) (end_of trees t (some (k, some value))))
  unfolding put_end reaches_past
  put_end-value k value e =
      let (low, found, between) =
        nearest-some (trees.find t) to k (some value) (sym (laws.le_nearest t to) ∙ e) in
      elim (Option-cases (trees.gt t k)) [
        | inl none_above ↦
            subst (λ end. IsEnded (ended (some (k, some value)) end))
              (sym (end_of-none k (some value) none_above))
              (put-IsEnded (some value) (
                sym (
                  carried (some (k, some value)) e
                    (laws.gt_none t k none_above (suc to) (omega arith)))))
        | inr ((n, v), above) ↦
            let (a, b, c) = laws.gt_some t k n v above in
            subst (λ end. IsEnded (ended (some (k, some value)) end))
              (sym (end_of-some k n v (some value) above))
              (elim (Bool-cases (ltb (suc to) n)) [
                | inl past ↦ rw (past) (
                    put-IsEnded (some value) (
                      sym (
                        carried (some (k, some value)) e
                          (c (suc to) (omega arith) (ground arith)))))
                | inr near ↦ rw (near) (
                    put_if_missing-IsEnded
                      (λ missing. absurd (near_end k n v a b between near missing)))
              ])
      ]

  pub put_end-IsEnded :
      (o : Option (ℕ × Option ℕ)) → trees.le t to ≡ o → IsEnded (ended o (end_of trees t o))
  unfolding put_end
  put_end-IsEnded none e = put_if_missing-IsEnded (λ missing. carried none e missing)
  put_end-IsEnded (some (k, none)) e =
      put_if_missing-IsEnded (λ missing. carried (some (k, none)) e missing)
  put_end-IsEnded (some (k, some value)) e = put_end-value k value e
