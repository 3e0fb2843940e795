-- ===== src/Regex/CharacterClass/Intersections.antt =====
-- What `findIntersections` finds:
-- src/linting/eslint/rules/helpers/regex/simplified-regex-character-class.ts.
use sonar_js.Prelude.{
  ℕ, suc, ◌+◌, ◌≤◌, ◌<◌, true, Option, none, some, List, [], ◌∷◌, ◌++◌, ◌≡◌, refl, sym, ◌∙◌, ap,
  inl, inr, arith, Option-cases, All, subst, Bool-cases, leb, le→leb, has, has-append,
}
use sonar_js.Regex.CharacterClass.Ordered.{Trees, IsTrees, nearest, Ascending}
use sonar_js.Regex.CharacterClass.Values.{
  value_of, value_of-nearest, value_in, value_of-flat, nearest-some,
}
use sonar_js.Regex.CharacterClass.{
  has_value, has_key_in, has_entry_between, range_end, intersecting, intersections,
  find_intersections, max_code_point,
}

All-middle :
    {A : Type 0} (P : A → Type 0) (before : List A) (x : A) (after : List A)
    → All P (before ++ x ∷ after)
    → All P after
All-middle P [] x after (p, h) = h
All-middle P (b ∷ before) x after (p, h) = All-middle P before x after h

Ascending-middle :
    (before : List (ℕ × Option ℕ)) (k : ℕ) (v : Option ℕ) (after : List (ℕ × Option ℕ))
    → Ascending (before ++ (k, v) ∷ after)
    → All (λ (j, _). k < j) after
Ascending-middle [] k v after (h, g) = h
Ascending-middle (b ∷ before) k v after (h, g) = Ascending-middle before k v after g

module _ (trees : Trees (Option ℕ)) (laws : IsTrees (Option ℕ) trees) where
  has_key_in_at :
      (from to k : ℕ) (v : Option ℕ) (before after : List (ℕ × Option ℕ))
      → from ≤ k
      → k < to
      → has_key_in trees from to (before ++ (k, v) ∷ after) ≡ true
  unfolding has_key_in
  has_key_in_at from to k v [] after low high =
      let a = le→leb from k low in let b = le→leb (suc k) to high in ground arith
  has_key_in_at from to k v (b ∷ before) after low high =
      ground (arith, has_key_in_at from to k v before after low high)

  has_value-some :
      (o : Option (ℕ × Option ℕ)) (e : ℕ) → value_in o ≡ some e → has_value trees o ≡ true
  unfolding has_value
  has_value-some none e h = cc
  has_value-some (some (k, none)) e h = cc
  has_value-some (some (k, some v)) e h = refl

  -- A code point with an element in the class makes a range that holds it meet the class.
  has_entry_between_at :
      (contents : trees.Tree) (from to c e : ℕ)
      → from ≤ c
      → c ≤ to
      → value_of (trees.find contents) c ≡ some e
      → has_entry_between trees from to contents ≡ true
  unfolding has_entry_between
  has_entry_between_at contents from to c e low high is =
      elim (Option-cases (nearest (trees.find contents) c)) [
        | inl nothing ↦ absurd (cc (value_of-nearest (trees.find contents) c, nothing, is))
        | inr ((k, v), found) ↦
            let (under, at, between) = nearest-some (trees.find contents) c k v found in
            elim (Bool-cases (leb k from)) [
              | inl before ↦
                  let flat =
                    value_of-flat (trees.find contents) from c low
                      (λ j p q. between j (ground arith) q) in
                  let valued = has_value-some (trees.le contents from) e (
                    ap value_in (laws.le_nearest contents from)
                    ∙ sym (value_of-nearest (trees.find contents) from)
                    ∙ sym flat
                    ∙ is) in
                  ground arith
              | inr after ↦
                  let (front, back, split) = laws.entries_complete contents k v at in
                  let met : has_key_in trees (from + 1) (to + 1) (trees.entries contents) ≡ true =
                    subst (λ es. has_key_in trees (from + 1) (to + 1) es ≡ true) (sym split)
                      (has_key_in_at (from + 1) (to + 1) k v front back (ground arith)
                        (omega arith)) in
                  ground arith
            ]
      ]

  module _ (contents : trees.Tree) (c e e' : ℕ)
      (member : value_of (trees.find contents) c ≡ some e') (bound : c ≤ max_code_point) where
    intersecting_at :
        (from to : ℕ)
        → from ≤ c
        → c ≤ to
        → has (intersecting trees from to (some e) contents) e ≡ true
    unfolding intersecting
    intersecting_at from to low high =
        rw (has_entry_between_at contents from to c e' low high member) (ground arith)

    intersections_skip :
        (x : ℕ × Option ℕ) (es : List (ℕ × Option ℕ))
        → has (intersections trees es contents) e ≡ true
        → has (intersections trees (x ∷ es) contents) e ≡ true
    unfolding intersections
    intersections_skip (key, value) [] h = absurd (ground arith)
    intersections_skip (key, value) ((next, value') ∷ es) h = ground (
      arith,
      has-append (intersecting trees key (range_end trees next value') value contents)
          (intersections trees ((next, value') ∷ es) contents) e,
    )

    range_end-le : (next : ℕ) (value : Option ℕ) → c < next → c ≤ range_end trees next value
    unfolding range_end
    range_end-le next none h = omega arith
    range_end-le next (some v) h = omega arith

    intersections_head :
        (k : ℕ) (es : List (ℕ × Option ℕ))
        → k ≤ c
        → All (λ (j, _). c < j) es
        → has (intersections trees ((k, some e) ∷ es) contents) e ≡ true
    unfolding intersections
    intersections_head k [] low h = intersecting_at k max_code_point low bound
    intersections_head k ((next, value) ∷ es) low (high, h) = ground (
      arith,
      intersecting_at k (range_end trees next value) low (range_end-le next value high),
      has-append (intersecting trees k (range_end trees next value) (some e) contents)
          (intersections trees ((next, value) ∷ es) contents) e,
    )

    intersections_found :
        (before : List (ℕ × Option ℕ)) (k : ℕ) (es : List (ℕ × Option ℕ))
        → k ≤ c
        → All (λ (j, _). c < j) es
        → has (intersections trees (before ++ (k, some e) ∷ es) contents) e ≡ true
    intersections_found [] k es low h = intersections_head k es low h
    intersections_found (b ∷ before) k es low h =
        intersections_skip b (before ++ (k, some e) ∷ es) (intersections_found before k es low h)

  above_code_point :
      (that : trees.Tree) (k c : ℕ) (es : List (ℕ × Option ℕ))
      → ((j : ℕ) → k < j → j ≤ c → trees.find that j ≡ none)
      → All (λ (j, _). k < j) es
      → All (λ (j, w). trees.find that j ≡ some w) es
      → All (λ (j, _). c < j) es
  above_code_point that k c [] between above sound = tt
  above_code_point that k c ((j, w) ∷ es) between (low, above) (found, sound) = (
    elim (Bool-cases (leb j c)) [
      | inl under ↦ absurd (cc (between j low (ground arith), found))
      | inr over ↦ ground arith
    ],
    above_code_point that k c es between above sound,
  )

-- `findIntersections` misses nothing: if a code point has an element in this class, then its element
-- in the other class is among the intersections.
pub find_intersections_complete :
    (trees : Trees (Option ℕ)) (laws : IsTrees (Option ℕ) trees) (contents that : trees.Tree)
    (c e e' : ℕ)
    → c ≤ max_code_point
    → value_of (trees.find contents) c ≡ some e'
    → value_of (trees.find that) c ≡ some e
    → has (find_intersections trees contents that) e ≡ true
unfolding find_intersections
find_intersections_complete trees laws contents that c e e' bound member is =
    elim (Option-cases (nearest (trees.find that) c)) [
      | inl nothing ↦ absurd (cc (value_of-nearest (trees.find that) c, nothing, is))
      | inr ((k, v), found) ↦
          let (under, at, between) = nearest-some (trees.find that) c k v found in
          let value : v ≡ some e =
            sym (ap value_in found) ∙ sym (value_of-nearest (trees.find that) c) ∙ is in
          let (before, after, split) = laws.entries_complete that k (some e) (at ∙ ap some value) in
          let above =
            Ascending-middle before k (some e) after
              (subst Ascending split (laws.entries-Ascending that)) in
          let sound =
            All-middle (λ (j, w). trees.find that j ≡ some w) before (k, some e) after
              (subst (All (λ (j, w). trees.find that j ≡ some w)) split
                (laws.entries_sound that)) in
          subst (λ es. has (intersections trees es contents) e ≡ true) (sym split)
            (intersections_found trees laws contents c e e' member bound before k after under
              (above_code_point trees laws that k c after between above sound))
    ]
