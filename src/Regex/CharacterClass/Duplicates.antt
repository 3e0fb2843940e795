-- ===== src/Regex/CharacterClass/Duplicates.antt =====
-- What the rule on duplicates in character classes finds:
-- src/linting/eslint/rules/duplicates-in-character-class.ts.
use sonar_js.Prelude.{
  ℕ, ◌≤◌, true, false, Option, some, List, [], ◌∷◌, ◌++◌, ◌≡◌, arith, if◌then◌else◌, has, set_add,
  add_all, has-set_add, has-add_all, is_empty,
}
use sonar_js.Regex.CharacterClass.Ordered.{Trees, IsTrees}
use sonar_js.Regex.CharacterClass.Values.{value_of}
use sonar_js.Regex.CharacterClass.Intersections.{find_intersections_complete}
use sonar_js.Regex.CharacterClass.{
  Flags, Element, add_element, some_found, duplicates_from, duplicates, find_intersections,
  max_code_point,
}

has-nonempty : (xs : List ℕ) (x : ℕ) → has xs x ≡ true → is_empty xs ≡ false
has-nonempty [] x h = ground arith
has-nonempty (y ∷ xs) x h = ground arith

module _ (trees : Trees (Option ℕ)) (flags : Flags) (upper lower : ℕ → ℕ) where
  -- the class of some elements
  unfoldable pub class_of : List Element → trees.Tree → trees.Tree
  class_of [] contents = contents
  class_of (e ∷ elements) contents =
      class_of elements (add_element trees flags upper lower e contents)

  -- the class of a single element
  abbrev pub single : Element → trees.Tree
  single e = add_element trees flags upper lower e trees.empty

  abbrev rest : List Element → trees.Tree → List ℕ → List ℕ
  rest = duplicates_from trees flags upper lower

  abbrev step : Element → trees.Tree → List ℕ → List ℕ
  step e contents found =
      let met = find_intersections trees (single e) contents in
      if some_found trees flags upper lower met then set_add (add_all found met) e.node else found

  step_keeps :
      (e : Element) (contents : trees.Tree) (found : List ℕ) (x : ℕ)
      → has found x ≡ true
      → has (step e contents found) x ≡ true
  step_keeps e contents found x h =
      let met = find_intersections trees (single e) contents in
      ground (arith, has-set_add (add_all found met) e.node x, has-add_all found met x)

  -- what has been found stays found
  duplicates_from_keeps :
      (elements : List Element) (contents : trees.Tree) (found : List ℕ) (x : ℕ)
      → has found x ≡ true
      → has (rest elements contents found) x ≡ true
  unfolding duplicates_from
  duplicates_from_keeps [] contents found x h = h
  duplicates_from_keeps (e ∷ elements) contents found x h =
      duplicates_from_keeps elements (add_element trees flags upper lower e contents)
        (step e contents found) x (step_keeps e contents found x h)

  step_finds :
      (e : Element) (contents : trees.Tree) (found : List ℕ) (x : ℕ)
      → has (find_intersections trees (single e) contents) x ≡ true
      → (has (step e contents found) x ≡ true) × (has (step e contents found) e.node ≡ true)
  unfolding some_found
  step_finds e contents found x h =
      let met = find_intersections trees (single e) contents in
      let nonempty = has-nonempty met x h in
      (
        ground (arith, has-set_add (add_all found met) e.node x, has-add_all found met x),
        ground (arith, has-set_add (add_all found met) e.node e.node),
      )

  duplicates_from_finds :
      (before : List Element) (e : Element) (after : List Element) (contents : trees.Tree)
      (found : List ℕ) (x : ℕ)
      → has (find_intersections trees (single e) (class_of before contents)) x ≡ true
      → (has (rest (before ++ e ∷ after) contents found) x ≡ true)
        × (has (rest (before ++ e ∷ after) contents found) e.node ≡ true)
  unfolding duplicates_from class_of
  duplicates_from_finds [] e after contents found x h =
      let (a, b) = step_finds e contents found x h in
      let next = add_element trees flags upper lower e contents in
      (
        duplicates_from_keeps after next (step e contents found) x a,
        duplicates_from_keeps after next (step e contents found) e.node b,
      )
  duplicates_from_finds (b ∷ before) e after contents found x h =
      duplicates_from_finds before e after (add_element trees flags upper lower b contents)
        (step b contents found) x h

-- The rule finds what overlaps: if a code point has an element in the simplified class of the elements
-- before `e`, and lies in the simplified class of `e` alone, then the node of that element and the
-- node of `e` are both among the duplicates.
pub duplicates_found :
    (trees : Trees (Option ℕ)) (laws : IsTrees (Option ℕ) trees) (flags : Flags)
    (upper lower : ℕ → ℕ) (before : List Element) (e : Element) (after : List Element) (c x y : ℕ)
    → c ≤ max_code_point
    → value_of (trees.find (class_of trees flags upper lower before trees.empty)) c ≡ some x
    → value_of (trees.find (single trees flags upper lower e)) c ≡ some y
    → (has (duplicates trees flags upper lower (before ++ e ∷ after)) x ≡ true)
      × (has (duplicates trees flags upper lower (before ++ e ∷ after)) e.node ≡ true)
unfolding duplicates
duplicates_found trees laws flags upper lower before e after c x y bound old new =
    duplicates_from_finds trees flags upper lower before e after trees.empty [] x (
      find_intersections_complete trees laws (single trees flags upper lower e)
        (class_of trees flags upper lower before trees.empty) c x y bound new old)
