-- ===== src/Regex/CharacterClass/Tests.antt =====
-- Runs on the character class of `[a-c]`, with small code points.
use sonar_js.Prelude.{ℕ, true, false, ◌++◌, some, none, [], ◌∷◌, ◌≡◌, ◌⊎◌, ◌≤◌, refl, arith, has}
use sonar_js.Regex.CharacterClass.Ordered.{nearest}
use sonar_js.Regex.CharacterClass.Sorted.{sorted_trees, sorted_trees-IsTrees, SortedEntries}
use sonar_js.Regex.CharacterClass.Values.{value_of}
use sonar_js.Regex.CharacterClass.Added.{add_range-value, add_range_covers}
use sonar_js.Regex.CharacterClass.Intersections.{find_intersections_complete}
use sonar_js.Regex.CharacterClass.Duplicates.{class_of, single, duplicates_found}
use sonar_js.Regex.CharacterClass.{
  add_range, find_intersections, add_element, duplicates, Flags, Element, character,
  character_class_range,
}

-- node 1 matches the code points 1 to 3
abbrev first : SortedEntries
first = ((1, some 1) ∷ (4, none) ∷ [], ((omega arith, tt), (tt, tt)))

-- node 2 matches the code points 3 to 5
abbrev second : SortedEntries
second = ((3, some 2) ∷ (6, none) ∷ [], ((omega arith, tt), (tt, tt)))

add_range-value_example :
    (value_of (sorted_trees.find (add_range sorted_trees 3 5 2 first)) 5
      ≡ value_of (sorted_trees.find first) 5)
    ⊎ ((3 ≤ 5)
        × (5 ≤ 5)
        × (value_of (sorted_trees.find (add_range sorted_trees 3 5 2 first)) 5 ≡ some 2))
add_range-value_example =
    add_range-value sorted_trees sorted_trees-IsTrees first 3 5 2 5 (omega arith) (omega arith)

add_range_covers_example :
    (e : ℕ) × (value_of (sorted_trees.find (add_range sorted_trees 3 5 2 first)) 4 ≡ some e)
add_range_covers_example =
    add_range_covers sorted_trees sorted_trees-IsTrees first 3 5 2 (omega arith)
      (λ i j (a, b, c) (a', b', c'). ground arith) 4 (omega arith) (omega arith)

member_first : value_of (sorted_trees.find first) 3 ≡ some 1
unfolding value_of
member_first = refl

member_second : value_of (sorted_trees.find second) 3 ≡ some 2
unfolding value_of
member_second = refl

find_intersections_complete_example : has (find_intersections sorted_trees second first) 1 ≡ true
find_intersections_complete_example =
    find_intersections_complete sorted_trees sorted_trees-IsTrees second first 3 1 2 (omega arith)
      member_second member_first

-- `[bd]` and then `[a-f]`, as 2, 4 and 1 to 6: the second gap is filled, the first one stays.
abbrev two_gaps : SortedEntries
two_gaps = (
  (2, some 1) ∷ (3, none) ∷ (4, some 2) ∷ (5, none) ∷ [],
  (
    (omega arith, (omega arith, (omega arith, tt))),
    ((omega arith, (omega arith, tt)), ((omega arith, tt), (tt, tt))),
  ),
)

gap_left : value_of (sorted_trees.find (add_range sorted_trees 1 6 3 two_gaps)) 3 ≡ none
unfolding value_of add_range nearest
gap_left = refl

-- `[ab]` and then another `b`: the `a` of node 1 counts as intersecting, though it is another letter.
abbrev adjacent : SortedEntries
adjacent = (
  (1, some 1) ∷ (2, some 2) ∷ (3, none) ∷ [],
  ((omega arith, (omega arith, tt)), ((omega arith, tt), (tt, tt))),
)

abbrev letter : SortedEntries
letter = ((2, some 3) ∷ (3, none) ∷ [], ((omega arith, tt), (tt, tt)))

neighbour_found : find_intersections sorted_trees letter adjacent ≡ 1 ∷ 2 ∷ []
unfolding find_intersections nearest
neighbour_found = refl

abbrev plain : Flags
plain = record { ignore_case = false; unicode = false }

abbrev same_case : ℕ → ℕ
same_case c = c

-- `[\x01-\x03\x03]`
abbrev range_element : Element
range_element = record { node = 1; content = character_class_range 1 3 }

abbrev character_element : Element
character_element = record { node = 2; content = character 3 }

class_member :
    value_of
      (sorted_trees.find
        (class_of sorted_trees plain same_case same_case (range_element ∷ []) sorted_trees.empty))
      3
    ≡ some 1
unfolding class_of add_element add_range value_of nearest
class_member = refl

single_member :
    value_of (sorted_trees.find (single sorted_trees plain same_case same_case character_element)) 3
    ≡ some 2
unfolding add_element add_range value_of nearest
single_member = refl

duplicates_found_example :
    (has
        (duplicates sorted_trees plain same_case same_case
          ((range_element ∷ []) ++ character_element ∷ []))
        1
      ≡ true)
    × (has
          (duplicates sorted_trees plain same_case same_case
            ((range_element ∷ []) ++ character_element ∷ []))
          2
        ≡ true)
duplicates_found_example =
    duplicates_found sorted_trees sorted_trees-IsTrees plain same_case same_case
      (range_element ∷ []) character_element [] 3 1 2 (omega arith) class_member single_member
