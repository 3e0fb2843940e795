-- ===== src/Regex/CharacterClass.antt =====
-- Character classes of regular expressions, simplified to ranges of code points:
-- src/linting/eslint/rules/helpers/regex/simplified-regex-character-class.ts and the rule on duplicates,
-- src/linting/eslint/rules/duplicates-in-character-class.ts. A number stands for each node.
-- An iterator of a tree keeps to the version of the tree that it was made from, so that `update`
-- returns a change of that version. `upper` and `lower` map a code point to the first code point of
-- its upper or lower case form.
pub mod Ordered
pub mod Values
pub mod Ranges
pub mod Ends
pub mod Filled
pub mod Added
pub mod Intersections
pub mod Duplicates
mod Sorted
mod Tests
use sonar_js.Prelude.{
  ℕ, ◌+◌, ◌-◌, Bool, true, false, not, ◌&&◌, ◌||◌, Option, none, some, List, [], ◌∷◌, ◌++◌, ◌==◌,
  leb, ltb, if◌then◌else◌, add_all, set_add, is_empty,
}
use sonar_js.Regex.CharacterClass.Ordered.{Trees}

pub record Flags : Type 0 where
  pub ignore_case : Bool
  pub unicode : Bool

pub data SetKind : Type 0 where
  digit space word other_kind : SetKind

-- the types of elements of a character class
pub data ClassElement : Type 0 where
  character : (value : ℕ) → ClassElement
  character_class_range : (min max : ℕ) → ClassElement
  character_set : (kind : SetKind) (negate : Bool) → ClassElement

pub record Element : Type 0 where
  pub node : ℕ
  pub content : ClassElement

abbrev pub max_code_point : ℕ
max_code_point = 0x10ffff

module _ (trees : Trees (Option ℕ)) where
  abbrev pub Contents : Type 0
  Contents = trees.Tree

  pub put : ℕ → Option ℕ → Contents → Contents
  put key value tree = elim (trees.find tree key) [
    | none ↦ trees.insert tree key value
    | some old ↦ trees.update tree key value
  ]

  is_undefined : Option ℕ → Bool
  is_undefined none = true
  is_undefined (some _) = false

  -- the loop of `addRange` over the entries of `tree`
  pub fill_gaps : Contents → ℕ → ℕ → ℕ → List (ℕ × Option ℕ) → Contents → Contents
  unfolding is_undefined
  fill_gaps tree from to element [] contents = contents
  fill_gaps tree from to element ((key, value) ∷ entries) contents =
      fill_gaps tree from to element entries (
        if ltb from key && leb key to && is_undefined value
        then trees.update tree key (some element)
        else contents)

  pub end_of : Contents → Option (ℕ × Option ℕ) → Option ℕ
  end_of tree none = none
  end_of tree (some (key, _)) = elim (trees.gt tree key) [ none ↦ none | some (end, _) ↦ some end ]

  reaches_past : ℕ → Option ℕ → Bool
  reaches_past next none = true
  reaches_past next (some end) = ltb next end

  put_if_missing : ℕ → Contents → Contents
  unfolding put
  put_if_missing next contents = elim (trees.find contents next) [
    | none ↦ put next none contents
    | some _ ↦ contents
  ]

  -- the entry behind the range
  pub put_end : ℕ → Option (ℕ × Option ℕ) → Option ℕ → Contents → Contents
  unfolding put put_if_missing reaches_past
  put_end next none end contents = put_if_missing next contents
  put_end next (some (_, none)) end contents = put_if_missing next contents
  put_end next (some (_, some value)) end contents =
      if reaches_past next end then put next (some value) contents else put_if_missing next contents

  -- `SimplifiedRegexCharacterClass.addRange`
  pub add_range : ℕ → ℕ → ℕ → Contents → Contents
  unfolding put fill_gaps put_end end_of
  add_range from to element tree =
      let old_entry = trees.le tree to in
      let old_end = end_of tree old_entry in
      let started = put from (some element) tree in
      let filled = fill_gaps started from to element (trees.entries started) started in
      if leb (to + 1) max_code_point then put_end (to + 1) old_entry old_end filled else filled

  has_value : Option (ℕ × Option ℕ) → Bool
  has_value none = false
  has_value (some (_, none)) = false
  has_value (some (_, some _)) = true

  -- `!isRangeEmpty(from, to)`
  has_key_in : ℕ → ℕ → List (ℕ × Option ℕ) → Bool
  has_key_in from to [] = false
  has_key_in from to ((key, _) ∷ entries) =
      (leb from key && ltb key to) || has_key_in from to entries

  pub has_entry_between : ℕ → ℕ → Contents → Bool
  unfolding has_value has_key_in
  has_entry_between from to contents =
      has_value (trees.le contents from) || has_key_in (from + 1) (to + 1) (trees.entries contents)

  -- the end of a range before the next entry
  range_end : ℕ → Option ℕ → ℕ
  range_end next none = next - 1
  range_end next (some _) = next

  intersecting : ℕ → ℕ → Option ℕ → Contents → List ℕ
  unfolding has_entry_between
  intersecting from to none contents = []
  intersecting from to (some value) contents =
      if has_entry_between from to contents then value ∷ [] else []

  -- the loop of `findIntersections` over the entries of the other class
  intersections : List (ℕ × Option ℕ) → Contents → List ℕ
  unfolding intersecting range_end
  intersections [] contents = []
  intersections ((key, value) ∷ []) contents = intersecting key max_code_point value contents
  intersections ((key, value) ∷ (next, value') ∷ entries) contents =
      intersecting key (range_end next value') value contents
      ++ intersections ((next, value') ∷ entries) contents

  pub find_intersections : Contents → Contents → List ℕ
  unfolding intersections
  find_intersections contents that = intersections (trees.entries that) contents

  module _ (flags : Flags) (upper lower : ℕ → ℕ) where
    is_ascii : ℕ → Bool
    is_ascii c = ltb c 128

    -- `Builder.addRange`
    add_cased_range : ℕ → ℕ → ℕ → Contents → Contents
    unfolding is_ascii
    add_cased_range from to element contents =
        let upper_from = upper from in
        let upper_to = upper to in
        let lower_from = lower upper_from in
        let lower_to = lower upper_to in
        if flags.ignore_case
          && not (lower_from == upper_from)
          && not (lower_to == upper_to)
          && ((is_ascii from && is_ascii to) || flags.unicode)
        then add_range lower_from lower_to element (add_range upper_from upper_to element contents)
        else add_range from to element contents

    add_direct_ranges : List (ℕ × ℕ) → ℕ → Contents → Contents
    add_direct_ranges [] element contents = contents
    add_direct_ranges ((from, to) ∷ ranges) element contents =
        add_direct_ranges ranges element (add_range from to element contents)

    -- The ranges of `visitCharacterSet`, in the order in which they are added.
    set_ranges : SetKind → Bool → List (ℕ × ℕ)
    set_ranges digit true = (0, 47) ∷ (58, if flags.unicode then 0xff else max_code_point) ∷ []
    set_ranges digit false = (48, 57) ∷ []
    set_ranges space true =
        (0, 8)
        ∷ (14, 31)
        ∷ (if flags.unicode
            then (33, 0x84)
              ∷ (0x86, 0x9f)
              ∷ (0xa1, 0x167f)
              ∷ (0x1681, 0x1fff)
              ∷ (0x200b, 0x2027)
              ∷ (0x202a, 0x202e)
              ∷ (0x2030, 0x205e)
              ∷ (0x2060, 0x2fff)
              ∷ (0x3001, max_code_point)
              ∷ []
            else (33, max_code_point) ∷ [])
    set_ranges space false =
        (9, 13)
        ∷ (32, 32)
        ∷ (if flags.unicode
            then (0x85, 0x85)
              ∷ (0xa0, 0xa0)
              ∷ (0x1680, 0x1680)
              ∷ (0x2000, 0x200a)
              ∷ (0x2028, 0x2029)
              ∷ (0x202f, 0x202f)
              ∷ (0x205f, 0x205f)
              ∷ (0x3000, 0x3000)
              ∷ []
            else [])
    set_ranges word true =
        (0, 47)
        ∷ (58, 64)
        ∷ (91, 94)
        ∷ (96, 96)
        ∷ (if flags.unicode then (123, 180) ∷ [] else (123, max_code_point) ∷ [])
    set_ranges word false = (48, 57) ∷ (65, 90) ∷ (95, 95) ∷ (97, 122) ∷ []
    set_ranges other_kind negate = []

    -- `Builder.visit`
    pub add_element : Element → Contents → Contents
    unfolding add_cased_range add_direct_ranges set_ranges
    add_element e contents = elim e.content [
      | character value ↦ add_cased_range value value e.node contents
      | character_class_range min max ↦ add_cased_range min max e.node contents
      | character_set kind negate ↦ add_direct_ranges (set_ranges kind negate) e.node contents
    ]

    some_found : List ℕ → Bool
    some_found xs = not (is_empty xs)

    -- the loop of the rule over the elements of a class: the duplicates
    pub duplicates_from : List Element → Contents → List ℕ → List ℕ
    unfolding add_element some_found
    duplicates_from [] contents duplicates = duplicates
    duplicates_from (e ∷ elements) contents duplicates =
        let found = find_intersections (add_element e trees.empty) contents in
        duplicates_from elements (add_element e contents)
          (if some_found found then set_add (add_all duplicates found) e.node else duplicates)

    pub duplicates : List Element → List ℕ
    unfolding duplicates_from
    duplicates elements = duplicates_from elements trees.empty []
