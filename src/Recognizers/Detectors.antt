-- ===== src/Recognizers/Detectors.antt =====
-- What the detectors find in a line: recognizers/detectors/*.ts. Lines are code units; the upper and
-- the lower case of a unit are arguments.
pub mod Laws
use Prim.Native.String.{String}
use sonar_js.Prelude.{
  ℕ, zero, suc, ◌+◌, Bool, true, false, ◌||◌, ◌&&◌, not, Option, none, some, List, [], ◌∷◌, ◌++◌,
  reverse, if◌then◌else◌, ◌==◌, Text, codes, text_eq, starts_with, is_space, any, length, drop,
}

-- a character that the code compares with another
pub is_in : List ℕ → ℕ → Bool
is_in [] c = false
is_in (d ∷ ds) c = c == d || is_in ds c

-- `!isWhitespace(char) && char !== '*' && char !== '/'`
pub stops : ℕ → Bool
stops c = not (is_space c) && not (c == 42) && not (c == 47)

-- the loop of `EndWithDetector.scan`, on the characters from the last to the first
pub ends_with : List ℕ → Text → ℕ
unfolding is_in stops
ends_with end_of_lines [] = 0
ends_with end_of_lines (c ∷ line) =
    let rest = ends_with end_of_lines line in
    if is_in end_of_lines c then 1 else if stops c then 0 else rest

-- `EndWithDetector.scan`
pub scan_end : List ℕ → Text → ℕ
unfolding ends_with
scan_end end_of_lines line = ends_with end_of_lines (reverse line)

-- `[ \t(),{}]`
pub is_separator : ℕ → Bool
is_separator c = is_in (32 ∷ 9 ∷ 40 ∷ 41 ∷ 44 ∷ 123 ∷ 125 ∷ []) c

-- a character in front of the first word
pub onto_first : ℕ → List Text → List Text
onto_first c [] = (c ∷ []) ∷ []
onto_first c (word ∷ words) = (c ∷ word) ∷ words

-- `line.split(/[ \t(),{}]/)`
pub split_words : Text → List Text
unfolding is_separator is_in onto_first
split_words [] = [] ∷ []
split_words (c ∷ line) =
    let words = split_words line in if is_separator c then [] ∷ words else onto_first c words

-- `keywords.includes(word)`
pub includes_word : List Text → Text → Bool
includes_word keywords word = any (λ keyword. text_eq keyword word) keywords

count_words : List Text → List Text → ℕ
unfolding includes_word
count_words keywords [] = 0
count_words keywords (word ∷ words) =
    let rest = count_words keywords words in if includes_word keywords word then suc rest else rest

-- `KeywordsDetector.scan`
pub scan_keywords : List Text → Text → ℕ
unfolding count_words split_words
scan_keywords keywords line = count_words keywords (split_words line)

-- A string or the regular expression `/;\s+\/\//`.
pub data Pattern : Type 0 where
  literal : Text → Pattern
  semicolon_comment : Pattern

-- the text behind a run of white space
pub skip_spaces : Text → Text
skip_spaces [] = []
skip_spaces (c ∷ line) = let rest = skip_spaces line in if is_space c then rest else c ∷ line

-- `line.replace(/\s+/, '')`: the first run of white space is removed
pub without_spaces : Text → Text
unfolding skip_spaces
without_spaces [] = []
without_spaces (c ∷ line) =
    let rest = without_spaces line in if is_space c then skip_spaces line else c ∷ rest

-- white space, more of it, and two slashes
pub comment_follows : Text → Bool
unfolding skip_spaces
comment_follows [] = false
comment_follows (c ∷ line) = is_space c && starts_with (skip_spaces line) (47 ∷ 47 ∷ [])

-- `match` of `/;\s+\/\//`: one match or none
pub match_comment : Text → ℕ
unfolding comment_follows
match_comment [] = 0
match_comment (c ∷ line) =
    let rest = match_comment line in if c == 59 && comment_follows line then 1 else rest

-- `match` of a string with the flag g: occurrences that do not overlap. The number counts down the
-- characters of an occurrence that are still to be passed.
pub match_string : Text → ℕ → Text → ℕ
match_string text skip [] = 0
match_string text (suc skip) (c ∷ line) = match_string text skip line
match_string text zero (c ∷ line) =
    let found = match_string text (length (drop 1 text)) line in
    let missed = match_string text zero line in
    if starts_with (c ∷ line) text then suc found else missed

match_pattern : Text → Pattern → ℕ
unfolding match_comment match_string
match_pattern line (literal text) = match_string text 0 line
match_pattern line semicolon_comment = match_comment line

pub sum_matches : Text → List Pattern → ℕ
unfolding match_pattern
sum_matches line [] = 0
sum_matches line (pattern_here ∷ patterns) =
    match_pattern line pattern_here + sum_matches line patterns

-- `ContainsDetector.scan`
pub scan_contains : List Pattern → Text → ℕ
unfolding sum_matches without_spaces
scan_contains patterns line = sum_matches (without_spaces line) patterns

module _ (lower upper : ℕ → Text) where
  -- `isLowerCaseThenUpperCase`
  pub lower_then_upper : ℕ → ℕ → Bool
  lower_then_upper previous c =
      text_eq (lower previous) (previous ∷ []) && text_eq (upper c) (c ∷ [])

  camel_from : ℕ → Text → ℕ
  unfolding lower_then_upper
  camel_from previous [] = 0
  camel_from previous (c ∷ line) =
      let rest = camel_from c line in if lower_then_upper previous c then 1 else rest

  -- `CamelCaseDetector.scan`
  pub scan_camel_case : Text → ℕ
  unfolding camel_from
  scan_camel_case line = camel_from 32 line
