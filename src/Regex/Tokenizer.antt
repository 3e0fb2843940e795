-- ===== src/Regex/Tokenizer.antt =====
-- String literals as tokens with ranges: helpers/regex/tokenizer.ts. Strings are code units.
-- `Number.parseInt` is an argument, `none` where it returns NaN.
mod Laws
mod Plain
mod Tests
use sonar_js.Prelude.{
  ℕ, zero, suc, ◌+◌, ◌-◌, ◌*◌, ◌/◌, ◌%◌, Bool, true, false, ◌&&◌, Option, none, some, List, [], ◌∷◌,
  ◌++◌, if◌then◌else◌, ltb, leb, ◌==◌, Text, get_elem?, drop, length, is_empty,
}

-- a value and its range
pub record StringLiteralToken : Type 0 where
  pub value : Text
  pub start : ℕ
  pub end : ℕ

pub data Tokenized : Type 0 where
  done : List StringLiteralToken → Tokenized
  range_error out_of_fuel : Tokenized

-- a high surrogate and a low one
pub is_pair : ℕ → ℕ → Bool
is_pair c d = leb 0xd800 c && ltb c 0xdc00 && leb 0xdc00 d && ltb d 0xe000

-- the code point of a unit that is followed by another
pub combine : ℕ → Option ℕ → ℕ
combine c none = c
combine c (some d) = if is_pair c d then (c - 0xd800) * 0x400 + (d - 0xdc00) + 0x10000 else c

pub first_code_point : Text → Option ℕ
unfolding combine
first_code_point [] = none
first_code_point (c ∷ []) = some c
first_code_point (c ∷ d ∷ s) = some (combine c (some d))

-- `cp`
pub cp : Text → ℕ → Option ℕ
unfolding first_code_point
cp s i = first_code_point (drop i s)

-- `inc`; undefined is not at least 0x10000
pub inc : ℕ → Option ℕ → ℕ
inc pos none = pos + 1
inc pos (some c) = if leb 0x10000 c then pos + 2 else pos + 1

-- `String.fromCodePoint`, `none` for a RangeError
pub from_code_point : Option ℕ → Option Text
from_code_point none = none
from_code_point (some c) =
    if ltb c 0x10000
    then some (c ∷ [])
    else if leb c 0x10ffff
    then some ((0xd800 + (c - 0x10000) / 0x400) ∷ (0xdc00 + (c - 0x10000) % 0x400) ∷ [])
    else none

take_units : ℕ → Text → Text
take_units zero s = []
take_units (suc n) [] = []
take_units (suc n) (c ∷ s) = c ∷ take_units n s

-- `s.substring(from, to)`, which swaps its arguments where they are out of order
pub substring : Text → ℕ → ℕ → Text
unfolding take_units
substring s from to =
    if leb from to then take_units (to - from) (drop from s) else take_units (from - to) (drop to s)

-- `s.indexOf(c, pos)` in the rest of the text at `pos`; `none` is -1
index_in : Text → ℕ → ℕ → Option ℕ
index_in [] c pos = none
index_in (d ∷ s) c pos = let later = index_in s c (suc pos) in if d == c then some pos else later

-- `isOctalDigit`
pub is_octal_digit : Option ℕ → Bool
is_octal_digit none = false
is_octal_digit (some c) = leb 48 c && leb c 55

pub token : Text → ℕ → ℕ → StringLiteralToken
token value start end = record { value = value; start = start; end = end }

-- the tokens of a value that is not empty
unless_empty : Text → ℕ → ℕ → List StringLiteralToken
unfolding token
unless_empty value start end = if is_empty value then [] else token value start end ∷ []

is_unit : ℕ → Option ℕ → Bool
is_unit c none = false
is_unit c (some d) = d == c

module _ (parse_int : ℕ → Text → Option ℕ) (s : Text) where
  -- the text between braces and the position behind them; -1 is the position before the first
  braced : ℕ → Option ℕ → Text × ℕ
  unfolding substring
  braced pos none = (substring s 0 pos, 0)
  braced pos (some close) = (substring s pos close, close + 1)

  -- `readUnicode`: the number and the next position
  pub read_unicode : ℕ → Option ℕ × ℕ
  unfolding braced index_in substring
  read_unicode pos = elim (get_elem? s pos) [
    | none ↦ (parse_int 16 (substring s pos (pos + 4)), pos + 4)
    | some c ↦
        if c == 0x7b
        then (
          parse_int 16 (braced (pos + 1) (index_in (drop (pos + 1) s) 0x7d (pos + 1))).0,
          (braced (pos + 1) (index_in (drop (pos + 1) s) 0x7d (pos + 1))).1,
        )
        else (parse_int 16 (substring s pos (pos + 4)), pos + 4)
  ]

  -- `readHex`
  pub read_hex : ℕ → Option ℕ × ℕ
  unfolding substring
  read_hex pos = (parse_int 16 (substring s pos (pos + 2)), pos + 2)

  -- the loop of `readOctal`: at most so many further digits, and the position behind them
  octal_digits : ℕ → ℕ → Text × ℕ
  unfolding is_octal_digit cp
  octal_digits zero i = ([], i)
  octal_digits (suc n) i =
      let rest = octal_digits n (suc i) in
      if is_octal_digit (cp s i)
      then (elim (get_elem? s i) [ none ↦ rest.0 | some c ↦ c ∷ rest.0 ], rest.1)
      else ([], i)

  -- `readOctal`
  pub read_octal : ℕ → ℕ → Option ℕ × ℕ
  unfolding octal_digits
  read_octal first_digit pos =
      (parse_int 8 (first_digit ∷ (octal_digits 2 pos).0), (octal_digits 2 pos).1)

  char_of : Option ℕ × ℕ → Option (Text × ℕ)
  unfolding from_code_point
  char_of (c, pos) = elim (from_code_point c) [ none ↦ none | some value ↦ some (value, pos) ]

  -- `readEscape` behind its `next`: the value and the next position, `none` for a RangeError
  escape_of : Option ℕ → ℕ → Option (Text × ℕ)
  unfolding char_of read_unicode read_hex read_octal is_octal_digit cp
  escape_of none pos = none
  escape_of (some c) pos =
      if c == 110
      then some (10 ∷ [], pos)
      else if c == 114
      then some (13 ∷ [], pos)
      else if c == 116
      then some (9 ∷ [], pos)
      else if c == 98
      then some (8 ∷ [], pos)
      else if c == 118
      then some (11 ∷ [], pos)
      else if c == 102
      then some (12 ∷ [], pos)
      else if c == 92
      then some (92 ∷ [], pos)
      else if c == 13
      then some ([], elim (cp s pos) [ none ↦ pos | some d ↦ if d == 10 then pos + 1 else pos ])
      else if c == 10
      then some ([], pos)
      else if c == 117
      then char_of (read_unicode pos)
      else if c == 120
      then char_of (read_hex pos)
      else if is_octal_digit (some c)
      then char_of (read_octal c pos)
      else char_of (some c, pos)

  -- `readEscape`
  pub read_escape : ℕ → Option (Text × ℕ)
  unfolding escape_of inc cp
  read_escape pos = escape_of (cp s pos) (inc pos (cp s pos))

  -- what a round pushes for a character other than a backslash
  push_char : ℕ → ℕ → Bool → Option Text → Option (List StringLiteralToken × ℕ)
  push_char start pos slash none = none
  push_char start pos slash (some value) = some (
    if slash
        then token value start pos ∷ token value start pos ∷ []
        else token value start pos ∷ [],
    pos,
  )

  push_escape : ℕ → Option (Text × ℕ) → Option (List StringLiteralToken × ℕ)
  unfolding unless_empty
  push_escape start none = none
  push_escape start (some (value, pos)) = some (unless_empty value start pos, pos)

  -- a round after its `next`
  round_of : ℕ → Option ℕ → Option (List StringLiteralToken × ℕ)
  unfolding push_char push_escape
  round_of start c =
      if is_unit 92 c
      then push_escape start (read_escape (inc start c))
      else push_char start (inc start c) (is_unit 47 c) (from_code_point c)

  -- one round of the loop: the tokens that it pushes and the next position
  pub tokenize_at : ℕ → Option (List StringLiteralToken × ℕ)
  unfolding round_of
  tokenize_at start = round_of start (cp s start)

  -- the `while` loop
  pub tokenize_from : ℕ → ℕ → List StringLiteralToken → Tokenized
  unfolding tokenize_at
  tokenize_from zero pos tokens = if ltb pos (length s) then out_of_fuel else done tokens
  tokenize_from (suc fuel) pos tokens =
      if ltb pos (length s)
      then elim (tokenize_at pos) [
        | none ↦ range_error
        | some round ↦ tokenize_from fuel round.1 (tokens ++ round.0)
      ]
      else done tokens

  -- `tokenizeString`
  pub tokenize_string : ℕ → Tokenized
  unfolding tokenize_from
  tokenize_string fuel = tokenize_from fuel 0 []
