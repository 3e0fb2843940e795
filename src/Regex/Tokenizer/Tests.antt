-- ===== src/Regex/Tokenizer/Tests.antt =====
-- Literals with a slash, and with escapes.
use sonar_js.Prelude.{
  ℕ, ◌+◌, ◌*◌, ◌-◌, ◌≡◌, refl, true, Option, some, [], ◌∷◌, Text, codes, length, all,
}
use sonar_js.Regex.Tokenizer.{
  is_pair, combine, first_code_point, cp, inc, from_code_point, is_octal_digit, octal_digits,
  read_octal, char_of, escape_of, read_escape, token, unless_empty, push_escape, round_of, is_unit,
  tokenize_at, tokenize_from, tokenize_string, done,
}
use sonar_js.Regex.Tokenizer.Laws.{characters, tokens_of, is_plain}
use sonar_js.Regex.Tokenizer.Plain.{tokenize_string-plain}

-- the value of digits
abbrev value : ℕ → ℕ → Text → ℕ
value base n [] = n
value base n (c ∷ s) = value base (n * base + (c - 48)) s

abbrev decimal_int : ℕ → Text → Option ℕ
decimal_int base s = some (value base 0 s)

plain : all is_plain (codes "a/b") ≡ true
unfolding is_plain
plain = refl

tokenize_string-plain_example :
    tokenize_string decimal_int (codes "a/b") (length (codes "a/b"))
    ≡ done (tokens_of (characters (codes "a/b")) 0)
tokenize_string-plain_example = tokenize_string-plain decimal_int (codes "a/b") plain

-- The literal `\477`, which JavaScript reads as two characters, is one token.
long_octal : tokenize_string decimal_int (codes "\\477") 4 ≡ done (token (319 ∷ []) 0 4 ∷ [])
unfolding tokenize_string tokenize_from tokenize_at round_of push_escape read_escape escape_of
    read_octal octal_digits char_of from_code_point cp first_code_point combine is_pair inc is_unit
    is_octal_digit unless_empty
long_octal = refl
