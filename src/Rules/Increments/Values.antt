-- ===== src/Rules/Increments/Values.antt =====
-- What expressions, updates and tests mean on integers, independently of the rule. A value is an
-- integer, `above` less `below`.
use Prim.Native.String.{String}
use text.Mathlib.Text.{◌==◌ as str_eq}
use sonar_js.Prelude.{ℕ, zero, suc, ◌+◌, Bool, false, if◌then◌else◌, ltb, leb}
use sonar_js.Rules.Increments.{
  Expression, identifier, literal, unary, update, assignment, binary, other_expression, Number,
  not_a_number, number, is_same_identifier,
}

pub record Value : Type 0 where
  pub above : ℕ
  pub below : ℕ

abbrev pub add : Value → Value → Value
add a b = record { above = a.above + b.above; below = a.below + b.below }

abbrev pub opposite : Value → Value
opposite a = record { above = a.below; below = a.above }

abbrev pub one : Value
one = record { above = 1; below = 0 }

abbrev pub less : Value → Value → Bool
less a b = ltb (a.above + b.below) (b.above + a.below)

abbrev pub less_eq : Value → Value → Bool
less_eq a b = leb (a.above + b.below) (b.above + a.below)

-- a comparison; no other operator compares
unfoldable pub compare : String → Value → Value → Bool
compare operator a b =
    if str_eq operator "<"
    then less a b
    else if str_eq operator "<="
    then less_eq a b
    else if str_eq operator ">"
    then less b a
    else if str_eq operator ">="
    then less_eq b a
    else false

module _ (number_of : String → Number) (name : String) (current : Value)
    (others : Expression → Value) where
  unfoldable pub literal_value : Expression → Number → Value
  literal_value e not_a_number = others e
  literal_value e (number above below) = record { above = above; below = below }

  -- the value of an expression where the counter `name` has the value `current`; what is no sum,
  -- difference, sign, literal or counter has any value, `others`
  unfoldable pub value_of : Expression → Value
  unfolding literal_value
  value_of (identifier other) = if str_eq other name then current else others (identifier other)
  value_of (literal raw) = literal_value (literal raw) (number_of raw)
  value_of (unary operator argument) =
      let v = value_of argument in
      if str_eq operator "+"
      then v
      else if str_eq operator "-"
      then opposite v
      else others (unary operator argument)
  value_of (binary operator left right) =
      let a = value_of left in
      let b = value_of right in
      if str_eq operator "-"
      then add a (opposite b)
      else if str_eq operator "+"
      then add a b
      else others (binary operator left right)
  value_of (update operator argument) = others (update operator argument)
  value_of (assignment operator left right) = others (assignment operator left right)
  value_of other_expression = others other_expression

  unfoldable pub assigned : String → Value → Value
  assigned operator v =
      if str_eq operator "="
      then v
      else if str_eq operator "-="
      then add current (opposite v)
      else if str_eq operator "+="
      then add current v
      else current

  -- the counter after the update
  unfoldable pub after_update : Expression → Value
  unfolding assigned value_of
  after_update (update operator argument) =
      if str_eq operator "++" then add current one else add current (opposite one)
  after_update (assignment operator left right) = assigned operator (value_of right)
  after_update _ = current

-- The counter when the test is made for the `k`th time, where everything else may have another value
-- each time.
unfoldable pub counter :
    (String → Number) → String → (ℕ → Expression → Value) → Expression → Value → ℕ → Value
unfolding after_update
counter number_of name others step initial zero = initial
counter number_of name others step initial (suc k) =
    after_update number_of name (counter number_of name others step initial k) (others k) step

-- whether a test holds where the counter is `current` and the other side is `bound`
unfoldable pub holds : Expression → String → Value → Value → Bool
unfolding is_same_identifier
holds (binary operator left right) name current bound =
    if is_same_identifier left name
    then compare operator current bound
    else if is_same_identifier right name
    then compare operator bound current
    else false
holds _ name current bound = false
