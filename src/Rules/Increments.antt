-- ===== src/Rules/Increments.antt =====
-- src/linting/eslint/rules/for-loop-increment-sign.ts. What `Number` makes of a literal is an
-- argument. The wording of the message is left out.
mod Values
mod Updates
mod Laws
mod Tests
use Prim.Native.String.{String}
use text.Mathlib.Text.{◌==◌ as str_eq}
use sonar_js.Prelude.{ℕ, ◌+◌, Bool, true, false, ◌||◌, ◌&&◌, Option, none, some, if◌then◌else◌, ltb}

-- expressions, with operators and names as the source has them
pub data Expression : Type 0 where
  identifier literal : String → Expression
  unary update : (operator : String) → Expression → Expression
  assignment binary : (operator : String) → Expression → Expression → Expression
  other_expression : Expression

-- `test` and `update` of a `for` statement
pub record ForStatement : Type 0 where
  pub test : Option Expression
  pub update : Option Expression

-- -1, 0 and 1
pub data Direction : Type 0 where
  down still up : Direction

-- the result of `Number`: NaN, or how far it lies above and below 0, one of both being 0
pub data Number : Type 0 where
  not_a_number : Number
  number : (above below : ℕ) → Number

pub record ForLoopIncrement : Type 0 where
  pub identifier : String
  pub direction : Direction

pub negated : Direction → Direction
negated down = up
negated still = still
negated up = down

pub direction_eq : Direction → Direction → Bool
direction_eq down down = true
direction_eq still still = true
direction_eq up up = true
direction_eq _ _ = false

-- the sign of a literal's value
pub direction_of : Number → Direction
direction_of not_a_number = still
direction_of (number above below) =
    if ltb below above then up else if ltb above below then down else still

pub is_same_identifier : Expression → String → Bool
is_same_identifier (identifier name) other = str_eq name other
is_same_identifier _ other = false

-- `ForLoopIncrement.increment`
pub increment_of : Expression → Direction → Option ForLoopIncrement
increment_of (identifier name) direction =
    some (record { identifier = name; direction = direction })
increment_of _ direction = none

pub is_identifier : Expression → Bool
is_identifier (identifier name) = true
is_identifier _ = false

module _ (number_of : String → Number) where
  -- `directionFromValue`
  pub direction_from_value : Expression → Direction
  unfolding direction_of negated
  direction_from_value (literal raw) = direction_of (number_of raw)
  direction_from_value (unary operator argument) =
      let direction = direction_from_value argument in
      if str_eq operator "+"
      then direction
      else if str_eq operator "-"
      then negated direction
      else still
  direction_from_value _ = still

  -- the end of `assignmentIncrement`, on the parts of the binary expression
  pub binary_increment : String → String → Expression → Expression → Option ForLoopIncrement
  unfolding is_same_identifier direction_from_value negated increment_of
  binary_increment name operator left right =
      let direction = direction_from_value right in
      if (str_eq operator "+" || str_eq operator "-") && is_same_identifier left name
      then increment_of (identifier name)
          (if str_eq operator "-" then negated direction else direction)
      else none

  -- `assignmentIncrement`
  pub assignment_increment : Expression → Expression → Option ForLoopIncrement
  unfolding binary_increment
  assignment_increment (identifier name) (binary operator left right) =
      binary_increment name operator left right
  assignment_increment _ _ = none

  -- the branch of `findInLoopUpdate` for assignments
  pub in_assignment : String → Expression → Expression → Option ForLoopIncrement
  unfolding increment_of direction_from_value negated assignment_increment is_identifier
  in_assignment operator left right =
      if str_eq operator "="
      then assignment_increment left right
      else if str_eq operator "-=" && is_identifier left
      then increment_of left (negated (direction_from_value right))
      else if str_eq operator "+=" && is_identifier left
      then increment_of left (direction_from_value right)
      else none

  -- `findInLoopUpdate`
  pub find_in_loop_update : Option Expression → Option ForLoopIncrement
  unfolding increment_of in_assignment
  find_in_loop_update none = none
  find_in_loop_update (some (update operator argument)) =
      increment_of argument (if str_eq operator "++" then up else down)
  find_in_loop_update (some (assignment operator left right)) = in_assignment operator left right
  find_in_loop_update (some _) = none

pub is_less : String → Bool
is_less operator = str_eq operator "<" || str_eq operator "<="

pub is_greater : String → Bool
is_greater operator = str_eq operator ">" || str_eq operator ">="

-- the direction that leads away from the stop condition, by the operator and the sides
pub direction_away : String → Direction → Direction → Direction
unfolding is_less is_greater
direction_away operator if_less if_greater =
    if is_less operator then if_less else if is_greater operator then if_greater else still

-- `getWrongDirection`
pub get_wrong_direction : Expression → String → Direction
unfolding direction_away is_same_identifier
get_wrong_direction (binary operator left right) name =
    if is_same_identifier left name
    then direction_away operator down up
    else if is_same_identifier right name
    then direction_away operator up down
    else still
get_wrong_direction _ name = still

-- the comparison of the directions in the handler
pub goes_wrong : Direction → Direction → Bool
unfolding direction_eq
goes_wrong still direction = false
goes_wrong wrong direction = direction_eq wrong direction

-- the handler: the increment that is reported, if any
pub check_increment : Option Expression → Option ForLoopIncrement → Option ForLoopIncrement
unfolding goes_wrong get_wrong_direction
check_increment none found = none
check_increment (some test) none = none
check_increment (some test) (some found) =
    if goes_wrong (get_wrong_direction test found.identifier) found.direction
    then some found
    else none

pub check_for_statement : (String → Number) → ForStatement → Option ForLoopIncrement
unfolding check_increment find_in_loop_update
check_for_statement number_of statement =
    check_increment statement.test (find_in_loop_update number_of statement.update)
