-- ===== src/Rules/Increments/Tests.antt =====
-- `for (i = 0; i < 10; i -= 2)`: the counter stays below 10.
use Prim.Native.String.{String}
use sonar_js.Prelude.{ℕ, ◌≡◌, refl, true, some}
use sonar_js.Rules.Increments.{
  Expression, identifier, literal, assignment, binary, Number, number, down, ForLoopIncrement,
  check_for_statement,
}
use sonar_js.Rules.Increments.Values.{Value, counter, holds, compare}
use sonar_js.Rules.Increments.Laws.{check_for_statement_lem}

abbrev number_of : String → Number
number_of raw = number 2 0

abbrev test : Expression
test = binary "<" (identifier "i") (literal "10")

abbrev step : Expression
step = assignment "-=" (identifier "i") (literal "2")

abbrev found : ForLoopIncrement
found = record { identifier = "i"; direction = down }

abbrev integer : ℕ → Value
integer n = record { above = n; below = 0 }

abbrev unknown : ℕ → Expression → Value
unknown k e = integer k

loop_reported :
    check_for_statement number_of (record { test = some test; update = some step }) ≡ some found
unfolding check_for_statement
loop_reported = refl

below_at_first : holds test "i" (integer 0) (integer 10) ≡ true
unfolding holds compare
below_at_first = refl

check_for_statement_lem_example :
    holds test "i" (counter number_of "i" unknown step (integer 0) 7) (integer 10) ≡ true
check_for_statement_lem_example =
    check_for_statement_lem number_of test step found loop_reported unknown (integer 0) (integer 10)
      below_at_first 7
