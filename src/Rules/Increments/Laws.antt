-- ===== src/Rules/Increments/Laws.antt =====
-- A reported loop never reaches its stop condition.
use Prim.Native.String.{String}
use mathlib.Core.Bool.{false≢true}
use sonar_js.Prelude.{
  ℕ, zero, suc, ◌≡◌, true, Option, none, some, Bool-cases, inl, inr, arith, subst,
}
use sonar_js.Rules.Increments.{
  Expression, binary, Direction, down, still, up, Number, ForLoopIncrement, direction_eq,
  is_same_identifier, find_in_loop_update, is_less, is_greater, direction_away, get_wrong_direction,
  goes_wrong, check_increment, check_for_statement,
}
use sonar_js.Rules.Increments.Updates.{Moves, MovesBy, find_in_loop_update-MovesBy}
use sonar_js.Rules.Increments.Values.{Value, compare, after_update, counter, holds}

-- A move away from the stop condition keeps a comparison.
left_kept :
    (operator : String) (d : Direction) (a a' b : Value)
    → goes_wrong (direction_away operator down up) d ≡ true
    → Moves d a a'
    → compare operator a b ≡ true
    → compare operator a' b ≡ true
unfolding goes_wrong direction_away direction_eq is_less is_greater compare
left_kept operator up a a' b h m e = ground arith
left_kept operator down a a' b h m e = ground arith
left_kept operator still a a' b h m e = ground arith

right_kept :
    (operator : String) (d : Direction) (a a' b : Value)
    → goes_wrong (direction_away operator up down) d ≡ true
    → Moves d a a'
    → compare operator b a ≡ true
    → compare operator b a' ≡ true
unfolding goes_wrong direction_away direction_eq is_less is_greater compare
right_kept operator up a a' b h m e = ground arith
right_kept operator down a a' b h m e = ground arith
right_kept operator still a a' b h m e = ground arith

kept :
    (test : Expression) (name : String) (d : Direction) (a a' bound : Value)
    → goes_wrong (get_wrong_direction test name) d ≡ true
    → Moves d a a'
    → holds test name a bound ≡ true
    → holds test name a' bound ≡ true
unfolding holds get_wrong_direction goes_wrong
kept (binary operator left right) name d a a' bound h m e =
    elim (Bool-cases (is_same_identifier left name)) [
      | inl l ↦ rw (l) (left_kept operator d a a' bound (rw (l) at h) m (rw (l) at e))
      | inr l ↦ elim (Bool-cases (is_same_identifier right name)) [
        | inl r ↦ rw (l, r) (right_kept operator d a a' bound (rw (l, r) at h) m (rw (l, r) at e))
        | inr r ↦ absurd (false≢true (rw (l, r) at e))
      ]
    ]
kept test name d a a' bound h m e = absurd (false≢true e)

abbrev Wrong : Expression → Option ForLoopIncrement → Type 0
Wrong test none = ⊥
Wrong test (some i) = goes_wrong (get_wrong_direction test i.identifier) i.direction ≡ true

wrong_way :
    (test : Expression) (found : Option ForLoopIncrement) (i : ForLoopIncrement)
    → check_increment (some test) found ≡ some i
    → (found ≡ some i) × (goes_wrong (get_wrong_direction test i.identifier) i.direction ≡ true)
unfolding check_increment
wrong_way test none i h = cc
wrong_way test (some found) i h =
    elim (Bool-cases (goes_wrong (get_wrong_direction test found.identifier) found.direction)) [
      | inl wrong ↦ let e : some found ≡ some i = rw (wrong) at h in (e, subst (Wrong test) e wrong)
      | inr right ↦ let e : none ≡ some i = rw (right) at h in cc
    ]

-- A loop that is reported never reaches its stop condition: if the test holds of integers at first,
-- and the side of the test without the counter keeps its value, then the test holds after any number
-- of updates, whatever other expressions may come to each time.
pub check_for_statement_lem :
    (number_of : String → Number) (test step : Expression) (i : ForLoopIncrement)
    → check_for_statement number_of (record { test = some test; update = some step }) ≡ some i
    → (others : ℕ → Expression → Value) (initial bound : Value)
    → holds test i.identifier initial bound ≡ true
    → (k : ℕ)
    → holds test i.identifier (counter number_of i.identifier others step initial k) bound ≡ true
unfolding check_for_statement counter
check_for_statement_lem number_of test step i h others initial bound e zero = e
check_for_statement_lem number_of test step i h others initial bound e (suc k) =
    let (found, wrong) = wrong_way test (find_in_loop_update number_of (some step)) i h in
    let current = counter number_of i.identifier others step initial k in
    let moves =
      subst
        (λ o. MovesBy current o (λ counted. after_update number_of counted current (others k) step))
        found (find_in_loop_update-MovesBy number_of current (others k) step) in
    kept test i.identifier i.direction current _ bound wrong moves
      (check_for_statement_lem number_of test step i h others initial bound e k)
