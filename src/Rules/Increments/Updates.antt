-- ===== src/Rules/Increments/Updates.antt =====
-- An update moves its counter in the direction that the rule finds.
use Prim.Native.String.{String}
use text.Mathlib.Text.{◌==◌ as str_eq}
use mathlib.Core.Bool.{false≢true}
use sonar_js.Prelude.{
  and_false, ◌+◌, ◌≡◌, ◌≤◌, refl, true, ◌||◌, Option, none, some, if◌then◌else◌, Bool-cases, inl,
  inr, arith, ltb,
}
use sonar_js.Rules.Increments.{
  Expression, identifier, literal, unary, update, assignment, binary, Direction, down, still, up,
  Number, not_a_number, number, ForLoopIncrement, negated, direction_of, is_same_identifier,
  increment_of, is_identifier, direction_from_value, binary_increment, assignment_increment,
  in_assignment, find_in_loop_update,
}
use sonar_js.Rules.Increments.Values.{
  Value, add, opposite, one, literal_value, value_of, assigned, after_update,
}

-- The value is not below 0, or not above it.
abbrev Points : Direction → Value → Type 0
Points up v = v.below ≤ v.above
Points down v = v.above ≤ v.below
Points still v = Unit

-- The second value lies in the direction from the first one.
abbrev pub Moves : Direction → Value → Value → Type 0
Moves up a b = a.above + b.below ≤ b.above + a.below
Moves down a b = b.above + a.below ≤ a.above + b.below
Moves still a b = Unit

Points-opposite : (d : Direction) (v : Value) → Points d v → Points (negated d) (opposite v)
unfolding negated
Points-opposite up v h = h
Points-opposite down v h = h
Points-opposite still v h = record {}

Moves-add : (d : Direction) (a v : Value) → Points d v → Moves d a (add a v)
Moves-add up a v h = omega arith
Moves-add down a v h = omega arith
Moves-add still a v h = record {}

module _ (number_of : String → Number) (name : String) (current : Value)
    (others : Expression → Value) where
  literal-Points :
      (e : Expression) (n : Number)
      → Points (direction_of n) (literal_value number_of name current others e n)
  unfolding direction_of literal_value
  literal-Points e not_a_number = record {}
  literal-Points e (number above below) = elim (Bool-cases (ltb below above)) [
    | inl p ↦ rw (p) (ground arith)
    | inr p ↦ elim (Bool-cases (ltb above below)) [
      | inl q ↦ rw (p, q) (ground arith)
      | inr q ↦ rw (p, q) (record {})
    ]
  ]

  value_of-Points :
      (e : Expression)
      → Points (direction_from_value number_of e) (value_of number_of name current others e)
  unfolding direction_from_value value_of
  value_of-Points (literal raw) = literal-Points (literal raw) (number_of raw)
  value_of-Points (unary operator argument) = elim (Bool-cases (str_eq operator "+")) [
    | inl p ↦ rw (p) (value_of-Points argument)
    | inr p ↦ elim (Bool-cases (str_eq operator "-")) [
      | inl q ↦
          rw (p, q)
            (Points-opposite (direction_from_value number_of argument)
              (value_of number_of name current others argument) (value_of-Points argument))
      | inr q ↦ rw (p, q) (record {})
    ]
  ]
  value_of-Points e = record {}

  same_identifier-value :
      (e : Expression)
      → is_same_identifier e name ≡ true
      → value_of number_of name current others e ≡ current
  unfolding is_same_identifier value_of
  same_identifier-value (identifier other) h = rw (h) refl
  same_identifier-value e h = absurd (false≢true h)

  -- the sum or difference of `i = i + e` and `i = i - e`
  binary-Moves :
      (operator : String) (left right : Expression)
      → is_same_identifier left name ≡ true
      → (str_eq operator "+" || str_eq operator "-") ≡ true
      → Moves
          (if str_eq operator "-"
            then negated (direction_from_value number_of right)
            else direction_from_value number_of right)
          current
          (value_of number_of name current others (binary operator left right))
  unfolding value_of
  binary-Moves operator left right same sign =
      let d = direction_from_value number_of right in
      let v = value_of number_of name current others right in
      elim (Bool-cases (str_eq operator "-")) [
        | inl p ↦
            rw (p, same_identifier-value left same)
              (Moves-add (negated d) current (opposite v)
                (Points-opposite d v (value_of-Points right)))
        | inr p ↦
            let plus : str_eq operator "+" ≡ true = ground arith in
            rw (p, plus, same_identifier-value left same)
              (Moves-add d current v (value_of-Points right))
      ]

-- What was found moves its counter in its direction, where `f` updates the counter of a name.
abbrev pub MovesBy : Value → Option ForLoopIncrement → (String → Value) → Type 0
MovesBy current none f = Unit
MovesBy current (some i) f = Moves i.direction current (f i.identifier)

increment_of-MovesBy :
    (current : Value) (f : String → Value) (e : Expression) (d : Direction)
    → ((name : String) → Moves d current (f name))
    → MovesBy current (increment_of e d) f
unfolding increment_of
increment_of-MovesBy current f (identifier name) d h = h name
increment_of-MovesBy current f e d h = record {}

module _ (number_of : String → Number) (current : Value) (others : Expression → Value) where
  binary_increment-MovesBy :
      (name operator : String) (left right : Expression)
      → MovesBy current
          (binary_increment number_of name operator left right)
          (λ counted. value_of number_of counted current others (binary operator left right))
  unfolding binary_increment increment_of
  binary_increment-MovesBy name operator left right =
      elim (Bool-cases (str_eq operator "+" || str_eq operator "-")) [
        | inl sign ↦ elim (Bool-cases (is_same_identifier left name)) [
          | inl same ↦
              rw (sign, same)
                (binary-Moves number_of name current others operator left right same sign)
          | inr differs ↦ rw (sign, differs) (record {})
        ]
        | inr no_sign ↦ rw (no_sign) (record {})
      ]

  assignment_increment-MovesBy :
      (left right : Expression)
      → MovesBy current
          (assignment_increment number_of left right)
          (λ counted. value_of number_of counted current others right)
  unfolding assignment_increment
  assignment_increment-MovesBy (identifier name) (binary operator left right) =
      binary_increment-MovesBy name operator left right
  assignment_increment-MovesBy (identifier name) right = record {}
  assignment_increment-MovesBy left right = record {}

  in_assignment-MovesBy :
      (operator : String) (left right : Expression)
      → MovesBy current (in_assignment number_of operator left right) (λ counted.
        after_update number_of counted current others (assignment operator left right))
  unfolding in_assignment after_update assigned
  in_assignment-MovesBy operator left right =
      let d = direction_from_value number_of right in
      elim (Bool-cases (str_eq operator "=")) [
        | inl p ↦ rw (p) (assignment_increment-MovesBy left right)
        | inr p ↦ elim (Bool-cases (is_identifier left)) [
          | inl named ↦ elim (Bool-cases (str_eq operator "-=")) [
            | inl q ↦
                rw (p, q, named)
                  (increment_of-MovesBy current _ left (negated d) λ counted.
                    let v = value_of number_of counted current others right in
                    Moves-add (negated d) current (opposite v) (
                      Points-opposite d v (value_of-Points number_of counted current others right)))
            | inr q ↦ elim (Bool-cases (str_eq operator "+=")) [
              | inl r ↦
                  rw (p, q, r, named)
                    (increment_of-MovesBy current _ left d λ counted.
                      Moves-add d current (value_of number_of counted current others right)
                        (value_of-Points number_of counted current others right))
              | inr r ↦ rw (p, q, r) (record {})
            ]
          ]
          | inr other ↦
              rw (p, other, and_false (str_eq operator "-="), and_false (str_eq operator "+="))
                (record {})
        ]
      ]

  pub find_in_loop_update-MovesBy :
      (step : Expression)
      → MovesBy current
          (find_in_loop_update number_of (some step))
          (λ counted. after_update number_of counted current others step)
  unfolding find_in_loop_update after_update
  find_in_loop_update-MovesBy (update operator argument) =
      elim (Bool-cases (str_eq operator "++")) [
        | inl p ↦ rw (p) (
            increment_of-MovesBy current _ argument up
              λ counted. Moves-add up current one (omega arith))
        | inr p ↦ rw (p) (
            increment_of-MovesBy current _ argument down
              λ counted. Moves-add down current (opposite one) (omega arith))
      ]
  find_in_loop_update-MovesBy (assignment operator left right) =
      in_assignment-MovesBy operator left right
  find_in_loop_update-MovesBy step = record {}
