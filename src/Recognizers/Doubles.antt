-- ===== src/Recognizers/Doubles.antt =====
-- JavaScript's numbers as the recognizers use them: an argument, with those laws of IEEE 754 on the
-- numbers from 0 to 1 that rounding keeps.
use sonar_js.Prelude.{ℕ, ◌≤◌, ◌≡◌, Bool, true}

pub record Doubles (R : Type 0) : Type 0 where
  pub zero_double : R
  pub one_double : R
  -- the literals 0.00 to 1.00
  pub hundredths : ℕ → R
  pub minus : R → R → R
  pub times : R → R → R
  -- `Math.pow` at a whole exponent
  pub pow : R → ℕ → R
  pub le_double : R → R → Bool

module _ {R : Type 0} (d : Doubles R) where
  -- the numbers from 0 to 1
  pub record IsUnit (x : R) : Type 0 where
    pub above : d.le_double d.zero_double x ≡ true
    pub below : d.le_double x d.one_double ≡ true

  pub record IsDoubles : Type 0 where
    pub zero-IsUnit : IsUnit d.zero_double
    pub one-IsUnit : IsUnit d.one_double
    pub hundredths-IsUnit : (n : ℕ) → n ≤ 100 → IsUnit (d.hundredths n)
    pub minus-IsUnit : (x : R) → IsUnit x → IsUnit (d.minus d.one_double x)
    pub times-IsUnit : (x y : R) → IsUnit x → IsUnit y → IsUnit (d.times x y)
    pub pow-IsUnit : (x : R) (n : ℕ) → IsUnit x → IsUnit (d.pow x n)
