-- ===== src/Recognizers/Tests.antt =====
-- The recognizers on short lines, over thousandths.
use sonar_js.Prelude.{
  ℕ, zero, suc, ◌+◌, ◌-◌, ◌*◌, ◌/◌, ◌≤◌, ◌≡◌, some, List, [], ◌∷◌, Text, codes, leb, arith, le→leb,
  leb→le, if◌then◌else◌,
}
use native.Mathlib.Nat.{mul-le-mul_right}
use sonar_js.Recognizers.Doubles.{Doubles, IsUnit, IsDoubles}
use sonar_js.Recognizers.Code.{Detector, java_script_foot_print, recognition}
use sonar_js.Recognizers.Code.Laws.{recognition-IsUnit}

abbrev power : ℕ → ℕ → ℕ
power x zero = 1000
power x (suc n) = x * power x n / 1000

abbrev thousandths : Doubles ℕ
thousandths = record {
  zero_double = 0;
  one_double = 1000;
  hundredths = λ n. n * 10;
  minus = λ a b. a - b;
  times = λ a b. a * b / 1000;
  pow = power;
  le_double = leb;
}

product_le : (x y : ℕ) → x ≤ 1000 → y ≤ 1000 → x * y / 1000 ≤ 1000
product_le x y h k = omega (arith, mul-le-mul_right y h)

power_le : (x n : ℕ) → x ≤ 1000 → power x n ≤ 1000
power_le x zero h = omega arith
power_le x (suc n) h = product_le x (power x n) h (power_le x n h)

unit : (x : ℕ) → x ≤ 1000 → IsUnit thousandths x
unit x h = record { above = le→leb 0 x (omega arith); below = le→leb x 1000 h }

thousandths-IsDoubles : IsDoubles thousandths
thousandths-IsDoubles = record {
  zero-IsUnit = unit 0 (omega arith);
  one-IsUnit = unit 1000 (omega arith);
  hundredths-IsUnit = λ n h. unit (n * 10) (omega arith);
  minus-IsUnit = λ x u. unit (1000 - x) (omega arith);
  times-IsUnit = λ x y u v.
      unit (x * y / 1000) (product_le x y (leb→le x 1000 u.below) (leb→le y 1000 v.below));
  pow-IsUnit = λ x n u. unit (power x n) (power_le x n (leb→le x 1000 u.below));
}

abbrev same : ℕ → Text
same c = c ∷ []

recognition-IsUnit_example :
    (detectors : List (Detector ℕ)) × (java_script_foot_print thousandths ≡ some detectors)
    × IsUnit thousandths (recognition thousandths same same detectors (codes "if(a) b();"))
recognition-IsUnit_example =
    recognition-IsUnit thousandths thousandths-IsDoubles same same (codes "if(a) b();")

abbrev lower : ℕ → Text
lower c = (if leb 65 c then if leb c 90 then c + 32 else c else c) ∷ []

abbrev upper : ℕ → Text
upper c = (if leb 97 c then if leb c 122 then c - 32 else c else c) ∷ []
