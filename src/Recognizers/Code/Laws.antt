-- ===== src/Recognizers/Code/Laws.antt =====
-- The probability that a line is code stays between 0 and 1.
use sonar_js.Prelude.{ℕ, zero, suc, ◌≡◌, refl, some, List, [], ◌∷◌, All, Text, arith, ◌≤◌}
use sonar_js.Recognizers.Doubles.{Doubles, IsUnit, IsDoubles}
use sonar_js.Recognizers.Code.{
  Scan, Detector, new_detector, add_detector, java_script_foot_print, scan, recognized,
  detector_recognition, combine, recognition, end_with, keywords, contains, camel_case, texts,
  words, operators, parts,
}

module _ {R : Type 0} (d : Doubles R) (laws : IsDoubles d) where
  HasUnit : Detector R → Type 0
  HasUnit detector = IsUnit d detector.probability

  accepted :
      (n : ℕ) (s : Scan)
      → n ≤ 100
      → new_detector d (d.hundredths n) s
        ≡ some (record { probability = d.hundredths n; looks_for = s })
  unfolding new_detector
  accepted n s h = rw ((laws.hundredths-IsUnit n h).above, (laws.hundredths-IsUnit n h).below) refl

  -- the detectors of `JavaScriptFootPrint`
  abbrev foot_print : List (Detector R)
  foot_print =
      record { probability = d.hundredths 95; looks_for = end_with (125 ∷ 59 ∷ 123 ∷ []) }
      ∷ record { probability = d.hundredths 70; looks_for = keywords (texts operators) }
      ∷ record { probability = d.hundredths 30; looks_for = keywords (texts words) }
      ∷ record { probability = d.hundredths 95; looks_for = contains parts }
      ∷ record { probability = d.hundredths 50; looks_for = camel_case }
      ∷ []

  java_script_foot_print-some : java_script_foot_print d ≡ some foot_print
  unfolding java_script_foot_print add_detector
  java_script_foot_print-some =
      rw
        (
          accepted 95 (end_with (125 ∷ 59 ∷ 123 ∷ [])) (omega arith),
          accepted 70 (keywords (texts operators)) (omega arith),
          accepted 30 (keywords (texts words)) (omega arith),
          accepted 95 (contains parts) (omega arith),
          accepted 50 camel_case (omega arith),
        )
        refl

  foot_print-All : All HasUnit foot_print
  unfolding HasUnit
  foot_print-All = (
    laws.hundredths-IsUnit 95 (omega arith),
    (
      laws.hundredths-IsUnit 70 (omega arith),
      (
        laws.hundredths-IsUnit 30 (omega arith),
        (
          laws.hundredths-IsUnit 95 (omega arith),
          (laws.hundredths-IsUnit 50 (omega arith), record {}),
        ),
      ),
    ),
  )

  module _ (lower upper : ℕ → Text) where
    recognized-IsUnit :
        (probability : R) (n : ℕ)
        → IsUnit d probability
        → IsUnit d (recognized d lower upper probability n)
    unfolding recognized
    recognized-IsUnit probability zero h = laws.zero-IsUnit
    recognized-IsUnit probability (suc n) h =
        laws.minus-IsUnit _ (laws.pow-IsUnit _ (suc n) (laws.minus-IsUnit probability h))

    combine-IsUnit :
        (detectors : List (Detector R)) (probability : R) (line : Text)
        → All HasUnit detectors
        → IsUnit d probability
        → IsUnit d (combine d lower upper detectors probability line)
    unfolding combine detector_recognition HasUnit
    combine-IsUnit [] probability line hs h = h
    combine-IsUnit (detector ∷ detectors) probability line (u, hs) h =
        combine-IsUnit detectors _ line hs (
          laws.minus-IsUnit _ (
            laws.times-IsUnit _ _ (laws.minus-IsUnit probability h) (
              laws.minus-IsUnit _ (
                recognized-IsUnit detector.probability (scan d lower upper detector.looks_for line)
                  u))))

    -- `JavaScriptFootPrint` is constructed without an exception, and by its detectors the
    -- probability that `CodeRecognizer.recognition` gives any line is from 0 to 1.
    pub recognition-IsUnit :
        (line : Text)
        → (detectors : List (Detector R)) × (java_script_foot_print d ≡ some detectors)
          × IsUnit d (recognition d lower upper detectors line)
    unfolding recognition
    recognition-IsUnit line = (
      foot_print,
      java_script_foot_print-some,
      combine-IsUnit foot_print d.zero_double line foot_print-All laws.zero-IsUnit,
    )
