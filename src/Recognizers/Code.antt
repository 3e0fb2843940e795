-- ===== src/Recognizers/Code.antt =====
-- `Detector`, `JavaScriptFootPrint` and `CodeRecognizer` of src/linting/eslint/linter/recognizers.
pub mod Laws
use Prim.Native.String.{String}
use sonar_js.Prelude.{
  ℕ, zero, suc, Bool, true, false, ◌||◌, ◌&&◌, not, Option, none, some, List, [], ◌∷◌, map, keep,
  if◌then◌else◌, ◌==◌, Text, codes,
}
use sonar_js.Recognizers.Doubles.{Doubles}
use sonar_js.Recognizers.Detectors.{
  Pattern, literal, semicolon_comment, scan_end, scan_keywords, scan_contains, scan_camel_case,
}

-- what a detector looks for
pub data Scan : Type 0 where
  end_with : List ℕ → Scan
  keywords : List Text → Scan
  contains : List Pattern → Scan
  camel_case : Scan

pub record Detector (R : Type 0) : Type 0 where
  pub probability : R
  pub looks_for : Scan

abbrev texts : List String → List Text
texts names = map codes names

operators : List String
operators = "++" ∷ "||" ∷ "&&" ∷ "===" ∷ "?." ∷ "??" ∷ []

words : List String
words =
    "public" ∷ "abstract" ∷ "class" ∷ "implements" ∷ "extends" ∷ "return" ∷ "throw" ∷ "private"
    ∷ "protected" ∷ "enum" ∷ "continue" ∷ "assert" ∷ "boolean" ∷ "this" ∷ "instanceof" ∷ "interface"
    ∷ "static" ∷ "void" ∷ "super" ∷ "true" ∷ "case:" ∷ "let" ∷ "const" ∷ "var" ∷ "async" ∷ "await"
    ∷ "break" ∷ "yield" ∷ "typeof" ∷ "import" ∷ "export" ∷ []

parts : List Pattern
parts =
    literal (codes "for(")
    ∷ literal (codes "if(")
    ∷ literal (codes "while(")
    ∷ literal (codes "catch(")
    ∷ literal (codes "switch(")
    ∷ literal (codes "try{")
    ∷ literal (codes "else{")
    ∷ literal (codes "this.")
    ∷ literal (codes "window.")
    ∷ semicolon_comment
    ∷ literal (codes "import '")
    ∷ literal (codes "import \"")
    ∷ literal (codes "require(")
    ∷ []

module _ {R : Type 0} (d : Doubles R) where
  -- the constructor of `Detector`; `none` where it throws
  pub new_detector : R → Scan → Option (Detector R)
  new_detector probability scan =
      if not (d.le_double d.zero_double probability) || not (d.le_double probability d.one_double)
      then none
      else some (record { probability = probability; looks_for = scan })

  add_detector : Option (Detector R) → Option (List (Detector R)) → Option (List (Detector R))
  add_detector none rest = none
  add_detector (some detector) none = none
  add_detector (some detector) (some detectors) = some (detector ∷ detectors)

  -- the constructor of `JavaScriptFootPrint`: its detectors in order
  pub java_script_foot_print : Option (List (Detector R))
  unfolding add_detector new_detector
  java_script_foot_print =
      add_detector (new_detector (d.hundredths 95) (end_with (125 ∷ 59 ∷ 123 ∷ []))) (
        add_detector (new_detector (d.hundredths 70) (keywords (texts operators))) (
          add_detector (new_detector (d.hundredths 30) (keywords (texts words))) (
            add_detector (new_detector (d.hundredths 95) (contains parts))
              (add_detector (new_detector (d.hundredths 50) camel_case) (some [])))))

  module _ (lower upper : ℕ → Text) where
    -- `scan`
    pub scan : Scan → Text → ℕ
    scan (end_with end_of_lines) line = scan_end end_of_lines line
    scan (keywords names) line = scan_keywords names line
    scan (contains patterns) line = scan_contains patterns line
    scan camel_case line = scan_camel_case lower upper line

    recognized : R → ℕ → R
    recognized probability zero = d.zero_double
    recognized probability (suc n) =
        d.minus d.one_double (d.pow (d.minus d.one_double probability) (suc n))

    -- `Detector.recognition`
    pub detector_recognition : Detector R → Text → R
    unfolding recognized
    detector_recognition detector line =
        recognized detector.probability (scan detector.looks_for line)

    -- the loop of `CodeRecognizer.recognition`
    pub combine : List (Detector R) → R → Text → R
    unfolding detector_recognition
    combine [] probability line = probability
    combine (detector ∷ detectors) probability line =
        combine detectors
          (d.minus d.one_double (
            d.times (d.minus d.one_double probability)
              (d.minus d.one_double (detector_recognition detector line))))
          line

    -- `CodeRecognizer.recognition`
    pub recognition : List (Detector R) → Text → R
    unfolding combine
    recognition detectors line = combine detectors d.zero_double line

    -- `extractCodeLines`
    pub extract_code_lines : R → List (Detector R) → List Text → List Text
    unfolding recognition
    extract_code_lines threshold detectors lines =
        keep (λ line. d.le_double threshold (recognition detectors line)) lines

    -- `isLineOfCode`: the difference is above 0
    pub is_line_of_code : R → List (Detector R) → Text → Bool
    unfolding recognition
    is_line_of_code threshold detectors line =
        not (d.le_double (d.minus (recognition detectors line) threshold) d.zero_double)
