-- ===== src/Recognizers/Detectors/Laws.antt =====
-- When a detector finds something at the end of a line or in its capitals.
use mathlib.Core.List.{reverse_aux, reverse-cons, append_assoc, reverse-append, reverse-reverse}
use sonar_js.Prelude.{
  ℕ, ◌≡◌, refl, sym, ap, ◌∙◌, ◌↔◌, Bool, true, false, not, List, [], ◌∷◌, ◌++◌, reverse, all, arith,
  Text, inl, inr, Bool-cases, subst,
}
use sonar_js.Recognizers.Detectors.{
  is_in, stops, ends_with, scan_end, lower_then_upper, camel_from, scan_camel_case,
}

pub passes : ℕ → Bool
passes c = not (stops c)

-- A character that ends lines, with characters behind it that the detector passes over.
pub EndsLine : List ℕ → Text → Type 0
EndsLine end_of_lines line =
    (before : Text) × (c : ℕ) × (after : Text) × (line ≡ before ++ c ∷ after)
    × (is_in end_of_lines c ≡ true)
    × (all passes after ≡ true)

-- the same from the other end
FirstEnds : List ℕ → Text → Type 0
FirstEnds end_of_lines line =
    (after : Text) × (c : ℕ) × (before : Text) × (line ≡ after ++ c ∷ before)
    × (is_in end_of_lines c ≡ true)
    × (all passes after ≡ true)

passed : (c : ℕ) → stops c ≡ false → passes c ≡ true
unfolding passes
passed c h = rw (h) refl

ends_with-found :
    (end_of_lines : List ℕ) (line : Text)
    → ends_with end_of_lines line ≡ 1
    → FirstEnds end_of_lines line
unfolding ends_with FirstEnds
ends_with-found end_of_lines [] h = absurd (omega arith)
ends_with-found end_of_lines (c ∷ line) h = elim (Bool-cases (is_in end_of_lines c)) [
  | inl ends ↦ ([], c, line, refl, ends, refl)
  | inr other ↦ elim (Bool-cases (stops c)) [
    | inl stop ↦ absurd (ground (arith, rw (other, stop) at h))
    | inr pass ↦
        let (after, e, before, split, ends, rest) =
          ends_with-found end_of_lines line (rw (other, pass) at h) in
        (c ∷ after, e, before, ap (λ l. c ∷ l) split, ends, rw (passed c pass) rest)
  ]
]

ends_with-finds :
    (end_of_lines : List ℕ) (after : Text) (c : ℕ) (before : Text)
    → is_in end_of_lines c ≡ true
    → all passes after ≡ true
    → ends_with end_of_lines (after ++ c ∷ before) ≡ 1
unfolding ends_with passes
ends_with-finds end_of_lines [] c before h p = rw (h) refl
ends_with-finds end_of_lines (a ∷ after) c before h p =
    ground (arith, ends_with-finds end_of_lines after c before h)

all-reverse_aux :
    (xs ys : Text)
    → all passes xs ≡ true
    → all passes ys ≡ true
    → all passes (reverse_aux xs ys) ≡ true
all-reverse_aux [] ys h k = k
all-reverse_aux (x ∷ xs) ys h k =
    all-reverse_aux xs (x ∷ ys) (ground (arith, h)) (ground (arith, h, k))

all-reverse : (xs : Text) → all passes xs ≡ true → all passes (reverse xs) ≡ true
all-reverse xs h = all-reverse_aux xs [] h refl

reverse_split : (a : Text) (c : ℕ) (b : Text) → reverse (a ++ c ∷ b) ≡ reverse b ++ c ∷ reverse a
reverse_split a c b =
    reverse-append a (c ∷ b)
    ∙ ap (λ l. l ++ reverse a) (reverse-cons c b)
    ∙ append_assoc (reverse b) (c ∷ []) (reverse a)

-- `EndWithDetector.scan` finds something exactly if the line has one of the characters and behind it
-- nothing but white space, asterisks and slashes.
scan_end_iff :
    (end_of_lines : List ℕ) (line : Text)
    → (scan_end end_of_lines line ≡ 1) ↔ EndsLine end_of_lines line
unfolding scan_end EndsLine FirstEnds
scan_end_iff end_of_lines line = (
  λ h.
      let (after, c, before, split, ends, rest) = ends_with-found end_of_lines (reverse line) h in
      (
        reverse before,
        c,
        reverse after,
        sym (reverse-reverse line) ∙ ap reverse split ∙ reverse_split after c before,
        ends,
        all-reverse after rest,
      ),
  λ (before, c, after, split, ends, rest).
      rw (split, reverse_split before c after)
        (ends_with-finds end_of_lines (reverse after) c (reverse before) ends
          (all-reverse after rest)),
)

module _ (lower upper : ℕ → Text) where
  -- two neighbours, the first in lower and the second in upper case
  pub Camel : Text → Type 0
  Camel line =
      (before : Text) × (a : ℕ) × (b : ℕ) × (after : Text) × (line ≡ before ++ a ∷ b ∷ after)
      × (lower_then_upper lower upper a b ≡ true)

  witness_found :
      (previous : ℕ) (line : Text)
      → camel_from lower upper previous line ≡ 1
      → Camel (previous ∷ line)
  unfolding camel_from Camel
  witness_found previous [] h = absurd (omega arith)
  witness_found previous (c ∷ line) h =
      elim (Bool-cases (lower_then_upper lower upper previous c)) [
        | inl here ↦ ([], previous, c, line, refl, here)
        | inr later ↦
            let (before, a, b, after, split, pair) = witness_found c line (rw (later) at h) in
            (previous ∷ before, a, b, after, ap (λ l. previous ∷ l) split, pair)
      ]

  abbrev camel_of : Text → ℕ
  camel_of [] = 0
  camel_of (x ∷ line) = camel_from lower upper x line

  camel_finds :
      (before : Text) (a b : ℕ) (after : Text)
      → lower_then_upper lower upper a b ≡ true
      → camel_of (before ++ a ∷ b ∷ after) ≡ 1
  unfolding camel_from
  camel_finds [] a b after h = rw (h) refl
  camel_finds (x ∷ []) a b after h = ground (arith, camel_finds [] a b after h)
  camel_finds (x ∷ y ∷ before) a b after h = ground (arith, camel_finds (y ∷ before) a b after h)

  -- `CamelCaseDetector.scan` finds something exactly if of two neighbours, where the first character
  -- of the line has a space in front of it, the first is its own lower case and the second is its
  -- own upper case, whether they are letters or not.
  scan_camel_case_iff : (line : Text) → (scan_camel_case lower upper line ≡ 1) ↔ Camel (32 ∷ line)
  unfolding scan_camel_case Camel
  scan_camel_case_iff line = (
    witness_found 32 line,
    λ (before, a, b, after, split, pair).
        subst (λ l. camel_of l ≡ 1) (sym split) (camel_finds before a b after pair),
  )
