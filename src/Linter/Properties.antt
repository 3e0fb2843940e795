-- ===== src/Linter/Properties.antt =====
-- JavaScript objects that serve as maps: `object[key]` and `object[key] = value`.
use Prim.Native.String.{String}
use text.Mathlib.Text.{◌==◌ as str_eq}
use text.Mathlib.TextEquality.{eq_iff}
use mathlib.Core.Bool.{false≢true}
use sonar_js.Prelude.{
  subst, ◌≡◌, refl, sym, ◌∙◌, Bool, true, false, Option, none, some, List, [], ◌∷◌, if◌then◌else◌,
  Bool-cases, inl, inr,
}

abbrev pub Properties {ℓ} : Type ℓ → Type ℓ
Properties V = List (String × V)

other_key :
    (k key other : String) → str_eq k key ≡ false → str_eq k other ≡ true → str_eq key other ≡ false
other_key k key other differ first = elim (Bool-cases (str_eq key other)) [
  | inr apart ↦ apart
  | inl both ↦ absurd (
      false≢true (
        sym differ ∙ (eq_iff k key).1 ((eq_iff k other).0 first ∙ sym ((eq_iff key other).0 both))))
]

module _ {ℓ} {V : Type ℓ} where
  abbrev pub get_property : Properties V → String → Option V
  get_property [] key = none
  get_property ((k, v) ∷ object) key =
      let rest = get_property object key in if str_eq k key then some v else rest

  abbrev pub set_property : Properties V → String → V → Properties V
  set_property [] key value = (key, value) ∷ []
  set_property ((k, v) ∷ object) key value =
      let rest = set_property object key value in
      if str_eq k key then (k, value) ∷ object else (k, v) ∷ rest

  replaced :
      (value v : V) (rest : Option V) (b : Bool)
      → (if b then some value else rest) ≡ (if b then some value else (if b then some v else rest))
  replaced value v rest true = refl
  replaced value v rest false = refl

  pub get-set :
      (object : Properties V) (key : String) (value : V) (other : String)
      → get_property (set_property object key value) other
        ≡ (if str_eq key other then some value else get_property object other)
  get-set [] key value other = refl
  get-set ((k, v) ∷ object) key value other = elim (Bool-cases (str_eq k key)) [
    | inl same ↦
        subst
          (λ t.
            get_property (set_property ((k, v) ∷ object) key value) other
            ≡ (if str_eq t other then some value else get_property ((k, v) ∷ object) other))
          ((eq_iff k key).0 same)
          (rw (same) (replaced value v (get_property object other) (str_eq k other)))
    | inr differ ↦ elim (Bool-cases (str_eq k other)) [
      | inl first ↦ rw (differ, first, other_key k key other differ first) refl
      | inr later ↦ rw (differ, later) (get-set object key value other)
    ]
  ]
