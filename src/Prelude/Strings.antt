-- ===== src/Prelude/Strings.antt =====
-- JavaScript strings as lists of UTF-16 code units, with the string methods that the code calls.
use Prim.Native.Nat.{ℕ}
use Prim.Native.Char.{code}
use Prim.Native.String.{String}
use mathlib.Core.Path.{◌≡◌, refl}
use mathlib.Core.Bool.{Bool, true, false, ◌||◌, ◌&&◌}
use mathlib.Core.List.{List, [], ◌∷◌, ◌++◌, reverse, reverse-cons}
use native.Mathlib.Omega.{arith}
use sonar_js.Prelude.Tests.{if◌then◌else◌, ◌==◌, leb}

abbrev pub Text : Type 0
Text = List ℕ

-- The code units of an ASCII constant.
abbrev pub codes : String → Text
codes String.[] = []
codes (String.◌∷◌ c s) = code c ∷ codes s

-- `===`
abbrev pub text_eq : Text → Text → Bool
text_eq [] [] = true
text_eq (a ∷ s) (b ∷ t) = a == b && text_eq s t
text_eq _ _ = false

-- `s.startsWith(prefix)`
abbrev pub starts_with : Text → Text → Bool
starts_with s [] = true
starts_with [] (b ∷ t) = false
starts_with (a ∷ s) (b ∷ t) = a == b && starts_with s t

-- White space and line terminators: what `trim` removes and `\s` matches.
unfoldable pub is_space : ℕ → Bool
is_space c =
    (leb 0x9 c && leb c 0xd)
    || c == 0x20
    || c == 0xa0
    || c == 0x1680
    || (leb 0x2000 c && leb c 0x200a)
    || c == 0x2028
    || c == 0x2029
    || c == 0x202f
    || c == 0x205f
    || c == 0x3000
    || c == 0xfeff

unfoldable pub trim_start : Text → Text
trim_start [] = []
trim_start (c ∷ s) = let rest = trim_start s in if is_space c then rest else c ∷ s

-- `s.trim()`
unfoldable pub trim : Text → Text
unfolding trim_start is_space
trim s = reverse (trim_start (reverse (trim_start s)))

abbrev pub is_empty : Text → Bool
is_empty [] = true
is_empty (_ ∷ _) = false

trim_start_ends :
    (xs : Text) (c : ℕ) → is_space c ≡ false → is_empty (trim_start (xs ++ c ∷ [])) ≡ false
unfolding trim_start
trim_start_ends [] c h = ground arith
trim_start_ends (x ∷ xs) c h = ground (arith, trim_start_ends xs c h)

snoc_nonempty : (xs : Text) (c : ℕ) → is_empty (xs ++ c ∷ []) ≡ false
snoc_nonempty [] c = refl
snoc_nonempty (x ∷ xs) c = refl

is_empty-reverse : (xs : Text) → is_empty xs ≡ false → is_empty (reverse xs) ≡ false
is_empty-reverse [] h = h
is_empty-reverse (x ∷ xs) h = rw (reverse-cons) (snoc_nonempty (reverse xs) x)

-- A text that begins with no white space is not blank.
pub trim_nonblank : (c : ℕ) (s : Text) → is_space c ≡ false → is_empty (trim (c ∷ s)) ≡ false
unfolding trim trim_start
trim_nonblank c s h = rw (h) (
    rw (reverse-cons)
      (is_empty-reverse (trim_start (reverse s ++ c ∷ [])) (trim_start_ends (reverse s) c h)))
