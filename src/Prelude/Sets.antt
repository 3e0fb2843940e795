-- ===== src/Prelude/Sets.antt =====
-- JavaScript sets of objects that are told apart by identity: a number stands for each object, and
-- a set is the list of its members in order of insertion.
use Prim.Native.Nat.{ℕ}
use mathlib.Core.Path.{◌≡◌, refl}
use mathlib.Core.Bool.{Bool, false, ◌||◌, ◌&&◌, not}
use mathlib.Core.List.{List, [], ◌∷◌, ◌++◌, reverse_aux}
use native.Mathlib.Omega.{arith}
use sonar_js.Prelude.Tests.{if◌then◌else◌, ◌==◌}

-- `has` of a set, `includes` of an array
abbrev pub has : List ℕ → ℕ → Bool
has [] a = false
has (x ∷ xs) a = x == a || has xs a

-- `Set.prototype.add`
abbrev pub set_add : List ℕ → ℕ → List ℕ
set_add s a = if has s a then s else s ++ a ∷ []

-- adding the elements of an array one by one
abbrev pub add_all : List ℕ → List ℕ → List ℕ
add_all s [] = s
add_all s (x ∷ xs) = add_all (set_add s x) xs

-- `new Set(array)`
abbrev pub set_of : List ℕ → List ℕ
set_of xs = add_all [] xs

-- `Set.prototype.delete`
abbrev pub set_delete : List ℕ → ℕ → List ℕ
set_delete [] a = []
set_delete (x ∷ xs) a = let rest = set_delete xs a in if x == a then rest else x ∷ rest

pub has-append : (xs ys : List ℕ) (a : ℕ) → has (xs ++ ys) a ≡ (has xs a || has ys a)
has-append [] ys a = refl
has-append (x ∷ xs) ys a = ground (arith, has-append xs ys a)

pub has-reverse_aux : (xs ys : List ℕ) (a : ℕ) → has (reverse_aux xs ys) a ≡ (has xs a || has ys a)
has-reverse_aux [] ys a = refl
has-reverse_aux (x ∷ xs) ys a = ground (arith, has-reverse_aux xs (x ∷ ys) a)

pub has-set_add : (s : List ℕ) (x a : ℕ) → has (set_add s x) a ≡ (has s a || x == a)
has-set_add s x a = ground (arith, has-append s (x ∷ []) a, has_same)
  where
    has_same : x ≡ a → has s x ≡ has s a
    has_same e = cc

pub has-add_all : (s xs : List ℕ) (a : ℕ) → has (add_all s xs) a ≡ (has s a || has xs a)
has-add_all s [] a = ground arith
has-add_all s (x ∷ xs) a = ground (arith, has-add_all (set_add s x) xs a, has-set_add s x a)

pub has-set_of : (xs : List ℕ) (a : ℕ) → has (set_of xs) a ≡ has xs a
has-set_of xs a = has-add_all [] xs a

pub has-set_delete : (s : List ℕ) (x a : ℕ) → has (set_delete s x) a ≡ (has s a && not (x == a))
has-set_delete [] x a = refl
has-set_delete (y ∷ s) x a = ground (arith, has-set_delete s x a)
