-- ===== src/Prelude/Maps.antt =====
-- JavaScript maps whose keys are told apart by identity: a number stands for each key.
use Prim.Native.Nat.{ℕ}
use mathlib.Core.Path.{◌≡◌, refl, subst}
use mathlib.Core.Bool.{true}
use mathlib.Core.Option.{Option, none, some}
use mathlib.Core.List.{List, [], ◌∷◌}
use native.Mathlib.Omega.{arith}
use mathlib.Core.Logic.{inl, inr}
use sonar_js.Prelude.Tests.{if◌then◌else◌, ◌==◌, ==_iff, Bool-cases}
use sonar_js.Prelude.Lists.{All}

abbrev pub Keyed {ℓ} : Type ℓ → Type ℓ
Keyed V = List (ℕ × V)

module _ {ℓ} {V : Type ℓ} where
  -- `Map.prototype.get`; `undefined` is `none`
  abbrev pub get : Keyed V → ℕ → Option V
  get [] k = none
  get ((j, v) ∷ m) k = if j == k then some v else get m k

  -- `Map.prototype.set`: a key that is there keeps its place, a new one goes to the end.
  abbrev pub put : Keyed V → ℕ → V → Keyed V
  put [] k v = (k, v) ∷ []
  put ((j, w) ∷ m) k v = if j == k then (j, v) ∷ m else (j, w) ∷ put m k v

  abbrev pub keys : Keyed V → List ℕ
  keys [] = []
  keys ((k, v) ∷ m) = k ∷ keys m

  pub get-put :
      (m : Keyed V) (k j : ℕ) (v : V) → get (put m k v) j ≡ (if k == j then some v else get m j)
  get-put [] k j v = refl
  get-put ((i, w) ∷ m) k j v = ground (arith, get-put m k j v)

  -- each key stands once
  abbrev pub IsDistinct : Keyed V → Type ℓ
  IsDistinct [] = Unit
  IsDistinct ((k, v) ∷ m) = (get m k ≡ none) × IsDistinct m

  pub put-IsDistinct : (m : Keyed V) (k : ℕ) (v : V) → IsDistinct m → IsDistinct (put m k v)
  put-IsDistinct [] k v d = (refl, tt)
  put-IsDistinct ((j, w) ∷ m) k v (fresh, d) = elim (Bool-cases (j == k)) [
    | inl same ↦ rw (same) (fresh, d)
    | inr other ↦ rw (other) (ground (arith, get-put m k j v), put-IsDistinct m k v d)
  ]

module _ {ℓ κ} {V : Type ℓ} (P : ℕ × V → Type κ) where
  -- what holds of all that `get` finds holds of all entries
  pub All-get :
      (m : Keyed V) → IsDistinct m → ((k : ℕ) (v : V) → get m k ≡ some v → P (k, v)) → All P m
  All-get [] d h = tt
  All-get ((j, w) ∷ m) (fresh, d) h =
      (h j w (ground arith), All-get m d (λ k v e. h k v (ground arith)))

  pub All-put :
      (m : Keyed V) (k : ℕ) (v : V) → ((j : ℕ) → j ≡ k → P (j, v)) → All P m → All P (put m k v)
  All-put [] k v p h = (p k refl, tt)
  All-put ((j, w) ∷ m) k v p (q, h) = elim (Bool-cases (j == k)) [
    | inl same ↦ rw (same) (p j ((==_iff j k).0 same), h)
    | inr other ↦ rw (other) (q, All-put m k v p h)
  ]

  pub All_at :
      (m : Keyed V) (k : ℕ) (v : V) → All P m → get m k ≡ some v → (j : ℕ) × (j ≡ k) × P (j, v)
  All_at [] k v h e = absurd (ground arith)
  All_at ((j, w) ∷ m) k v (q, h) e = elim (Bool-cases (j == k)) [
    | inl same ↦ (j, (==_iff j k).0 same, subst (λ u. P (j, u)) (same_value same) q)
    | inr other ↦ All_at m k v h (ground arith)
  ]
    where
      same_value : j == k ≡ true → w ≡ v
      same_value same = ground arith
