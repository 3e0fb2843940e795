-- ===== src/Server/Outcome.antt =====
-- What a computation of the server comes to: a value, an exception, or no end within its rounds.
use sonar_js.Prelude.{Bool, true, false, if◌then◌else◌}

pub data Outcome {ℓ κ} (E : Type ℓ) (A : Type κ) : Type (ℓ ⊔ κ) where
  returned : A → Outcome E A
  thrown : E → Outcome E A
  unfinished : Outcome E A

infixl 5 ◌>>=◌
abbrev pub ◌>>=◌ {ℓ κ μ} :
    {E : Type ℓ} {A : Type κ} {B : Type μ} → Outcome E A → (A → Outcome E B) → Outcome E B
returned a >>= f = f a
thrown e >>= f = thrown e
unfinished >>= f = unfinished

-- The outcome is an exception or a value with `P`.
abbrev pub Returns {ℓ κ} : {E : Type ℓ} {A : Type κ} → (A → Type 0) → Outcome E A → Type 0
Returns P (returned a) = P a
Returns P (thrown e) = Unit
Returns P unfinished = ⊥

abbrev pub Finished {ℓ κ} : {E : Type ℓ} {A : Type κ} → Outcome E A → Type 0
Finished o = Returns (λ a. Unit) o

pub Returns-bind {ℓ κ μ} :
    {E : Type ℓ} {A : Type κ} {B : Type μ} (P : A → Type 0) (Q : B → Type 0) (o : Outcome E A)
    (f : A → Outcome E B)
    → Returns P o
    → ((a : A) → P a → Returns Q (f a))
    → Returns Q (o >>= f)
Returns-bind P Q (returned a) f h k = k a h
Returns-bind P Q (thrown e) f h k = record {}
Returns-bind P Q unfinished f h k = elim h [ ]

pub Returns-if {ℓ κ} :
    {E : Type ℓ} {A : Type κ} (P : A → Type 0) (b : Bool) (o p : Outcome E A)
    → Returns P o
    → Returns P p
    → Returns P (if b then o else p)
Returns-if P true o p h g = h
Returns-if P false o p h g = g
