-- ===== src/Linter/Results.antt =====
-- What the linter's functions return when they can throw: the exception is a value.

pub data Thrown : Type 0 where
  missing_quick_fix_message bad_encoded_message bad_symbols no_location : Thrown

pub data Result {ℓ} (A : Type ℓ) : Type ℓ where
  ok : A → Result A
  throw : Thrown → Result A

infixl 5 ◌>>=◌
abbrev pub ◌>>=◌ {ℓ κ} : {A : Type ℓ} {B : Type κ} → Result A → (A → Result B) → Result B
ok a >>= f = f a
throw e >>= f = throw e
