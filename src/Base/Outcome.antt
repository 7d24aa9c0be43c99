-- ===== src/Base/Outcome.antt =====
-- The outcome of Go code that may panic (an index or a slice bound out of range), and of C code
-- whose `memcpy` may leave its object.
pub data Run {ℓ} (A : Type ℓ) : Type ℓ where
  ok : A → Run A
  fault : Run A

infixl 5 ◌>>=◌
abbrev pub ◌>>=◌ {ℓ κ} : {A : Type ℓ} {B : Type κ} → Run A → (A → Run B) → Run B
ok a >>= f = f a
fault >>= f = fault
