-- ===== src/Base/Family.antt =====
-- Families over the numbers, such as one value for each thread or each slot.
use Prim.Native.Nat.{ℕ}
use mathlib.Core.Path.{◌≡◌, fun_ext, sym, subst}
use mathlib.Core.Logic.{◌≢◌}
use native.Mathlib.Decide.{ℕ_discrete}
use native.Mathlib.Omega.{arith}
use go_data_reqrep_shared.Base.Tests.{if◌then◌else◌, ◌==◌}

abbrev pub put {ℓ} : {A : Type ℓ} → (ℕ → A) → ℕ → A → ℕ → A
put f i a j = if j == i then a else f j

module _ {A : Type 0} (f : ℕ → A) (i : ℕ) where
  pub put-put : (a b : A) → put (put f i a) i b ≡ put f i b
  put-put a b = fun_ext (λ j. elim (ℕ_discrete j i) [ yes e ↦ ground arith | no ne ↦ ground arith ])

  pub put_id : (a : A) → f i ≡ a → put f i a ≡ f
  put_id a e = fun_ext (λ j. elim (ℕ_discrete j i) [ yes q ↦ ground arith | no ne ↦ ground arith ])

  pub put_self : (a : A) → put f i a i ≡ a
  put_self a = ground arith

  pub put_ne : (a : A) (j : ℕ) → j ≢ i → put f i a j ≡ f j
  put_ne a j h = ground arith

  -- What holds of the new value and of the others holds of all.
  pub put_all :
      (P : ℕ → A → Type 0) (a : A)
      → P i a
      → ((j : ℕ) → j ≢ i → P j (f j))
      → (j : ℕ) → P j (put f i a j)
  put_all P a new old j = elim (ℕ_discrete j i) [
    | yes e ↦ subst (λ k. P k (put f i a k)) (sym e) (subst (P i) (sym (put_self a)) new)
    | no ne ↦ subst (P j) (sym (put_ne a j ne)) (old j ne)
  ]
