-- ===== src/Base/Lists.antt =====
-- Arrays as lists with native indices: single cells, and blocks of cells as `memcpy` moves them.
use Prim.Native.Nat.{ℕ, zero, suc, ◌+◌, ◌≤◌, ◌<◌}
use mathlib.Core.Path.{◌≡◌, refl, ap}
use mathlib.Core.Logic.{◌≢◌}
use mathlib.Core.List.{List, [], ◌∷◌, ◌++◌, map}
use native.Mathlib.Omega.{arith}

module _ {ℓ} {A : Type ℓ} where
  abbrev pub length : List A → ℕ
  length [] = 0
  length (x ∷ xs) = suc (length xs)

  abbrev pub get_or : List A → ℕ → A → A
  get_or [] i d = d
  get_or (x ∷ xs) zero d = x
  get_or (x ∷ xs) (suc i) d = get_or xs i d

  -- A write out of bounds changes nothing.
  abbrev pub set : List A → ℕ → A → List A
  set [] i v = []
  set (x ∷ xs) zero v = v ∷ xs
  set (x ∷ xs) (suc i) v = x ∷ set xs i v

  abbrev pub replicate : ℕ → A → List A
  replicate zero a = []
  replicate (suc n) a = a ∷ replicate n a

  -- The `n` cells from index `i` on, fewer at the end of the array.
  abbrev pub slice : List A → ℕ → ℕ → List A
  slice [] i n = []
  slice (x ∷ xs) (suc i) n = slice xs i n
  slice (x ∷ xs) zero zero = []
  slice (x ∷ xs) zero (suc n) = x ∷ slice xs zero n

  -- The array with a block of cells replaced from index `i` on.
  abbrev pub copy_at : List A → ℕ → List A → List A
  copy_at [] i ys = []
  copy_at (x ∷ xs) (suc i) ys = x ∷ copy_at xs i ys
  copy_at (x ∷ xs) zero [] = x ∷ xs
  copy_at (x ∷ xs) zero (y ∷ ys) = y ∷ copy_at xs zero ys

  pub length-append : (xs ys : List A) → length (xs ++ ys) ≡ length xs + length ys
  length-append [] ys = omega arith
  length-append (x ∷ xs) ys = omega (arith, length-append xs ys)

  pub length-set : (xs : List A) (i : ℕ) (v : A) → length (set xs i v) ≡ length xs
  length-set [] i v = refl
  length-set (x ∷ xs) zero v = refl
  length-set (x ∷ xs) (suc i) v = ap suc (length-set xs i v)

  pub length-replicate : (n : ℕ) (a : A) → length (replicate n a) ≡ n
  length-replicate zero a = refl
  length-replicate (suc n) a = ap suc (length-replicate n a)

  pub get_or-replicate : (n i : ℕ) (a : A) → get_or (replicate n a) i a ≡ a
  get_or-replicate zero i a = refl
  get_or-replicate (suc n) zero a = refl
  get_or-replicate (suc n) (suc i) a = get_or-replicate n i a

  pub get_or-set_self :
      (xs : List A) (i : ℕ) (v d : A) → i < length xs → get_or (set xs i v) i d ≡ v
  get_or-set_self [] i v d h = absurd (omega arith)
  get_or-set_self (x ∷ xs) zero v d h = refl
  get_or-set_self (x ∷ xs) (suc i) v d h = get_or-set_self xs i v d (omega arith)

  pub get_or-set_ne :
      (xs : List A) (i j : ℕ) (v d : A) → i ≢ j → get_or (set xs i v) j d ≡ get_or xs j d
  get_or-set_ne [] i j v d h = refl
  get_or-set_ne (x ∷ xs) zero zero v d h = absurd (h refl)
  get_or-set_ne (x ∷ xs) zero (suc j) v d h = refl
  get_or-set_ne (x ∷ xs) (suc i) zero v d h = refl
  get_or-set_ne (x ∷ xs) (suc i) (suc j) v d h = get_or-set_ne xs i j v d (λ e. h (ap suc e))

  pub get_or_out : (xs : List A) (i : ℕ) (d : A) → length xs ≤ i → get_or xs i d ≡ d
  get_or_out [] i d h = refl
  get_or_out (x ∷ xs) zero d h = absurd (omega arith)
  get_or_out (x ∷ xs) (suc i) d h = get_or_out xs i d (omega arith)

  pub length-copy_at : (xs : List A) (i : ℕ) (ys : List A) → length (copy_at xs i ys) ≡ length xs
  length-copy_at [] i ys = refl
  length-copy_at (x ∷ xs) (suc i) ys = ap suc (length-copy_at xs i ys)
  length-copy_at (x ∷ xs) zero [] = refl
  length-copy_at (x ∷ xs) zero (y ∷ ys) = ap suc (length-copy_at xs zero ys)

  -- What was copied in is read back.
  pub slice-copy_at_self :
      (xs : List A) (i : ℕ) (ys : List A)
      → i + length ys ≤ length xs
      → slice (copy_at xs i ys) i (length ys) ≡ ys
  slice-copy_at_self [] i [] h = refl
  slice-copy_at_self [] i (y ∷ ys) h = absurd (omega arith)
  slice-copy_at_self (x ∷ xs) (suc i) ys h = slice-copy_at_self xs i ys (omega arith)
  slice-copy_at_self (x ∷ xs) zero [] h = refl
  slice-copy_at_self (x ∷ xs) zero (y ∷ ys) h =
      ap (◌∷◌ y) (slice-copy_at_self xs zero ys (omega arith))

  -- Cells before the block are left alone.
  pub slice-copy_at_before :
      (xs : List A) (i j n : ℕ) (ys : List A)
      → i + n ≤ j
      → slice (copy_at xs j ys) i n ≡ slice xs i n
  slice-copy_at_before [] i j n ys h = refl
  slice-copy_at_before (x ∷ xs) (suc i) zero n ys h = absurd (omega arith)
  slice-copy_at_before (x ∷ xs) (suc i) (suc j) n ys h =
      slice-copy_at_before xs i j n ys (omega arith)
  slice-copy_at_before (x ∷ xs) zero zero zero [] h = refl
  slice-copy_at_before (x ∷ xs) zero zero zero (y ∷ ys) h = refl
  slice-copy_at_before (x ∷ xs) zero zero (suc n) ys h = absurd (omega arith)
  slice-copy_at_before (x ∷ xs) zero (suc j) zero ys h = refl
  slice-copy_at_before (x ∷ xs) zero (suc j) (suc n) ys h =
      ap (◌∷◌ x) (slice-copy_at_before xs zero j n ys (omega arith))

  -- So are cells behind it.
  pub slice-copy_at_after :
      (xs : List A) (i j n : ℕ) (ys : List A)
      → j + length ys ≤ i
      → slice (copy_at xs j ys) i n ≡ slice xs i n
  slice-copy_at_after [] i j n ys h = refl
  slice-copy_at_after (x ∷ xs) (suc i) (suc j) n ys h =
      slice-copy_at_after xs i j n ys (omega arith)
  slice-copy_at_after (x ∷ xs) zero (suc j) n ys h = absurd (omega arith)
  slice-copy_at_after (x ∷ xs) i zero n [] h = refl
  slice-copy_at_after (x ∷ xs) zero zero n (y ∷ ys) h = absurd (omega arith)
  slice-copy_at_after (x ∷ xs) (suc i) zero n (y ∷ ys) h =
      slice-copy_at_after xs i zero n ys (omega arith)

  pub length-slice : (xs : List A) (i n : ℕ) → i + n ≤ length xs → length (slice xs i n) ≡ n
  length-slice [] i n h = omega arith
  length-slice (x ∷ xs) (suc i) n h = length-slice xs i n (omega arith)
  length-slice (x ∷ xs) zero zero h = refl
  length-slice (x ∷ xs) zero (suc n) h = ap suc (length-slice xs zero n (omega arith))

  pub slice_all : (xs : List A) → slice xs 0 (length xs) ≡ xs
  slice_all [] = refl
  slice_all (x ∷ xs) = ap (◌∷◌ x) (slice_all xs)

pub length-map {ℓ κ} :
    {A : Type ℓ} {B : Type κ} (f : A → B) (xs : List A) → length (map f xs) ≡ length xs
length-map f [] = refl
length-map f (x ∷ xs) = ap suc (length-map f xs)
