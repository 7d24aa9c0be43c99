-- ===== src/Base/Bits.antt =====
-- `&` with a low mask, and the test `v & (v - 1) == 0`, as arithmetic at every width.
use Prim.Native.Nat.{
  ℕ, zero, suc, ◌+◌, ◌-◌, ◌*◌, ◌/◌, ◌%◌, ◌^◌, ◌≤◌, ◌<◌, min, max, bit_and, bit_or, digits,
  bit_and-bitwise, bit_or-bitwise,
}
use mathlib.Core.Path.{◌≡◌, refl, ap, ◌∙◌}
use native.Mathlib.Nat.{pow-suc, one-le-pow, mod_self}
use native.Mathlib.Decide.{dec_lt}
use native.Mathlib.Omega.{arith}

-- A bit operation is `digits end bit`, a recursion on binary digits with a bound on their number.
-- Any bound that is large enough gives the same.
module _ (end : ℕ → ℕ) (bit : ℕ → ℕ → ℕ) where
  surplus : (n v m : ℕ) → v ≤ n → digits end bit (suc n) v m ≡ digits end bit n v m
  surplus zero zero m h = refl
  surplus (suc n) zero m h = refl
  surplus zero (suc v) m h = elim h [ ]
  surplus (suc n) (suc v) m h =
      ap (λ (t : ℕ). t * 2 + bit (suc v % 2) (m % 2)) (surplus n (suc v / 2) (m / 2) (omega arith))

  least : (n v m : ℕ) → v ≤ n → digits end bit n v m ≡ digits end bit v v m
  least zero v m h = let none_left : v ≡ 0 = omega arith in rw none_left
  least (suc n) v m h = elim (dec_lt n v) [
    | yes top ↦ let all : v ≡ suc n = omega arith in rw all
    | no lower ↦ surplus n v m (omega arith) ∙ least n v m (omega arith)
  ]

bit_and_step : (v m : ℕ) → bit_and v m ≡ bit_and (v / 2) (m / 2) * 2 + min (v % 2) (m % 2)
bit_and_step zero m = omega (arith, bit_and-bitwise 0 m, bit_and-bitwise 0 (m / 2))
bit_and_step (suc v) m =
    let half = least (λ _. 0) min v (suc v / 2) (m / 2) (omega arith) in
    omega (arith, bit_and-bitwise (suc v) m, bit_and-bitwise (suc v / 2) (m / 2), half)

pub bit_or_step : (v m : ℕ) → bit_or v m ≡ bit_or (v / 2) (m / 2) * 2 + max (v % 2) (m % 2)
bit_or_step zero m = omega (arith, bit_or-bitwise 0 m, bit_or-bitwise 0 (m / 2))
bit_or_step (suc v) m =
    let half = least (λ y. y) max v (suc v / 2) (m / 2) (omega arith) in
    omega (arith, bit_or-bitwise (suc v) m, bit_or-bitwise (suc v / 2) (m / 2), half)

-- With no bits on the right: by halving, for all numbers below a bound.
without_bits : (n v : ℕ) → v ≤ n → (bit_and v 0 ≡ 0) × (bit_or v 0 ≡ v) × (bit_and v v ≡ v)
without_bits n zero h = (refl, refl, refl)
without_bits zero (suc v) h = elim h [ ]
without_bits (suc n) (suc v) h =
    let below = without_bits n (suc v / 2) (omega arith) in
    omega
      (arith, below, bit_and_step (suc v) 0, bit_or_step (suc v) 0, bit_and_step (suc v) (suc v))

bit_and-zero : (v : ℕ) → bit_and v 0 ≡ 0
bit_and-zero v = (without_bits v v (omega arith)).0

pub bit_or-zero : (v : ℕ) → bit_or v 0 ≡ v
bit_or-zero v = (without_bits v v (omega arith)).1

bit_and_self : (v : ℕ) → bit_and v v ≡ v
bit_and_self v = (without_bits v v (omega arith)).2

two_pow_suc : (q k : ℕ) → q * 2 ^ suc k ≡ 2 * (q * 2 ^ k)
two_pow_suc q k = omega (arith, ap (λ (t : ℕ). q * t) (pow-suc 2 k))

bit_and_low : (k q r : ℕ) → r < 2 ^ k → bit_and (q * 2 ^ k + r) (2 ^ k - 1) ≡ r
bit_and_low zero q r h = omega (arith, bit_and-zero (q * 1 + r))
bit_and_low (suc k) q r h = omega (
  arith,
  bit_and_step (q * 2 ^ suc k + r) (2 ^ suc k - 1),
  two_pow_suc q k,
  pow-suc 2 k,
  ap (λ (t : ℕ). bit_and t (2 ^ k - 1)) (halves k q r),
  ap (λ (t : ℕ). bit_and ((q * 2 ^ suc k + r) / 2) t) (half_mask k),
  bit_and_low k q (r / 2) (omega (arith, pow-suc 2 k)),
)
  where
    halves : (k q r : ℕ) → (q * 2 ^ suc k + r) / 2 ≡ q * 2 ^ k + r / 2
    halves k q r = omega (arith, two_pow_suc q k)

    half_mask : (k : ℕ) → (2 ^ suc k - 1) / 2 ≡ 2 ^ k - 1
    half_mask k = omega (arith, pow-suc 2 k)

-- A mask of `k` ones takes the remainder by `2 ^ k`.
pub bit_and_mask : (k a : ℕ) → bit_and a (2 ^ k - 1) ≡ a % 2 ^ k
bit_and_mask k a = ground (arith, one-le-pow k 2, bit_and_low k (a / 2 ^ k) (a % 2 ^ k))

bit_and_odd : (v : ℕ) → 0 < v % 2 → bit_and v (v - 1) ≡ 0 → v ≡ 1
bit_and_odd v h e =
    let same : (v - 1) / 2 ≡ v / 2 = omega arith in
    omega
      (arith, bit_and_step v (v - 1), ap (λ (t : ℕ). bit_and (v / 2) t) same, bit_and_self (v / 2))

bit_and_even : (v : ℕ) → ¬ (0 < v % 2) → bit_and v (v - 1) ≡ 0 → bit_and (v / 2) (v / 2 - 1) ≡ 0
bit_and_even v h e =
    let half : (v - 1) / 2 ≡ v / 2 - 1 = omega arith in
    omega (arith, bit_and_step v (v - 1), ap (λ (t : ℕ). bit_and (v / 2) t) half)

-- The test `v & (v - 1) == 0` finds exactly the powers of two among the positive numbers.
pow_of_test_fuel : (n v : ℕ) → v ≤ n → 0 < v → bit_and v (v - 1) ≡ 0 → (k : ℕ) × (v ≡ 2 ^ k)
pow_of_test_fuel zero v h p e = absurd (omega arith)
pow_of_test_fuel (suc n) v h p e = elim (dec_lt 0 (v % 2)) [
  | yes odd ↦ (0, bit_and_odd v odd e)
  | no even ↦
      let (k, q) = pow_of_test_fuel n (v / 2) (omega arith) (omega arith) (bit_and_even v even e) in
      (suc k, omega (arith, q, pow-suc 2 k))
]

pub pow_of_test : (v : ℕ) → 0 < v → bit_and v (v - 1) ≡ 0 → (k : ℕ) × (v ≡ 2 ^ k)
pow_of_test v = pow_of_test_fuel v v (omega arith)

pub test_of_pow : (k : ℕ) → bit_and (2 ^ k) (2 ^ k - 1) ≡ 0
test_of_pow k = omega (arith, bit_and_mask k (2 ^ k), mod_self (2 ^ k))

-- `(q << k) | r` is a sum where `r` has `k` bits.
pub bit_or_low : (k q r : ℕ) → r < 2 ^ k → bit_or (q * 2 ^ k) r ≡ q * 2 ^ k + r
bit_or_low zero q r h = let e : r ≡ 0 = omega arith in rw e (omega (arith, bit_or-zero (q * 1)))
bit_or_low (suc k) q r h =
    let half : q * 2 ^ suc k / 2 ≡ q * 2 ^ k = omega (arith, two_pow_suc q k) in
    omega (
      arith,
      bit_or_step (q * 2 ^ suc k) r,
      two_pow_suc q k,
      ap (λ (t : ℕ). bit_or t (r / 2)) half,
      bit_or_low k q (r / 2) (omega (arith, pow-suc 2 k)),
    )
