-- ===== src/Base/Words.antt =====
-- `uint32` and `uint64` arithmetic, with its wrap-around written out.
use Prim.Native.Nat.{ℕ, ◌+◌, ◌-◌, ◌%◌, ◌^◌, bit_and}
use mathlib.Core.Path.{◌≡◌}
use native.Mathlib.Omega.{arith}
use go_data_reqrep_shared.Base.Bits.{bit_and_mask}

abbrev pub u32_mod : ℕ
u32_mod = 2 ^ 32

abbrev pub u64_mod : ℕ
u64_mod = 2 ^ 64

abbrev pub u32 : ℕ → ℕ
u32 a = a % u32_mod

abbrev pub add32 : ℕ → ℕ → ℕ
add32 a b = (a + b) % u32_mod

abbrev pub sub32 : ℕ → ℕ → ℕ
sub32 a b = (a + u32_mod - b) % u32_mod

abbrev pub add64 : ℕ → ℕ → ℕ
add64 a b = (a + b) % u64_mod

abbrev pub sub64 : ℕ → ℕ → ℕ
sub64 a b = (a + u64_mod - b) % u64_mod

-- `a &^ m` and `a & ~m`: the bits of `m` that `a` has are taken away.
unfoldable pub and_not : ℕ → ℕ → ℕ
and_not a m = a - bit_and a m

pub and_not_seven : (a : ℕ) → and_not a 7 ≡ a - a % 8
unfolding and_not
and_not_seven a = omega (arith, bit_and_mask 3 a)

pub and_not_sixty_three : (a : ℕ) → and_not a 63 ≡ a - a % 64
unfolding and_not
and_not_sixty_three a = omega (arith, bit_and_mask 6 a)
