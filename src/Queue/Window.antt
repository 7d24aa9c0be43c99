-- ===== src/Queue/Window.antt =====
-- The slots between head and tail as a list. The counters wrap at 2 ^ 64, and the slot array goes
-- round at `req_cap`, a power of two: the index `counter & mask` follows through both.
use native.Mathlib.Nat.{mod-add-mod, mod-eq_of_lt, mod-eq-sub-mod, mod-mod_of_dvd, pow-suc, mod-lt}
use native.Mathlib.Nat.{one-dvd, dvd_refl, le_of_dvd, dvd-mul_right_of_dvd, add-zero}
use Prim.Native.Nat.{◌∣◌}
use go_data_reqrep_shared.Base.{
  ℕ, zero, suc, ◌+◌, ◌-◌, ◌%◌, ◌^◌, ◌≤◌, ◌<◌, ◌≡◌, refl, ap, ap₂, ◌∙◌, ◌≢◌, List, [], ◌∷◌, ◌++◌,
  arith, dec_lt, bit_and, u64_mod, bit_and_mask, length, get_or, set, get_or-set_self,
  get_or-set_ne,
}
use go_data_reqrep_shared.Shm.{Shm, ReqSlot}
use go_data_reqrep_shared.Queue.{no_slot}

-- What `computeLayout` and `setupShm` leave behind: a power of two of request slots, its mask, and
-- 32-bit sizes.
pub record IsSetUp (s : Shm) : Type 0 where
  pub cap_bits : ℕ
  pub power : s.req_cap ≡ 2 ^ cap_bits
  pub few_bits : cap_bits ≤ 31
  pub mask : s.req_cap_mask ≡ s.req_cap - 1
  pub arena_fits : s.req_arena_cap < 2 ^ 32

pub pow_pos : (k : ℕ) → 0 < 2 ^ k
pow_pos zero = omega arith
pow_pos (suc k) = omega (arith, pow_pos k, pow-suc 2 k)

pow_dvd : (k m : ℕ) → k ≤ m → 2 ^ k ∣ 2 ^ m
pow_dvd zero m h = one-dvd (2 ^ m)
pow_dvd (suc k) zero h = absurd (omega arith)
pow_dvd (suc k) (suc m) h = elim (dec_lt k m) [
  | yes lt ↦ rw pow-suc (dvd-mul_right_of_dvd (2 ^ suc k) (pow_dvd (suc k) m lt) 2)
  | no ge ↦ let e : m ≡ k = omega arith in rw e (dvd_refl (2 ^ suc k))
]

module _ {s : Shm} (v : IsSetUp s) where
  pub cap_pos : 0 < s.req_cap
  cap_pos = omega (arith, v.power, pow_pos v.cap_bits)

  pub cap_le : s.req_cap ≤ 2 ^ 31
  cap_le = rw v.power (le_of_dvd (pow_pos 31) (pow_dvd v.cap_bits 31 v.few_bits))

  pub slot_index : (k : ℕ) → bit_and k s.req_cap_mask ≡ k % s.req_cap
  slot_index k = rw (v.mask, v.power) (bit_and_mask v.cap_bits k)

  pub wrap_index : (k : ℕ) → k % u64_mod % s.req_cap ≡ k % s.req_cap
  wrap_index k =
      rw v.power
        (mod-mod_of_dvd (2 ^ v.cap_bits) k (pow_dvd v.cap_bits 64 (omega (arith, v.few_bits))))

pub add-mod-ne : {cap : ℕ} (h k : ℕ) → 0 < k → k < cap → (h + k) % cap ≢ h % cap
add-mod-ne {cap} h k p q = elim (dec_lt (h % cap + k) cap) [
  | yes b ↦ omega (arith, mod-eq_of_lt b, mod-add-mod h cap k)
  | no b ↦ omega (
    arith,
    mod-add-mod h cap k,
    mod-lt h {m = cap} (omega arith),
    mod-eq-sub-mod {n = h % cap + k} {m = cap} (omega arith),
    mod-eq_of_lt {n = h % cap + k - cap} {m = cap}
        (omega (arith, mod-lt h {m = cap} (omega arith))),
  )
]

module _ (cap : ℕ) where
  -- The `n` slots from counter `h` on.
  abbrev pub window : List ReqSlot → ℕ → ℕ → List ReqSlot
  window slots h zero = []
  window slots h (suc n) = get_or slots (h % cap) no_slot ∷ window slots (h + 1) n

  pub length-window : (slots : List ReqSlot) (h n : ℕ) → length (window slots h n) ≡ n
  length-window slots h zero = refl
  length-window slots h (suc n) = ap suc (length-window slots (h + 1) n)

  pub window_cong :
      (slots : List ReqSlot) (h k n : ℕ) → h % cap ≡ k % cap → window slots h n ≡ window slots k n
  window_cong slots h k zero e = refl
  window_cong slots h k (suc n) e =
      ap₂ (λ i t. get_or slots i no_slot ∷ t) e
        (window_cong slots (h + 1) (k + 1) n
          (omega (arith, mod-add-mod h cap 1, mod-add-mod k cap 1, ap (λ t. (t + 1) % cap) e)))

  -- A write just past the window makes it longer by one.
  pub window-set :
      (slots : List ReqSlot) (h n i : ℕ) (x : ReqSlot)
      → length slots ≡ cap
      → n < cap
      → i ≡ (h + n) % cap
      → window (set slots i x) h (suc n) ≡ window slots h n ++ x ∷ []
  window-set slots h zero i x e lt q =
      rw (q, add-zero, get_or-set_self slots (h % cap) x no_slot (omega (arith, mod-lt h lt))) refl
  window-set slots h (suc n) i x e lt q =
      ap₂ ◌∷◌
        (get_or-set_ne slots i (h % cap) x no_slot (rw q (add-mod-ne h (suc n) (omega arith) lt)))
        (window-set slots (h + 1) n i x e (omega arith) (q ∙ ap (λ t. t % cap) (omega arith)))
