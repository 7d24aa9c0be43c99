-- ===== src/Shm/Ident.antt =====
-- Request identifiers: slot index and generation in one 64-bit number, and `packed_len`.
use go_data_reqrep_shared.Base.{
  ℕ, ◌+◌, ◌*◌, ◌/◌, ◌%◌, ◌^◌, ◌<◌, ◌≡◌, ap, bit_or, arith, u32, u32_mod, u64_mod, bit_or_low,
}

-- `(uint64(gen) << 32) | uint64(slot)`
unfoldable pub make_id : ℕ → ℕ → ℕ
make_id slot gen = bit_or ((gen * 2 ^ 32) % u64_mod) slot

-- `uint32(id)`
abbrev pub id_slot : ℕ → ℕ
id_slot id = u32 id

-- `uint32(id >> 32)`
abbrev pub id_gen : ℕ → ℕ
id_gen id = u32 (id / 2 ^ 32)

pub make_id_lem :
    (slot gen : ℕ) → slot < u32_mod → gen < u32_mod → make_id slot gen ≡ gen * 2 ^ 32 + slot
unfolding make_id
make_id_lem slot gen hs hg =
    let e : (gen * 2 ^ 32) % u64_mod ≡ gen * 2 ^ 32 = omega arith in
    omega (arith, bit_or_low 32 gen slot hs, ap (λ (t : ℕ). bit_or t slot) e)

-- A request id gives back the slot index and the generation that it was made of.
pub id_fields :
    (slot gen : ℕ)
    → slot < u32_mod
    → gen < u32_mod
    → (id_slot (make_id slot gen) ≡ slot) × (id_gen (make_id slot gen) ≡ gen)
id_fields slot gen hs hg = omega (arith, make_id_lem slot gen hs hg)
