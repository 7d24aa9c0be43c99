-- ===== src/Files/IntFresh.antt =====
-- The header that the int mode's creations write is accepted by `reqrep_validate_header`.
use go_data_reqrep_shared.Base.{
  ℕ, ◌+◌, ◌*◌, ◌%◌, ◌<◌, ◌≤◌, ◌≡◌, ap₂, ◌∙◌, sym, some, [], true, false, arith, u32, u32_mod,
  u64_mod, add64, and_not, and_not_sixty_three,
}
use go_data_reqrep_shared.Layout.{MmapLayout, sizeof_header, bad_cap}
use go_data_reqrep_shared.IntMode.File.{int_compute_layout, int_init_header, sizeof_int_slot}
use go_data_reqrep_shared.IntMode.{ReqIntSlot}
use go_data_reqrep_shared.Files.Open.{mode_int, validate_mode}
use go_data_reqrep_shared.Files.Valid.{IsWords}

abbrev int_slots_end : ℕ → ℕ
int_slots_end cap = add64 sizeof_header (cap * sizeof_int_slot % u64_mod)

abbrev int_resp_off : ℕ → ℕ
int_resp_off cap = and_not (add64 (int_slots_end cap) 63) 63

abbrev int_stride : ℕ
int_stride = and_not 103 63

int_stride_lem : int_stride ≡ 64
int_stride_lem = omega (arith, and_not_sixty_three 103)

-- What the int mode's computation tells.
record IntMade (cap n : ℕ) (l : MmapLayout) : Type 0 where
  slots_off : l.req_slots_off ≡ 256
  stride : l.resp_stride ≡ int_stride
  off_fits : int_resp_off cap < u32_mod
  off : l.resp_off ≡ u32 (int_resp_off cap)
  size : l.total_size ≡ add64 (int_resp_off cap) (n * int_stride % u64_mod)

int_compute_layout-IntMade :
    (cap n : ℕ) (l : MmapLayout) → int_compute_layout cap n ≡ some l → IntMade cap n l
unfolding int_compute_layout
int_compute_layout-IntMade cap n l made = record {
  slots_off = ground (arith, made);
  stride = ground (arith, made);
  off_fits = ground (arith, made);
  off = ground (arith, made);
  size = ground (arith, made);
}

-- For 32-bit numbers of slots, the header of the int mode is accepted.
pub int_header :
    (cap resp_slots : ℕ) (l : MmapLayout) (slot : ℕ → ReqIntSlot)
    → cap < u32_mod
    → bad_cap cap ≡ false
    → 0 < resp_slots
    → resp_slots < u32_mod
    → int_compute_layout cap resp_slots ≡ some l
    → validate_mode (int_init_header cap resp_slots l slot []).0 l.total_size mode_int ≡ true
unfolding int_init_header validate_mode
int_header cap n l slot fits ok pos few made =
    let m : IntMade cap n l = int_compute_layout-IntMade cap n l made in
    let round = and_not_sixty_three (add64 (int_slots_end cap) 63) in
    let stride : l.resp_stride ≡ 64 = m.stride ∙ int_stride_lem in
    let slots_end : add64 l.req_slots_off (cap * sizeof_int_slot % u64_mod) ≡ 256 + cap * 24 =
      omega (arith, m.slots_off) in
    let same : l.resp_off ≡ int_resp_off cap = omega (arith, m.off, m.off_fits) in
    let after : 256 + cap * 24 ≤ l.resp_off = omega (arith, m.off, m.off_fits, round) in
    let end : add64 l.resp_off (n * l.resp_stride % u64_mod) ≡ l.total_size =
      ap₂ (λ (o s : ℕ). add64 o (n * s % u64_mod)) same m.stride ∙ sym m.size in
    ground (arith, ok, m.slots_off, stride, slots_end, after, end)

-- The fields of that header are words.
pub int_header-IsWords :
    (cap resp_slots : ℕ) (l : MmapLayout) (slot : ℕ → ReqIntSlot)
    → cap < u32_mod
    → resp_slots < u32_mod
    → int_compute_layout cap resp_slots ≡ some l
    → IsWords (int_init_header cap resp_slots l slot []).0
unfolding int_init_header
int_header-IsWords cap n l slot fits few made =
    let m : IntMade cap n l = int_compute_layout-IntMade cap n l made in
    record {
      req_cap_fits = fits;
      req_arena_off_fits = omega arith;
      req_arena_cap_fits = omega arith;
      resp_slots_fits = few;
      resp_off_fits = omega (arith, m.off);
      resp_stride_fits = omega (arith, m.stride, int_stride_lem);
    }
