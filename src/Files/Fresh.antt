-- ===== src/Files/Fresh.antt =====
-- The headers that the creations of gen/reqrep.h write are accepted by `reqrep_validate_header`.
use go_data_reqrep_shared.Base.{
  ℕ, suc, ◌-◌, ◌+◌, ◌*◌, ◌%◌, ◌^◌, ◌<◌, ◌≤◌, ◌≡◌, ◌≢◌, ap₂, ◌∙◌, sym, some, [], true, false, inl,
  inr, arith, u32, u32_mod, u64_mod, add64, add32, and_not_sixty_three, bit_and, test_of_pow, sub32,
}
use go_data_reqrep_shared.Layout.{
  MmapLayout, Header, sizeof_resp_slot, bad_cap, max_int, arena_off_of, arena_cap_of, resp_off_of,
  resp_stride_of, init_header, reqrep_validate_header,
}
use go_data_reqrep_shared.Layout.Fresh.{fresh_header_accepted}
use go_data_reqrep_shared.Reference.Layout.{
  next_pow2, reqrep_compute_layout, reqrep_init_header, layout_agrees,
}
use go_data_reqrep_shared.Reference.Power.{IsLeastPower, next_pow2-IsLeastPower}
use go_data_reqrep_shared.Files.Open.{mode_str, arena_within, validate_mode}
use go_data_reqrep_shared.Files.Valid.{IsWords}

-- A size that `reqrep_next_pow2` returns, not 0, passes the power-of-two test.
pub next_pow2-bad_cap :
    (v : ℕ)
    → v < u32_mod
    → next_pow2 v ≢ 0
    → (next_pow2 v < u32_mod) × (bad_cap (next_pow2 v) ≡ false)
unfolding IsLeastPower
next_pow2-bad_cap v h ne = elim (next_pow2-IsLeastPower v h) [
  | inr (big, e) ↦ absurd (ne e)
  | inl (fits, (above, (k, e), least)) ↦
      let bound : next_pow2 v ≤ 2 ^ 31 = least 30 fits in
      let pos : 0 < 2 ^ suc k = omega (arith, e) in
      let less : sub32 (next_pow2 v) 1 ≡ 2 ^ suc k - 1 = omega (arith, e) in
      let test : bit_and (next_pow2 v) (sub32 (next_pow2 v) 1) ≡ 0 =
        ap₂ bit_and e less ∙ test_of_pow (suc k) in
      (omega arith, ground (arith, test))
]

-- In the string mode the test is the one of the string mode's model.
validate_mode-string :
    (h : Header) (size : ℕ) → validate_mode h size mode_str ≡ reqrep_validate_header h size
unfolding validate_mode arena_within reqrep_validate_header
validate_mode-string h size = ground arith

-- What the C computation tells of its arguments and of the size.
layout_lem :
    (cap n d a : ℕ) (l : MmapLayout)
    → reqrep_compute_layout cap n d a ≡ some l
    → (a < u32_mod)
      × (add64
            (resp_off_of (u32 (arena_off_of cap)) (arena_cap_of a))
            (n * resp_stride_of d % u64_mod)
          ≡ l.total_size)
unfolding reqrep_compute_layout arena_off_of arena_cap_of resp_off_of resp_stride_of
layout_lem cap n d a l made = ground (arith, made)

-- For 32-bit numbers of slots, responses of at most 2 ^ 32 - 96 bytes and a size that `off_t` holds,
-- the header of the string mode is accepted, and its fields are words.
pub string_header :
    (cap resp_slots resp_data_max hint : ℕ) (l : MmapLayout)
    → cap < u32_mod
    → bad_cap cap ≡ false
    → 0 < resp_slots
    → resp_slots < u32_mod
    → resp_data_max + 95 < u32_mod
    → reqrep_compute_layout cap resp_slots resp_data_max hint ≡ some l
    → l.total_size ≤ max_int
    → validate_mode (reqrep_init_header cap resp_slots resp_data_max l []).0 l.total_size mode_str
      ≡ true
unfolding reqrep_init_header init_header
string_header cap n d a l fits ok pos few room made small =
    validate_mode-string _ _
    ∙ (fresh_header_accepted cap n d a fits few room l
        (sym (
            layout_agrees cap n d a ok (layout_lem cap n d a l made).0
              (omega (arith, (layout_lem cap n d a l made).1, small)))
          ∙ made)
        pos).1

-- The fields of that header are words.
pub string_header-IsWords :
    (cap resp_slots resp_data_max hint : ℕ) (l : MmapLayout)
    → cap < u32_mod
    → resp_slots < u32_mod
    → reqrep_compute_layout cap resp_slots resp_data_max hint ≡ some l
    → IsWords (reqrep_init_header cap resp_slots resp_data_max l []).0
unfolding reqrep_init_header reqrep_compute_layout
string_header-IsWords cap n d a l fits few made =
    let stride : l.resp_stride < u32_mod =
      ground (arith, made, and_not_sixty_three (add32 (add32 sizeof_resp_slot d) 63)) in
    record {
      req_cap_fits = fits;
      req_arena_off_fits = ground (arith, made);
      req_arena_cap_fits = ground (arith, made);
      resp_slots_fits = few;
      resp_off_fits = ground (arith, made);
      resp_stride_fits = stride;
    }
