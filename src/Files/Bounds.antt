-- ===== src/Files/Bounds.antt =====
-- What the six ways to a handle promise: the handle's areas lie in its mapping.
use go_data_reqrep_shared.Base.{
  ℕ, ◌-◌, ◌+◌, ◌*◌, ◌%◌, ◌^◌, ◌<◌, ◌≤◌, ◌≡◌, sym, subst, Option, none, Bool, true, false, ◌==◌,
  Bool-cases, inl, inr, arith, u64_mod, add64, ltb,
}
use go_data_reqrep_shared.Layout.{sizeof_header, Header, bad_cap}
use go_data_reqrep_shared.Reference.Layout.{setup_handle}
use go_data_reqrep_shared.Layout.Fresh.{cap_test_lem, product_fits}
use go_data_reqrep_shared.Files.{OpenHandle}
use go_data_reqrep_shared.Files.Open.{mode_str, validate_mode, arena_within, handle_at}
use go_data_reqrep_shared.Files.Valid.{IsWords, Stands}

-- The arena, if there is one, lies between the request slots and the response slots.
abbrev pub ArenaBounds : Bool → OpenHandle → Type 0
ArenaBounds false h = Unit {0}
ArenaBounds true h =
    (h.req_slots + h.sizes.req_cap * 24 ≤ h.req_arena)
    × (h.req_arena + h.sizes.req_arena_cap ≤ h.resp_area)

-- The areas of an open handle, in their order, from the header at the start of the mapping to its
-- end, at addresses that do not wrap around.
pub record InBounds (mode : ℕ) (h : OpenHandle) : Type 0 where
  pub after_header : h.hdr + 256 ≡ h.req_slots
  pub slots_before_responses : h.req_slots + h.sizes.req_cap * 24 ≤ h.resp_area
  pub arena : ArenaBounds (mode == mode_str) h
  pub responses_in_file : h.resp_area + h.sizes.resp_slots * h.resp_stride ≤ h.hdr + h.mmap_size
  pub slot_room : 32 ≤ h.resp_stride
  pub has_response_slot : 0 < h.sizes.resp_slots
  pub in_space : h.hdr + h.mmap_size < 2 ^ 63
  pub cap_pos : 0 < h.sizes.req_cap
  pub cap_test : bad_cap h.sizes.req_cap ≡ false
  pub mask : h.sizes.req_cap_mask ≡ h.sizes.req_cap - 1

-- The same for a header.
abbrev HeaderArena : Bool → Header → Type 0
HeaderArena false hd = Unit {0}
HeaderArena true hd =
    (add64 hd.req_slots_off (hd.req_cap * 24 % u64_mod) ≤ hd.req_arena_off)
    × (add64 hd.req_arena_off hd.req_arena_cap ≤ hd.resp_off)

-- What the tests of `reqrep_validate_header` tell of a header.
record Tests (mode : ℕ) (hd : Header) (size : ℕ) : Type 0 where
  cap_ok : bad_cap hd.req_cap ≡ false
  size_same : hd.total_size ≡ size
  slots_off : hd.req_slots_off ≡ 256
  has_slot : 0 < hd.resp_slots
  stride_room : 32 ≤ hd.resp_stride
  slots_end : add64 hd.req_slots_off (hd.req_cap * 24 % u64_mod) ≤ hd.resp_off
  arena : HeaderArena (mode == mode_str) hd
  resp_end : add64 hd.resp_off (hd.resp_slots * hd.resp_stride % u64_mod) ≤ hd.total_size

validate_mode-HeaderArena :
    (mode : ℕ) (hd : Header) (size : ℕ)
    → validate_mode hd size mode ≡ true
    → HeaderArena (mode == mode_str) hd
unfolding validate_mode arena_within
validate_mode-HeaderArena mode hd size e = elim (Bool-cases (mode == mode_str)) [
  | inl same ↦ rw same (ground (arith, e), ground (arith, e))
  | inr other ↦ rw other tt
]

validate_mode-Tests :
    (mode : ℕ) (hd : Header) (size : ℕ) → validate_mode hd size mode ≡ true → Tests mode hd size
unfolding validate_mode
validate_mode-Tests mode hd size e = record {
  cap_ok = ground (arith, e);
  size_same = ground (arith, e);
  slots_off = ground (arith, e);
  has_slot = ground (arith, e);
  stride_room = ground (arith, e);
  slots_end = ground (arith, e);
  arena = validate_mode-HeaderArena mode hd size e;
  resp_end = ground (arith, e);
}

handle_at-ArenaBounds :
    (b : Bool) (base size : ℕ) (fd : Option ℕ) (hd : Header) (a : ℕ) (path : Option ℕ)
    → IsWords hd
    → hd.req_slots_off ≡ 256
    → HeaderArena b hd
    → ArenaBounds b (handle_at base size fd hd a path)
unfolding handle_at setup_handle
handle_at-ArenaBounds false base size fd hd a path w off h = tt
handle_at-ArenaBounds true base size fd hd a path w off h =
    (omega (arith, w, off, h), omega (arith, w, h))

handle_at-InBounds :
    (mode base size : ℕ) (fd : Option ℕ) (hd : Header) (a : ℕ) (path : Option ℕ)
    → IsWords hd
    → validate_mode hd size mode ≡ true
    → base + size < 2 ^ 63
    → InBounds mode (handle_at base size fd hd a path)
unfolding handle_at setup_handle
handle_at-InBounds mode base size fd hd a path w e s =
    let t : Tests mode hd size = validate_mode-Tests mode hd size e in
    let c = cap_test_lem hd.req_cap w.req_cap_fits t.cap_ok in
    let p = product_fits hd.resp_slots hd.resp_stride w.resp_slots_fits w.resp_stride_fits in
    record {
      after_header = omega (arith, t.slots_off);
      slots_before_responses = omega (arith, t.slots_off, t.slots_end, w.req_cap_fits);
      arena = handle_at-ArenaBounds (mode == mode_str) base size fd hd a path w t.slots_off t.arena;
      responses_in_file = omega (arith, t.resp_end, t.size_same, p, w.resp_off_fits);
      slot_room = t.stride_room;
      has_response_slot = t.has_slot;
      in_space = s;
      cap_pos = c.0;
      cap_test = t.cap_ok;
      mask = omega (arith, c.0, w.req_cap_fits);
    }

-- A file whose header is accepted is not too small for a header.
pub accepted_size :
    (mode size : ℕ) (hd : Header)
    → IsWords hd
    → validate_mode hd size mode ≡ true
    → size < 2 ^ 63
    → ltb size sizeof_header ≡ false
unfolding handle_at
accepted_size mode size hd w e small =
    let b = handle_at-InBounds mode 0 size none hd 0 none w e (omega (arith, small)) in
    ground (arith, b.after_header, b.slots_before_responses, b.responses_in_file)

-- The handle of an accepted header has its areas within its mapping.
pub Stands-InBounds : (mode : ℕ) (hd : Header) (h : OpenHandle) → Stands mode hd h → InBounds mode h
Stands-InBounds mode hd h s = subst (InBounds mode) (sym s.fields) (
    handle_at-InBounds mode h.hdr h.mmap_size h.backing_fd hd h.address h.path s.words s.accepted
      s.in_space)
