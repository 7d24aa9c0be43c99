-- ===== src/Reference/Layout.antt =====
-- The layout of a file in C: `reqrep_compute_layout`, `reqrep_init_header`, `reqrep_setup_handle` and
-- `reqrep_next_pow2`.
use go_data_reqrep_shared.Base.{
  ℕ, ◌*◌, ◌/◌, ◌%◌, ◌<◌, ◌≤◌, ◌≡◌, Option, none, some, List, bit_or, if◌then◌else◌, ltb, u32, add32,
  add64, sub32, u32_mod, u64_mod, and_not, arith, replicate, false,
}
use go_data_reqrep_shared.Layout.{
  MmapLayout, Header, sizeof_header, sizeof_req_slot, sizeof_resp_slot, max_uint32, max_int,
  layout_magic, bad_cap, arena_off_of, arena_cap_of, resp_off_of, resp_stride_of, compute_layout,
}
use go_data_reqrep_shared.Shm.{RespSlot}
use go_data_reqrep_shared.Reference.{Handle}

-- `reqrep_next_pow2`; 0 is an error.
unfoldable pub next_pow2 : ℕ → ℕ
next_pow2 v =
    let a = sub32 v 1 in
    let b = bit_or a (a / 2) in
    let c = bit_or b (b / 4) in
    let d = bit_or c (c / 16) in
    let e = bit_or d (d / 256) in
    let f = bit_or e (e / 65536) in
    if ltb v 2 then 2 else if ltb 0x8000_0000 v then 0 else add32 f 1

-- `reqrep_compute_layout`; `none` is the return value -1.
unfoldable pub reqrep_compute_layout : ℕ → ℕ → ℕ → ℕ → Option MmapLayout
reqrep_compute_layout req_cap resp_slots resp_data_max arena_hint =
    let slots_end = add64 sizeof_header (req_cap * sizeof_req_slot % u64_mod) in
    let arena_off = and_not (add64 slots_end 7) 7 in
    let arena_cap = if ltb (u32 arena_hint) 4096 then 4096 else u32 arena_hint in
    let stride = and_not (add32 (add32 sizeof_resp_slot resp_data_max) 63) 63 in
    let resp_off = and_not (add64 (add64 (u32 arena_off) arena_cap) 63) 63 in
    if ltb max_uint32 arena_off
    then none
    else if ltb max_uint32 arena_hint
    then none
    else if ltb max_uint32 resp_off
    then none
    else some (record {
      req_slots_off = sizeof_header;
      req_arena_off = u32 arena_off;
      req_arena_cap = arena_cap;
      resp_stride = stride;
      resp_off = u32 resp_off;
      total_size = add64 resp_off (resp_slots * stride % u64_mod);
    })

-- `reqrep_init_header`: the header, and the response slots with their headers zeroed, over what
-- their data areas hold.
unfoldable pub reqrep_init_header : ℕ → ℕ → ℕ → MmapLayout → List ℕ → Header × List RespSlot
reqrep_init_header req_cap resp_slots resp_data_max l area = (
  record {
    magic = layout_magic;
    version = 1;
    mode = 0;
    req_cap = req_cap;
    total_size = l.total_size;
    req_slots_off = l.req_slots_off;
    req_arena_off = l.req_arena_off;
    req_arena_cap = l.req_arena_cap;
    resp_slots = resp_slots;
    resp_data_max = resp_data_max;
    resp_off = l.resp_off;
    resp_stride = l.resp_stride;
  },
  replicate resp_slots (record {
    state = 0;
    waiters = 0;
    owner_pid = 0;
    resp_len = 0;
    resp_flags = 0;
    generation = 0;
    area = area;
  }),
)

-- `reqrep_setup_handle`, when `calloc` succeeds.
unfoldable pub setup_handle : Header → Handle
setup_handle h = record {
  req_cap = h.req_cap;
  req_cap_mask = sub32 h.req_cap 1;
  req_arena_cap = h.req_arena_cap;
  resp_slots = h.resp_slots;
  resp_data_max = h.resp_data_max;
  copy_buf_cap = 0;
}

-- For a capacity that passes the power-of-two test, an arena hint of 32 bits, and a result whose
-- size is at most 2 ^ 63 - 1, the C and the Go layouts are the same, and both fail together.
pub layout_agrees :
    (req_cap resp_slots resp_data_max arena_hint : ℕ)
    → bad_cap req_cap ≡ false
    → arena_hint < u32_mod
    → add64
        (resp_off_of (u32 (arena_off_of req_cap)) (arena_cap_of arena_hint))
        (resp_slots * resp_stride_of resp_data_max % u64_mod)
      ≤ max_int
    → reqrep_compute_layout req_cap resp_slots resp_data_max arena_hint
      ≡ compute_layout req_cap resp_slots resp_data_max arena_hint
unfolding reqrep_compute_layout compute_layout arena_off_of arena_cap_of resp_off_of resp_stride_of
layout_agrees c n d a cap_ok small fits = ground (arith, cap_ok, fits)
