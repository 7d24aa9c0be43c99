-- ===== src/Layout.antt =====
-- The layout of a mapped file and its header: `computeLayout`, `initHeader`, `validateHeader` and
-- `setupShm` of reqrep.go, and `reqrep_validate_header` of gen/reqrep.h for the string mode.
pub mod Fresh
mod Generated
mod Offsets
mod Tests
use go_data_reqrep_shared.Base.{
  ℕ, ◌+◌, ◌-◌, ◌*◌, ◌%◌, Bool, true, false, not, ◌||◌, Option, none, some, if◌then◌else◌, ltb, leb,
  ◌==◌, bit_and, u32, add32, add64, u64_mod, and_not, sub32,
}
use go_data_reqrep_shared.Shm.{Shm}

abbrev pub sizeof_header : ℕ
sizeof_header = 256

abbrev pub sizeof_req_slot : ℕ
sizeof_req_slot = 24

abbrev pub sizeof_resp_slot : ℕ
sizeof_resp_slot = 32

-- `mmapLayout`
pub record MmapLayout : Type 0 where
  pub req_slots_off : ℕ
  pub req_arena_off : ℕ
  pub req_arena_cap : ℕ
  pub resp_stride : ℕ
  pub resp_off : ℕ
  pub total_size : ℕ

-- The fields of `ReqRepHeader` that never change once it is set up.
pub record Header : Type 0 where
  pub magic : ℕ
  pub version : ℕ
  pub mode : ℕ
  pub req_cap : ℕ
  pub total_size : ℕ
  pub req_slots_off : ℕ
  pub req_arena_off : ℕ
  pub req_arena_cap : ℕ
  pub resp_slots : ℕ
  pub resp_data_max : ℕ
  pub resp_off : ℕ
  pub resp_stride : ℕ

abbrev pub max_uint32 : ℕ
max_uint32 = 0xffff_ffff

abbrev pub max_int : ℕ
max_int = 0x7fff_ffff_ffff_ffff

abbrev pub layout_magic : ℕ
layout_magic = 0x5252_5331

-- `v == 0 || v & (v - 1) != 0`
abbrev pub bad_cap : ℕ → Bool
bad_cap v = (v == 0) || not (bit_and v (sub32 v 1) == 0)

unfoldable pub resp_stride_of : ℕ → ℕ
resp_stride_of data_max = and_not (add32 (add32 sizeof_resp_slot data_max) 63) 63

unfoldable pub arena_off_of : ℕ → ℕ
arena_off_of req_cap =
    and_not (add64 (add64 sizeof_header (req_cap * sizeof_req_slot % u64_mod)) 7) 7

unfoldable pub arena_cap_of : ℕ → ℕ
arena_cap_of hint = if ltb (u32 hint) 4096 then 4096 else u32 hint

unfoldable pub resp_off_of : ℕ → ℕ → ℕ
resp_off_of arena_off arena_cap = and_not (add64 (add64 arena_off arena_cap) 63) 63

-- `computeLayout`; `none` is an error.
unfoldable pub compute_layout : ℕ → ℕ → ℕ → ℕ → Option MmapLayout
compute_layout req_cap resp_slots resp_data_max arena_hint =
    let arena_off = arena_off_of req_cap in
    let arena_cap = arena_cap_of arena_hint in
    let stride = resp_stride_of resp_data_max in
    let resp_off = resp_off_of (u32 arena_off) arena_cap in
    let total = add64 resp_off (resp_slots * stride % u64_mod) in
    if bad_cap req_cap
    then none
    else if ltb max_uint32 arena_off
    then none
    else if ltb max_uint32 resp_off
    then none
    else if ltb max_int total
    then none
    else some (record {
      req_slots_off = sizeof_header;
      req_arena_off = u32 arena_off;
      req_arena_cap = arena_cap;
      resp_stride = stride;
      resp_off = u32 resp_off;
      total_size = total;
    })

-- `initHeader`
unfoldable pub init_header : ℕ → ℕ → ℕ → MmapLayout → Header
init_header req_cap resp_slots resp_data_max l = record {
  magic = layout_magic;
  version = 1;
  mode = 0;
  req_cap = req_cap;
  total_size = l.total_size;
  req_slots_off = l.req_slots_off;
  req_arena_off = l.req_arena_off;
  req_arena_cap = l.req_arena_cap;
  resp_slots = resp_slots;
  resp_data_max = resp_data_max;
  resp_off = l.resp_off;
  resp_stride = l.resp_stride;
}

-- `validateHeader`: whether there is no error.
unfoldable pub validate_header : Header → ℕ → Bool
validate_header h file_size =
    if not (h.magic == layout_magic)
    then false
    else if not (h.version == 1)
    then false
    else if not (h.mode == 0)
    then false
    else if bad_cap h.req_cap
    then false
    else if not (h.total_size == file_size)
    then false
    else if not (h.req_slots_off == sizeof_header)
    then false
    else if h.resp_slots == 0
    then false
    else if ltb h.resp_stride sizeof_resp_slot
    then false
    else true

-- `reqrep_validate_header`, in the string mode.
unfoldable pub reqrep_validate_header : Header → ℕ → Bool
reqrep_validate_header h file_size =
    let slots_end = add64 h.req_slots_off (h.req_cap * sizeof_req_slot % u64_mod) in
    let arena_end = add64 h.req_arena_off h.req_arena_cap in
    let resp_end = add64 h.resp_off (h.resp_slots * h.resp_stride % u64_mod) in
    if not (h.magic == layout_magic)
    then false
    else if not (h.version == 1)
    then false
    else if not (h.mode == 0)
    then false
    else if bad_cap h.req_cap
    then false
    else if not (h.total_size == file_size)
    then false
    else if not (h.req_slots_off == sizeof_header)
    then false
    else if h.resp_slots == 0
    then false
    else if ltb h.resp_stride sizeof_resp_slot
    then false
    else if ltb h.total_size slots_end
    then false
    else if ltb h.req_arena_off slots_end
    then false
    else if ltb h.total_size arena_end
    then false
    else if ltb h.resp_off arena_end
    then false
    else if ltb h.resp_off slots_end
    then false
    else if ltb h.total_size resp_end
    then false
    else true

-- `setupShm`
unfoldable pub setup_shm : Header → Shm
setup_shm h = record {
  req_cap = h.req_cap;
  req_cap_mask = sub32 h.req_cap 1;
  req_arena_cap = h.req_arena_cap;
  resp_slots = h.resp_slots;
  resp_data_max = h.resp_data_max;
}
