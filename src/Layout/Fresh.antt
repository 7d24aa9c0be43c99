-- ===== src/Layout/Fresh.antt =====
-- The layout of a fresh file: its areas lie apart, and its header is accepted by both programs.
use go_data_reqrep_shared.Base.{
  ℕ, ◌+◌, ◌-◌, ◌*◌, ◌%◌, ◌^◌, ◌<◌, ◌≤◌, ◌≡◌, refl, true, false, Option, some, arith, u32, u32_mod,
  u64_mod, add64, and_not_seven, and_not_sixty_three, bit_and, pow_of_test, zero, suc, dec_lt, ap,
  sub32,
}
use native.Mathlib.Nat.{mul-le-mul, pow-suc}
use go_data_reqrep_shared.Queue.Window.{IsSetUp}
use go_data_reqrep_shared.Layout.{
  MmapLayout, Header, sizeof_header, sizeof_req_slot, bad_cap, resp_stride_of, arena_off_of,
  arena_cap_of, resp_off_of, compute_layout, init_header, validate_header, reqrep_validate_header,
  setup_shm,
}

arena_off_lem :
    (c : ℕ)
    → c < u32_mod
    → (arena_off_of c < 2 ^ 63) × (256 + c * 24 ≤ arena_off_of c) × (arena_off_of c % 8 ≡ 0)
unfolding arena_off_of
arena_off_lem c h =
    omega (arith, and_not_seven ((((256 + c * 24 % u64_mod) % u64_mod) + 7) % u64_mod))

arena_cap_lem : (a : ℕ) → (arena_cap_of a < u32_mod) × (4096 ≤ arena_cap_of a)
unfolding arena_cap_of
arena_cap_lem a = ground arith

resp_off_lem :
    (o a : ℕ)
    → o < u32_mod
    → a < u32_mod
    → (o + a ≤ resp_off_of o a) × (resp_off_of o a < 2 ^ 63) × (resp_off_of o a % 64 ≡ 0)
unfolding resp_off_of
resp_off_lem o a ho ha = omega (arith, and_not_sixty_three ((((o + a) % u64_mod) + 63) % u64_mod))

-- The largest response that a slot can be laid out for.
resp_stride_lem :
    (d : ℕ)
    → d + 95 < u32_mod
    → (32 + d ≤ resp_stride_of d) × (resp_stride_of d < u32_mod) × (resp_stride_of d % 64 ≡ 0)
unfolding resp_stride_of
resp_stride_lem d h = omega (arith, and_not_sixty_three ((((32 + d) % u32_mod) + 63) % u32_mod))

pub product_fits : (n m : ℕ) → n < u32_mod → m < u32_mod → n * m ≤ 0xffff_ffff * 0xffff_ffff
product_fits n m hn hm =
    mul-le-mul {n₁ = n} {m₁ = m} {n₂ = 0xffff_ffff} {m₂ = 0xffff_ffff} (omega arith) (omega arith)

pub cap_test_lem : (c : ℕ) → c < u32_mod → bad_cap c ≡ false → (0 < c) × (bit_and c (c - 1) ≡ 0)
cap_test_lem c h e =
    let pos : 0 < c = ground arith in
    let less : sub32 c 1 ≡ c - 1 = omega arith in
    (pos, let f : (0 < c) × (bit_and c (sub32 c 1) ≡ 0) = (pos, ground arith) in rw less at f.1)

-- The areas in their order, each slot with room for its data, and the end of the file.
pub record Apart (req_cap resp_slots resp_data_max : ℕ) (l : MmapLayout) : Type 0 where
  pub slots_off : l.req_slots_off ≡ 256
  pub slots_before_arena : l.req_slots_off + req_cap * 24 ≤ l.req_arena_off
  pub arena_before_responses : l.req_arena_off + l.req_arena_cap ≤ l.resp_off
  pub slot_room : 32 + resp_data_max ≤ l.resp_stride
  pub end_of_file : l.resp_off + resp_slots * l.resp_stride ≡ l.total_size
  pub arena_aligned : l.req_arena_off % 8 ≡ 0
  pub responses_aligned : l.resp_off % 64 ≡ 0
  pub stride_aligned : l.resp_stride % 64 ≡ 0
  pub arena_fits : l.req_arena_cap < u32_mod
  pub offsets_fit : l.resp_off < u32_mod
  pub stride_fits : l.resp_stride < u32_mod
  pub cap_pos : 0 < req_cap
  pub cap_test : bit_and req_cap (req_cap - 1) ≡ 0

module _ (req_cap resp_slots resp_data_max arena_hint : ℕ) (cap_fits : req_cap < u32_mod)
    (slots_fit : resp_slots < u32_mod) (data_fits : resp_data_max + 95 < u32_mod) where
  abbrev layout : Option MmapLayout
  layout = compute_layout req_cap resp_slots resp_data_max arena_hint

  abbrev arena_off : ℕ
  arena_off = arena_off_of req_cap

  abbrev resp_off : ℕ
  resp_off = resp_off_of (u32 arena_off) (arena_cap_of arena_hint)

  abbrev total : ℕ
  total = add64 resp_off (resp_slots * resp_stride_of resp_data_max % u64_mod)

  -- What a successful call has tested and returned.
  record Made (l : MmapLayout) : Type 0 where
    cap_ok : bad_cap req_cap ≡ false
    arena_ok : arena_off < u32_mod
    resp_ok : resp_off < u32_mod
    made : l ≡ record {
      req_slots_off = sizeof_header;
      req_arena_off = u32 arena_off;
      req_arena_cap = arena_cap_of arena_hint;
      resp_stride = resp_stride_of resp_data_max;
      resp_off = u32 resp_off;
      total_size = total;
    }

  compute_layout-Made : (l : MmapLayout) → layout ≡ some l → Made l
  unfolding compute_layout
  compute_layout-Made l e = record {
    cap_ok = ground arith;
    arena_ok = ground arith;
    resp_ok = ground arith;
    made = ground arith;
  }

  -- For a 32-bit number of request and response slots, and responses of at most 2 ^ 32 - 96 bytes, a
  -- layout that compute_layout returns has the request slots, the arena and the response slots in
  -- this order without overlap, each response slot with room for its header and data, the file
  -- ending behind the last one, all aligned, the offsets within 32 bits, and the queue's size a
  -- power of two by the bit test.
  pub compute_layout-Apart :
      (l : MmapLayout) → layout ≡ some l → Apart req_cap resp_slots resp_data_max l
  compute_layout-Apart l e =
      let m : Made l = compute_layout-Made l e in
      let c : (0 < req_cap) × (bit_and req_cap (req_cap - 1) ≡ 0) =
        cap_test_lem req_cap cap_fits m.cap_ok in
      let ao = arena_off_lem req_cap cap_fits in
      let ac = arena_cap_lem arena_hint in
      let ro = resp_off_lem (u32 arena_off) (arena_cap_of arena_hint) (omega arith) ac.0 in
      let rs = resp_stride_lem resp_data_max data_fits in
      let same_arena : u32 arena_off ≡ arena_off = omega (arith, m.arena_ok) in
      let same_resp : u32 resp_off ≡ resp_off = omega (arith, m.resp_ok) in
      let p = product_fits resp_slots (resp_stride_of resp_data_max) slots_fit rs.1 in
      rw m.made (record {
        slots_off = refl;
        slots_before_arena = omega (arith, same_arena, ao.1);
        arena_before_responses = omega (arith, same_resp, ro.0);
        slot_room = rs.0;
        end_of_file = omega (arith, same_resp, p, m.resp_ok);
        arena_aligned = omega (arith, same_arena, ao.2);
        responses_aligned = omega (arith, same_resp, ro.2);
        stride_aligned = rs.2;
        arena_fits = ac.0;
        offsets_fit = omega (arith, same_resp, m.resp_ok);
        stride_fits = rs.1;
        cap_pos = c.0;
        cap_test = c.1;
      })

  -- For a 32-bit number of request and response slots, with at least one response slot, and
  -- responses of at most 2 ^ 32 - 96 bytes, a fresh header with a layout that compute_layout
  -- returns is accepted by the Go and by the C validation.
  pub fresh_header_accepted :
      (l : MmapLayout)
      → layout ≡ some l
      → 0 < resp_slots
      → (validate_header (init_header req_cap resp_slots resp_data_max l) l.total_size ≡ true)
        × (reqrep_validate_header (init_header req_cap resp_slots resp_data_max l) l.total_size
            ≡ true)
  unfolding validate_header reqrep_validate_header init_header
  fresh_header_accepted l e pos =
      let m : Made l = compute_layout-Made l e in
      let a : Apart req_cap resp_slots resp_data_max l = compute_layout-Apart l e in
      let p = product_fits resp_slots l.resp_stride slots_fit a.stride_fits in
      let slots_end : add64 l.req_slots_off (req_cap * sizeof_req_slot % u64_mod)
          ≡ 256 + req_cap * 24 =
        omega (arith, a.slots_off) in
      let arena_end : add64 l.req_arena_off l.req_arena_cap ≡ l.req_arena_off + l.req_arena_cap =
        omega (arith, a.arena_before_responses, a.offsets_fit) in
      let resp_end : add64 l.resp_off (resp_slots * l.resp_stride % u64_mod) ≡ l.total_size =
        omega (arith, a.end_of_file, p, a.offsets_fit) in
      (
        ground (arith, m.cap_ok, a.slots_off, a.slot_room),
        ground (
          arith, m.cap_ok, a.slots_off, a.slot_room, a.slots_before_arena, a.arena_before_responses,
          a.end_of_file, slots_end, arena_end, resp_end,
        ),
      )

pow_big : (d : ℕ) → 2 ^ 32 ≤ 2 ^ (d + 32)
pow_big zero = omega arith
pow_big (suc d) =
    let e : suc d + 32 ≡ suc (d + 32) = omega arith in
    rw e (omega (arith, pow_big d, pow-suc 2 (d + 32)))

few_bits_lem : (k c : ℕ) → c ≡ 2 ^ k → c < u32_mod → k ≤ 31
few_bits_lem k c q h = elim (dec_lt 31 k) [
  | no few ↦ omega arith
  | yes many ↦
      let e : k - 32 + 32 ≡ k = omega arith in
      absurd (omega (arith, q, pow_big (k - 32), ap (λ (n : ℕ). 2 ^ n) e))
]

-- A header whose req_cap and req_arena_cap fit 32 bits and that validate_header accepts gives
-- setup_shm a queue as the queue's theorems assume it: a power of two of at most 2 ^ 31 slots with
-- its mask, and a 32-bit arena.
pub validate_header-IsSetUp :
    (h : Header) (file_size : ℕ)
    → h.req_cap < u32_mod
    → h.req_arena_cap < u32_mod
    → validate_header h file_size ≡ true
    → IsSetUp (setup_shm h)
unfolding validate_header setup_shm
validate_header-IsSetUp h file_size cap_fits arena_fits e =
    let c = cap_test_lem h.req_cap cap_fits (ground (arith, e)) in
    let (k, q) = pow_of_test h.req_cap c.0 c.1 in
    record {
      cap_bits = k;
      power = q;
      few_bits = few_bits_lem k h.req_cap q cap_fits;
      mask = omega (arith, c.0);
      arena_fits = arena_fits;
    }

-- A header that the C validation accepts is accepted by the Go validation.
reqrep_validate_header-validate_header :
    (h : Header) (file_size : ℕ)
    → reqrep_validate_header h file_size ≡ true
    → validate_header h file_size ≡ true
unfolding validate_header reqrep_validate_header
reqrep_validate_header-validate_header h file_size e = ground (arith, e)

-- For 32-bit responses of more than 2 ^ 32 - 96 bytes a layout that compute_layout returns has
-- response slots too narrow for their header and data.
narrow_stride :
    (req_cap resp_slots resp_data_max arena_hint : ℕ) (l : MmapLayout)
    → resp_data_max < u32_mod
    → u32_mod ≤ resp_data_max + 95
    → compute_layout req_cap resp_slots resp_data_max arena_hint ≡ some l
    → l.resp_stride < 32 + resp_data_max
unfolding compute_layout resp_stride_of
narrow_stride c n d a l fits big e =
    let stride : l.resp_stride ≡ resp_stride_of d = ground (arith, e) in
    omega (arith, stride, and_not_sixty_three ((((32 + d) % u32_mod) + 63) % u32_mod))

-- A 32-bit offset of the response slots behind the end of the file, in a header with 32-bit fields that
-- validate_header accepts, leaves the header accepted by it and refused by the C validation.
pub validation_diverges :
    (h : Header) (file_size off : ℕ)
    → validate_header h file_size ≡ true
    → h.resp_slots < u32_mod
    → h.resp_stride < u32_mod
    → off < u32_mod
    → file_size < off
    → (validate_header (record h { resp_off = off }) file_size ≡ true)
      × (reqrep_validate_header (record h { resp_off = off }) file_size ≡ false)
unfolding validate_header reqrep_validate_header
validation_diverges h file_size off e few narrow fits behind =
    let p = product_fits h.resp_slots h.resp_stride few narrow in
    let past : off ≤ add64 off (h.resp_slots * h.resp_stride % u64_mod) = omega (arith, p, fits) in
    (ground (arith, e), ground (arith, e, past, behind))
