-- ===== src/IntMode/File.antt =====
-- The integer mode over the whole file: `reqrep_int_compute_layout` to `reqrep_int_clear`. Each
-- operation runs alone, so that no compare-and-swap fails.
use go_data_reqrep_shared.Base.{
  ℕ, zero, suc, ◌+◌, ◌*◌, ◌/◌, ◌%◌, Bool, true, false, not, Option, none, some, List, [], ◌∷◌,
  if◌then◌else◌, ltb, leb, ◌==◌, put, add64, sub64, u32, u64_mod, and_not, slice, copy_at,
  replicate,
}
use go_data_reqrep_shared.Shm.{RespSlot, make_id, id_slot, id_gen}
use go_data_reqrep_shared.Slots.{Table, KillResult, resp_acquired, resp_ready, slot_at, put_slot}
use go_data_reqrep_shared.Response.{wake_state}
use go_data_reqrep_shared.Layout.{
  MmapLayout, Header, sizeof_header, sizeof_resp_slot, max_uint32, layout_magic,
}
use go_data_reqrep_shared.Reference.{Handle}
use go_data_reqrep_shared.Reference.Slots.{
  slot_acquire, slot_release, wake_slot_waiters, ReplyCode, reply_ok, reply_bad_slot, reply_stale,
}
use go_data_reqrep_shared.Reference.Session.{
  FileOf, wake_consumers, wake_producers, clear_from, TrySend, request_id, queue_full, no_slot_free,
}
use go_data_reqrep_shared.IntMode.{Item, ReqIntSlot, IntQueue, SendPc, RecvPc}
use go_data_reqrep_shared.IntMode.Alone.{send_loop, recv_loop, steps}

abbrev pub IntFile : Type 0
IntFile = FileOf IntQueue

abbrev pub sizeof_int_slot : ℕ
sizeof_int_slot = 24

abbrev pub sizeof_int64 : ℕ
sizeof_int64 = 8

-- `reqrep_int_compute_layout`; `none` is the return value -1. There is no arena.
unfoldable pub int_compute_layout : ℕ → ℕ → Option MmapLayout
int_compute_layout req_cap resp_slots =
    let slots_end = add64 sizeof_header (req_cap * sizeof_int_slot % u64_mod) in
    let stride = and_not (sizeof_resp_slot + sizeof_int64 + 63) 63 in
    let resp_off = and_not (add64 slots_end 63) 63 in
    if ltb max_uint32 resp_off
    then none
    else some (record {
      req_slots_off = sizeof_header;
      req_arena_off = 0;
      req_arena_cap = 0;
      resp_stride = stride;
      resp_off = u32 resp_off;
      total_size = add64 resp_off (resp_slots * stride % u64_mod);
    })

-- The loop that numbers the slots, from slot `i` on.
unfoldable pub number_from : ℕ → ℕ → (ℕ → ReqIntSlot) → ℕ → ReqIntSlot
number_from zero i slot = slot
number_from (suc rounds) i slot =
    number_from rounds (i + 1) (put slot i (record (slot i) { sequence = i }))

-- `reqrep_int_init_header`, over what the slots and the data areas hold.
unfoldable pub int_init_header :
    ℕ → ℕ → MmapLayout → (ℕ → ReqIntSlot) → List ℕ → Header × IntQueue × List RespSlot
unfolding number_from
int_init_header req_cap resp_slots l slot area = (
  record {
    magic = layout_magic;
    version = 1;
    mode = 1;
    req_cap = req_cap;
    total_size = l.total_size;
    req_slots_off = l.req_slots_off;
    req_arena_off = 0;
    req_arena_cap = 0;
    resp_slots = resp_slots;
    resp_data_max = sizeof_int64;
    resp_off = l.resp_off;
    resp_stride = l.resp_stride;
  },
  record {
    req_head = 0;
    req_tail = 0;
    stat_requests = 0;
    stat_send_full = 0;
    stat_recv_empty = 0;
    slot = number_from req_cap 0 slot;
  },
  replicate resp_slots (record {
    state = 0;
    waiters = 0;
    owner_pid = 0;
    resp_len = 0;
    resp_flags = 0;
    generation = 0;
    area = area;
  }),
)

-- What follows the loop of `reqrep_int_try_send`.
unfoldable pub after_int_send : IntFile → ℕ → ℕ → IntQueue × Bool → IntFile × TrySend
unfolding wake_consumers
after_int_send f slot gen (q, true) =
    (wake_consumers (record f { queue = q }), request_id (make_id slot gen))
after_int_send f slot gen (q, false) =
    (record f { queue = q; table = slot_release f.table slot }, queue_full)

-- The result of a loop; `none` if it has not returned.
abbrev pub on_return : {A B : Type 0} → (A → B) → Option A → Option B
on_return f none = none
on_return f (some a) = some (f a)

-- After the slot; `fails` is how often the loop's weak compare-and-swap fails spuriously.
unfoldable pub int_send_to :
    Handle → ℕ → IntFile → ℕ → Option (Table × ℕ) → Option (IntFile × TrySend)
unfolding send_loop after_int_send
int_send_to h fails f value none = some (f, no_slot_free)
int_send_to h fails f value (some (t, slot)) =
    let gen = (slot_at t slot).generation in
    on_return (after_int_send (record f { table = t }) slot gen) (
      send_loop (steps fails 0) fails h.req_cap_mask
        (record { value = value; resp_slot = slot; resp_gen = gen }) f.queue SendPc.load_tail)

-- `reqrep_int_try_send`
unfoldable pub int_try_send :
    (ℕ → KillResult) → ℕ → Handle → ℕ → IntFile → ℕ → Option (IntFile × TrySend)
unfolding int_send_to
int_try_send kill pid h fails f value =
    int_send_to h fails f value (slot_acquire kill pid h f.table)

-- What `reqrep_int_try_recv` puts out, the value and the id, or `none` for the return value 0.
unfoldable pub after_int_recv : IntFile → IntQueue × Option Item → IntFile × Option (ℕ × ℕ)
unfolding wake_producers
after_int_recv f (q, some x) =
    (wake_producers (record f { queue = q }), some (x.value, make_id x.resp_slot x.resp_gen))
after_int_recv f (q, none) = (record f { queue = q }, none)

-- `reqrep_int_try_recv`, with the number of spurious failures.
unfoldable pub int_try_recv : Handle → ℕ → IntFile → Option (IntFile × Option (ℕ × ℕ))
unfolding recv_loop after_int_recv
int_try_recv h fails f =
    on_return (after_int_recv f)
      (recv_loop (steps fails 0) fails h.req_cap h.req_cap_mask f.queue RecvPc.load_head)

-- The bytes of an integer in memory, the low one first, and back.
unfoldable pub store_bytes : ℕ → ℕ → List ℕ
store_bytes zero v = []
store_bytes (suc n) v = v % 256 ∷ store_bytes n (v / 256)

unfoldable pub load_bytes : List ℕ → ℕ
load_bytes [] = 0
load_bytes (b ∷ bs) = b + 256 * load_bytes bs

-- `reqrep_int_reply`
unfoldable pub int_reply : Handle → Table → ℕ → ℕ → Table × ReplyCode
unfolding store_bytes
int_reply h t id value =
    let i = id_slot id in
    let slot = slot_at t i in
    let t' = put_slot t i (record slot {
      area = copy_at slot.area 0 (store_bytes sizeof_int64 value);
      state = resp_ready;
    }) in
    if leb h.resp_slots i
    then (t, reply_bad_slot)
    else if not (slot.state == resp_acquired)
    then (t, reply_stale)
    else if not (slot.generation == id_gen id)
    then (t, reply_stale)
    else (record (wake_state t' i 1) { stat_replies = add64 t.stat_replies 1 }, reply_ok)

-- The value of a response, and the return values 0, -1 and -4.
pub data IntGet : Type 0 where
  got_int : ℕ → IntGet
  int_not_ready int_bad_slot int_stale : IntGet

-- `reqrep_int_try_get`
unfoldable pub int_try_get : Handle → Table → ℕ → Table × IntGet
unfolding load_bytes slot_release
int_try_get h t id =
    let i = id_slot id in
    let slot = slot_at t i in
    if leb h.resp_slots i
    then (t, int_bad_slot)
    else if not (slot.generation == id_gen id)
    then (t, int_stale)
    else if not (slot.state == resp_ready)
    then (t, int_not_ready)
    else (slot_release t i, got_int (load_bytes (slice slot.area 0 sizeof_int64)))

-- `reqrep_int_size`
unfoldable pub int_size : IntFile → ℕ
int_size f = sub64 f.queue.req_tail f.queue.req_head

-- `reqrep_int_clear`
unfoldable pub int_clear : Handle → IntFile → IntFile
unfolding number_from clear_from wake_slot_waiters wake_producers wake_consumers
int_clear h f =
    let q = record f.queue {
      req_head = 0;
      req_tail = 0;
      slot = number_from h.req_cap 0 f.queue.slot;
    } in
    let t = wake_slot_waiters (clear_from h.resp_slots 0 f.table) in
    wake_consumers (wake_producers (record f { queue = q; table = t }))
