-- ===== src/Reference/Queue.antt =====
-- `reqrep_send_locked` and `reqrep_recv_locked`.
use go_data_reqrep_shared.Base.{
  ℕ, ◌+◌, ◌-◌, Bool, not, ◌&&◌, Option, none, some, List, if◌then◌else◌, ltb, leb, ◌==◌, bit_and,
  bit_or, u32, add32, sub32, add64, sub64, and_not, length, slice, get_or, set, copy_at, Run, ok,
  fault,
}
use go_data_reqrep_shared.Shm.{Queue, ReqSlot, make_id}
use go_data_reqrep_shared.Queue.{no_slot}
use go_data_reqrep_shared.Reference.{Handle}
use go_data_reqrep_shared.Reference.CopyBuf.{ensure_copy_buf}

abbrev pub str_len_mask : ℕ
str_len_mask = 0x7fff_ffff

abbrev pub utf8_flag : ℕ
utf8_flag = 0x8000_0000

-- The return values 1, 0 and -2.
pub data SendCode : Type 0 where
  sent full too_long : SendCode

unfoldable pub alloc_size : ℕ → ℕ
alloc_size len = let alloc = and_not (add32 len 7) 7 in if alloc == 0 then 8 else alloc

-- From the `memcpy` to the end.
unfoldable pub fill :
    Handle → Queue → List ℕ → ℕ → Bool → ℕ → ℕ → ℕ → ℕ → ℕ → Run (Queue × SendCode)
fill h q str len utf8 slot gen alloc pos skip =
    if ltb h.req_arena_cap (pos + len)
    then fault
    else ok (
      record q {
        arena = copy_at q.arena pos (slice str 0 len);
        slots = set q.slots (bit_and q.req_tail h.req_cap_mask) (record {
          arena_off = pos;
          packed_len = bit_or len (if utf8 then utf8_flag else 0);
          arena_skip = u32 skip;
          resp_slot = slot;
          resp_gen = gen;
        });
        arena_wpos = add32 pos alloc;
        arena_used = add32 q.arena_used (u32 skip);
        req_tail = add64 q.req_tail 1;
        stat_requests = add64 q.stat_requests 1;
      },
      sent,
    )

abbrev pub count_full : Queue → Queue
count_full q = record q { stat_send_full = add64 q.stat_send_full 1 }

-- The arena, when the position and the skip are known.
unfoldable pub place :
    Handle → Queue → List ℕ → ℕ → Bool → ℕ → ℕ → ℕ → ℕ → ℕ → Run (Queue × SendCode)
place h q str len utf8 slot gen alloc pos skip =
    if ltb h.req_arena_cap (add64 q.arena_used skip)
    then (if q.req_tail == q.req_head
        then fill h (record q { arena_wpos = 0; arena_used = 0 }) str len utf8 slot gen alloc 0
            alloc
        else ok (count_full q, full))
    else fill h q str len utf8 slot gen alloc pos skip

-- `reqrep_send_locked`. The difference `req_arena_cap - pos` is taken in 32 bits.
unfoldable pub send_locked : Handle → Queue → List ℕ → Bool → ℕ → ℕ → Run (Queue × SendCode)
send_locked h q str utf8 slot gen =
    let len = u32 (length str) in
    let alloc = alloc_size len in
    let pos = q.arena_wpos in
    if ltb str_len_mask len
    then ok (q, too_long)
    else if leb h.req_cap (sub64 q.req_tail q.req_head)
    then ok (count_full q, full)
    else if ltb h.req_arena_cap (add64 pos alloc)
    then place h q str len utf8 slot gen alloc 0 (add64 alloc (sub32 h.req_arena_cap pos))
    else place h q str len utf8 slot gen alloc pos alloc

-- What a successful receive puts out, and the return values 1, 0 and -1.
pub data RecvResult : Type 0 where
  received : List ℕ → ℕ → Bool → RecvResult
  empty : RecvResult
  out_of_memory : RecvResult

-- The arena is released, and the head moves on.
unfoldable pub release : Queue → ReqSlot → Queue
release q slot =
    let used = if leb slot.arena_skip q.arena_used then q.arena_used - slot.arena_skip else 0 in
    record q {
      arena_used = used;
      arena_wpos = if used == 0 then 0 else q.arena_wpos;
      req_head = add64 q.req_head 1;
    }

-- The bytes are copied out of the arena once the buffer is large enough.
unfoldable pub copy_out :
    Handle → Queue → ReqSlot → Option Handle → Run (Handle × Queue × RecvResult)
unfolding release
copy_out h q slot none = ok (h, q, out_of_memory)
copy_out h q slot (some h') =
    let len = bit_and slot.packed_len str_len_mask in
    if ltb 0 len && ltb h.req_arena_cap (slot.arena_off + len)
    then fault
    else ok (
      h',
      release q slot,
      received (slice q.arena slot.arena_off len) (make_id slot.resp_slot slot.resp_gen)
          (not (bit_and slot.packed_len utf8_flag == 0)),
    )

-- `reqrep_recv_locked`
unfoldable pub recv_locked : Bool → Handle → Queue → Run (Handle × Queue × RecvResult)
unfolding copy_out
recv_locked realloc_ok h q =
    let slot = get_or q.slots (bit_and q.req_head h.req_cap_mask) no_slot in
    if q.req_tail == q.req_head
    then ok (h, record q { stat_recv_empty = add32 q.stat_recv_empty 1 }, empty)
    else copy_out h q slot
        (ensure_copy_buf realloc_ok h (add32 (bit_and slot.packed_len str_len_mask) 1))
