-- ===== src/Queue.antt =====
-- The locked queue operations of reqrep_queue.go: one request in, one request out.
pub mod Blocks
mod Tests
pub mod Fifo
pub mod Received
pub mod Sent
pub mod Send
pub mod Publish
pub mod Invariant
pub mod Window
use go_data_reqrep_shared.Base.{
  ℕ, Bool, true, false, Option, none, some, List, if◌then◌else◌, leb, ◌==◌, bit_and, u32, add32,
  add64, sub64, length, get_or, set, Run, ok, fault, ◌>>=◌,
}
use go_data_reqrep_shared.Shm.{Shm, Queue, ReqSlot, make_id}
use go_data_reqrep_shared.Arena.{write_arena_locked, read_arena, release_arena_locked}

abbrev pub str_len_mask : ℕ
str_len_mask = 0x7fff_ffff

abbrev pub no_slot : ReqSlot
no_slot = record { arena_off = 0; packed_len = 0; arena_skip = 0; resp_slot = 0; resp_gen = 0 }

-- The slot is filled, and the new tail published.
unfoldable pub publish : Shm → Queue → ReqSlot → Queue
publish s q slot = record q {
  slots = set q.slots (bit_and q.req_tail s.req_cap_mask) slot;
  req_tail = add64 q.req_tail 1;
  stat_requests = add64 q.stat_requests 1;
}

-- What `sendLocked` does once the bytes are in the arena, or do not fit.
unfoldable pub enqueue : Shm → List ℕ → ℕ → ℕ → Queue × Option (ℕ × ℕ) → Run (Queue × Bool)
unfolding publish
enqueue s bytes slot gen (q, none) = ok (q, false)
enqueue s bytes slot gen (q, some (off, skip)) = ok (
  publish s q (record {
    arena_off = off;
    packed_len = u32 (length bytes);
    arena_skip = skip;
    resp_slot = slot;
    resp_gen = gen;
  }),
  true,
)

-- `sendLocked`
unfoldable pub send_locked : Shm → Queue → List ℕ → ℕ → ℕ → Run (Queue × Bool)
unfolding enqueue
send_locked s q bytes slot gen =
    if leb s.resp_slots slot
    then fault
    else if leb s.req_cap (sub64 q.req_tail q.req_head)
    then ok (record q { stat_send_full = add64 q.stat_send_full 1 }, false)
    else write_arena_locked s q bytes >>= enqueue s bytes slot gen

-- The end of `recvLocked`: the arena is released, and the head moves on.
unfoldable pub dequeue : Queue → ReqSlot → List ℕ → Run (Queue × Option (List ℕ × ℕ))
unfolding release_arena_locked
dequeue q slot bytes =
    let q' = release_arena_locked q slot.arena_skip in
    ok (
      record q' { req_head = add64 q'.req_head 1 },
      some (bytes, make_id slot.resp_slot slot.resp_gen),
    )

-- `recvLocked`: the request's bytes and its id, or `none` if the queue is empty.
unfoldable pub recv_locked : Shm → Queue → Run (Queue × Option (List ℕ × ℕ))
unfolding dequeue read_arena
recv_locked s q =
    let slot = get_or q.slots (bit_and q.req_head s.req_cap_mask) no_slot in
    if q.req_tail == q.req_head
    then ok (record q { stat_recv_empty = add32 q.stat_recv_empty 1 }, none)
    else read_arena s q slot.arena_off (bit_and slot.packed_len str_len_mask) >>= dequeue q slot
