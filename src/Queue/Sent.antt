-- ===== src/Queue/Sent.antt =====
-- What `send_locked` does to the waiting requests, on every branch.
use go_data_reqrep_shared.Base.{
  ℕ, ◌≤◌, ◌<◌, ◌≡◌, ◌≢◌, refl, ap, ◌∙◌, List, [], ◌∷◌, ◌++◌, arith, add64, length, length-map, true,
  false, Bool, some, Run, ok, dec_lt, ◌>>=◌,
}
use go_data_reqrep_shared.Shm.{Shm, Queue}
use go_data_reqrep_shared.Arena.{write_arena_locked}
use go_data_reqrep_shared.Arena.Write.{
  max_len, stored, Spot, Spot-inside, NoRoom, Written, too_long, full, placed,
  write_arena_locked_cases,
}
use go_data_reqrep_shared.Queue.{send_locked, enqueue}
use go_data_reqrep_shared.Queue.Invariant.{count, entries, IsValid, message, messages}
use go_data_reqrep_shared.Queue.Send
use go_data_reqrep_shared.Queue.Window.{IsSetUp, length-window}

module _ (s : Shm) (q : Queue) (bytes : List ℕ) (slot gen : ℕ) where
  -- No free slot, a request larger than the arena, or requests in the arena that leave too little.
  pub data Refusal : Type 0 where
    no_slot_free : s.req_cap ≤ count q → Refusal
    never_fits : s.req_arena_cap < length bytes → Refusal
    arena_full : messages s q ≢ [] → NoRoom s q bytes → Refusal

  pub data Sent : Run (Queue × Bool) → Type 0 where
    accepted :
        {r : Run (Queue × Bool)} (q' : Queue)
        → r ≡ ok (q', true)
        → IsValid s q'
        → messages s q'
          ≡ messages s q ++ record { bytes = bytes; resp_slot = slot; resp_gen = gen } ∷ []
        → Sent r
    refused :
        {r : Run (Queue × Bool)} (q' : Queue)
        → r ≡ ok (q', false)
        → IsValid s q'
        → messages s q' ≡ messages s q
        → Refusal
        → Sent r

module _ {s : Shm} {q : Queue} (bytes : List ℕ) {slot : ℕ} (gen : ℕ) (v : IsSetUp s)
    (w : IsValid s q) (known : slot < s.resp_slots) (short : length bytes ≤ max_len) where
  has_room :
      count q < s.req_cap
      → send_locked s q bytes slot gen ≡ (write_arena_locked s q bytes >>= enqueue s bytes slot gen)
  unfolding send_locked
  has_room room = ground arith

  nonempty : q.req_tail ≢ q.req_head → messages s q ≢ []
  nonempty h e = h (
      omega (
        arith,
        ap length e,
        length-map (message q.arena) (entries s q),
        length-window s.req_cap q.slots q.req_head (count q),
        w.head_fits,
        w.tail_fits,
      ))

  abbrev counted_full : Queue
  counted_full = record q { stat_send_full = add64 q.stat_send_full 1 }

  counted_full-IsValid : IsValid s counted_full
  counted_full-IsValid = record {
    head_fits = w.head_fits;
    tail_fits = w.tail_fits;
    counted = w.counted;
    slot_room = w.slot_room;
    arena_room = w.arena_room;
    held = w.held;
  }

  module _ (room : count q < s.req_cap) where
    placed-Sent :
        (off skip wpos used : ℕ)
        → length bytes ≤ s.req_arena_cap
        → Spot s q bytes off skip wpos used
        → write_arena_locked s q bytes ≡ ok (stored q bytes off wpos used, some (off, skip))
        → Sent s q bytes slot gen (send_locked s q bytes slot gen)
    unfolding enqueue
    placed-Sent off skip wpos used fits spot e =
        let inside = Spot-inside s q bytes short fits spot in
        let x = Send.Extended-Spot bytes slot gen v w short fits off skip wpos used spot in
        accepted (Send.result bytes slot gen v w short fits off skip wpos used)
          (has_room room ∙ rw e)
          (Send.published-IsValid bytes slot gen v w short fits off skip wpos used room inside x)
          (Send.published-messages bytes slot gen v w short fits off skip wpos used room inside x)

    Written-Sent :
        Written s q bytes (write_arena_locked s q bytes)
        → Sent s q bytes slot gen (send_locked s q bytes slot gen)
    unfolding enqueue
    Written-Sent (too_long h e) = refused q (has_room room ∙ rw e) w refl (never_fits h)
    Written-Sent (full h n e) =
        refused counted_full (has_room room ∙ rw e) counted_full-IsValid refl
          (arena_full (nonempty h) n)
    Written-Sent (placed off skip wpos used fits spot e) =
        placed-Sent off skip wpos used fits spot e

  -- On a valid queue, with the response slot known and the request within the length mask,
  -- send_locked returns without a panic: it adds the request at the end of the waiting requests, or
  -- leaves them as they are because no slot is free, the request is larger than the arena, or the
  -- queue is not empty and the arena lacks the room for the block, which is at the write position
  -- where the block fits there, and else at the front, with the rest behind the write position
  -- counted as used; the invariant holds again.
  pub send_locked_cases : Sent s q bytes slot gen (send_locked s q bytes slot gen)
  unfolding send_locked
  send_locked_cases = elim (dec_lt (count q) s.req_cap) [
    | yes room ↦
        Written-Sent room
          (write_arena_locked_cases s q bytes v.arena_fits short (Send.Held-Standing bytes v w))
    | no none_free ↦
        refused counted_full (ground arith) counted_full-IsValid refl (no_slot_free (omega arith))
  ]
