-- ===== src/Reference/Overflow.antt =====
-- A request that is larger than the whole arena.
use go_data_reqrep_shared.Base.{
  ℕ, ◌<◌, ◌≤◌, ◌≡◌, refl, inl, inr, Bool, false, List, arith, length, ok, fault,
}
use go_data_reqrep_shared.Shm.{Queue}
use go_data_reqrep_shared.Arena
use go_data_reqrep_shared.Arena.Write.{max_len, alloc_size_bounds}
use go_data_reqrep_shared.Queue
use go_data_reqrep_shared.Queue.Invariant.{IsValid, count}
use go_data_reqrep_shared.Queue.Window.{IsSetUp, cap_pos}
use go_data_reqrep_shared.Queue.Send.{Held-Standing}
use go_data_reqrep_shared.Reference.{Handle}
use go_data_reqrep_shared.Reference.Agreement.{view}
use go_data_reqrep_shared.Reference.Queue.{alloc_size, place, fill, send_locked}

module _ (h : Handle) (q : Queue) (str : List ℕ) (utf8 : Bool) (slot gen : ℕ) (v : IsSetUp (view h))
    (large : h.req_arena_cap < length str) (short : length str ≤ max_len) where
  same_size : alloc_size (length str) ≡ Arena.alloc_size (length str)
  unfolding alloc_size Arena.alloc_size
  same_size = refl

  c_overflows :
      q.req_tail ≡ q.req_head
      → q.arena_wpos ≤ h.req_arena_cap
      → q.arena_used ≤ h.req_arena_cap
      → send_locked h q str utf8 slot gen ≡ fault
  unfolding send_locked place fill
  c_overflows idle wp us =
      ground (arith, same_size, v.arena_fits, cap_pos v, alloc_size_bounds (length str) short)

  go_refuses :
      slot < h.resp_slots
      → count q < h.req_cap
      → Queue.send_locked (view h) q str slot gen ≡ ok (q, false)
  unfolding Queue.send_locked Arena.write_arena_locked Queue.enqueue
  go_refuses known room = ground arith

  -- A request larger than the whole arena, within the length mask, sent to an empty valid queue
  -- for a known response slot makes the C send_locked copy past the end of the arena, while the
  -- Go send_locked refuses it and changes nothing.
  pub oversize_diverges :
      IsValid (view h) q
      → q.req_tail ≡ q.req_head
      → slot < h.resp_slots
      → (send_locked h q str utf8 slot gen ≡ fault)
        × (Queue.send_locked (view h) q str slot gen ≡ ok (q, false))
  oversize_diverges w idle known = (
    elim (Held-Standing str v w) [
      | inl st ↦ c_overflows idle st.0 st.1
      | inr st ↦ absurd (st.3 idle)
    ],
    go_refuses known (omega (arith, cap_pos v, w.tail_fits)),
  )
