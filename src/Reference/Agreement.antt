-- ===== src/Reference/Agreement.antt =====
-- The C functions and the Go functions do the same to the queue.
use go_data_reqrep_shared.Base.{
  ℕ, ◌≤◌, ◌<◌, ◌^◌, ◌≡◌, ◌≢◌, refl, sym, ap, ◌∙◌, ◌+◌, ◌-◌, dec_lt, Bool, true, false, List, arith,
  length, Run, ok, ◌>>=◌, ◌⊎◌, inl, inr, bit_or-zero,
}
use go_data_reqrep_shared.Shm.{Shm, Queue}
use go_data_reqrep_shared.Arena
use go_data_reqrep_shared.Arena.Write.{
  max_len, Standing, alloc_size_bounds, write_behind, write_front,
}
use go_data_reqrep_shared.Queue
use go_data_reqrep_shared.Queue.Invariant.{IsValid, count}
use go_data_reqrep_shared.Queue.Send.{Held-Standing}
use go_data_reqrep_shared.Queue.Window.{IsSetUp}
use go_data_reqrep_shared.Reference.{Handle}
use go_data_reqrep_shared.Reference.Queue.{
  SendCode, sent, full, alloc_size, place, fill, send_locked, count_full,
}

-- What a Go process caches of the same file.
abbrev pub view : Handle → Shm
view h = record {
  req_cap = h.req_cap;
  req_cap_mask = h.req_cap_mask;
  req_arena_cap = h.req_arena_cap;
  resp_slots = h.resp_slots;
  resp_data_max = h.resp_data_max;
}

abbrev pub code : Bool → SendCode
code true = sent
code false = full

abbrev pub as_code : Run (Queue × Bool) → Run (Queue × SendCode)
as_code r = r >>= λ x. ok (x.0, code x.1)

module _ (h : Handle) (str : List ℕ) (slot gen : ℕ) where
  fill_agrees :
      (q : Queue) (alloc pos skip : ℕ)
      → h.req_arena_cap < 2 ^ 32
      → length str ≤ max_len
      → pos + length str ≤ h.req_arena_cap
      → fill h q str (length str) false slot gen alloc pos skip
        ≡ as_code (
            Arena.commit (view h) q str (length str) alloc pos skip
            >>= Queue.enqueue (view h) str slot gen)
  unfolding fill Arena.commit Queue.enqueue
  fill_agrees q alloc pos skip small short inside = ground (arith, bit_or-zero (length str))

  place_agrees :
      (q : Queue) (alloc pos skip : ℕ)
      → h.req_arena_cap < 2 ^ 32
      → length str ≤ max_len
      → length str ≤ h.req_arena_cap
      → (pos + length str ≤ h.req_arena_cap) ⊎ (h.req_arena_cap < q.arena_used + skip)
      → q.arena_used + skip < 2 ^ 64
      → place h q str (length str) false slot gen alloc pos skip
        ≡ as_code (
            Arena.place (view h) q str (length str) alloc pos skip
            >>= Queue.enqueue (view h) str slot gen)
  unfolding place Arena.place Queue.enqueue
  place_agrees q alloc pos skip small short fits inside wide = ground (
    arith,
    fill_agrees q alloc pos skip small short,
    fill_agrees (record q { arena_wpos = 0; arena_used = 0 }) alloc 0 alloc small short,
  )

  module _ (q : Queue) (v : IsSetUp (view h)) (w : IsValid (view h) q)
      (short : length str ≤ max_len) (fits : length str ≤ h.req_arena_cap)
      (known : slot < h.resp_slots) where
    abbrev need : ℕ
    need = Arena.alloc_size (length str)

    same_size : alloc_size (length str) ≡ need
    unfolding alloc_size Arena.alloc_size
    same_size = refl

    Agree : Type 0
    Agree = send_locked h q str false slot gen ≡ as_code (Queue.send_locked (view h) q str slot gen)

    agree_full : h.req_cap ≤ count q → Agree
    unfolding Agree send_locked Queue.send_locked
    agree_full none_free = ground arith

    module _ (room : count q < h.req_cap) where
      go_room :
          Queue.send_locked (view h) q str slot gen
          ≡ (Arena.write_arena_locked (view h) q str >>= Queue.enqueue (view h) str slot gen)
      unfolding Queue.send_locked
      go_room = ground arith

      -- Both sides have come to `place` with the same position and skip.
      agree_place :
          (pos skip : ℕ)
          → (pos + length str ≤ h.req_arena_cap) ⊎ (h.req_arena_cap < q.arena_used + skip)
          → q.arena_used + skip < 2 ^ 64
          → send_locked h q str false slot gen
            ≡ place h q str (length str) false slot gen need pos skip
          → Arena.write_arena_locked (view h) q str
            ≡ Arena.place (view h) q str (length str) need pos skip
          → Agree
      unfolding Agree
      agree_place pos skip inside wide c g =
          c
          ∙ place_agrees q need pos skip v.arena_fits short fits inside wide
          ∙ sym (ap as_code (go_room ∙ ap (λ r. r >>= Queue.enqueue (view h) str slot gen) g))

      c_behind :
          q.arena_wpos + need ≤ h.req_arena_cap
          → send_locked h q str false slot gen
            ≡ place h q str (length str) false slot gen need q.arena_wpos need
      unfolding send_locked
      c_behind inside = ground (arith, same_size, v.arena_fits)

      c_front :
          h.req_arena_cap < q.arena_wpos + need
          → q.arena_wpos ≤ h.req_arena_cap
          → send_locked h q str false slot gen
            ≡ place h q str
                (length str)
                false
                slot
                gen
                need
                0
                (need + h.req_arena_cap - q.arena_wpos)
      unfolding send_locked
      c_front over near =
          ground (arith, same_size, v.arena_fits, alloc_size_bounds (length str) short)

      -- Behind the end of the arena both refuse.
      c_outside :
          h.req_arena_cap < q.arena_wpos
          → q.arena_wpos ≤ h.req_arena_cap + 8
          → h.req_arena_cap < q.arena_used
          → q.arena_used ≤ h.req_arena_cap + 8
          → q.req_tail ≢ q.req_head
          → send_locked h q str false slot gen ≡ ok (count_full q, full)
      unfolding send_locked place
      c_outside far near over used busy =
          ground (arith, same_size, v.arena_fits, alloc_size_bounds (length str) short)

      go_outside :
          h.req_arena_cap < q.arena_wpos
          → q.arena_wpos ≤ h.req_arena_cap + 8
          → h.req_arena_cap < q.arena_used
          → q.arena_used ≤ h.req_arena_cap + 8
          → q.req_tail ≢ q.req_head
          → Queue.send_locked (view h) q str slot gen ≡ ok (count_full q, false)
      unfolding Queue.send_locked Arena.write_arena_locked Arena.place
      go_outside far near over used busy =
          ground (arith, v.arena_fits, alloc_size_bounds (length str) short)

      agree_room : Standing (view h) q str → Agree
      unfolding Agree
      agree_room (inr st) =
          c_outside st.0 st.1 (omega arith) (omega arith) st.3
          ∙ sym (ap as_code (go_outside st.0 st.1 (omega arith) (omega arith) st.3))
      agree_room (inl st) = elim (dec_lt h.req_arena_cap (q.arena_wpos + need)) [
        | no inside ↦
            agree_place q.arena_wpos need
              (inl (omega (arith, alloc_size_bounds (length str) short)))
              (omega (arith, v.arena_fits, alloc_size_bounds (length str) short))
              (c_behind (omega arith))
              (write_behind (view h) q str short fits v.arena_fits (omega arith))
        | yes over ↦
            agree_place 0 (need + h.req_arena_cap - q.arena_wpos) (inl (omega arith))
              (omega (arith, v.arena_fits, alloc_size_bounds (length str) short))
              (c_front over st.0)
              (write_front (view h) q str short fits v.arena_fits over (omega arith))
      ]

    -- On any valid queue, for a request without the UTF-8 mark that is within the length mask and
    -- no larger than the arena, and a known response slot, the C send_locked and the Go
    -- send_locked return the same answer and leave the same queue behind.
    pub send_agrees :
        send_locked h q str false slot gen ≡ as_code (Queue.send_locked (view h) q str slot gen)
    unfolding Agree
    send_agrees = elim (dec_lt (count q) h.req_cap) [
      | yes room ↦ agree_room room (Held-Standing str v w)
      | no none_free ↦ agree_full (omega arith)
    ]
