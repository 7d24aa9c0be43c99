-- ===== src/Queue/Invariant.antt =====
-- The invariant of the request queue: the slots between head and tail describe blocks that lie one
-- behind the other in the arena, and `arena_used` counts them.
use go_data_reqrep_shared.Base.{
  ℕ, ◌≤◌, ◌<◌, ◌≡◌, refl, ap, ap₂, inl, inr, List, [], ◌∷◌, map, sub64, u64_mod, length, slice,
  slice-copy_at_before, slice-copy_at_after, copy_at,
}
use go_data_reqrep_shared.Shm.{Shm, Queue, ReqSlot}
use go_data_reqrep_shared.Queue.Blocks.{len_of, alloc_of, All, total, Chain, Clear}
use go_data_reqrep_shared.Queue.Window.{window}

-- The requests in the queue, `tail - head` in 64 bits.
abbrev pub count : Queue → ℕ
count q = sub64 q.req_tail q.req_head

abbrev pub entries : Shm → Queue → List ReqSlot
entries s q = window s.req_cap q.slots q.req_head (count q)

-- The blocks of `es`, the write position and the count of used bytes agree.
pub data Held (cap : ℕ) (es : List ReqSlot) (wpos used : ℕ) : Type 0 where
  chained : (p : ℕ) → Chain cap p es wpos → total es ≡ used → used ≤ cap → Held cap es wpos used
  -- One block that rounding up made larger than the arena.
  oversized :
      (e : ReqSlot)
      → es ≡ e ∷ []
      → e.arena_off ≡ 0
      → e.arena_skip ≡ used
      → wpos ≡ used
      → used ≡ alloc_of e
      → cap < used
      → len_of e ≤ cap
      → Held cap es wpos used

pub record IsValid (s : Shm) (q : Queue) : Type 0 where
  pub head_fits : q.req_head < u64_mod
  pub tail_fits : q.req_tail < u64_mod
  pub counted : count q ≤ s.req_cap
  pub slot_room : length q.slots ≡ s.req_cap
  pub arena_room : length q.arena ≡ s.req_arena_cap
  pub held : Held s.req_arena_cap (entries s q) q.arena_wpos q.arena_used

-- A request as the server sees it: its bytes, and the response slot and generation of its id.
pub record Message : Type 0 where
  pub bytes : List ℕ
  pub resp_slot : ℕ
  pub resp_gen : ℕ

abbrev pub message : List ℕ → ReqSlot → Message
message arena e = record {
  bytes = slice arena e.arena_off (len_of e);
  resp_slot = e.resp_slot;
  resp_gen = e.resp_gen;
}

-- The requests that wait, oldest first.
abbrev pub messages : Shm → Queue → List Message
messages s q = map (message q.arena) (entries s q)

-- A copy to the arena leaves the requests that keep clear of it alone.
pub message-copy_at :
    (arena : List ℕ) (pos : ℕ) (ys : List ℕ) (e : ReqSlot)
    → Clear pos (length ys) e
    → message (copy_at arena pos ys) e ≡ message arena e
message-copy_at arena pos ys e (inl h) =
    ap (λ (b : List ℕ). record { bytes = b; resp_slot = e.resp_slot; resp_gen = e.resp_gen })
      (slice-copy_at_before arena e.arena_off pos (len_of e) ys h)
message-copy_at arena pos ys e (inr h) =
    ap (λ (b : List ℕ). record { bytes = b; resp_slot = e.resp_slot; resp_gen = e.resp_gen })
      (slice-copy_at_after arena e.arena_off pos (len_of e) ys h)

pub map-message-copy_at :
    (arena : List ℕ) (pos : ℕ) (ys : List ℕ) (es : List ReqSlot)
    → All (Clear pos (length ys)) es
    → map (message (copy_at arena pos ys)) es ≡ map (message arena) es
map-message-copy_at arena pos ys [] h = refl
map-message-copy_at arena pos ys (e ∷ es) h =
    ap₂ ◌∷◌ (message-copy_at arena pos ys e h.0) (map-message-copy_at arena pos ys es h.1)
