-- ===== src/Queue/Send.antt =====
-- `send_locked` against the queue of waiting requests.
use go_data_reqrep_shared.Base.{
  ℕ, ◌+◌, ◌≤◌, ◌<◌, ◌≡◌, refl, ap, ap₂, ◌∙◌, inl, inr, List, [], ◌∷◌, ◌++◌, arith, u32, bit_and,
  bit_and_mask, length, length-set, length-copy_at, dec_lt, copy_at, slice-copy_at_self,
}
use mathlib.Core.List.{map-append}
use go_data_reqrep_shared.Shm.{Shm, Queue, ReqSlot}
use go_data_reqrep_shared.Arena.{alloc_size}
use go_data_reqrep_shared.Arena.Write.{
  max_len, alloc_size_bounds, stored, Spot, behind, front, reset, Standing,
}
use go_data_reqrep_shared.Queue.{publish}
use go_data_reqrep_shared.Queue.Blocks.{
  len_of, alloc_of, len_of_bound, All, Placed, Clear, All-mono, total-snoc, Chain-end, Chain-snoc,
  Chain-Clear,
}
use go_data_reqrep_shared.Queue.Invariant.{
  count, entries, Held, chained, oversized, IsValid, messages, map-message-copy_at,
}
use go_data_reqrep_shared.Queue.Publish.{count-publish, entries-publish}
use go_data_reqrep_shared.Queue.Window.{IsSetUp, length-window}

-- Behind a valid queue the write position is where `write_arena_locked` expects it.
pub Held-Standing :
    {s : Shm} {q : Queue} (bytes : List ℕ) → IsSetUp s → IsValid s q → Standing s q bytes
Held-Standing {s} {q} bytes v w = go (w.held)
  where
    go : Held s.req_arena_cap (entries s q) q.arena_wpos q.arena_used → Standing s q bytes
    go (chained p c t u) = inl (Chain-end s.req_arena_cap p (entries s q) q.arena_wpos c, u)
    go (oversized e es o k wp us large len) = inr (
      omega arith,
      omega (arith, alloc_size_bounds (len_of e) (len_of_bound e)),
      omega arith,
      λ h.
          absurd
            (omega (arith, ap length es, length-window s.req_cap q.slots q.req_head (count q))),
    )

Held-eq :
    {cap : ℕ} {es es' : List ReqSlot} {w w' u u' : ℕ}
    → es' ≡ es
    → w' ≡ w
    → u' ≡ u
    → Held cap es w u
    → Held cap es' w' u'
Held-eq p q r h = rw (p, q, r) h

pub empty-entries : {s : Shm} {q : Queue} → IsValid s q → q.req_tail ≡ q.req_head → entries s q ≡ []
empty-entries {s} {q} w h = let none_left : count q ≡ 0 = omega (arith, w.tail_fits) in rw none_left

module _ {s : Shm} {q : Queue} (bytes : List ℕ) (v : IsSetUp s) (w : IsValid s q) (e : ReqSlot)
    (le : len_of e ≡ length bytes) (fits : length bytes ≤ s.req_arena_cap) where
  abbrev pub Extended : ℕ → ℕ → ℕ → Type 0
  Extended off wpos used =
      Held s.req_arena_cap (entries s q ++ e ∷ []) wpos used
      × All (Clear off (length bytes)) (entries s q)

  -- A block behind the others, or at the front of the arena, is one more link of the chain.
  Extended-Placed :
      (wpos used : ℕ)
      → Placed s.req_arena_cap q.arena_wpos e
      → wpos ≡ e.arena_off + alloc_of e
      → used ≡ q.arena_used + e.arena_skip
      → used ≤ s.req_arena_cap
      → Held s.req_arena_cap (entries s q) q.arena_wpos q.arena_used
      → Extended e.arena_off wpos used
  Extended-Placed wpos used pl we ue room (chained p c t u) = (
    chained p (rw we (Chain-snoc s.req_arena_cap p (entries s q) q.arena_wpos e c pl))
        (omega (arith, total-snoc (entries s q) e)) room,
    All-mono (entries s q)
        (λ x h. elim h [
          | inl a ↦ inl a
          | inr b ↦ inr (omega (arith, alloc_size_bounds (len_of e) (len_of_bound e)))
        ])
        (Chain-Clear s.req_arena_cap p (entries s q) q.arena_wpos e c pl (omega arith)),
  )
  Extended-Placed wpos used pl we ue room (oversized x es o k wp us large len) =
      absurd (omega arith)

  -- In an empty queue the block stands alone at the front.
  Extended-reset :
      (wpos used : ℕ)
      → e.arena_off ≡ 0
      → e.arena_skip ≡ alloc_of e
      → wpos ≡ alloc_of e
      → used ≡ alloc_of e
      → entries s q ≡ []
      → Extended e.arena_off wpos used
  Extended-reset wpos used o k we ue none_left = elim (dec_lt s.req_arena_cap (alloc_of e)) [
    | yes large ↦
        rw none_left
          (oversized e refl o (omega arith) (omega arith) ue (omega arith) (omega arith), tt)
    | no small ↦
        rw none_left (chained 0 (inl (omega arith), omega arith) (omega arith) (omega arith), tt)
  ]

-- The slot that `send_locked` fills.
abbrev pub filled : List ℕ → ℕ → ℕ → ℕ → ℕ → ReqSlot
filled bytes off skip slot gen = record {
  arena_off = off;
  packed_len = u32 (length bytes);
  arena_skip = skip;
  resp_slot = slot;
  resp_gen = gen;
}

pub len_of-filled :
    (bytes : List ℕ) (off skip slot gen : ℕ)
    → length bytes ≤ max_len
    → len_of (filled bytes off skip slot gen) ≡ length bytes
len_of-filled bytes off skip slot gen h = omega (arith, bit_and_mask 31 (u32 (length bytes)))

module _ {s : Shm} {q : Queue} (bytes : List ℕ) (slot gen : ℕ) (v : IsSetUp s) (w : IsValid s q)
    (short : length bytes ≤ max_len) (fits : length bytes ≤ s.req_arena_cap) where
  module _ (off skip wpos used : ℕ) where
    abbrev pub e : ReqSlot
    e = filled bytes off skip slot gen

    abbrev pub le : len_of e ≡ length bytes
    le = len_of-filled bytes off skip slot gen short

    size : alloc_of e ≡ alloc_size (length bytes)
    size = ap alloc_size le

    pub Extended-Spot :
        Spot s q bytes off skip wpos used → Extended bytes v w e le fits off wpos used
    Extended-Spot (behind o k we ue wr ur) =
        Extended-Placed bytes v w e le fits wpos used
          (inl (o, omega (arith, size), omega (arith, size))) (omega (arith, size)) ue ur w.held
    Extended-Spot (front o k we ue ur wr) =
        Extended-Placed bytes v w e le fits wpos used
          (inr (o, omega (arith, size), wr, omega (arith, size))) (omega (arith, size)) ue ur w.held
    Extended-Spot (reset o k we ue h) =
        Extended-reset bytes v w e le fits wpos used o (omega (arith, size)) (omega (arith, size))
          (omega (arith, size)) (empty-entries w h)

    abbrev pub after : Queue
    after = stored q bytes off wpos used

    abbrev pub result : Queue
    result = publish s after e

    module _ (room : count q < s.req_cap) (inside : off + length bytes ≤ s.req_arena_cap)
        (x : Extended bytes v w e le fits off wpos used) where
      longer : entries s result ≡ entries s q ++ e ∷ []
      longer = entries-publish v after e w.head_fits w.tail_fits room w.slot_room

      pub published-IsValid : IsValid s result
      unfolding publish
      published-IsValid = record {
        head_fits = w.head_fits;
        tail_fits = omega arith;
        counted = omega (arith, count-publish v after e w.head_fits w.tail_fits room w.slot_room);
        slot_room = length-set q.slots (bit_and q.req_tail s.req_cap_mask) e ∙ w.slot_room;
        arena_room = length-copy_at q.arena off bytes ∙ w.arena_room;
        held = Held-eq longer refl refl x.0;
      }

      arena-result : result.arena ≡ copy_at q.arena off bytes
      unfolding publish
      arena-result = refl

      -- A copy in a free place and a new slot: the request is the last one.
      pub published-messages :
          messages s result
          ≡ messages s q ++ record { bytes = bytes; resp_slot = slot; resp_gen = gen } ∷ []
      published-messages =
          rw (longer, arena-result, map-append)
            (ap₂ ◌++◌ (map-message-copy_at q.arena off bytes (entries s q) x.1) (
              ap (λ (b : List ℕ). record { bytes = b; resp_slot = slot; resp_gen = gen } ∷ [])
                (rw le (slice-copy_at_self q.arena off bytes (omega (arith, w.arena_room))))))
