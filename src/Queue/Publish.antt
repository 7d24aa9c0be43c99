-- ===== src/Queue/Publish.antt =====
-- Filling the slot at the tail and moving the tail makes the queue longer by that slot.
use go_data_reqrep_shared.Base.{
  suc, ◌+◌, ◌%◌, ◌<◌, ◌≡◌, ap, ◌∙◌, [], ◌∷◌, ◌++◌, arith, u64_mod, bit_and, length,
}
use native.Mathlib.Numerals.{add-one}
use go_data_reqrep_shared.Shm.{Shm, Queue, ReqSlot}
use go_data_reqrep_shared.Queue.{publish}
use go_data_reqrep_shared.Queue.Invariant.{count, entries}
use go_data_reqrep_shared.Queue.Window.{IsSetUp, slot_index, wrap_index, window, window-set, cap_le}

pub tail_index :
    {s : Shm} (v : IsSetUp s) (q : Queue)
    → q.req_head < u64_mod
    → q.req_tail < u64_mod
    → bit_and q.req_tail s.req_cap_mask ≡ (q.req_head + count q) % s.req_cap
tail_index {s} v q h t =
    let e : q.req_tail ≡ (q.req_head + count q) % u64_mod = omega arith in
    slot_index v q.req_tail ∙ ap (λ k. k % s.req_cap) e ∙ wrap_index v (q.req_head + count q)

module _ {s : Shm} (v : IsSetUp s) (q : Queue) (e : ReqSlot) (hf : q.req_head < u64_mod)
    (tf : q.req_tail < u64_mod) (room : count q < s.req_cap) (sl : length q.slots ≡ s.req_cap) where
  pub count-publish : count (publish s q e) ≡ count q + 1
  unfolding publish
  count-publish = omega (arith, cap_le v)

  grown :
      window s.req_cap (publish s q e).slots (publish s q e).req_head (suc (count q))
      ≡ entries s q ++ e ∷ []
  unfolding publish
  grown =
      window-set s.req_cap q.slots q.req_head (count q) (bit_and q.req_tail s.req_cap_mask) e sl
        room (tail_index v q hf tf)

  pub entries-publish : entries s (publish s q e) ≡ entries s q ++ e ∷ []
  entries-publish = rw (count-publish, add-one) grown
