-- ===== src/IntMode/Keep.antt =====
-- The invariant, rebuilt after a step of one thread.
use native.Mathlib.Nat.{mod-lt}
use go_data_reqrep_shared.Base.{
  ℕ, ◌+◌, ◌^◌, ◌%◌, ◌≤◌, ◌<◌, ◌≡◌, ◌≢◌, refl, Option, some, put, put_all, arith,
}
use go_data_reqrep_shared.Shm.{Shm}
use go_data_reqrep_shared.Queue.Window.{IsSetUp}
use go_data_reqrep_shared.IntMode.{Item, ReqIntSlot, IntQueue}
use go_data_reqrep_shared.IntMode.System.{Thread, System}
use go_data_reqrep_shared.IntMode.Inv.{
  Stage, vacant, filling, filled, emptying, Local, SlotInv, QueueInv, Inv,
}
use go_data_reqrep_shared.IntMode.Locals.{Ghosts, Frame, Frame-Local, slot-Frame}

-- The invariant, for some ghosts.
unfoldable pub Kept : ℕ → System → Type 0
Kept cap s = (cur : ℕ → ℕ) × (stage : ℕ → Stage) × Inv cap s cur stage

module _ (m : Shm) (v : IsSetUp m) (two : 2 ≤ m.req_cap) (s : System) (i : ℕ) {cur : ℕ → ℕ}
    {stage : ℕ → Stage} (inv : Inv m.req_cap s cur stage) where
  abbrev pub cap : ℕ
  cap = m.req_cap

  abbrev pub q : IntQueue
  q = s.queue

  abbrev pub now : Ghosts
  now = record { history = s.history; cur = cur; stage = stage }

  -- The invariant from the parts of the next state.
  pub rebuild :
      (q' : IntQueue) (g' : Ghosts) (t : Thread) (r : ℕ → Option Item)
      → QueueInv cap q' g'.history g'.cur g'.stage
      → Local cap q' g'.history g'.cur g'.stage i t
      → ((j : ℕ) → j ≢ i → Frame cap q q' now g' j)
      → ((k : ℕ) (x : Item) → r k ≡ some x → (k < q'.req_head) × (g'.history k ≡ x))
      → Kept cap
          (record { queue = q'; thread = put s.thread i t; history = g'.history; received = r })
  unfolding Kept
  rebuild q' g' t r queue mine frame got = (
    g'.cur,
    g'.stage,
    record {
      queue = queue;
      locals =
          put_all s.thread i (λ j u. Local cap q' g'.history g'.cur g'.stage j u) t mine
            (λ j ne. Frame-Local cap q q' now g' j (s.thread j) (frame j ne) (inv.locals j));
      got = got;
    },
  )

  -- A step of one thread that counts at most.
  pub quiet :
      (a b c : ℕ) (t : Thread)
      → (let q' : IntQueue = record q {
        stat_requests = a;
        stat_send_full = b;
        stat_recv_empty = c;
      } in
          Local cap q' s.history cur stage i t
          → Kept cap (record s { queue = q'; thread = put s.thread i t }))
  quiet a b c t mine =
      rebuild (record q { stat_requests = a; stat_send_full = b; stat_recv_empty = c }) now t
        s.received
        (record {
          ordered = inv.queue.ordered;
          bounded = inv.queue.bounded;
          slots = inv.queue.slots;
        })
        mine
        (λ j ne. record {
          tail_le = omega arith;
          head_le = omega arith;
          filling_kept = λ pos h. (h, refl, refl);
          emptying_kept = λ pos h. (h, refl);
          tail_kept = λ pos le h. h;
          head_kept = λ pos le h. h;
        })
        inv.got

  -- A step of the thread that has the slot `c`.
  pub own_slot :
      (c n : ℕ) (old new : Stage) (l : ReqIntSlot) (t : Thread) (r : ℕ → Option Item)
      → stage c ≡ old
      → old ≢ vacant
      → old ≢ filled
      → ((j : ℕ) → j ≢ i → old ≢ filling j)
      → ((j : ℕ) → j ≢ i → old ≢ emptying j)
      → QueueInv cap (record q { slot = put q.slot c l }) s.history (put cur c n) (put stage c new)
      → Local cap (record q { slot = put q.slot c l }) s.history (put cur c n) (put stage c new) i t
      → ((k : ℕ) (y : Item) → r k ≡ some y → (k < q.req_head) × (s.history k ≡ y))
      → Kept cap (record {
        queue = record q { slot = put q.slot c l };
        thread = put s.thread i t;
        history = s.history;
        received = r;
      })
  own_slot c n old new l t r at_old nv nd nf ne queue mine got =
      rebuild (record q { slot = put q.slot c l })
        (record { history = s.history; cur = put cur c n; stage = put stage c new }) t r queue mine
        (λ j z. slot-Frame two q now inv.queue c j old new l n at_old nv nd (nf j z) (ne j z)) got

  module _ (small : q.req_tail + cap < 2 ^ 63) where
    seq_small :
        (c : ℕ) (l : ReqIntSlot) (a : ℕ) (g : Stage)
        → SlotInv cap q.req_head q.req_tail s.history c l a g
        → l.sequence ≤ q.req_tail + cap
    seq_small c l a vacant o = omega (arith, o.seq, o.place)
    seq_small c l a (filling j) o = omega (arith, o.seq, o.place)
    seq_small c l a filled o = omega (arith, o.seq, o.place)
    seq_small c l a (emptying j) o = omega (arith, o.seq, o.place, inv.queue.ordered)

    pub index-lt : (pos : ℕ) → pos % cap < cap
    index-lt pos = mod-lt pos {m = cap} (omega arith)

    pub seq_of : (pos : ℕ) → (q.slot (pos % cap)).sequence ≤ q.req_tail + cap
    seq_of pos =
        seq_small (pos % cap) (q.slot (pos % cap)) (cur (pos % cap)) (stage (pos % cap))
          (inv.queue.slots (pos % cap) (index-lt pos))
