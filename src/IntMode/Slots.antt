-- ===== src/IntMode/Slots.antt =====
-- The five changes that the two loops make to the queue keep its invariant.
use native.Mathlib.Nat.{add-mod_right}
use go_data_reqrep_shared.Base.{
  ℕ, ◌+◌, ◌%◌, ◌≤◌, ◌<◌, ◌≡◌, sym, ◌∙◌, put, put_self, put_ne, put_all, arith,
}
use go_data_reqrep_shared.IntMode.{Item, ReqIntSlot, IntQueue}
use go_data_reqrep_shared.IntMode.Inv.{
  Stage, vacant, filling, filled, emptying, Place, Holds, SlotInv, QueueInv,
}
use go_data_reqrep_shared.IntMode.Places.{tail_slot, head_slot, tail_on, head_on}

module _ {cap : ℕ} (two : 2 ≤ cap) {q : IntQueue} {history : ℕ → Item} {cur : ℕ → ℕ}
    {stage : ℕ → Stage} (inv : QueueInv cap q history cur stage) (c : ℕ) (known : c < cap) where
  abbrev this : SlotInv cap q.req_head q.req_tail history c (q.slot c) (cur c) (stage c)
  this = inv.slots c known

  pub tail_vacant :
      q.req_tail % cap ≡ c
      → (q.slot c).sequence ≡ q.req_tail
      → (stage c ≡ vacant) × (cur c ≡ q.req_tail)
  tail_vacant at_c e = tail_slot two c (q.slot c) (cur c) (stage c) this at_c e

  pub head_filled :
      q.req_head % cap ≡ c
      → (q.slot c).sequence ≡ q.req_head + 1
      → (stage c ≡ filled) × (cur c ≡ q.req_head)
  head_filled at_c e = head_slot two c (q.slot c) (cur c) (stage c) this at_c e

  pub claim_send :
      (x : Item) (i : ℕ)
      → q.req_tail % cap ≡ c
      → (q.slot c).sequence ≡ q.req_tail
      → QueueInv cap
          (record q { req_tail = q.req_tail + 1 })
          (put history q.req_tail x)
          cur
          (put stage c (filling i))
  claim_send x i at_c e =
      let (free, at_tail) = tail_vacant at_c e in
      let room : Place cap q.req_head q.req_tail (cur c) vacant = rw free at this.place in
      record {
        ordered = omega (arith, inv.ordered);
        bounded = omega (arith, room, at_tail);
        slots =
            put_all stage c
              (λ d g.
                d < cap
                → SlotInv cap q.req_head (q.req_tail + 1) (put history q.req_tail x) d (q.slot d)
                    (cur d) g)
              (filling i)
              (λ h. record {
                own = this.own;
                seq = omega (arith, e, at_tail);
                place = omega (arith, at_tail, inv.ordered);
                holds = tt;
              })
              (λ d ne h.
                tail_on cap q.req_head q.req_tail history d (q.slot d) (cur d) (stage d) x
                  (inv.slots d h) (λ z. ne (sym z ∙ at_c)));
      }

  pub claim_recv :
      (i : ℕ)
      → q.req_head % cap ≡ c
      → (q.slot c).sequence ≡ q.req_head + 1
      → QueueInv cap (record q { req_head = q.req_head + 1 }) history cur (put stage c (emptying i))
  claim_recv i at_c e =
      let (full, at_head) = head_filled at_c e in
      let place : Place cap q.req_head q.req_tail (cur c) filled = rw full at this.place in
      let holds : Holds (q.slot c).item (history (cur c)) filled = rw full at this.holds in
      record {
        ordered = omega (arith, place, at_head);
        bounded = omega (arith, inv.bounded);
        slots =
            put_all stage c
              (λ d g.
                d < cap → SlotInv cap (q.req_head + 1) q.req_tail history d (q.slot d) (cur d) g)
              (emptying i)
              (λ h. record {
                own = this.own;
                seq = omega (arith, e, at_head);
                place = omega (arith, place, at_head);
                holds = holds;
              })
              (λ d ne h.
                head_on cap q.req_head q.req_tail history d (q.slot d) (cur d) (stage d)
                  (inv.slots d h) (λ z. ne (sym z ∙ at_c)));
      }

  pub fill_slot :
      (x : Item) (i : ℕ)
      → stage c ≡ filling i
      → QueueInv cap
          (record q { slot = put q.slot c (record (q.slot c) { item = x }) })
          history
          cur
          stage
  fill_slot x i e = record {
    ordered = inv.ordered;
    bounded = inv.bounded;
    slots =
        put_all q.slot c
          (λ d s. d < cap → SlotInv cap q.req_head q.req_tail history d s (cur d) (stage d))
          (record (q.slot c) { item = x })
          (λ h. record { own = this.own; seq = this.seq; place = this.place; holds = rw e tt })
          (λ d ne h. inv.slots d h);
  }

  pub publish_slot :
      (i n : ℕ)
      → stage c ≡ filling i
      → (q.slot c).item ≡ history (cur c)
      → n ≡ cur c + 1
      → QueueInv cap
          (record q { slot = put q.slot c (record (q.slot c) { sequence = n }) })
          history
          cur
          (put stage c filled)
  publish_slot i n e held at_c =
      let place : Place cap q.req_head q.req_tail (cur c) (filling i) = rw e at this.place in
      let published : ReqIntSlot = record (q.slot c) { sequence = n } in
      record {
        ordered = inv.ordered;
        bounded = inv.bounded;
        slots =
            put_all stage c
              (λ d g.
                d < cap
                → SlotInv cap q.req_head q.req_tail history d (put q.slot c published d) (cur d) g)
              filled
              (λ h.
                rw (put_self q.slot c published)
                  (record { own = this.own; seq = at_c; place = place; holds = held }))
              (λ d ne h. rw (put_ne q.slot c published d ne) (inv.slots d h));
      }

  pub release_slot :
      (i n : ℕ)
      → stage c ≡ emptying i
      → n ≡ cur c + cap
      → QueueInv cap
          (record q { slot = put q.slot c (record (q.slot c) { sequence = n }) })
          history
          (put cur c n)
          (put stage c vacant)
  release_slot i n e at_c =
      let place : Place cap q.req_head q.req_tail (cur c) (emptying i) = rw e at this.place in
      let freed : ReqIntSlot = record (q.slot c) { sequence = n } in
      record {
        ordered = inv.ordered;
        bounded = inv.bounded;
        slots =
            put_all stage c
              (λ d g.
                d < cap
                → SlotInv cap q.req_head q.req_tail history d (put q.slot c freed d) (put cur c n d)
                    g)
              vacant
              (λ h.
                rw (put_self q.slot c freed, put_self cur c n)
                  (record {
                    own = rw at_c (add-mod_right (cur c) cap ∙ this.own);
                    seq = omega arith;
                    place = omega (arith, place, at_c, inv.ordered);
                    holds = tt;
                  }))
              (λ d ne h. rw (put_ne q.slot c freed d ne, put_ne cur c n d ne) (inv.slots d h));
      }
