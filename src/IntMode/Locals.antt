-- ===== src/IntMode/Locals.antt =====
-- What a change of the queue leaves of the local facts of the other threads.
use native.Mathlib.Nat.{mod-lt}
use go_data_reqrep_shared.Base.{
  ℕ, ◌+◌, ◌%◌, ◌≤◌, ◌≡◌, ◌≢◌, refl, sym, ap, ◌∙◌, put, put_ne, arith, ℕ_discrete,
}
use go_data_reqrep_shared.IntMode.{Item, ReqIntSlot, IntQueue, SendPc, RecvPc}
use go_data_reqrep_shared.IntMode.System.{Thread, resting, sender, receiver}
use go_data_reqrep_shared.IntMode.Inv.{
  Stage, vacant, filling, filled, emptying, Mine, Local, QueueInv,
}
use go_data_reqrep_shared.IntMode.Slots.{tail_vacant, head_filled}

-- The queue and the ghosts.
pub record Ghosts : Type 0 where
  pub history : ℕ → Item
  pub cur : ℕ → ℕ
  pub stage : ℕ → Stage

abbrev pub at_pos : ℕ → IntQueue → ℕ → ReqIntSlot
at_pos cap q pos = q.slot (pos % cap)

pub record Frame (cap : ℕ) (q q' : IntQueue) (g g' : Ghosts) (j : ℕ) : Type 0 where
  pub tail_le : q.req_tail ≤ q'.req_tail
  pub head_le : q.req_head ≤ q'.req_head
  pub filling_kept :
      (pos : ℕ)
      → Mine g.cur g.stage (pos % cap) pos (filling j)
      → Mine g'.cur g'.stage (pos % cap) pos (filling j)
        × (g'.history pos ≡ g.history pos)
        × ((at_pos cap q' pos).item ≡ (at_pos cap q pos).item)
  pub emptying_kept :
      (pos : ℕ)
      → Mine g.cur g.stage (pos % cap) pos (emptying j)
      → Mine g'.cur g'.stage (pos % cap) pos (emptying j) × (g'.history pos ≡ g.history pos)
  pub tail_kept :
      (pos : ℕ)
      → pos ≤ q.req_tail
      → (q.req_tail ≡ pos → (at_pos cap q pos).sequence ≡ pos)
      → q'.req_tail ≡ pos
      → (at_pos cap q' pos).sequence ≡ pos
  pub head_kept :
      (pos : ℕ)
      → pos ≤ q.req_head
      → (q.req_head ≡ pos → (at_pos cap q pos).sequence ≡ pos + 1)
      → q'.req_head ≡ pos
      → (at_pos cap q' pos).sequence ≡ pos + 1

pub Frame-Local :
    (cap : ℕ) (q q' : IntQueue) (g g' : Ghosts) (j : ℕ) (t : Thread)
    → Frame cap q q' g g' j
    → Local cap q g.history g.cur g.stage j t
    → Local cap q' g'.history g'.cur g'.stage j t
Frame-Local cap q q' g g' j resting f l = tt
Frame-Local cap q q' g g' j (sender x (SendPc.load_seq pos)) f l = omega (arith, l, f.tail_le)
Frame-Local cap q q' g g' j (sender x (SendPc.claim pos)) f l =
    (omega (arith, l.0, f.tail_le), f.tail_kept pos l.0 l.1)
Frame-Local cap q q' g g' j (sender x (SendPc.store pos)) f l =
    let (m, h, i) = f.filling_kept pos l.0 in (m, h ∙ l.1)
Frame-Local cap q q' g g' j (sender x (SendPc.publish pos)) f l =
    let (m, h, i) = f.filling_kept pos l.0 in (m, h ∙ l.1, i ∙ l.2)
Frame-Local cap q q' g g' j (sender x SendPc.load_tail) f l = tt
Frame-Local cap q q' g g' j (sender x SendPc.count_sent) f l = tt
Frame-Local cap q q' g g' j (sender x SendPc.count_full) f l = tt
Frame-Local cap q q' g g' j (sender x SendPc.sent) f l = tt
Frame-Local cap q q' g g' j (sender x SendPc.full) f l = tt
Frame-Local cap q q' g g' j (receiver (RecvPc.load_seq pos)) f l = omega (arith, l, f.head_le)
Frame-Local cap q q' g g' j (receiver (RecvPc.claim pos)) f l =
    (omega (arith, l.0, f.head_le), f.head_kept pos l.0 l.1)
Frame-Local cap q q' g g' j (receiver (RecvPc.read pos)) f l = (f.emptying_kept pos l).0
Frame-Local cap q q' g g' j (receiver (RecvPc.release pos x)) f l =
    let (m, h) = f.emptying_kept pos l.0 in (m, h ∙ l.1)
Frame-Local cap q q' g g' j (receiver RecvPc.load_head) f l = tt
Frame-Local cap q q' g g' j (receiver RecvPc.count_empty) f l = tt
Frame-Local cap q q' g g' j (receiver (RecvPc.got x)) f l = tt
Frame-Local cap q q' g g' j (receiver RecvPc.empty) f l = tt

module _ {cap : ℕ} (two : 2 ≤ cap) (q : IntQueue) (g : Ghosts)
    (inv : QueueInv cap q g.history g.cur g.stage) (c : ℕ) (j : ℕ) where
  -- A slot at another stage is another slot.
  other_slot :
      (d pos : ℕ) (old mine : Stage)
      → g.stage c ≡ old
      → old ≢ mine
      → Mine g.cur g.stage d pos mine
      → d ≢ c
  other_slot d pos old mine at_old ne m e = ne (sym at_old ∙ ap g.stage (sym e) ∙ m.1)

  -- The tail moves on.
  pub tail-Frame :
      (x : Item) (new : Stage)
      → q.req_tail % cap ≡ c
      → g.stage c ≡ vacant
      → Frame cap q
          (record q { req_tail = q.req_tail + 1 })
          g
          (record g { history = put g.history q.req_tail x; stage = put g.stage c new })
          j
  tail-Frame x new at_c free = record {
    tail_le = omega arith;
    head_le = omega arith;
    filling_kept = λ pos m.
        let ne : pos % cap ≢ c = other_slot (pos % cap) pos vacant (filling j) free (λ e. cc) m in
        (
          (m.0, put_ne g.stage c new (pos % cap) ne ∙ m.1),
          put_ne g.history q.req_tail x pos (λ e. ne (ap (λ k. k % cap) e ∙ at_c)),
          refl,
        );
    emptying_kept = λ pos m.
        let ne : pos % cap ≢ c = other_slot (pos % cap) pos vacant (emptying j) free (λ e. cc) m in
        (
          (m.0, put_ne g.stage c new (pos % cap) ne ∙ m.1),
          put_ne g.history q.req_tail x pos (λ e. ne (ap (λ k. k % cap) e ∙ at_c)),
        );
    tail_kept = λ pos le h e. absurd (omega arith);
    head_kept = λ pos le h e. h e;
  }

  -- The head moves on.
  pub head-Frame :
      (new : Stage)
      → g.stage c ≡ filled
      → Frame cap q
          (record q { req_head = q.req_head + 1 })
          g
          (record g { stage = put g.stage c new })
          j
  head-Frame new full = record {
    tail_le = omega arith;
    head_le = omega arith;
    filling_kept = λ pos m.
        let ne : pos % cap ≢ c = other_slot (pos % cap) pos filled (filling j) full (λ e. cc) m in
        ((m.0, put_ne g.stage c new (pos % cap) ne ∙ m.1), refl, refl);
    emptying_kept = λ pos m.
        let ne : pos % cap ≢ c = other_slot (pos % cap) pos filled (emptying j) full (λ e. cc) m in
        ((m.0, put_ne g.stage c new (pos % cap) ne ∙ m.1), refl);
    tail_kept = λ pos le h e. h e;
    head_kept = λ pos le h e. absurd (omega arith);
  }

  -- The slot `c` is written by thread `i`, which has it.
  pub slot-Frame :
      (old new : Stage) (s : ReqIntSlot) (n : ℕ)
      → g.stage c ≡ old
      → old ≢ vacant
      → old ≢ filled
      → old ≢ filling j
      → old ≢ emptying j
      → Frame cap q
          (record q { slot = put q.slot c s })
          g
          (record g { cur = put g.cur c n; stage = put g.stage c new })
          j
  slot-Frame old new s n at_old nv nd nf ne = record {
    tail_le = omega arith;
    head_le = omega arith;
    filling_kept = λ pos m.
        let z : pos % cap ≢ c = other_slot (pos % cap) pos old (filling j) at_old nf m in
        (
          (put_ne g.cur c n (pos % cap) z ∙ m.0, put_ne g.stage c new (pos % cap) z ∙ m.1),
          refl,
          ap (λ (t : ReqIntSlot). t.item) (put_ne q.slot c s (pos % cap) z),
        );
    emptying_kept = λ pos m.
        let z : pos % cap ≢ c = other_slot (pos % cap) pos old (emptying j) at_old ne m in
        ((put_ne g.cur c n (pos % cap) z ∙ m.0, put_ne g.stage c new (pos % cap) z ∙ m.1), refl);
    tail_kept = λ pos le h e. elim (ℕ_discrete (pos % cap) c) [
      | no z ↦ ap (λ (t : ReqIntSlot). t.sequence) (put_ne q.slot c s (pos % cap) z) ∙ h e
      | yes z ↦
          let v =
            tail_vacant two inv (pos % cap) (mod-lt pos {m = cap} (omega arith))
              (ap (λ k. k % cap) e) (h e ∙ sym e) in
          absurd (nv (sym at_old ∙ ap g.stage (sym z) ∙ v.0))
    ];
    head_kept = λ pos le h e. elim (ℕ_discrete (pos % cap) c) [
      | no z ↦ ap (λ (t : ReqIntSlot). t.sequence) (put_ne q.slot c s (pos % cap) z) ∙ h e
      | yes z ↦
          let v =
            head_filled two inv (pos % cap) (mod-lt pos {m = cap} (omega arith))
              (ap (λ k. k % cap) e) (h e ∙ ap (λ k. k + 1) (sym e)) in
          absurd (nd (sym at_old ∙ ap g.stage (sym z) ∙ v.0))
    ];
  }
