-- ===== src/IntMode/KeepSend.antt =====
-- Each step of a sender keeps the invariant.
use go_data_reqrep_shared.Base.{
  ℕ, ◌+◌, ◌^◌, ◌%◌, ◌≤◌, ◌<◌, ◌≡◌, inl, inr, Bool-cases, refl, sym, ap, ◌∙◌, subst, Bool, put,
  put_self, put_ne, put_id, arith, add64, sub64, ◌==◌, leb, ◌&&◌,
}
use go_data_reqrep_shared.Shm.{Shm}
use go_data_reqrep_shared.Queue.Window.{IsSetUp, slot_index}
use go_data_reqrep_shared.IntMode.{Item, ReqIntSlot, IntQueue, SendPc, send_step, sign_bit}
use go_data_reqrep_shared.IntMode.System.{Thread, sender, System, after_send_step}
use go_data_reqrep_shared.IntMode.Inv.{
  stage_owner, SendLocal, Place, Stage, filling, filled, Mine, Local, SlotInv, QueueInv, Inv,
}
use go_data_reqrep_shared.IntMode.Slots.{claim_send, fill_slot, publish_slot, tail_vacant}
use go_data_reqrep_shared.IntMode.Locals.{Ghosts, tail-Frame}
use go_data_reqrep_shared.IntMode.Keep.{Kept, rebuild, quiet, own_slot, seq_of, index-lt}

module _ (m : Shm) (v : IsSetUp m) (two : 2 ≤ m.req_cap) (s : System) (i : ℕ) {cur : ℕ → ℕ}
    {stage : ℕ → Stage} (inv : Inv m.req_cap s cur stage)
    (small : s.queue.req_tail + m.req_cap < 2 ^ 63) (b : Bool) where
  abbrev cap : ℕ
  cap = m.req_cap

  abbrev q : IntQueue
  q = s.queue

  abbrev now : Ghosts
  now = record { history = s.history; cur = cur; stage = stage }

  abbrev seq_at : ℕ → ℕ
  seq_at pos = (q.slot (pos % cap)).sequence

  -- Thread `i` is at `t` and nothing else changes.
  move_on :
      (t : Thread)
      → Local cap q s.history cur stage i t
      → Kept cap (record s { thread = put s.thread i t })
  move_on t mine = quiet m v two s i inv q.stat_requests q.stat_send_full q.stat_recv_empty t mine

  below : (pos : ℕ) → seq_at pos ≤ q.req_tail + cap
  below pos = seq_of m v two s i inv small pos

  in_cap : (pos : ℕ) → pos % cap < cap
  in_cap pos = index-lt m v two s i inv small pos

  -- The slot that this thread fills, or empties.
  slot_facts :
      (pos : ℕ)
      → SlotInv cap q.req_head q.req_tail s.history
          (pos % cap)
          (q.slot (pos % cap))
          (cur (pos % cap))
          (stage (pos % cap))
  slot_facts pos = inv.queue.slots (pos % cap) (in_cap pos)

  module _ (x : Item) where
    abbrev next_send : SendPc → System
    next_send p = after_send_step s i x p (send_step m.req_cap_mask x b q p)

    send_load : (pos : ℕ) → pos ≤ q.req_tail → Kept cap (next_send (SendPc.load_seq pos))
    unfolding send_step
    send_load pos le = rw (slot_index v pos) (elim (Bool-cases (sub64 (seq_at pos) pos == 0)) [
      | inl z ↦ rw z (move_on (sender x (SendPc.claim pos)) (le, λ e. ground (arith, z, below pos)))
      | inr z ↦ rw z (elim (Bool-cases (leb sign_bit (sub64 (seq_at pos) pos))) [
        | inl y ↦ rw y (move_on (sender x SendPc.count_full) tt)
        | inr y ↦ rw y (move_on (sender x SendPc.load_tail) tt)
      ])
    ])

    send_win :
        (pos : ℕ)
        → q.req_tail ≡ pos
        → seq_at pos ≡ pos
        → Kept cap (record {
          queue = record q { req_tail = add64 pos 1 };
          thread = put s.thread i (sender x (SendPc.store pos));
          history = put s.history pos x;
          received = s.received;
        })
    send_win pos e seq =
        let c = pos % cap in
        let at_c : q.req_tail % cap ≡ c = ap (λ k. k % cap) e in
        let free = tail_vacant two inv.queue c (in_cap pos) at_c (seq ∙ sym e) in
        let one : add64 pos 1 ≡ q.req_tail + 1 = ground (arith, small, e) in
        rw one (
          subst
            (λ k. Kept cap (record {
              queue = record q { req_tail = q.req_tail + 1 };
              thread = put s.thread i (sender x (SendPc.store pos));
              history = put s.history k x;
              received = s.received;
            }))
            e
            (rebuild m v two s i inv (record q { req_tail = q.req_tail + 1 })
              (record {
                history = put s.history q.req_tail x;
                cur = cur;
                stage = put stage c (filling i);
              })
              (sender x (SendPc.store pos)) s.received
              (claim_send two inv.queue c (in_cap pos) x i at_c (seq ∙ sym e))
              (
                (free.1 ∙ e, put_self stage c (filling i)),
                subst (λ k. put s.history k x pos ≡ x) (sym e) (put_self s.history pos x),
              )
              (λ j ne. tail-Frame two q now inv.queue c j x (filling i) at_c free.0)
              (λ k y r.
                let (lt, h) = inv.got k y r in
                (lt, put_ne s.history q.req_tail x k (omega (arith, lt, inv.queue.ordered)) ∙ h))))

    send_claim :
        (pos : ℕ)
        → pos ≤ q.req_tail
        → (q.req_tail ≡ pos → seq_at pos ≡ pos)
        → Kept cap (next_send (SendPc.claim pos))
    unfolding send_step
    send_claim pos le h = elim (Bool-cases (b && (q.req_tail == pos))) [
      | inr z ↦ rw z (move_on (sender x (SendPc.load_seq q.req_tail)) (omega arith))
      | inl z ↦ let e : q.req_tail ≡ pos = ground (arith, z) in rw z (send_win pos e (h e))
    ]

    send_store :
        (pos : ℕ)
        → Mine cur stage (pos % cap) pos (filling i)
        → s.history pos ≡ x
        → Kept cap (next_send (SendPc.store pos))
    unfolding send_step
    send_store pos mine h =
        let c = pos % cap in
        let l : ReqIntSlot = record (q.slot c) { item = x } in
        let kept : QueueInv cap (record q { slot = put q.slot c l }) s.history cur stage =
          fill_slot two inv.queue c (in_cap pos) x i mine.1 in
        let same_cur : put cur c (cur c) ≡ cur = put_id cur c (cur c) refl in
        let same_stage : put stage c (filling i) ≡ stage = put_id stage c (filling i) mine.1 in
        rw (slot_index v pos) (
          own_slot m v two s i inv c (cur c) (filling i) (filling i) l
            (sender x (SendPc.publish pos)) s.received mine.1 (λ e. cc) (λ e. cc)
            (λ j ne e. ne (sym (ap (stage_owner i) e))) (λ j ne e. cc)
            (rw (same_cur, same_stage) kept)
            (
              (put_self cur c (cur c) ∙ mine.0, put_self stage c (filling i)),
              h,
              ap (λ (k : ReqIntSlot). k.item) (put_self q.slot c l),
            )
            inv.got)

    send_publish :
        (pos : ℕ)
        → Mine cur stage (pos % cap) pos (filling i)
        → s.history pos ≡ x
        → (q.slot (pos % cap)).item ≡ x
        → Kept cap (next_send (SendPc.publish pos))
    unfolding send_step
    send_publish pos mine h held =
        let c = pos % cap in
        let place : Place cap q.req_head q.req_tail (cur c) (filling i) =
          rw mine.1 at (slot_facts pos).place in
        let one : add64 pos 1 ≡ cur c + 1 = ground (arith, small, place, mine.0) in
        let l : ReqIntSlot = record (q.slot c) { sequence = add64 pos 1 } in
        let same_cur : put cur c (cur c) ≡ cur = put_id cur c (cur c) refl in
        rw (slot_index v pos) (
          own_slot m v two s i inv c (cur c) (filling i) filled l (sender x SendPc.count_sent)
            s.received mine.1 (λ e. cc) (λ e. cc) (λ j ne e. ne (sym (ap (stage_owner i) e)))
            (λ j ne e. cc)
            (rw same_cur (
              publish_slot two inv.queue c (in_cap pos) i (add64 pos 1) mine.1
                (held ∙ sym h ∙ ap s.history (sym mine.0)) one))
            tt inv.got)

    -- Each step of a sender keeps the invariant.
    pub send-Kept :
        (p : SendPc) → SendLocal cap q s.history cur stage i x p → Kept cap (next_send p)
    unfolding send_step
    send-Kept SendPc.load_tail l = move_on (sender x (SendPc.load_seq q.req_tail)) (omega arith)
    send-Kept (SendPc.load_seq pos) l = send_load pos l
    send-Kept (SendPc.claim pos) l = send_claim pos l.0 l.1
    send-Kept (SendPc.store pos) l = send_store pos l.0 l.1
    send-Kept (SendPc.publish pos) l = send_publish pos l.0 l.1 l.2
    send-Kept SendPc.count_sent l =
        quiet m v two s i inv (add64 q.stat_requests 1) q.stat_send_full q.stat_recv_empty
          (sender x SendPc.sent) tt
    send-Kept SendPc.count_full l =
        quiet m v two s i inv q.stat_requests (add64 q.stat_send_full 1) q.stat_recv_empty
          (sender x SendPc.full) tt
    send-Kept SendPc.sent l = move_on (sender x SendPc.sent) tt
    send-Kept SendPc.full l = move_on (sender x SendPc.full) tt
