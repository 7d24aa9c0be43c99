-- ===== src/IntMode/KeepRecv.antt =====
-- Each step of a receiver keeps the invariant.
use go_data_reqrep_shared.Base.{
  ℕ, ◌+◌, ◌^◌, ◌%◌, ◌≤◌, ◌<◌, ◌≡◌, inl, inr, Bool-cases, sym, ap, ◌∙◌, Bool, some, put, put_self,
  put_all, arith, add64, add32, sub64, ◌==◌, leb, ◌&&◌,
}
use go_data_reqrep_shared.Shm.{Shm}
use go_data_reqrep_shared.Queue.Window.{IsSetUp, slot_index}
use go_data_reqrep_shared.IntMode.{Item, ReqIntSlot, IntQueue, RecvPc, recv_step, sign_bit}
use go_data_reqrep_shared.IntMode.System.{Thread, receiver, System, after_recv_step}
use go_data_reqrep_shared.IntMode.Inv.{
  stage_owner, RecvLocal, Holds, Place, Stage, vacant, emptying, Mine, Local, SlotInv, Inv,
}
use go_data_reqrep_shared.IntMode.Slots.{claim_recv, release_slot, head_filled}
use go_data_reqrep_shared.IntMode.Locals.{Ghosts, head-Frame}
use go_data_reqrep_shared.IntMode.Keep.{Kept, rebuild, quiet, own_slot, seq_of, index-lt}

module _ (m : Shm) (v : IsSetUp m) (two : 2 ≤ m.req_cap) (s : System) (i : ℕ) {cur : ℕ → ℕ}
    {stage : ℕ → Stage} (inv : Inv m.req_cap s cur stage)
    (small : s.queue.req_tail + m.req_cap < 2 ^ 63) (b : Bool) where
  abbrev cap : ℕ
  cap = m.req_cap

  abbrev q : IntQueue
  q = s.queue

  abbrev now : Ghosts
  now = record { history = s.history; cur = cur; stage = stage }

  abbrev seq_at : ℕ → ℕ
  seq_at pos = (q.slot (pos % cap)).sequence

  -- Thread `i` is at `t` and nothing else changes.
  move_on :
      (t : Thread)
      → Local cap q s.history cur stage i t
      → Kept cap (record s { thread = put s.thread i t })
  move_on t mine = quiet m v two s i inv q.stat_requests q.stat_send_full q.stat_recv_empty t mine

  below : (pos : ℕ) → seq_at pos ≤ q.req_tail + cap
  below pos = seq_of m v two s i inv small pos

  in_cap : (pos : ℕ) → pos % cap < cap
  in_cap pos = index-lt m v two s i inv small pos

  -- The slot that this thread fills, or empties.
  slot_facts :
      (pos : ℕ)
      → SlotInv cap q.req_head q.req_tail s.history
          (pos % cap)
          (q.slot (pos % cap))
          (cur (pos % cap))
          (stage (pos % cap))
  slot_facts pos = inv.queue.slots (pos % cap) (in_cap pos)

  abbrev next_recv : RecvPc → System
  next_recv p = after_recv_step s i p (recv_step cap m.req_cap_mask b q p)

  recv_load : (pos : ℕ) → pos ≤ q.req_head → Kept cap (next_recv (RecvPc.load_seq pos))
  unfolding recv_step
  recv_load pos le =
      rw (slot_index v pos) (elim (Bool-cases (sub64 (seq_at pos) (add64 pos 1) == 0)) [
        | inl z ↦ rw z (
            move_on (receiver (RecvPc.claim pos))
              (le, λ e. ground (arith, z, small, inv.queue.ordered, below pos)))
        | inr z ↦ rw z (elim (Bool-cases (leb sign_bit (sub64 (seq_at pos) (add64 pos 1)))) [
          | inl y ↦ rw y (move_on (receiver RecvPc.count_empty) tt)
          | inr y ↦ rw y (move_on (receiver RecvPc.load_head) tt)
        ])
      ])

  recv_win :
      (pos : ℕ)
      → q.req_head ≡ pos
      → seq_at pos ≡ pos + 1
      → Kept cap (record s {
        queue = record q { req_head = add64 pos 1 };
        thread = put s.thread i (receiver (RecvPc.read pos));
      })
  recv_win pos e seq =
      let c = pos % cap in
      let at_c : q.req_head % cap ≡ c = ap (λ k. k % cap) e in
      let ahead : seq_at pos ≡ q.req_head + 1 = seq ∙ ap (λ k. k + 1) (sym e) in
      let held = head_filled two inv.queue c (in_cap pos) at_c ahead in
      let one : add64 pos 1 ≡ q.req_head + 1 = ground (arith, small, inv.queue.ordered, e) in
      rw one (
        rebuild m v two s i inv (record q { req_head = q.req_head + 1 })
          (record { history = s.history; cur = cur; stage = put stage c (emptying i) })
          (receiver (RecvPc.read pos)) s.received
          (claim_recv two inv.queue c (in_cap pos) i at_c ahead)
          (held.1 ∙ e, put_self stage c (emptying i))
          (λ j ne. head-Frame two q now inv.queue c j (emptying i) held.0)
          (λ k y r. let (lt, h) = inv.got k y r in (omega (arith, lt), h)))

  recv_claim :
      (pos : ℕ)
      → pos ≤ q.req_head
      → (q.req_head ≡ pos → seq_at pos ≡ pos + 1)
      → Kept cap (next_recv (RecvPc.claim pos))
  unfolding recv_step
  recv_claim pos le h = elim (Bool-cases (b && (q.req_head == pos))) [
    | inr z ↦ rw z (move_on (receiver (RecvPc.load_seq q.req_head)) (omega arith))
    | inl z ↦ let e : q.req_head ≡ pos = ground (arith, z) in rw z (recv_win pos e (h e))
  ]

  recv_read :
      (pos : ℕ)
      → Mine cur stage (pos % cap) pos (emptying i)
      → Kept cap (next_recv (RecvPc.read pos))
  unfolding recv_step
  recv_read pos mine =
      let c = pos % cap in
      let holds : Holds (q.slot c).item (s.history (cur c)) (emptying i) =
        rw mine.1 at (slot_facts pos).holds in
      rw (slot_index v pos) (
        move_on (receiver (RecvPc.release pos (q.slot c).item))
          (mine, sym (holds ∙ ap s.history mine.0)))

  recv_release :
      (pos : ℕ) (x : Item)
      → Mine cur stage (pos % cap) pos (emptying i)
      → s.history pos ≡ x
      → Kept cap (next_recv (RecvPc.release pos x))
  unfolding recv_step
  recv_release pos x mine h =
      let c = pos % cap in
      let place : Place cap q.req_head q.req_tail (cur c) (emptying i) =
        rw mine.1 at (slot_facts pos).place in
      let turn : add64 pos cap ≡ cur c + cap =
        ground (arith, small, place, mine.0, inv.queue.ordered) in
      let l : ReqIntSlot = record (q.slot c) { sequence = add64 pos cap } in
      rw (slot_index v pos) (
        own_slot m v two s i inv c (add64 pos cap) (emptying i) vacant l (receiver (RecvPc.got x))
          (put s.received pos (some x)) mine.1 (λ e. cc) (λ e. cc) (λ j ne e. cc)
          (λ j ne e. ne (sym (ap (stage_owner i) e)))
          (release_slot two inv.queue c (in_cap pos) i (add64 pos cap) mine.1 turn) tt
          (put_all s.received pos
            (λ k o. (y : Item) → o ≡ some y → (k < q.req_head) × (s.history k ≡ y)) (some x)
            (λ y e. (omega (arith, place, mine.0), h ∙ cc)) (λ k ne y e. inv.got k y e)))

  -- Each step of a receiver keeps the invariant.
  pub recv-Kept : (p : RecvPc) → RecvLocal cap q s.history cur stage i p → Kept cap (next_recv p)
  unfolding recv_step
  recv-Kept RecvPc.load_head l = move_on (receiver (RecvPc.load_seq q.req_head)) (omega arith)
  recv-Kept (RecvPc.load_seq pos) l = recv_load pos l
  recv-Kept (RecvPc.claim pos) l = recv_claim pos l.0 l.1
  recv-Kept (RecvPc.read pos) l = recv_read pos l
  recv-Kept (RecvPc.release pos x) l = recv_release pos x l.0 l.1
  recv-Kept RecvPc.count_empty l =
      quiet m v two s i inv q.stat_requests q.stat_send_full (add32 q.stat_recv_empty 1)
        (receiver RecvPc.empty) tt
  recv-Kept (RecvPc.got x) l = move_on (receiver (RecvPc.got x)) tt
  recv-Kept RecvPc.empty l = move_on (receiver RecvPc.empty) tt
