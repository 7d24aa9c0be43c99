-- ===== src/Wakeup/Lost.antt =====
-- A C sender that comes between the receiver's try and its count of itself does not wake it.
use go_data_reqrep_shared.Base.{
  ℕ, ◌+◌, ◌^◌, ◌<◌, ◌≡◌, refl, ◌∙◌, put, put_self, put_ne, put_all, add32, arith,
}
use go_data_reqrep_shared.Wakeup.{
  Gate, System, Reach, IsFresh, c_sender, recv_moves, send_moves, loaded, missed, counted, asleep,
  idle, enqueued, load, miss, count, sleep, enqueue, c_leave, here, next,
}

module _ (s : System) (f : IsFresh s) (empty : s.gate.requests ≡ 0)
    (small : s.gate.recv_futex + 1 < 2 ^ 32) (i : ℕ) where
  abbrev word : ℕ
  word = s.gate.recv_futex

  abbrev looked : System
  looked = recv_moves (recv_moves s s.gate (loaded word)) s.gate (missed word)

  abbrev one_more : Gate
  one_more = record s.gate { requests = s.gate.requests + 1 }

  abbrev left : System
  left =
      send_moves (send_moves looked i one_more (missed word) enqueued) i one_more (missed word) idle

  abbrev waiting : Gate
  waiting = record one_more { recv_waiters = add32 s.gate.recv_waiters 1 }

  abbrev stuck : System
  stuck = recv_moves (recv_moves left waiting (counted word)) waiting (asleep word)

  looked-Reach : Reach c_sender s looked
  looked-Reach = next (next here small (load f.at_rest)) small (miss refl empty)

  left-Reach : Reach c_sender s left
  left-Reach =
      next (next looked-Reach small (enqueue i (f.all_idle i))) small
        (c_leave i refl (put_self s.sender i enqueued) f.no_waiter)

  stuck-Reach : Reach c_sender s stuck
  stuck-Reach = next (next left-Reach small (count refl)) small (sleep refl refl)

  -- With C senders, from a start with nobody at work, an empty queue and a word below 2 ^ 32 -
  -- 1, there is a run after which the receiver sleeps although a request is in the queue, and
  -- every sender has finished.
  pub lost_wakeup :
      (t : System) × Reach c_sender s t
      × (t.receiver ≡ asleep s.gate.recv_futex)
      × (t.gate.requests ≡ 1)
      × ((j : ℕ) → t.sender j ≡ idle)
  lost_wakeup = (
    stuck,
    stuck-Reach,
    refl,
    omega (arith, empty),
    put_all (put s.sender i enqueued) i (λ j p. p ≡ idle) idle refl
        (λ j ne. put_ne s.sender i enqueued j ne ∙ f.all_idle j),
  )
