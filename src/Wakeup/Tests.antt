-- ===== src/Wakeup/Tests.antt =====
-- One receiver and one sender.
use go_data_reqrep_shared.Base.{ℕ, ◌≡◌, ◌⊎◌, refl, arith}
use go_data_reqrep_shared.Wakeup.{
  Gate, System, Reach, IsFresh, go_sender, c_sender, resting, asleep, idle, enqueued, bumped,
  calling, send_moves, load, miss, count, sleep, enqueue, here, next,
}
use go_data_reqrep_shared.Wakeup.Asleep.{never_lost}
use go_data_reqrep_shared.Wakeup.Lost.{lost_wakeup}

abbrev gate : Gate
gate = record { requests = 0; recv_futex = 5; recv_waiters = 0 }

abbrev init : System
init = record { gate = gate; receiver = resting; sender = λ i. idle }

init-IsFresh : IsFresh init
init-IsFresh = record { at_rest = refl; no_waiter = refl; all_idle = λ i. refl }

abbrev waiting : Gate
waiting = record gate { recv_waiters = 1 }

abbrev sleeping : System
sleeping = record { gate = waiting; receiver = asleep 5; sender = λ i. idle }

sleeping-Reach : Reach go_sender init sleeping
sleeping-Reach =
    next
      (next (next (next here (omega arith) (load refl)) (omega arith) (miss refl refl))
        (omega arith) (count refl))
      (omega arith) (sleep refl refl)

abbrev sending : System
sending = send_moves sleeping 3 (record waiting { requests = 1 }) (asleep 5) enqueued

never_lost_example :
    (i : ℕ) × ((sending.sender i ≡ enqueued)
      ⊎ (sending.sender i ≡ bumped)
      ⊎ (sending.sender i ≡ calling))
never_lost_example =
    never_lost init sending 5 init-IsFresh (next sleeping-Reach (omega arith) (enqueue 3 refl)) refl
      (omega arith)

lost_wakeup_example :
    (t : System) × Reach c_sender init t
    × (t.receiver ≡ asleep 5)
    × (t.gate.requests ≡ 1)
    × ((j : ℕ) → t.sender j ≡ idle)
lost_wakeup_example = lost_wakeup init init-IsFresh refl (omega arith) 3
