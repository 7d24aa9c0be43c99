-- ===== src/Wakeup.antt =====
-- Whether a receiver that sleeps in `recvWait` (reqrep_queue.go) or `reqrep_recv_wait`
-- (gen/reqrep.h) is woken when a request comes: `wakeConsumers` of reqrep.go and
-- `reqrep_wake_consumers` of gen/reqrep.h, one access to shared memory a step.
pub mod Asleep
pub mod Lost
mod Tests
use go_data_reqrep_shared.Base.{ℕ, ◌+◌, ◌-◌, ◌^◌, ◌<◌, ◌≡◌, ◌≢◌, put, add32, sub32}

-- How many requests are in the queue, `recv_futex` and `recv_waiters`.
pub record Gate : Type 0 where
  pub requests : ℕ
  pub recv_futex : ℕ
  pub recv_waiters : ℕ

-- Where the receiver stands; `fseq` is the word that it has loaded.
pub data Receiver : Type 0 where
  resting : Receiver
  loaded : (fseq : ℕ) → Receiver  -- before its first try
  missed : (fseq : ℕ) → Receiver  -- it found the queue empty
  counted : (fseq : ℕ) → Receiver  -- before `futexWait`
  asleep : (fseq : ℕ) → Receiver
  awake : Receiver  -- before it counts itself out
  again : Receiver  -- before its second try
  served : Receiver

-- Where a sender stands.
pub data Sender : Type 0 where
  idle : Sender
  enqueued : Sender  -- before `wakeConsumers`
  seen : Sender  -- C: has seen a waiter
  bumped : Sender  -- Go: before the load of the waiters
  calling : Sender  -- before the wake call

pub data Language : Type 0 where
  go_sender c_sender : Language

pub record System : Type 0 where
  pub gate : Gate
  pub receiver : Receiver
  pub sender : ℕ → Sender

-- A wake call ends the wait of the receiver, as futex(2) has it.
abbrev pub woken : Receiver → Receiver
woken resting = resting
woken (loaded fseq) = loaded fseq
woken (missed fseq) = missed fseq
woken (counted fseq) = counted fseq
woken (asleep fseq) = awake
woken awake = awake
woken again = again
woken served = served

abbrev pub recv_moves : System → Gate → Receiver → System
recv_moves s g r = record { gate = g; receiver = r; sender = s.sender }

abbrev pub send_moves : System → ℕ → Gate → Receiver → Sender → System
send_moves s i g r p = record { gate = g; receiver = r; sender = put s.sender i p }

-- One step of the receiver or of a sender. A try of the queue is one step, since it runs under the
-- arena mutex. `futexWait` sleeps only if the word is still `fseq`, and may end for any reason.
pub data Step (l : Language) (s : System) : System → Type 0 where
  load : s.receiver ≡ resting → Step l s (recv_moves s s.gate (loaded s.gate.recv_futex))
  take :
      {fseq : ℕ}
      → s.receiver ≡ loaded fseq
      → 0 < s.gate.requests
      → Step l s (recv_moves s (record s.gate { requests = s.gate.requests - 1 }) served)
  miss :
      {fseq : ℕ}
      → s.receiver ≡ loaded fseq
      → s.gate.requests ≡ 0
      → Step l s (recv_moves s s.gate (missed fseq))
  count :
      {fseq : ℕ}
      → s.receiver ≡ missed fseq
      → Step l s (
          recv_moves s
            (record s.gate { recv_waiters = add32 s.gate.recv_waiters 1 })
            (counted fseq))
  sleep :
      {fseq : ℕ}
      → s.receiver ≡ counted fseq
      → s.gate.recv_futex ≡ fseq
      → Step l s (recv_moves s s.gate (asleep fseq))
  stay :
      {fseq : ℕ}
      → s.receiver ≡ counted fseq
      → s.gate.recv_futex ≢ fseq
      → Step l s (recv_moves s s.gate awake)
  rouse : {fseq : ℕ} → s.receiver ≡ asleep fseq → Step l s (recv_moves s s.gate awake)
  uncount :
      s.receiver ≡ awake
      → Step l s (recv_moves s (record s.gate { recv_waiters = sub32 s.gate.recv_waiters 1 }) again)
  take_again :
      s.receiver ≡ again
      → 0 < s.gate.requests
      → Step l s (recv_moves s (record s.gate { requests = s.gate.requests - 1 }) served)
  miss_again : s.receiver ≡ again → s.gate.requests ≡ 0 → Step l s (recv_moves s s.gate resting)
  call : s.receiver ≡ served → Step l s (recv_moves s s.gate resting)
  enqueue :
      (i : ℕ)
      → s.sender i ≡ idle
      → Step l s
          (send_moves s i (record s.gate { requests = s.gate.requests + 1 }) s.receiver enqueued)
  go_bump :
      (i : ℕ)
      → l ≡ go_sender
      → s.sender i ≡ enqueued
      → Step l s (
          send_moves s i
            (record s.gate { recv_futex = add32 s.gate.recv_futex 1 })
            s.receiver
            bumped)
  c_look :
      (i : ℕ)
      → l ≡ c_sender
      → s.sender i ≡ enqueued
      → 0 < s.gate.recv_waiters
      → Step l s (send_moves s i s.gate s.receiver seen)
  c_leave :
      (i : ℕ)
      → l ≡ c_sender
      → s.sender i ≡ enqueued
      → s.gate.recv_waiters ≡ 0
      → Step l s (send_moves s i s.gate s.receiver idle)
  c_bump :
      (i : ℕ)
      → l ≡ c_sender
      → s.sender i ≡ seen
      → Step l s (
          send_moves s i
            (record s.gate { recv_futex = add32 s.gate.recv_futex 1 })
            s.receiver
            calling)
  wake : (i : ℕ) → s.sender i ≡ calling → Step l s (send_moves s i s.gate (woken s.receiver) idle)
  go_look :
      (i : ℕ)
      → l ≡ go_sender
      → s.sender i ≡ bumped
      → 0 < s.gate.recv_waiters
      → Step l s (send_moves s i s.gate s.receiver calling)
  go_leave :
      (i : ℕ)
      → l ≡ go_sender
      → s.sender i ≡ bumped
      → s.gate.recv_waiters ≡ 0
      → Step l s (send_moves s i s.gate s.receiver idle)

-- A run in which the word does not come round.
pub data Reach (l : Language) (s : System) : System → Type 0 where
  here : Reach l s s
  next : {t u : System} → Reach l s t → t.gate.recv_futex + 1 < 2 ^ 32 → Step l t u → Reach l s u

-- Nobody has started.
pub record IsFresh (s : System) : Type 0 where
  pub at_rest : s.receiver ≡ resting
  pub no_waiter : s.gate.recv_waiters ≡ 0
  pub all_idle : (i : ℕ) → s.sender i ≡ idle
