-- ===== src/Wakeup/Asleep.antt =====
-- A receiver does not sleep over a request of a Go sender.
use go_data_reqrep_shared.Base.{
  ℕ, ◌+◌, ◌^◌, ◌≤◌, ◌<◌, ◌≡◌, ◌≢◌, ◌⊎◌, inl, inr, sym, ap, ◌∙◌, subst, put, put_self, put_ne, add32,
  arith,
}
use go_data_reqrep_shared.Wakeup.{
  Gate, Receiver, Sender, System, Step, Reach, IsFresh, woken, go_sender,
}
use go_data_reqrep_shared.Wakeup.{
  resting, loaded, missed, counted, asleep, awake, again, served, idle, enqueued, bumped, calling,
  load, take, miss, count, sleep, stay, rouse, uncount, take_again, miss_again, call, enqueue,
  go_bump, c_look, c_leave, c_bump, wake, go_look, go_leave, here, next,
}

-- Some sender stands there.
abbrev pub Someone : (ℕ → Sender) → Sender → Type 0
Someone f p = (i : ℕ) × (f i ≡ p)

-- No request, or one whose sender has yet to move the word on.
abbrev Quiet : Gate → (ℕ → Sender) → Type 0
Quiet g f = (g.requests ≡ 0) ⊎ Someone f enqueued

abbrev Local : Gate → (ℕ → Sender) → Receiver → Type 0
Local g f resting = g.recv_waiters ≡ 0
Local g f (loaded n) = (g.recv_waiters ≡ 0) × (n ≤ g.recv_futex)
Local g f (missed n) = (g.recv_waiters ≡ 0) × (n ≤ g.recv_futex) × ((g.recv_futex ≡ n) → Quiet g f)
Local g f (counted n) = (g.recv_waiters ≡ 1) × (n ≤ g.recv_futex) × ((g.recv_futex ≡ n) → Quiet g f)
Local g f (asleep n) = (g.recv_waiters ≡ 1) × (Quiet g f ⊎ Someone f bumped ⊎ Someone f calling)
Local g f awake = g.recv_waiters ≡ 1
Local g f again = g.recv_waiters ≡ 0
Local g f served = g.recv_waiters ≡ 0

-- A sender that has not the stage `p` may go on.
else-Someone :
    (f : ℕ → Sender) (i : ℕ) (p new : Sender) → f i ≢ p → Someone f p → Someone (put f i new) p
else-Someone f i p new ne (j, e) = (j, put_ne f i new j (λ z. ne (ap f (sym z) ∙ e)) ∙ e)

one-Someone : (f : ℕ → Sender) (i : ℕ) (p : Sender) → Someone (put f i p) p
one-Someone f i p = (i, put_self f i p)

-- A request is put into the queue.
enqueue-Local :
    (g : Gate) (f : ℕ → Sender) (i : ℕ) (r : Receiver)
    → f i ≡ idle
    → Local g f r
    → Local (record g { requests = g.requests + 1 }) (put f i enqueued) r
enqueue-Local g f i resting e l = l
enqueue-Local g f i (loaded n) e l = l
enqueue-Local g f i (missed n) e l = (l.0, l.1, λ z. inr (one-Someone f i enqueued))
enqueue-Local g f i (counted n) e l = (l.0, l.1, λ z. inr (one-Someone f i enqueued))
enqueue-Local g f i (asleep n) e l = (l.0, inl (inr (one-Someone f i enqueued)))
enqueue-Local g f i awake e l = l
enqueue-Local g f i again e l = l
enqueue-Local g f i served e l = l

-- The word moves on.
bump-Local :
    (g : Gate) (f : ℕ → Sender) (i : ℕ) (r : Receiver)
    → g.recv_futex + 1 < 2 ^ 32
    → Local g f r
    → Local (record g { recv_futex = add32 g.recv_futex 1 }) (put f i bumped) r
bump-Local g f i resting small l = l
bump-Local g f i (loaded n) small l = (l.0, omega (arith, l.1))
bump-Local g f i (missed n) small l = (l.0, omega (arith, l.1), λ z. absurd (omega (arith, l.1, z)))
bump-Local g f i (counted n) small l =
    (l.0, omega (arith, l.1), λ z. absurd (omega (arith, l.1, z)))
bump-Local g f i (asleep n) small l = (l.0, inr (inl (one-Someone f i bumped)))
bump-Local g f i awake small l = l
bump-Local g f i again small l = l
bump-Local g f i served small l = l

else-Quiet :
    (g : Gate) (f : ℕ → Sender) (i : ℕ) (new : Sender)
    → f i ≢ enqueued
    → Quiet g f
    → Quiet g (put f i new)
else-Quiet g f i new ne (inl z) = inl z
else-Quiet g f i new ne (inr o) = inr (else-Someone f i enqueued new ne o)

-- A wake call, which ends a wait.
wake-Local :
    (g : Gate) (f : ℕ → Sender) (i : ℕ) (r : Receiver)
    → f i ≡ calling
    → Local g f r
    → Local g (put f i idle) (woken r)
wake-Local g f i resting e l = l
wake-Local g f i (loaded n) e l = l
wake-Local g f i (missed n) e l = (l.0, l.1, λ z. else-Quiet g f i idle (λ z'. cc) (l.2 z))
wake-Local g f i (counted n) e l = (l.0, l.1, λ z. else-Quiet g f i idle (λ z'. cc) (l.2 z))
wake-Local g f i (asleep n) e l = l.0
wake-Local g f i awake e l = l
wake-Local g f i again e l = l
wake-Local g f i served e l = l

-- Somebody waits, and the wake call comes next.
look-Local :
    (g : Gate) (f : ℕ → Sender) (i : ℕ) (r : Receiver)
    → f i ≡ bumped
    → Local g f r
    → Local g (put f i calling) r
look-Local g f i resting e l = l
look-Local g f i (loaded n) e l = l
look-Local g f i (missed n) e l = (l.0, l.1, λ z. else-Quiet g f i calling (λ z'. cc) (l.2 z))
look-Local g f i (counted n) e l = (l.0, l.1, λ z. else-Quiet g f i calling (λ z'. cc) (l.2 z))
look-Local g f i (asleep n) e l = (l.0, inr (inr (one-Someone f i calling)))
look-Local g f i awake e l = l
look-Local g f i again e l = l
look-Local g f i served e l = l

-- No wake call where nobody waits.
leave-Local :
    (g : Gate) (f : ℕ → Sender) (i : ℕ) (r : Receiver)
    → f i ≡ bumped
    → g.recv_waiters ≡ 0
    → Local g f r
    → Local g (put f i idle) r
leave-Local g f i resting e z l = l
leave-Local g f i (loaded n) e z l = l
leave-Local g f i (missed n) e z l = (l.0, l.1, λ k. else-Quiet g f i idle (λ z'. cc) (l.2 k))
leave-Local g f i (counted n) e z l = absurd (omega (arith, l.0, z))
leave-Local g f i (asleep n) e z l = absurd (omega (arith, l.0, z))
leave-Local g f i awake e z l = l
leave-Local g f i again e z l = l
leave-Local g f i served e z l = l

abbrev Kept : System → Type 0
Kept s = Local s.gate s.sender s.receiver

at-Local : (s : System) (r : Receiver) → s.receiver ≡ r → Kept s → Local s.gate s.sender r
at-Local s r e k = subst (Local s.gate s.sender) e k

Step-Kept : (s t : System) → s.gate.recv_futex + 1 < 2 ^ 32 → Step go_sender s t → Kept s → Kept t
Step-Kept s t small (load e) k = (at-Local s resting e k, omega arith)
Step-Kept s t small (take {fseq} e more) k = (at-Local s (loaded fseq) e k).0
Step-Kept s t small (miss {fseq} e none) k =
    let l = at-Local s (loaded fseq) e k in (l.0, l.1, λ z. inl none)
Step-Kept s t small (count {fseq} e) k =
    let l = at-Local s (missed fseq) e k in (omega (arith, l.0), l.1, l.2)
Step-Kept s t small (sleep {fseq} e same) k =
    let l = at-Local s (counted fseq) e k in (l.0, inl (l.2 same))
Step-Kept s t small (stay {fseq} e other) k = (at-Local s (counted fseq) e k).0
Step-Kept s t small (rouse {fseq} e) k = (at-Local s (asleep fseq) e k).0
Step-Kept s t small (uncount e) k = let l = at-Local s awake e k in omega (arith, l)
Step-Kept s t small (take_again e more) k = at-Local s again e k
Step-Kept s t small (miss_again e none) k = at-Local s again e k
Step-Kept s t small (call e) k = at-Local s served e k
Step-Kept s t small (enqueue i e) k = enqueue-Local s.gate s.sender i s.receiver e k
Step-Kept s t small (go_bump i l e) k = bump-Local s.gate s.sender i s.receiver small k
Step-Kept s t small (c_look i l e some_one) k = absurd (cc l)
Step-Kept s t small (c_leave i l e nobody) k = absurd (cc l)
Step-Kept s t small (c_bump i l e) k = absurd (cc l)
Step-Kept s t small (wake i e) k = wake-Local s.gate s.sender i s.receiver e k
Step-Kept s t small (go_look i l e some_one) k = look-Local s.gate s.sender i s.receiver e k
Step-Kept s t small (go_leave i l e nobody) k = leave-Local s.gate s.sender i s.receiver e nobody k

Reach-Kept : (s t : System) → IsFresh s → Reach go_sender s t → Kept t
Reach-Kept s t f here = rw f.at_rest f.no_waiter
Reach-Kept s t f (next {t = u} r small st) = Step-Kept u t small st (Reach-Kept s u f r)

-- With Go senders, from a start with nobody at work and while the word stays below 2 ^ 32, whenever
-- the receiver sleeps and a request is in the queue, some sender has yet to move the word on, or has
-- moved it on and has yet to look for waiters or to make its wake call.
pub never_lost :
    (s t : System) (fseq : ℕ)
    → IsFresh s
    → Reach go_sender s t
    → t.receiver ≡ asleep fseq
    → 0 < t.gate.requests
    → (i : ℕ) × ((t.sender i ≡ enqueued) ⊎ (t.sender i ≡ bumped) ⊎ (t.sender i ≡ calling))
never_lost s t fseq f run e more = elim (at-Local t (asleep fseq) e (Reach-Kept s t f run)).1 [
  | inl (inl none) ↦ absurd (omega (arith, none, more))
  | inl (inr o) ↦ (o.0, inl o.1)
  | inr (inl o) ↦ (o.0, inr (inl o.1))
  | inr (inr o) ↦ (o.0, inr (inr o.1))
]
