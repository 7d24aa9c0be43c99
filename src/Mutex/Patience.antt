-- ===== src/Mutex/Patience.antt =====
-- A mutex is taken over only after two waits that have timed out.
use go_data_reqrep_shared.Base.{ℕ, ◌+◌, ◌≤◌, ◌≡◌, ◌≢◌, refl, Bool, ◌⊎◌, inl, inr, arith}
use go_data_reqrep_shared.Mutex.{Lock}
use go_data_reqrep_shared.Mutex.Go
use go_data_reqrep_shared.Mutex.Takeover.{waited, Solo, rest, step}

-- How many waits have timed out, by where the thread stands.
abbrev Waits : ℕ → Go.Pc → Type 0
Waits n (Go.spin k c last) = c ≤ n
Waits n (Go.registered c last) = c ≤ n
Waits n (Go.asleep cur c last) = c ≤ n
Waits n (Go.timed_out c last) = c + 1 ≤ n
Waits n (Go.looking c last) = c + 1 ≤ n
Waits n (Go.asking val c last) = c + 1 ≤ n
Waits n (Go.counting val c last) = c + 1 ≤ n
Waits n (Go.recovering val) = 2 ≤ n
Waits n (Go.freed val) = 2 ≤ n
Waits n (Go.counted val) = 2 ≤ n
Waits n (Go.leaving c last) = c ≤ n
Waits n (Go.retry c last) = c ≤ n
Waits n p = Unit {0}

-- A recovery comes after two waits that have timed out.
abbrev Patient : ℕ → ℕ → ℕ → Type 0
Patient before n after = (after ≡ before) ⊎ (2 ≤ n)

later : {before n b after : ℕ} → n ≤ b → Patient before n after → Patient before b after
later e (inl same) = inl same
later e (inr h) = inr (omega arith)

next_count-le : (val c last n : ℕ) → c + 1 ≤ n → Go.next_count val c last ≤ n
next_count-le val c last n h = ground arith

module _ {dead : ℕ → Bool} {pid : ℕ} (m : Lock) where
  Move-Waits :
      {n b : ℕ} {m' m'' : Lock} {p p' : Go.Pc} (mv : Go.Move dead pid m' p m'' p')
      → b ≡ n + waited mv
      → Waits n p × Patient m.recoveries n m'.recoveries
      → Waits b p' × Patient m.recoveries b m''.recoveries
  Move-Waits {n} Go.start e (w, r) = (omega arith, later (omega (arith, e)) r)
  Move-Waits {n} (Go.spin_win h h2) e (w, r) = (tt, later (omega (arith, e)) r)
  Move-Waits {n} (Go.spin_lose h h2) e (w, r) = (omega (arith, e, w), later (omega (arith, e)) r)
  Move-Waits {n} (Go.register h) e (w, r) = (omega (arith, e, w), later (omega (arith, e)) r)
  Move-Waits {n} (Go.seen_free h) e (w, r) = (omega (arith, e, w), later (omega (arith, e)) r)
  Move-Waits {n} (Go.sleep h) e (w, r) = (omega (arith, e, w), later (omega (arith, e)) r)
  Move-Waits {n} Go.woken e (w, r) = (omega (arith, e, w), later (omega (arith, e)) r)
  Move-Waits {n} Go.timeout e (w, r) = (omega (arith, e, w), later (omega (arith, e)) r)
  Move-Waits {n} Go.unregister e (w, r) = (omega (arith, e, w), later (omega (arith, e)) r)
  Move-Waits {n} (Go.look_free h) e (w, r) = (omega (arith, e, w), later (omega (arith, e)) r)
  Move-Waits {n} (Go.look_held h) e (w, r) = (omega (arith, e, w), later (omega (arith, e)) r)
  Move-Waits {n} Go.found e (w, r) = (omega arith, later (omega (arith, e)) r)
  Move-Waits {n} (Go.not_found h h2) e (w, r) = (omega (arith, e, w), later (omega (arith, e)) r)
  Move-Waits {n} (Go.too_early {val} {n = c} {last} h) e (w, r) =
      (omega (arith, e, next_count-le val c last n w), later (omega (arith, e)) r)
  Move-Waits {n} (Go.recover {val} {n = c} {last} h) e (w, r) =
      (omega (arith, e, h, next_count-le val c last n w), later (omega (arith, e)) r)
  Move-Waits {n} (Go.recover_win h) e (w, r) = (omega (arith, e, w), later (omega (arith, e)) r)
  Move-Waits {n} (Go.recover_lose h) e (w, r) = (omega arith, later (omega (arith, e)) r)
  Move-Waits {n} Go.recover_count e (w, r) = (omega (arith, e, w), inr (omega (arith, e, w)))
  Move-Waits {n} Go.recover_wake e (w, r) = (omega arith, later (omega (arith, e)) r)
  Move-Waits {n} Go.leave e (w, r) = (omega (arith, e, w), later (omega (arith, e)) r)
  Move-Waits {n} (Go.retry_win h) e (w, r) = (tt, later (omega (arith, e)) r)
  Move-Waits {n} (Go.retry_lose h) e (w, r) = (omega (arith, e, w), later (omega (arith, e)) r)
  Move-Waits {n} Go.unlock e (w, r) = (tt, later (omega (arith, e)) r)
  Move-Waits {n} Go.wake e (w, r) = (tt, later (omega (arith, e)) r)

  Solo-Waits :
      {n : ℕ} {m' : Lock} {p : Go.Pc}
      → Solo dead pid m Go.idle n m' p
      → Waits n p × Patient m.recoveries n m'.recoveries
  Solo-Waits rest = (tt, inl refl)
  Solo-Waits (step run mv e) = Move-Waits mv e (Solo-Waits run)

-- In any run of steps of one Go thread alone, from idle on, the count of recoveries has changed only
-- after at least two of its waits have timed out.
pub patience :
    {dead : ℕ → Bool} {pid n : ℕ} {m m' : Lock} {p : Go.Pc}
    → Solo dead pid m Go.idle n m' p
    → m'.recoveries ≢ m.recoveries
    → 2 ≤ n
patience run other = elim (Solo-Waits _ run).1 [ inl same ↦ absurd (other same) | inr h ↦ h ]
