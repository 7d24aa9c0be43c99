-- ===== src/Mutex/Takeover.antt =====
-- A mutex whose holder has died is taken over.
use go_data_reqrep_shared.Base.{
  put, put-put, put_id, put_self, subst, ℕ, zero, suc, ◌+◌, ◌<◌, ◌≤◌, ◌≡◌, ◌≢◌, refl, sym, ap, Bool,
  true, false, arith, add32, sub32, u32_mod,
}
use go_data_reqrep_shared.Mutex.{Lock, lock_value, holder, writer_bit, spin_limit, wake_one}
use go_data_reqrep_shared.Mutex.Go
use go_data_reqrep_shared.Mutex.System.{go, System, go_step, Reach, here, next}

-- 1 for a wait that times out.
abbrev pub waited :
    {dead : ℕ → Bool} {pid : ℕ} {m : Lock} {p : Go.Pc} {m' : Lock} {p' : Go.Pc}
    → Go.Move dead pid m p m' p'
    → ℕ
waited Go.timeout = 1
waited mv = 0

-- A thread that moves alone, with the number of its waits that have timed out.
pub data Solo (dead : ℕ → Bool) (pid : ℕ) (m : Lock) (p : Go.Pc) : ℕ → Lock → Go.Pc → Type 0 where
  rest : Solo dead pid m p 0 m p
  step :
      {a b : ℕ} {m' m'' : Lock} {p' p'' : Go.Pc}
      → Solo dead pid m p a m' p'
      → (mv : Go.Move dead pid m' p' m'' p'') → b ≡ a + waited mv
      → Solo dead pid m p b m'' p''

-- What the takeover leaves.
abbrev pub taken_over : ℕ → Lock → Lock
taken_over pid m = record (wake_one m) { word = lock_value pid; recoveries = add32 m.recoveries 1 }

module _ {dead : ℕ → Bool} {pid : ℕ} where
  join :
      {m m' : Lock} {p p' : Go.Pc} {a b : ℕ} {m'' : Lock} {p'' : Go.Pc}
      → Solo dead pid m p a m' p'
      → Solo dead pid m' p' b m'' p''
      → Solo dead pid m p (a + b) m'' p''
  join {a} r rest = let e : a + 0 ≡ a = omega arith in rw e r
  join {a} r (step {a = b'} {b = c} run mv e) = step (join r run) mv (omega (arith, e))

  -- A step that is no timeout.
  on :
      {a : ℕ} {m m' : Lock} {p p' : Go.Pc} {m'' : Lock} {p'' : Go.Pc}
      → Solo dead pid m p a m' p'
      → (mv : Go.Move dead pid m' p' m'' p'') → waited mv ≡ 0
      → Solo dead pid m p a m'' p''
  on run mv none = step run mv (omega (arith, none))

  module _ (m : Lock) (held : m.word ≢ 0) where
    -- The spin loop fails to its end.
    spin_out :
        (d k n last : ℕ)
        → k + d ≡ spin_limit
        → Solo dead pid m (Go.spin k n last) 0 m (Go.spin spin_limit n last)
    spin_out zero k n last e = let q : k ≡ spin_limit = omega arith in rw q rest
    spin_out (suc d) k n last e =
        join (on rest (Go.spin_lose (omega arith) held) refl)
          (spin_out d (k + 1) n last (omega arith))

    -- One wait that times out with the holder gone.
    one_timeout :
        (n last : ℕ)
        → writer_bit ≤ m.word
        → holder m.word ≢ 0
        → dead (holder m.word) ≡ true
        → m.waiters < u32_mod
        → Solo dead pid m (Go.spin 0 n last) 1 m (Go.counting m.word n last)
    one_timeout n last big pos gone small =
        let count : sub32 (add32 m.waiters 1) 1 ≡ m.waiters = omega arith in
        let m1 : Lock = record m { waiters = add32 m.waiters 1 } in
        let m2 : Lock = record m { waiters = sub32 (add32 m.waiters 1) 1 } in
        let same : m2 ≡ m = ap (λ w. record m { waiters = w }) count in
        let s1 : Solo dead pid m (Go.spin 0 n last) 0 m1 (Go.registered n last) =
          on (spin_out spin_limit 0 n last (omega arith)) (Go.register (omega arith)) refl in
        let s2 : Solo dead pid m (Go.spin 0 n last) 1 m2 (Go.looking n last) =
          on (step (on s1 (Go.sleep held) refl) Go.timeout refl) Go.unregister refl in
        let s3 : Solo dead pid m (Go.spin 0 n last) 1 m (Go.looking n last) =
          subst (λ l. Solo dead pid m (Go.spin 0 n last) 1 l (Go.looking n last)) same s2 in
        on (on s3 (Go.look_held big) refl) (Go.not_found pos gone) refl

  two_timeouts :
      (m : Lock)
      → writer_bit ≤ m.word
      → holder m.word ≢ 0
      → dead (holder m.word) ≡ true
      → m.waiters < u32_mod
      → Solo dead pid m Go.idle 2 (taken_over pid m) Go.critical
  two_timeouts m big pos gone small =
      let held : m.word ≢ 0 = λ e. omega arith in
      let first : Solo dead pid m Go.idle 1 m (Go.counting m.word 0 0) =
        join (on rest Go.start refl) (one_timeout m held 0 0 big pos gone small) in
      let one : Go.next_count m.word 0 0 ≡ 1 = ground arith in
      let between : Solo dead pid m Go.idle 1 m (Go.spin 0 1 m.word) =
        let early : Go.next_count m.word 0 0 < 2 = omega (arith, one) in
        let s1 : Solo dead pid m Go.idle 1 m (Go.spin 0 (Go.next_count m.word 0 0) m.word) =
          on first (Go.too_early early) refl in
        rw one at s1 in
      let second : Solo dead pid m Go.idle 2 m (Go.counting m.word 1 m.word) =
        join between (one_timeout m held 1 m.word big pos gone small) in
      let freed : Solo dead pid m Go.idle 2 (record m { word = 0 }) (Go.freed m.word) =
        on (on second (Go.recover {last = m.word} (ground arith)) refl) (Go.recover_win refl)
          refl in
      on (on (on freed Go.recover_count refl) Go.recover_wake refl) (Go.spin_win (omega arith) refl)
        refl

module _ (pid : ℕ → ℕ) (s : System) (i : ℕ) (live : s.dead (pid i) ≡ false) where
  abbrev pub moved : Lock → Go.Pc → System
  moved m p = record s { lock = m; thread = put s.thread i (go p) }

  Solo-Reach :
      {p : Go.Pc} {n : ℕ} {m : Lock} {p' : Go.Pc}
      → s.thread i ≡ go p
      → Solo s.dead (pid i) s.lock p n m p'
      → Reach pid s (moved m p')
  Solo-Reach {p} at rest =
      subst (λ f. Reach pid s (record s { thread = f })) (sym (put_id s.thread i (go p) at)) here
  Solo-Reach {p} at (step {m'} {m''} {p'} {p''} run mv e) =
      subst (λ f. Reach pid s (record s { lock = m''; thread = f }))
        (put-put s.thread i (go p') (go p''))
        (next (Solo-Reach at run) (go_step i live (put_self s.thread i (go p')) mv))

  -- An idle Go thread of a live process finds the mutex held by a process other than 0 that
  -- kill denies, with fewer than 2 ^ 32 waiters: by steps of its own, of which two are waits
  -- that time out, it comes to have the mutex, with one more recovery counted and the number
  -- of waiters unchanged, and the system with that thread's steps alone reaches this state.
  pub takeover :
      s.thread i ≡ go Go.idle
      → writer_bit ≤ s.lock.word
      → holder s.lock.word ≢ 0
      → s.dead (holder s.lock.word) ≡ true
      → s.lock.waiters < u32_mod
      → Solo s.dead (pid i) s.lock Go.idle 2 (taken_over (pid i) s.lock) Go.critical
        × Reach pid s (moved (taken_over (pid i) s.lock) Go.critical)
  takeover at held pos gone small =
      let run = two_timeouts s.lock held pos gone small in (run, Solo-Reach at run)
