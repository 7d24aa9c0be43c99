-- ===== src/Mutex/Go.antt =====
-- `mutexLock`, `mutexUnlock` and `recoverStaleMutex` of reqrep_mutex.go.
use go_data_reqrep_shared.Base.{
  ℕ, ◌+◌, ◌<◌, ◌≤◌, ◌≡◌, ◌≢◌, Bool, true, add32, sub32, ◌==◌, if◌then◌else◌,
}
use go_data_reqrep_shared.Mutex.{Lock, writer_bit, spin_limit, lock_value, holder, wake_one}

-- Where a goroutine stands. `n` is `consecutiveTimeouts`, `last` is `lastObservedVal`, `k` the round
-- of the spin loop.
pub data Pc : Type 0 where
  idle : Pc
  spin : (k n last : ℕ) → Pc
  registered : (n last : ℕ) → Pc  -- `waiters` counted up
  asleep : (cur n last : ℕ) → Pc  -- in `futexWait`
  timed_out : (n last : ℕ) → Pc
  looking : (n last : ℕ) → Pc  -- before the load of `val`
  asking : (val n last : ℕ) → Pc  -- before `pidAlive`
  counting : (val n last : ℕ) → Pc  -- the holder is gone
  recovering : (val : ℕ) → Pc  -- start of `recoverStaleMutex`
  freed : (val : ℕ) → Pc  -- its compare-and-swap has won
  counted : (val : ℕ) → Pc  -- before its wake call
  leaving : (n last : ℕ) → Pc  -- after the wait
  retry : (n last : ℕ) → Pc  -- before the fast path
  critical : Pc  -- `mutexLock` has returned
  unlocked : Pc  -- before the wake call of `mutexUnlock`

-- `consecutiveTimeouts` after a timeout that saw `val`.
abbrev pub next_count : ℕ → ℕ → ℕ → ℕ
next_count val n last = if val == last then n + 1 else 1

-- One step of a goroutine of process `pid`. `dead` is what `kill` reports: a process
-- that it does not find is dead; one that it finds may be another of the same number.
pub data Move (dead : ℕ → Bool) (pid : ℕ) (m : Lock) : Pc → Lock → Pc → Type 0 where
  start : Move dead pid m idle m (spin 0 0 0)
  spin_win :
      {k n last : ℕ}
      → k < spin_limit
      → m.word ≡ 0
      → Move dead pid m (spin k n last) (record m { word = lock_value pid }) critical
  spin_lose :
      {k n last : ℕ}
      → k < spin_limit
      → m.word ≢ 0
      → Move dead pid m (spin k n last) m (spin (k + 1) n last)
  register :
      {k n last : ℕ}
      → spin_limit ≤ k
      → Move dead pid m
          (spin k n last)
          (record m { waiters = add32 m.waiters 1 })
          (registered n last)
  seen_free : {n last : ℕ} → m.word ≡ 0 → Move dead pid m (registered n last) m (leaving n last)
  sleep : {n last : ℕ} → m.word ≢ 0 → Move dead pid m (registered n last) m (asleep m.word n last)
  woken : {cur n last : ℕ} → Move dead pid m (asleep cur n last) m (leaving n last)
  timeout : {cur n last : ℕ} → Move dead pid m (asleep cur n last) m (timed_out n last)
  unregister :
      {n last : ℕ}
      → Move dead pid m
          (timed_out n last)
          (record m { waiters = sub32 m.waiters 1 })
          (looking n last)
  look_free :
      {n last : ℕ} → m.word < writer_bit → Move dead pid m (looking n last) m (spin 0 n last)
  look_held :
      {n last : ℕ} → writer_bit ≤ m.word → Move dead pid m (looking n last) m (asking m.word n last)
  found : {val n last : ℕ} → Move dead pid m (asking val n last) m (spin 0 0 0)
  not_found :
      {val n last : ℕ}
      → holder val ≢ 0
      → dead (holder val) ≡ true
      → Move dead pid m (asking val n last) m (counting val n last)
  too_early :
      {val n last : ℕ}
      → next_count val n last < 2
      → Move dead pid m (counting val n last) m (spin 0 (next_count val n last) val)
  recover :
      {val n last : ℕ}
      → 2 ≤ next_count val n last
      → Move dead pid m (counting val n last) m (recovering val)
  recover_win :
      {val : ℕ}
      → m.word ≡ val
      → Move dead pid m (recovering val) (record m { word = 0 }) (freed val)
  recover_lose : {val : ℕ} → m.word ≢ val → Move dead pid m (recovering val) m (spin 0 0 val)
  recover_count :
      {val : ℕ}
      → Move dead pid m (freed val) (record m { recoveries = add32 m.recoveries 1 }) (counted val)
  recover_wake : {val : ℕ} → Move dead pid m (counted val) (wake_one m) (spin 0 0 val)
  leave :
      {n last : ℕ}
      → Move dead pid m (leaving n last) (record m { waiters = sub32 m.waiters 1 }) (retry n last)
  retry_win :
      {n last : ℕ}
      → m.word ≡ 0
      → Move dead pid m (retry n last) (record m { word = lock_value pid }) critical
  retry_lose : {n last : ℕ} → m.word ≢ 0 → Move dead pid m (retry n last) m (spin 0 n last)
  unlock : Move dead pid m critical (record m { word = 0 }) unlocked
  wake : Move dead pid m unlocked (wake_one m) idle
