-- ===== src/Mutex/Peer.antt =====
-- `reqrep_mutex_lock`, `reqrep_mutex_unlock` and `reqrep_recover_stale_mutex` of gen/reqrep.h, which
-- the peers of the Go processes run.
use go_data_reqrep_shared.Base.{ℕ, ◌+◌, ◌<◌, ◌≤◌, ◌≡◌, ◌≢◌, Bool, true, add32, sub32}
use go_data_reqrep_shared.Mutex.{Lock, writer_bit, spin_limit, lock_value, holder, wake_one}

-- Where a thread stands; `k` is `spin`.
pub data Pc : Type 0 where
  idle : Pc
  spin : (k : ℕ) → Pc
  lost : (k : ℕ) → Pc  -- the compare-and-swap has failed
  registered : Pc
  asleep : (cur : ℕ) → Pc
  timed_out : Pc
  looking : Pc
  asking : (val : ℕ) → Pc
  recovering : (val : ℕ) → Pc
  freed : Pc
  counted : Pc
  leaving : Pc
  critical : Pc
  unlocked : Pc

-- One step of a thread of process `pid`. The compare-and-swap of the spin loop is a weak one, which
-- may fail on a free word. After `spin = 0` the loop's `spin++` makes it 1.
pub data Move (dead : ℕ → Bool) (pid : ℕ) (m : Lock) : Pc → Lock → Pc → Type 0 where
  start : Move dead pid m idle m (spin 0)
  spin_win :
      {k : ℕ} → m.word ≡ 0 → Move dead pid m (spin k) (record m { word = lock_value pid }) critical
  spin_lose : {k : ℕ} → Move dead pid m (spin k) m (lost k)
  again : {k : ℕ} → k < spin_limit → Move dead pid m (lost k) m (spin (k + 1))
  register :
      {k : ℕ}
      → spin_limit ≤ k
      → Move dead pid m (lost k) (record m { waiters = add32 m.waiters 1 }) registered
  seen_free : m.word ≡ 0 → Move dead pid m registered m leaving
  sleep : m.word ≢ 0 → Move dead pid m registered m (asleep m.word)
  woken : {cur : ℕ} → Move dead pid m (asleep cur) m leaving
  timeout : {cur : ℕ} → Move dead pid m (asleep cur) m timed_out
  unregister : Move dead pid m timed_out (record m { waiters = sub32 m.waiters 1 }) looking
  look_free : m.word < writer_bit → Move dead pid m looking m (spin 1)
  look_held : writer_bit ≤ m.word → Move dead pid m looking m (asking m.word)
  found : {val : ℕ} → Move dead pid m (asking val) m (spin 1)
  not_found :
      {val : ℕ}
      → holder val ≢ 0
      → dead (holder val) ≡ true
      → Move dead pid m (asking val) m (recovering val)
  recover_win :
      {val : ℕ} → m.word ≡ val → Move dead pid m (recovering val) (record m { word = 0 }) freed
  recover_lose : {val : ℕ} → m.word ≢ val → Move dead pid m (recovering val) m (spin 1)
  recover_count : Move dead pid m freed (record m { recoveries = add32 m.recoveries 1 }) counted
  recover_wake : Move dead pid m counted (wake_one m) (spin 1)
  leave : Move dead pid m leaving (record m { waiters = sub32 m.waiters 1 }) (spin 1)
  unlock : Move dead pid m critical (record m { word = 0 }) unlocked
  wake : Move dead pid m unlocked (wake_one m) idle
