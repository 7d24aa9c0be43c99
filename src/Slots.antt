-- ===== src/Slots.antt =====
-- The table of response slots: reqrep_slots.go, `pidAlive` of reqrep_mutex.go and `wakeSlotWaiters`
-- of reqrep.go. A function here runs without another process in between, so that a compare-and-swap
-- of a value just loaded succeeds.
use go_data_reqrep_shared.Base.{
  ℕ, zero, suc, ◌+◌, ◌%◌, Bool, true, false, not, ◌&&◌, ◌||◌, Option, none, some, List, [], ◌∷◌,
  if◌then◌else◌, ltb, ◌==◌, add32, get_or, set,
}
use go_data_reqrep_shared.Shm.{Shm, RespSlot}

-- A `futexWake` call: on `slot_futex`, or on the state of a response slot, for some number of
-- waiters.
pub data Wake : Type 0 where
  slot_futex_wake : ℕ → Wake
  state_wake : ℕ → ℕ → Wake

-- What `ReqRepHeader` holds of the response slots, the slots, and the wake calls made so far, the
-- last one first.
pub record Table : Type 0 where
  pub resp_hint : ℕ
  pub stat_recoveries : ℕ
  pub slot_futex : ℕ
  pub slot_waiters : ℕ
  pub stat_replies : ℕ
  pub slots : List RespSlot
  pub wakes : List Wake

abbrev pub resp_free : ℕ
resp_free = 0

abbrev pub resp_acquired : ℕ
resp_acquired = 1

abbrev pub resp_ready : ℕ
resp_ready = 2

abbrev pub no_resp_slot : RespSlot
no_resp_slot = record {
  state = 0;
  waiters = 0;
  owner_pid = 0;
  resp_len = 0;
  resp_flags = 0;
  generation = 0;
  area = [];
}

-- `respSlotPtr`, and a store to a slot.
abbrev pub slot_at : Table → ℕ → RespSlot
slot_at t i = get_or t.slots i no_resp_slot

abbrev pub put_slot : Table → ℕ → RespSlot → Table
put_slot t i slot = record t { slots = set t.slots i slot }

-- `wakeSlotWaiters`
unfoldable pub wake_slot_waiters : Table → Table
wake_slot_waiters t = record t {
  slot_futex = add32 t.slot_futex 1;
  wakes = if ltb 0 t.slot_waiters then slot_futex_wake 1 ∷ t.wakes else t.wakes;
}

-- `releaseRespSlot`
unfoldable pub release_resp_slot : Table → ℕ → Table
unfolding wake_slot_waiters
release_resp_slot t i =
    wake_slot_waiters (put_slot t i (record (slot_at t i) { owner_pid = 0; state = resp_free }))

-- What `kill(pid, 0)` reports.
pub data KillResult : Type 0 where
  no_error eperm esrch other_errno : KillResult

abbrev pub reachable : KillResult → Bool
reachable no_error = true
reachable eperm = true
reachable esrch = false
reachable other_errno = false

-- `pidAlive`, of the system's answer to `kill(pid, 0)`.
unfoldable pub pid_alive : (ℕ → KillResult) → ℕ → Bool
pid_alive kill pid = if pid == 0 then true else reachable (kill pid)

-- The next generation, which is never 0.
unfoldable pub next_generation : ℕ → ℕ
next_generation g = let g' = add32 g 1 in if g' == 0 then add32 g' 1 else g'

-- The slot as its new owner leaves it.
unfoldable pub claim : RespSlot → ℕ → RespSlot
unfolding next_generation
claim slot pid = record slot {
  state = resp_acquired;
  owner_pid = pid;
  generation = next_generation slot.generation;
}

module _ (kill : ℕ → KillResult) (pid n : ℕ) where
  -- First pass: `rounds` slots, the one at `hint + i` first.
  unfoldable pub scan_free : ℕ → ℕ → ℕ → Table → Option (Table × ℕ × ℕ)
  unfolding claim
  scan_free zero hint i t = none
  scan_free (suc rounds) hint i t =
      let idx = add32 hint i % n in
      let slot = claim (slot_at t idx) pid in
      let rest = scan_free rounds hint (i + 1) t in
      if (slot_at t idx).state == resp_free
      then some (record (put_slot t idx slot) { resp_hint = (idx + 1) % n }, idx, slot.generation)
      else rest

  -- Second pass: a slot of a dead owner is freed and taken.
  unfoldable pub scan_stale : ℕ → ℕ → Table → Option (Table × ℕ × ℕ)
  unfolding claim pid_alive
  scan_stale zero i t = none
  scan_stale (suc rounds) i t =
      let old = slot_at t i in
      let slot = claim old pid in
      let rest = scan_stale rounds (i + 1) t in
      let held = (old.state == resp_acquired) || (old.state == resp_ready) in
      if held && not ((old.owner_pid == 0) || pid_alive kill old.owner_pid)
      then some (
        record (put_slot t i slot) { stat_recoveries = add32 t.stat_recoveries 1 },
        i,
        slot.generation,
      )
      else rest

-- The result of the first pass, or that of the second.
abbrev pub or_else {ℓ} : {A : Type ℓ} → Option A → Option A → Option A
or_else (some r) other = some r
or_else none other = other

-- `acquireRespSlot`: the slot index and its generation.
unfoldable pub acquire_resp_slot : (ℕ → KillResult) → ℕ → Shm → Table → Option (Table × ℕ × ℕ)
unfolding scan_free scan_stale
acquire_resp_slot kill pid s t =
    or_else (scan_free kill pid s.resp_slots s.resp_slots t.resp_hint 0 t)
      (scan_stale kill pid s.resp_slots s.resp_slots 0 t)
