-- ===== src/Reference/Slots.antt =====
-- The response slots in C, over the table of Slots: `reqrep_slot_acquire` to `reqrep_cancel`. A
-- function runs without another process in between.
use go_data_reqrep_shared.Base.{
  ℕ, zero, suc, ◌+◌, ◌%◌, Bool, not, ◌&&◌, ◌||◌, Option, none, some, List, ◌∷◌, if◌then◌else◌, ltb,
  leb, ◌==◌, add32, add64, bit_and, length, slice, copy_at, true, false, Run, ok, fault,
}
use go_data_reqrep_shared.Shm.{RespSlot, id_slot, id_gen}
use go_data_reqrep_shared.Slots.{
  Table, KillResult, esrch, no_error, eperm, other_errno, slot_futex_wake, resp_free, resp_acquired,
  resp_ready, slot_at, put_slot, or_else,
}
use go_data_reqrep_shared.Response.{wake_state, max_int32}
use go_data_reqrep_shared.Reference.{Handle}
use go_data_reqrep_shared.Reference.CopyBuf.{ensure_copy_buf}

-- `reqrep_wake_slot_waiters`: the futex word moves only if someone waits.
unfoldable pub wake_slot_waiters : Table → Table
wake_slot_waiters t =
    if ltb 0 t.slot_waiters
    then record t { slot_futex = add32 t.slot_futex 1; wakes = slot_futex_wake 1 ∷ t.wakes }
    else t

-- `reqrep_slot_release`
unfoldable pub slot_release : Table → ℕ → Table
unfolding wake_slot_waiters
slot_release t i =
    wake_slot_waiters (put_slot t i (record (slot_at t i) { owner_pid = 0; state = resp_free }))

abbrev pub is_esrch : KillResult → Bool
is_esrch esrch = true
is_esrch no_error = false
is_esrch eperm = false
is_esrch other_errno = false

-- `reqrep_pid_alive`
unfoldable pub pid_alive : (ℕ → KillResult) → ℕ → Bool
pid_alive kill pid = if pid == 0 then true else not (is_esrch (kill pid))

-- The slot as its new owner leaves it: the generation may become 0.
unfoldable pub claim : RespSlot → ℕ → RespSlot
claim slot pid = record slot {
  state = resp_acquired;
  owner_pid = pid;
  generation = add32 slot.generation 1;
}

module _ (kill : ℕ → KillResult) (pid n : ℕ) where
  unfoldable pub scan_free : ℕ → ℕ → ℕ → Table → Option (Table × ℕ)
  unfolding claim
  scan_free zero hint i t = none
  scan_free (suc rounds) hint i t =
      let idx = add32 hint i % n in
      let rest = scan_free rounds hint (i + 1) t in
      if (slot_at t idx).state == resp_free
      then some
          (record (put_slot t idx (claim (slot_at t idx) pid)) { resp_hint = (idx + 1) % n }, idx)
      else rest

  unfoldable pub scan_stale : ℕ → ℕ → Table → Option (Table × ℕ)
  unfolding claim pid_alive
  scan_stale zero i t = none
  scan_stale (suc rounds) i t =
      let old = slot_at t i in
      let rest = scan_stale rounds (i + 1) t in
      let held = (old.state == resp_acquired) || (old.state == resp_ready) in
      if held && (not (old.owner_pid == 0) && not (pid_alive kill old.owner_pid))
      then some
          (record (put_slot t i (claim old pid)) { stat_recoveries = add32 t.stat_recoveries 1 }, i)
      else rest

-- `reqrep_slot_acquire`; `none` is the return value -1.
unfoldable pub slot_acquire : (ℕ → KillResult) → ℕ → Handle → Table → Option (Table × ℕ)
unfolding scan_free scan_stale
slot_acquire kill pid h t =
    or_else (scan_free kill pid h.resp_slots h.resp_slots t.resp_hint 0 t)
      (scan_stale kill pid h.resp_slots h.resp_slots 0 t)

-- The return values 1, -1, -3 and -2.
pub data ReplyCode : Type 0 where
  reply_ok reply_bad_slot reply_too_long reply_stale : ReplyCode

-- From the `memcpy` to the end.
unfoldable pub fill_slot : Table → ℕ → List ℕ → Bool → Table
fill_slot t i str utf8 =
    let slot = slot_at t i in
    let t' = put_slot t i (record slot {
      area = copy_at slot.area 0 str;
      resp_len = length str;
      resp_flags = if utf8 then 1 else 0;
      state = resp_ready;
    }) in
    record (wake_state t' i 1) { stat_replies = add64 t.stat_replies 1 }

-- `reqrep_reply`
unfoldable pub reply : Handle → Table → ℕ → List ℕ → Bool → Table × ReplyCode
unfolding fill_slot
reply h t id str utf8 =
    let i = id_slot id in
    let slot = slot_at t i in
    if leb h.resp_slots i
    then (t, reply_bad_slot)
    else if ltb h.resp_data_max (length str)
    then (t, reply_too_long)
    else if not (slot.state == resp_acquired)
    then (t, reply_stale)
    else if not (slot.generation == id_gen id)
    then (t, reply_stale)
    else (fill_slot t i str utf8, reply_ok)

-- What a successful call puts out, and the return values 0, -1, -2 and -4.
pub data GetResult : Type 0 where
  got_response : List ℕ → Bool → GetResult
  not_ready get_bad_slot get_out_of_memory get_stale : GetResult

-- The bytes are copied out once the buffer is large enough: `fault` if they leave the slot.
unfoldable pub copy_response : Handle → Table → ℕ → Option Handle → Run (Handle × Table × GetResult)
unfolding slot_release
copy_response h t i none = ok (h, t, get_out_of_memory)
copy_response h t i (some h') =
    let slot = slot_at t i in
    if ltb h.resp_data_max slot.resp_len
    then fault
    else ok (
      h',
      slot_release t i,
      got_response (slice slot.area 0 slot.resp_len) (not (bit_and slot.resp_flags 1 == 0)),
    )

-- `reqrep_try_get`
unfoldable pub try_get : Bool → Handle → Table → ℕ → Run (Handle × Table × GetResult)
unfolding copy_response
try_get realloc_ok h t id =
    let i = id_slot id in
    let slot = slot_at t i in
    if leb h.resp_slots i
    then ok (h, t, get_bad_slot)
    else if not (slot.generation == id_gen id)
    then ok (h, t, get_stale)
    else if not (slot.state == resp_ready)
    then ok (h, t, not_ready)
    else copy_response h t i (ensure_copy_buf realloc_ok h (add32 slot.resp_len 1))

-- `reqrep_cancel`
unfoldable pub cancel : Handle → Table → ℕ → Table
unfolding wake_slot_waiters
cancel h t id =
    let i = id_slot id in
    let slot = slot_at t i in
    let freed = record slot {
      state = resp_free;
      owner_pid = 0;
      generation = add32 slot.generation 1;
    } in
    if leb h.resp_slots i || not (slot.generation == id_gen id) || not (slot.state == resp_acquired)
    then t
    else wake_slot_waiters (wake_state (put_slot t i freed) i max_int32)
