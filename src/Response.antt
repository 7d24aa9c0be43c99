-- ===== src/Response.antt =====
-- The operations of reqrep.go on one response slot.
use go_data_reqrep_shared.Base.{
  ℕ, ◌||◌, List, ◌∷◌, if◌then◌else◌, ltb, leb, ◌==◌, not, u32, add32, add64, length, slice, copy_at,
}
pub mod Board
pub mod Moves
mod Tests
mod RoundTrip
mod Answers
mod Exchange
mod Acquire
mod Abandon
use go_data_reqrep_shared.Shm.{Shm, id_slot, id_gen}
use go_data_reqrep_shared.Slots.{
  Table, state_wake, resp_free, resp_acquired, resp_ready, slot_at, put_slot, wake_slot_waiters,
  release_resp_slot,
}

-- `nil`, `ErrStaleSlot` and `ErrRespTooLong`.
pub data Reply : Type 0 where
  replied stale_slot resp_too_long : Reply

-- A wake on the slot's state, if anyone waits there.
abbrev pub wake_state : Table → ℕ → ℕ → Table
wake_state t i n = record t {
  wakes = if ltb 0 (slot_at t i).waiters then state_wake i n ∷ t.wakes else t.wakes;
}

-- The response is written, and the slot made READY.
unfoldable pub fill_response : Table → ℕ → List ℕ → Table
fill_response t i response =
    let slot = slot_at t i in
    let t' = put_slot t i (record slot {
      area = copy_at slot.area 0 response;
      resp_len = u32 (length response);
      resp_flags = 0;
      state = resp_ready;
    }) in
    record (wake_state t' i 1) { stat_replies = add64 t.stat_replies 1 }

-- `writeResponse`
unfoldable pub write_response : Shm → Table → ℕ → List ℕ → Table × Reply
unfolding fill_response
write_response s t id response =
    let i = id_slot id in
    let slot = slot_at t i in
    if leb s.resp_slots i
    then (t, stale_slot)
    else if ltb s.resp_data_max (length response)
    then (t, resp_too_long)
    else if not (slot.state == resp_acquired)
    then (t, stale_slot)
    else if not (slot.generation == id_gen id)
    then (t, stale_slot)
    else (fill_response t i response, replied)

-- A response, an error, or nothing yet.
pub data Poll : Type 0 where
  response : List ℕ → Poll
  poll_stale poll_too_long pending : Poll

-- `readAndRelease`
unfoldable pub read_and_release : Shm → Table → ℕ → Table × Poll
unfolding release_resp_slot
read_and_release s t i =
    let slot = slot_at t i in
    (
      release_resp_slot t i,
      if ltb s.resp_data_max slot.resp_len
          then poll_too_long
          else response (slice slot.area 0 slot.resp_len),
    )

-- One look of `waitResponse` at the slot: in a spin, or before it goes to sleep.
unfoldable pub poll_response : Shm → Table → ℕ → Table × Poll
unfolding read_and_release
poll_response s t id =
    let i = id_slot id in
    let slot = slot_at t i in
    if not (slot.generation == id_gen id)
    then (t, poll_stale)
    else if slot.state == resp_ready
    then read_and_release s t i
    else (t, pending)

abbrev pub max_int32 : ℕ
max_int32 = 0x7fff_ffff

-- `cancelRequest`
unfoldable pub cancel_request : Shm → Table → ℕ → Table
unfolding wake_slot_waiters
cancel_request s t id =
    let i = id_slot id in
    let slot = slot_at t i in
    let freed = record slot {
      state = resp_free;
      owner_pid = 0;
      generation = add32 slot.generation 1;
    } in
    if leb s.resp_slots i || not (slot.generation == id_gen id) || not (slot.state == resp_acquired)
    then t
    else wake_slot_waiters (wake_state (put_slot t i freed) i max_int32)

-- `tryDrainResponse`
unfoldable pub try_drain_response : Shm → Table → ℕ → Table
unfolding release_resp_slot
try_drain_response s t id =
    let i = id_slot id in
    let slot = slot_at t i in
    if leb s.resp_slots i || not (slot.generation == id_gen id) || not (slot.state == resp_ready)
    then t
    else release_resp_slot t i

-- `Query`, when `waitResponse` has failed.
unfoldable pub abandon : Shm → Table → ℕ → Table
unfolding cancel_request try_drain_response
abandon s t id = try_drain_response s (cancel_request s t id) id
