-- ===== src/Reference/Session.antt =====
-- The C operations over the whole file: `reqrep_try_send`, `reqrep_try_recv`, `reqrep_pending`,
-- `reqrep_size` and `reqrep_clear`. Each runs alone, so that it gets the arena mutex and no
-- compare-and-swap fails.
use go_data_reqrep_shared.Base.{
  ℕ, zero, suc, ◌+◌, Bool, ◌&&◌, ◌||◌, Option, none, some, List, if◌then◌else◌, ltb, ◌==◌, add32,
  sub64, Run, ok, ◌>>=◌,
}
use go_data_reqrep_shared.Shm.{Queue, RespSlot, make_id}
use go_data_reqrep_shared.Slots.{
  Table, KillResult, resp_free, resp_acquired, resp_ready, slot_at, put_slot,
}
use go_data_reqrep_shared.Response.{wake_state, max_int32}
use go_data_reqrep_shared.Reference.{Handle}
use go_data_reqrep_shared.Reference.Queue.{
  SendCode, sent, full, too_long, RecvResult, received, empty, out_of_memory, send_locked,
  recv_locked,
}
use go_data_reqrep_shared.Reference.Slots.{slot_acquire, slot_release, wake_slot_waiters}

-- The whole header and the areas behind it, `Q` for what the queue has; `recv_wakes` and `send_wakes` count the wake calls.
pub record FileOf (Q : Type 0) : Type 0 where
  pub queue : Q
  pub table : Table
  pub recv_waiters : ℕ
  pub recv_futex : ℕ
  pub send_waiters : ℕ
  pub send_futex : ℕ
  pub recv_wakes : ℕ
  pub send_wakes : ℕ

abbrev pub File : Type 0
File = FileOf Queue

-- `reqrep_wake_consumers`
unfoldable pub wake_consumers : {Q : Type 0} → FileOf Q → FileOf Q
wake_consumers f =
    if ltb 0 f.recv_waiters
    then record f { recv_futex = add32 f.recv_futex 1; recv_wakes = f.recv_wakes + 1 }
    else f

-- `reqrep_wake_producers`
unfoldable pub wake_producers : {Q : Type 0} → FileOf Q → FileOf Q
wake_producers f =
    if ltb 0 f.send_waiters
    then record f { send_futex = add32 f.send_futex 1; send_wakes = f.send_wakes + 1 }
    else f

-- The id of a request, and the return values 0, -2 and -3.
pub data TrySend : Type 0 where
  request_id : ℕ → TrySend
  queue_full request_too_long no_slot_free : TrySend

-- What follows the locked send.
unfoldable pub after_send : File → ℕ → ℕ → Queue × SendCode → File × TrySend
unfolding wake_consumers
after_send f slot gen (q, sent) =
    (wake_consumers (record f { queue = q }), request_id (make_id slot gen))
after_send f slot gen (q, full) =
    (record f { queue = q; table = slot_release f.table slot }, queue_full)
after_send f slot gen (q, too_long) =
    (record f { queue = q; table = slot_release f.table slot }, request_too_long)

unfoldable pub send_to : Handle → File → List ℕ → Bool → Option (Table × ℕ) → Run (File × TrySend)
unfolding after_send
send_to h f str utf8 none = ok (f, no_slot_free)
send_to h f str utf8 (some (t, slot)) =
    let gen = (slot_at t slot).generation in
    send_locked h f.queue str utf8 slot gen >>= λ r.
    ok (after_send (record f { table = t }) slot gen r)

-- `reqrep_try_send`
unfoldable pub try_send :
    (ℕ → KillResult) → ℕ → Handle → File → List ℕ → Bool → Run (File × TrySend)
unfolding send_to
try_send kill pid h f str utf8 = send_to h f str utf8 (slot_acquire kill pid h f.table)

unfoldable pub after_recv : File → Queue → RecvResult → File
unfolding wake_producers
after_recv f q (received bytes id utf8) = wake_producers (record f { queue = q })
after_recv f q empty = record f { queue = q }
after_recv f q out_of_memory = record f { queue = q }

-- `reqrep_try_recv`
unfoldable pub try_recv : Bool → Handle → File → Run (Handle × File × RecvResult)
unfolding after_recv
try_recv realloc_ok h f =
    recv_locked realloc_ok h f.queue >>= λ r. ok (r.0, after_recv f r.1 r.2, r.2)

abbrev pub in_flight : RespSlot → Bool
in_flight slot = (slot.state == resp_acquired) || (slot.state == resp_ready)

-- The loop of `reqrep_pending`, from slot `i` on.
unfoldable pub pending_from : ℕ → ℕ → ℕ → Table → ℕ
pending_from pid zero i t = 0
pending_from pid (suc rounds) i t =
    let rest = pending_from pid rounds (i + 1) t in
    if in_flight (slot_at t i) && ((slot_at t i).owner_pid == pid) then add32 rest 1 else rest

-- `reqrep_pending`
unfoldable pub pending : Handle → ℕ → File → ℕ
unfolding pending_from
pending h pid f = pending_from pid h.resp_slots 0 f.table

-- `reqrep_size`
unfoldable pub size : File → ℕ
size f = sub64 f.queue.req_tail f.queue.req_head

-- One slot of `reqrep_clear`.
unfoldable pub clear_slot : Table → ℕ → Table
clear_slot t i =
    let slot = slot_at t i in
    let freed = record slot {
      state = resp_free;
      owner_pid = 0;
      generation = add32 slot.generation 1;
    } in
    if in_flight slot then wake_state (put_slot t i freed) i max_int32 else t

unfoldable pub clear_from : ℕ → ℕ → Table → Table
unfolding clear_slot
clear_from zero i t = t
clear_from (suc rounds) i t = clear_from rounds (i + 1) (clear_slot t i)

-- `reqrep_clear`
unfoldable pub clear : Handle → File → File
unfolding clear_from wake_consumers wake_producers
clear h f =
    let q = record f.queue { req_head = 0; req_tail = 0; arena_wpos = 0; arena_used = 0 } in
    let t = wake_slot_waiters (clear_from h.resp_slots 0 f.table) in
    wake_consumers (wake_producers (record f { queue = q; table = t }))
