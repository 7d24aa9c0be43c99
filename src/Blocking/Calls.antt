-- ===== src/Blocking/Calls.antt =====
-- The blocking calls of the string mode: `reqrep_send_wait`, `reqrep_recv_wait`, `reqrep_get_wait`
-- and `reqrep_request`.
use go_data_reqrep_shared.Base.{
  ℕ, Bool, true, false, ◌&&◌, if◌then◌else◌, Option, none, some, List, [], ◌∷◌, Run, ok, fault,
  add32, sub32,
}
use go_data_reqrep_shared.Shm.{id_slot, id_gen}
use go_data_reqrep_shared.Slots.{Table, KillResult, slot_at, put_slot}
use go_data_reqrep_shared.Reference.{Handle}
use go_data_reqrep_shared.Reference.Queue.{RecvResult, received, empty, out_of_memory}
use go_data_reqrep_shared.Reference.Slots.{
  GetResult, got_response, not_ready, get_bad_slot, get_out_of_memory, get_stale, try_get, cancel,
}
use go_data_reqrep_shared.Reference.Session.{
  FileOf, File, TrySend, request_id, queue_full, request_too_long, no_slot_free, try_send, try_recv,
}
use go_data_reqrep_shared.Blocking.{
  Timeout, has_deadline, Round, Wait, returned, waiting, failed, blocking,
}
use go_data_reqrep_shared.Blocking.Get.{get_blocking}

abbrev pub of_run : {A : Type 0} → Run A → Option A
of_run (ok a) = some a
of_run fault = none

-- The other processes do not change the handle.
abbrev pub beside_handle : {F : Type 0} → Round F → Round (Handle × F)
beside_handle o = record {
  before = λ w. (w.0, o.before w.1);
  meanwhile = λ w. (w.0, o.meanwhile w.1);
  asleep = λ w. (w.0, o.asleep w.1);
  time_left = o.time_left;
  timed_out = o.timed_out;
}

abbrev pub all_beside_handle : {F : Type 0} → List (Round F) → List (Round (Handle × F))
all_beside_handle [] = []
all_beside_handle (o ∷ os) = beside_handle o ∷ all_beside_handle os

-- `waiter_cnt` counts for a slot after -3, and for room in the queue otherwise.
module _ {Q : Type 0} where
  unfoldable pub send_up : TrySend → FileOf Q → FileOf Q
  send_up no_slot_free f = record f {
    table = record f.table { slot_waiters = add32 f.table.slot_waiters 1 };
  }
  send_up r f = record f { send_waiters = add32 f.send_waiters 1 }

  unfoldable pub send_down : TrySend → FileOf Q → FileOf Q
  send_down no_slot_free f = record f {
    table = record f.table { slot_waiters = sub32 f.table.slot_waiters 1 };
  }
  send_down r f = record f { send_waiters = sub32 f.send_waiters 1 }

  abbrev pub recv_up : FileOf Q → FileOf Q
  recv_up f = record f { recv_waiters = add32 f.recv_waiters 1 }

  abbrev pub recv_down : FileOf Q → FileOf Q
  recv_down f = record f { recv_waiters = sub32 f.recv_waiters 1 }

  abbrev pub set_slot_waiters : ℕ → (ℕ → ℕ) → FileOf Q → FileOf Q
  set_slot_waiters i change f =
      let slot = slot_at f.table i in
      record f { table = put_slot f.table i (record slot { waiters = change slot.waiters }) }

-- The results 1 and -2 end a send.
abbrev pub send_done : TrySend → Bool
send_done (request_id id) = true
send_done request_too_long = true
send_done queue_full = false
send_done no_slot_free = false

-- `reqrep_send_wait`
unfoldable pub send_wait :
    (ℕ → KillResult)
    → ℕ
    → Handle
    → Timeout
    → List ℕ
    → Bool
    → List (Round File)
    → File
    → Wait (File × TrySend)
unfolding blocking send_up send_down
send_wait kill pid h limit str utf8 os f =
    blocking (λ g. of_run (try_send kill pid h g str utf8)) send_done send_up send_down limit os f

abbrev pub recv_done : RecvResult → Bool
recv_done empty = false
recv_done out_of_memory = true
recv_done (received bytes id utf8) = true

abbrev pub regroup : {A B C : Type 0} → Option (A × B × C) → Option ((A × B) × C)
regroup none = none
regroup (some (a, b, c)) = some ((a, b), c)

-- `reqrep_recv_wait`
unfoldable pub recv_wait :
    Bool → Timeout → List (Round File) → Handle × File → Wait ((Handle × File) × RecvResult)
unfolding blocking
recv_wait realloc_ok limit os w =
    blocking (λ v. regroup (of_run (try_recv realloc_ok v.0 v.1))) recv_done
      (λ r v. (v.0, recv_up v.1)) (λ r v. (v.0, recv_down v.1)) limit (all_beside_handle os) w

abbrev pub get_pending : GetResult → Bool
get_pending not_ready = true
get_pending (got_response bytes utf8) = false
get_pending get_bad_slot = false
get_pending get_out_of_memory = false
get_pending get_stale = false

abbrev pub with_file :
    File → Option (Handle × Table × GetResult) → Option ((Handle × File) × GetResult)
with_file f none = none
with_file f (some (h, t, r)) = some ((h, record f { table = t }), r)

-- `reqrep_get_wait`
unfoldable pub get_wait :
    Bool → Timeout → ℕ → List (Round File) → Handle × File → Wait ((Handle × File) × GetResult)
unfolding get_blocking
get_wait realloc_ok limit id os w =
    get_blocking (λ v. with_file v.1 (of_run (try_get realloc_ok v.0 v.1.table id))) get_pending
      not_ready get_stale (λ v. (slot_at v.1.table (id_slot id)).state)
      (λ v. (slot_at v.1.table (id_slot id)).generation) (id_gen id)
      (λ v. (v.0, set_slot_waiters (id_slot id) (λ n. add32 n 1) v.1))
      (λ v. (v.0, set_slot_waiters (id_slot id) (λ n. sub32 n 1) v.1)) limit (all_beside_handle os)
      w

-- A request ends with the result of the send, for want of time, or with the result of the get.
pub data RequestEnd : Type 0 where
  send_ended : TrySend → RequestEnd
  no_time : RequestEnd
  get_ended : GetResult → RequestEnd

-- After a get that got nothing: cancel, and drain a response that came in between.
abbrev pub drained :
    GetResult → Option ((Handle × File) × GetResult) → Wait ((Handle × File) × RequestEnd)
drained r none = failed
drained r (some (w, discard)) = returned (w, get_ended r)

unfoldable pub after_get :
    Bool → ℕ → Wait ((Handle × File) × GetResult) → Wait ((Handle × File) × RequestEnd)
after_get realloc_ok id (returned (w, got_response bytes utf8)) =
    returned (w, get_ended (got_response bytes utf8))
after_get realloc_ok id (returned ((h, f), r)) =
    let f' = record f { table = cancel h f.table id } in
    drained r (with_file f' (of_run (try_get realloc_ok h f'.table id)))
after_get realloc_ok id waiting = waiting
after_get realloc_ok id failed = failed

-- `expired` tells whether the time is up once the request is sent.
unfoldable pub after_send_wait :
    Bool
    → Timeout
    → Bool
    → List (Round File)
    → Handle
    → Wait (File × TrySend)
    → Wait ((Handle × File) × RequestEnd)
unfolding after_get get_wait
after_send_wait realloc_ok limit expired os h (returned (f, request_id id)) =
    let got = after_get realloc_ok id (get_wait realloc_ok limit id os (h, f)) in
    if has_deadline limit && expired
    then returned ((h, record f { table = cancel h f.table id }), no_time)
    else got
after_send_wait realloc_ok limit expired os h (returned (f, r)) = returned ((h, f), send_ended r)
after_send_wait realloc_ok limit expired os h waiting = waiting
after_send_wait realloc_ok limit expired os h failed = failed

-- `reqrep_request`
unfoldable pub request :
    (ℕ → KillResult)
    → ℕ
    → Bool
    → Timeout
    → Bool
    → List ℕ
    → Bool
    → (send_rounds get_rounds : List (Round File)) → Handle × File
    → Wait ((Handle × File) × RequestEnd)
unfolding send_wait after_send_wait
request kill pid realloc_ok limit expired str utf8 send_rounds get_rounds (h, f) =
    after_send_wait realloc_ok limit expired get_rounds h
      (send_wait kill pid h limit str utf8 send_rounds f)
