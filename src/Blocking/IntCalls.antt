-- ===== src/Blocking/IntCalls.antt =====
-- The blocking calls of the integer mode: `reqrep_int_send_wait`, `reqrep_int_recv_wait`,
-- `reqrep_int_get_wait` and `reqrep_int_request`.
use go_data_reqrep_shared.Base.{
  ℕ, Bool, true, false, ◌&&◌, if◌then◌else◌, Option, none, some, List, add32, sub32,
}
use go_data_reqrep_shared.Shm.{id_slot, id_gen}
use go_data_reqrep_shared.Slots.{Table, KillResult, slot_at}
use go_data_reqrep_shared.Reference.{Handle}
use go_data_reqrep_shared.Reference.Slots.{cancel}
use go_data_reqrep_shared.Reference.Session.{
  TrySend, request_id, queue_full, request_too_long, no_slot_free,
}
use go_data_reqrep_shared.IntMode.File.{
  IntFile, IntGet, got_int, int_not_ready, int_bad_slot, int_stale, int_try_send, int_try_recv,
  int_try_get,
}
use go_data_reqrep_shared.Blocking.{
  Timeout, has_deadline, Round, Wait, returned, waiting, failed, blocking,
}
use go_data_reqrep_shared.Blocking.Get.{get_blocking}
use go_data_reqrep_shared.Blocking.Calls.{send_up, send_down, recv_up, recv_down, set_slot_waiters}

-- Only the result 1 ends a send.
abbrev pub int_send_done : TrySend → Bool
int_send_done (request_id id) = true
int_send_done request_too_long = false
int_send_done queue_full = false
int_send_done no_slot_free = false

-- `reqrep_int_send_wait`; `fails` tells how often the weak compare-and-swap of a try fails spuriously.
unfoldable pub int_send_wait :
    (ℕ → KillResult)
    → ℕ
    → Handle
    → (fails : IntFile → ℕ) → Timeout
    → ℕ
    → List (Round IntFile)
    → IntFile
    → Wait (IntFile × TrySend)
unfolding blocking send_up send_down
int_send_wait kill pid h fails limit value os f =
    blocking (λ g. int_try_send kill pid h (fails g) g value) int_send_done send_up send_down limit
      os f

abbrev pub int_recv_done : Option (ℕ × ℕ) → Bool
int_recv_done none = false
int_recv_done (some r) = true

-- `reqrep_int_recv_wait`
unfoldable pub int_recv_wait :
    Handle
    → (fails : IntFile → ℕ) → Timeout
    → List (Round IntFile)
    → IntFile
    → Wait (IntFile × Option (ℕ × ℕ))
unfolding blocking
int_recv_wait h fails limit os f =
    blocking (λ g. int_try_recv h (fails g) g) int_recv_done (λ r. recv_up) (λ r. recv_down) limit
      os f

abbrev pub int_get_pending : IntGet → Bool
int_get_pending int_not_ready = true
int_get_pending (got_int value) = false
int_get_pending int_bad_slot = false
int_get_pending int_stale = false

abbrev pub try_get_in : Handle → ℕ → IntFile → Option (IntFile × IntGet)
try_get_in h id f = let r = int_try_get h f.table id in some (record f { table = r.0 }, r.1)

-- `reqrep_int_get_wait`
unfoldable pub int_get_wait :
    Handle → Timeout → ℕ → List (Round IntFile) → IntFile → Wait (IntFile × IntGet)
unfolding get_blocking
int_get_wait h limit id os f =
    get_blocking (try_get_in h id) int_get_pending int_not_ready int_stale
      (λ g. (slot_at g.table (id_slot id)).state) (λ g. (slot_at g.table (id_slot id)).generation)
      (id_gen id) (set_slot_waiters (id_slot id) (λ n. add32 n 1))
      (set_slot_waiters (id_slot id) (λ n. sub32 n 1)) limit os f

-- A request ends with the result of the send, for want of time, or with the result of the get.
pub data IntRequest : Type 0 where
  int_send_ended : TrySend → IntRequest
  int_no_time : IntRequest
  int_get_ended : IntGet → IntRequest

-- After a get that got nothing: cancel, and drain a response that came in between.
unfoldable pub int_abandon : Handle → ℕ → Table → Table
int_abandon h id t = (int_try_get h (cancel h t id) id).0

unfoldable pub int_after_get : Handle → ℕ → Wait (IntFile × IntGet) → Wait (IntFile × IntRequest)
unfolding int_abandon
int_after_get h id (returned (f, got_int value)) = returned (f, int_get_ended (got_int value))
int_after_get h id (returned (f, r)) =
    returned (record f { table = int_abandon h id f.table }, int_get_ended r)
int_after_get h id waiting = waiting
int_after_get h id failed = failed

unfoldable pub int_after_send :
    Handle
    → Timeout
    → Bool
    → List (Round IntFile)
    → Wait (IntFile × TrySend)
    → Wait (IntFile × IntRequest)
unfolding int_after_get int_get_wait
int_after_send h limit expired os (returned (f, request_id id)) =
    let got = int_after_get h id (int_get_wait h limit id os f) in
    if has_deadline limit && expired
    then returned (record f { table = cancel h f.table id }, int_no_time)
    else got
int_after_send h limit expired os (returned (f, r)) = returned (f, int_send_ended r)
int_after_send h limit expired os waiting = waiting
int_after_send h limit expired os failed = failed

-- `reqrep_int_request`; `expired` tells whether the time is up once the request is sent.
unfoldable pub int_request :
    (ℕ → KillResult)
    → ℕ
    → Handle
    → (fails : IntFile → ℕ) → Timeout
    → Bool
    → ℕ
    → (send_rounds get_rounds : List (Round IntFile)) → IntFile
    → Wait (IntFile × IntRequest)
unfolding int_send_wait int_after_send
int_request kill pid h fails limit expired value send_rounds get_rounds f =
    int_after_send h limit expired get_rounds
      (int_send_wait kill pid h fails limit value send_rounds f)
