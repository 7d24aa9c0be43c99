-- ===== src/IntMode/Tests.antt =====
-- Two slots: thread 0 sends a request, which thread 1 receives while thread 2 claims the next slot.
use go_data_reqrep_shared.Base.{ℕ, ◌+◌, put, ◌≤◌, ◌≡◌, refl, true, none, arith}
use go_data_reqrep_shared.Shm.{Shm}
use go_data_reqrep_shared.Queue.Window.{IsSetUp}
use go_data_reqrep_shared.IntMode.{Item, SendPc, send_step, RecvPc, recv_step}
use go_data_reqrep_shared.IntMode.System.{
  resting, sender, receiver, System, after_send_step, after_recv_step, start_send, start_recv, send,
  recv, Reach, here, next,
}
use go_data_reqrep_shared.IntMode.Inv.{IsFresh}
use go_data_reqrep_shared.IntMode.Run.{AsSent, WorksAt, fifo, one_per_slot}

abbrev two_slots : Shm
two_slots = record {
  req_cap = 2;
  req_cap_mask = 1;
  req_arena_cap = 0;
  resp_slots = 2;
  resp_data_max = 8;
}

two_slots-IsSetUp : IsSetUp two_slots
two_slots-IsSetUp = record {
  cap_bits = 1;
  power = refl;
  few_bits = omega arith;
  mask = refl;
  arena_fits = omega arith;
}

abbrev x : Item
x = record { value = 42; resp_slot = 1; resp_gen = 1 }

abbrev init : System
init = record {
  queue = record {
    req_head = 0;
    req_tail = 0;
    stat_requests = 0;
    stat_send_full = 0;
    stat_recv_empty = 0;
    slot = λ c. record { sequence = c; item = record { value = 0; resp_slot = 0; resp_gen = 0 } };
  };
  thread = λ i. resting;
  history = λ k. record { value = 0; resp_slot = 0; resp_gen = 0 };
  received = λ k. none;
}

init-IsFresh : IsFresh 2 init
init-IsFresh = record {
  no_head = refl;
  no_tail = refl;
  numbered = λ c lt. refl;
  all_rest = λ i. refl;
  none_received = λ k. refl;
}

abbrev sends : System → ℕ → SendPc → System
sends s i p = after_send_step s i x p (send_step 1 x true s.queue p)

abbrev receives : System → RecvPc → System
receives s p = after_recv_step s 1 p (recv_step 2 1 true s.queue p)

abbrev ready : System
ready = record init {
  thread =
      put (put (put init.thread 0 (sender x SendPc.load_tail)) 1 (receiver RecvPc.load_head)) 2
        (sender x SendPc.load_tail);
}

ready-Reach : Reach two_slots init ready
ready-Reach =
    next (next (next here (omega arith) (start_send 0 x)) (omega arith) (start_recv 1))
      (omega arith) (start_send 2 x)

abbrev sent_one : System
sent_one =
    sends
      (sends
        (sends (sends (sends ready 0 SendPc.load_tail) 0 (SendPc.load_seq 0)) 0 (SendPc.claim 0)) 0
        (SendPc.store 0))
      0 (SendPc.publish 0)

sent_one-Reach : Reach two_slots init sent_one
unfolding send_step
sent_one-Reach =
    next
      (next
        (next
          (next (next ready-Reach (omega arith) (send 0 x SendPc.load_tail true refl)) (omega arith)
            (send 0 x (SendPc.load_seq 0) true refl))
          (omega arith) (send 0 x (SendPc.claim 0) true refl))
        (omega arith) (send 0 x (SendPc.store 0) true refl))
      (omega arith) (send 0 x (SendPc.publish 0) true refl)

abbrev received_one : System
received_one =
    receives
      (receives
        (receives (receives (receives sent_one RecvPc.load_head) (RecvPc.load_seq 0))
          (RecvPc.claim 0))
        (RecvPc.read 0))
      (RecvPc.release 0 x)

received_one-Reach : Reach two_slots init received_one
unfolding send_step recv_step
received_one-Reach =
    next
      (next
        (next
          (next (next sent_one-Reach (omega arith) (recv 1 RecvPc.load_head true refl))
            (omega arith) (recv 1 (RecvPc.load_seq 0) true refl))
          (omega arith) (recv 1 (RecvPc.claim 0) true refl))
        (omega arith) (recv 1 (RecvPc.read 0) true refl))
      (omega arith) (recv 1 (RecvPc.release 0 x) true refl)

abbrev claimed : System
claimed =
    sends (sends (sends received_one 2 SendPc.load_tail) 2 (SendPc.load_seq 1)) 2 (SendPc.claim 1)

claimed-Reach : Reach two_slots init claimed
unfolding send_step recv_step
claimed-Reach =
    next
      (next (next received_one-Reach (omega arith) (send 2 x SendPc.load_tail true refl))
        (omega arith) (send 2 x (SendPc.load_seq 1) true refl))
      (omega arith) (send 2 x (SendPc.claim 1) true refl)

fifo_example :
    (claimed.queue.req_head ≤ claimed.queue.req_tail)
    × (claimed.queue.req_tail ≤ claimed.queue.req_head + 2)
    × ((k : ℕ) → AsSent claimed k (claimed.received k))
unfolding send_step recv_step
fifo_example =
    fifo two_slots two_slots-IsSetUp (omega arith) init claimed init-IsFresh claimed-Reach

one_per_slot_example : ◌≡◌ {A = ℕ} 2 2
unfolding send_step recv_step WorksAt
one_per_slot_example =
    one_per_slot two_slots two_slots-IsSetUp (omega arith) init claimed init-IsFresh claimed-Reach 1
      2 2 refl refl
