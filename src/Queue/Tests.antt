-- ===== src/Queue/Tests.antt =====
-- The queue at concrete states: counters about to wrap, and an arena that no block size divides.
use go_data_reqrep_shared.Base.{ℕ, refl, inl, List, [], ◌∷◌, arith, replicate, and_not}
use go_data_reqrep_shared.Shm.{Shm, Queue, ReqSlot}
use go_data_reqrep_shared.Arena.{alloc_size}
use go_data_reqrep_shared.Queue.{send_locked, recv_locked, no_slot}
use go_data_reqrep_shared.Queue.Window.{IsSetUp}
use go_data_reqrep_shared.Queue.Invariant.{IsValid, chained}
use go_data_reqrep_shared.Queue.Sent.{Sent, send_locked_cases}
use go_data_reqrep_shared.Queue.Received.{Received, recv_locked_cases}
use go_data_reqrep_shared.Queue.Fifo.{Op, send, recv, InOrder, run, run_fifo}

abbrev small : Shm
small = record {
  req_cap = 2;
  req_cap_mask = 1;
  req_arena_cap = 20;
  resp_slots = 2;
  resp_data_max = 8;
}

small-IsSetUp : IsSetUp small
small-IsSetUp = record {
  cap_bits = 1;
  power = refl;
  few_bits = omega arith;
  mask = refl;
  arena_fits = omega arith;
}

-- The last counter before the wrap.
abbrev last : ℕ
last = 0xffff_ffff_ffff_ffff

abbrev idle : Queue
idle = record {
  req_head = last;
  req_tail = last;
  arena_wpos = 0;
  arena_used = 0;
  stat_requests = 0;
  stat_send_full = 0;
  stat_recv_empty = 0;
  slots = replicate 2 no_slot;
  arena = replicate 20 0;
}

idle-IsValid : IsValid small idle
idle-IsValid = record {
  head_fits = omega arith;
  tail_fits = omega arith;
  counted = omega arith;
  slot_room = refl;
  arena_room = refl;
  held = chained 0 (refl, omega arith) refl (omega arith);
}

abbrev pending : ReqSlot
pending = record { arena_off = 0; packed_len = 2; arena_skip = 8; resp_slot = 1; resp_gen = 7 }

-- One request waits, and the tail has wrapped.
abbrev waiting : Queue
waiting = record idle {
  req_tail = 0;
  arena_wpos = 8;
  arena_used = 8;
  slots = no_slot ∷ pending ∷ [];
  arena = 4 ∷ 5 ∷ replicate 18 0;
}

waiting-IsValid : IsValid small waiting
unfolding alloc_size and_not
waiting-IsValid = record {
  head_fits = omega arith;
  tail_fits = omega arith;
  counted = omega arith;
  slot_room = refl;
  arena_room = refl;
  held = chained 0 (inl (refl, refl, omega arith), (refl, omega arith)) refl (omega arith);
}

send_locked_cases_example :
    Sent small waiting (6 ∷ 7 ∷ []) 0 9 (send_locked small waiting (6 ∷ 7 ∷ []) 0 9)
send_locked_cases_example =
    send_locked_cases (6 ∷ 7 ∷ []) 9 small-IsSetUp waiting-IsValid (omega arith) (omega arith)

recv_locked_cases_example : Received small waiting (recv_locked small waiting)
recv_locked_cases_example = recv_locked_cases small-IsSetUp waiting-IsValid

abbrev script : List Op
script = send (1 ∷ 2 ∷ []) 1 7 ∷ send (3 ∷ []) 0 8 ∷ recv ∷ recv ∷ recv ∷ []

run_fifo_example : InOrder small waiting (run small waiting script)
run_fifo_example = run_fifo small-IsSetUp waiting script waiting-IsValid (omega arith)
