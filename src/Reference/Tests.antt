-- ===== src/Reference/Tests.antt =====
-- The C functions at concrete states.
use go_data_reqrep_shared.Base.{
  ◌≡◌, refl, inl, [], ◌∷◌, arith, replicate, ok, fault, true, false, and_not,
}
use go_data_reqrep_shared.Arena
use go_data_reqrep_shared.Shm.{Queue, ReqSlot}
use go_data_reqrep_shared.Queue
use go_data_reqrep_shared.Queue.Window.{IsSetUp}
use go_data_reqrep_shared.Queue.Invariant.{IsValid, chained}
use go_data_reqrep_shared.Reference.{Handle}
use go_data_reqrep_shared.Reference.CopyBuf.{ensure_copy_buf}
use go_data_reqrep_shared.Reference.Growth.{Roomy, ensure_copy_buf_room}
use go_data_reqrep_shared.Base.{◌≤◌, ◌<◌, ◌^◌, ◌⊎◌}
use go_data_reqrep_shared.Reference.Layout.{next_pow2}
use go_data_reqrep_shared.Reference.Power.{IsLeastPower, go_next_pow2-IsLeastPower}
use go_data_reqrep_shared.Files.GoOpen.{go_next_pow2}
use go_data_reqrep_shared.Reference.Queue.{send_locked, recv_locked}
use go_data_reqrep_shared.Reference.Agreement.{view, as_code, send_agrees}
use go_data_reqrep_shared.Reference.Overflow.{oversize_diverges}
use go_data_reqrep_shared.Reference.RecvAgreement.{forget, recv_agrees}

abbrev handle : Handle
handle = record {
  req_cap = 2;
  req_cap_mask = 1;
  req_arena_cap = 8;
  resp_slots = 2;
  resp_data_max = 8;
  copy_buf_cap = 0;
}

handle-IsSetUp : IsSetUp (view handle)
handle-IsSetUp = record {
  cap_bits = 1;
  power = refl;
  few_bits = omega arith;
  mask = refl;
  arena_fits = omega arith;
}

abbrev vacant : Queue
vacant = record {
  req_head = 5;
  req_tail = 5;
  arena_wpos = 0;
  arena_used = 0;
  stat_requests = 3;
  stat_send_full = 0;
  stat_recv_empty = 0;
  slots = replicate 2 Queue.no_slot;
  arena = replicate 8 0;
}

vacant-IsValid : IsValid (view handle) vacant
vacant-IsValid = record {
  head_fits = omega arith;
  tail_fits = omega arith;
  counted = omega arith;
  slot_room = refl;
  arena_room = refl;
  held = chained 0 (refl, omega arith) refl (omega arith);
}

abbrev pending : ReqSlot
pending = record {
  arena_off = 0;
  packed_len = 0x8000_0003;
  arena_skip = 8;
  resp_slot = 1;
  resp_gen = 6;
}

-- One request of three bytes waits, marked as UTF-8.
abbrev loaded : Queue
loaded = record vacant {
  req_tail = 6;
  arena_wpos = 8;
  arena_used = 8;
  slots = Queue.no_slot ∷ pending ∷ [];
  arena = 65 ∷ 66 ∷ 67 ∷ replicate 5 0;
}

loaded-IsValid : IsValid (view handle) loaded
unfolding Arena.alloc_size and_not
loaded-IsValid = record {
  head_fits = omega arith;
  tail_fits = omega arith;
  counted = omega arith;
  slot_room = refl;
  arena_room = refl;
  held = chained 0 (inl (refl, refl, omega arith), (refl, omega arith)) refl (omega arith);
}

ensure_copy_buf_room_example : Roomy handle 1000 (ensure_copy_buf true handle 1000)
ensure_copy_buf_room_example = ensure_copy_buf_room handle 1000 (omega arith) (omega arith)

send_agrees_example :
    send_locked handle vacant (1 ∷ 2 ∷ []) false 1 6
    ≡ as_code (Queue.send_locked (view handle) vacant (1 ∷ 2 ∷ []) 1 6)
send_agrees_example =
    send_agrees handle (1 ∷ 2 ∷ []) 1 6 vacant handle-IsSetUp vacant-IsValid (omega arith)
      (omega arith) (omega arith)

recv_agrees_example :
    forget (recv_locked true handle loaded) ≡ Queue.recv_locked (view handle) loaded
recv_agrees_example = recv_agrees handle loaded handle-IsSetUp loaded-IsValid (omega arith)

oversize_diverges_example :
    (send_locked handle vacant (replicate 9 1) true 0 4 ≡ fault)
    × (Queue.send_locked (view handle) vacant (replicate 9 1) 0 4 ≡ ok (vacant, false))
oversize_diverges_example =
    oversize_diverges handle vacant (replicate 9 1) true 0 4 handle-IsSetUp (omega arith)
      (omega arith) vacant-IsValid refl (omega arith)

next_pow2_run :
    (next_pow2 0 ≡ 2) × (next_pow2 5 ≡ 8) × (next_pow2 8 ≡ 8) × (next_pow2 0x8000_0001 ≡ 0)
unfolding next_pow2
next_pow2_run = (refl, refl, refl, refl)

go_next_pow2-IsLeastPower_example :
    (((5 ≤ 2 ^ 31) × IsLeastPower 5 (next_pow2 5)) ⊎ ((2 ^ 31 < 5) × (next_pow2 5 ≡ 0)))
    × (go_next_pow2 5 ≡ next_pow2 5)
go_next_pow2-IsLeastPower_example = go_next_pow2-IsLeastPower 5 (omega arith)
