-- ===== src/Reference/SlotTests.antt =====
-- The response slots of both programs at a concrete table: a request that waits, and a response of
-- a process that has died.
use mathlib.Core.Option.{map}
use go_data_reqrep_shared.Base.{ℕ, zero, suc, ◌<◌, ◌≡◌, refl, [], ◌∷◌, replicate, arith, and_not}
use go_data_reqrep_shared.Shm.{RespSlot}
use go_data_reqrep_shared.Slots.{Table, KillResult, esrch, slot_at, acquire_resp_slot}
use go_data_reqrep_shared.Response.Board.{IsValid, Sound}
use go_data_reqrep_shared.Reference.{Handle}
use go_data_reqrep_shared.Queue.{no_slot}
use go_data_reqrep_shared.Layout.{
  compute_layout, arena_off_of, arena_cap_of, resp_off_of, resp_stride_of,
}
use go_data_reqrep_shared.Reference.Agreement.{view}
use go_data_reqrep_shared.Reference.Layout.{reqrep_compute_layout, layout_agrees}
use go_data_reqrep_shared.Reference.Session.{File, clear}
use go_data_reqrep_shared.Reference.Clear.{Cleared, clear-Cleared}
use go_data_reqrep_shared.Reference.Slots.{slot_acquire}
use go_data_reqrep_shared.Reference.SlotAgreement.{acquire_agrees}

abbrev handle : Handle
handle = record {
  req_cap = 2;
  req_cap_mask = 1;
  req_arena_cap = 20;
  resp_slots = 2;
  resp_data_max = 4;
  copy_buf_cap = 0;
}

abbrev waits : RespSlot
waits = record {
  state = 1;
  waiters = 1;
  owner_pid = 7;
  resp_len = 0;
  resp_flags = 0;
  generation = 3;
  area = replicate 4 0;
}

abbrev answer : RespSlot
answer = record waits { state = 2; resp_len = 2; generation = 4; area = 5 ∷ 6 ∷ 0 ∷ 0 ∷ [] }

abbrev table : Table
table = record {
  resp_hint = 1;
  stat_recoveries = 0;
  slot_futex = 0;
  slot_waiters = 0;
  stat_replies = 0;
  slots = waits ∷ answer ∷ [];
  wakes = [];
}

slots-Sound : (i : ℕ) → i < 2 → Sound (view handle) (slot_at table i)
slots-Sound zero h = record {
  known = omega arith;
  room = refl;
  short = omega arith;
  gen_fits = omega arith;
}
slots-Sound (suc zero) h = record {
  known = omega arith;
  room = refl;
  short = omega arith;
  gen_fits = omega arith;
}
slots-Sound (suc (suc i)) h = absurd (omega arith)

table-IsValid : IsValid (view handle) table
table-IsValid = record {
  all_slots = refl;
  hint_fits = omega arith;
  few_slots = omega arith;
  data_fits = omega arith;
  sound = slots-Sound;
}

abbrev all_dead : ℕ → KillResult
all_dead pid = esrch

generations : (i : ℕ) → i < 2 → (slot_at table i).generation < 0xffff_ffff
generations zero h = omega arith
generations (suc zero) h = omega arith
generations (suc (suc i)) h = absurd (omega arith)

abbrev waiting_id : ℕ
waiting_id = 0x3_0000_0000

abbrev answered_id : ℕ
answered_id = 0x4_0000_0001

acquire_agrees_example :
    slot_acquire all_dead 9 handle table
    ≡ map (λ (r : Table × ℕ × ℕ). (r.0, r.1)) (acquire_resp_slot all_dead 9 (view handle) table)
acquire_agrees_example =
    acquire_agrees all_dead 9 (λ p e. cc) handle table table-IsValid generations

abbrev file : File
file = record {
  queue = record {
    req_head = 3;
    req_tail = 5;
    arena_wpos = 16;
    arena_used = 16;
    stat_requests = 5;
    stat_send_full = 0;
    stat_recv_empty = 0;
    slots = replicate 2 no_slot;
    arena = replicate 20 0;
  };
  table = table;
  recv_waiters = 1;
  recv_futex = 0;
  send_waiters = 0;
  send_futex = 0;
  recv_wakes = 0;
  send_wakes = 0;
}

clear-Cleared_example : Cleared handle (clear handle file)
clear-Cleared_example = clear-Cleared handle file table-IsValid

layout_agrees_example : reqrep_compute_layout 8 2 100 2048 ≡ compute_layout 8 2 100 2048
unfolding arena_off_of arena_cap_of resp_off_of resp_stride_of and_not
layout_agrees_example = layout_agrees 8 2 100 2048 refl (omega arith) (omega arith)
