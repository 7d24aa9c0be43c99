-- ===== src/Response/Tests.antt =====
-- The response slots at a concrete table: one slot in use, the other free with its generation about
-- to wrap.
use mathlib.Core.List.{Memᴰ}
use go_data_reqrep_shared.Base.{ℕ, zero, suc, ◌<◌, ◌≡◌, refl, List, [], ◌∷◌, replicate, arith}
use go_data_reqrep_shared.Shm.{Shm, RespSlot, id_slot, id_gen}
use go_data_reqrep_shared.Slots.{
  Table, KillResult, no_error, scan_free, claim, next_generation, slot_at, acquire_resp_slot,
  release_resp_slot, wake_slot_waiters,
}
use go_data_reqrep_shared.Response.{
  write_response, fill_response, poll_response, read_and_release, abandon,
}
use go_data_reqrep_shared.Response.Board.{IsValid, Sound, board, gone}
use go_data_reqrep_shared.Response.Moves.{Replied, Moves, write_response_cases}
use go_data_reqrep_shared.Response.Acquire.{Acquired, acquire_resp_slot_cases}
use go_data_reqrep_shared.Response.Abandon.{abandon_lem}
use go_data_reqrep_shared.Response.Exchange.{
  Op, take, reply, poll, took, wrote, got, run, exec, Follows, run_refines,
}
use go_data_reqrep_shared.Response.Answers.{answer_was_written}
use go_data_reqrep_shared.Response.RoundTrip.{Served, served_in_order}

abbrev two : Shm
two = record {
  req_cap = 2;
  req_cap_mask = 1;
  req_arena_cap = 20;
  resp_slots = 2;
  resp_data_max = 4;
}

abbrev in_use : RespSlot
in_use = record {
  state = 1;
  waiters = 1;
  owner_pid = 7;
  resp_len = 0;
  resp_flags = 0;
  generation = 3;
  area = replicate 4 0;
}

abbrev unused : RespSlot
unused = record in_use { state = 0; waiters = 0; owner_pid = 0; generation = 0xffff_ffff }

abbrev table : Table
table = record {
  resp_hint = 1;
  stat_recoveries = 0;
  slot_futex = 0;
  slot_waiters = 1;
  stat_replies = 0;
  slots = in_use ∷ unused ∷ [];
  wakes = [];
}

all-Sound : (i : ℕ) → i < 2 → Sound two (slot_at table i)
all-Sound zero h = record {
  known = omega arith;
  room = refl;
  short = omega arith;
  gen_fits = omega arith;
}
all-Sound (suc zero) h = record {
  known = omega arith;
  room = refl;
  short = omega arith;
  gen_fits = omega arith;
}
all-Sound (suc (suc i)) h = absurd (omega arith)

table-IsValid : IsValid two table
table-IsValid = record {
  all_slots = refl;
  hint_fits = omega arith;
  few_slots = omega arith;
  data_fits = omega arith;
  sound = all-Sound;
}

abbrev all_alive : ℕ → KillResult
all_alive pid = no_error

-- The id of the request that waits in the first slot.
abbrev first_id : ℕ
first_id = 0x3_0000_0000

-- The id that the second slot is given: the generation 0 is left out.
abbrev second_id : ℕ
second_id = 0x1_0000_0001

abbrev ops : List Op
ops = take 9 ∷ reply second_id (5 ∷ 6 ∷ []) ∷ poll second_id ∷ []

events :
    (run all_alive two table ops).1 ≡ took 1 1 ∷ wrote 1 1 (5 ∷ 6 ∷ []) ∷ got 1 1 (5 ∷ 6 ∷ []) ∷ []
unfolding run exec acquire_resp_slot scan_free claim next_generation write_response fill_response
    poll_response read_and_release release_resp_slot wake_slot_waiters
events = refl

not_there : board table 1 1 ≡ gone
not_there = refl

acquire_resp_slot_cases_example :
    Acquired all_alive 9 two table (acquire_resp_slot all_alive 9 two table)
acquire_resp_slot_cases_example = acquire_resp_slot_cases all_alive 9 two table table-IsValid

write_response_cases_example :
    Replied two table first_id table-IsValid (5 ∷ []) (write_response two table first_id (5 ∷ []))
write_response_cases_example = write_response_cases two table first_id table-IsValid (5 ∷ [])

abandon_lem_example :
    Moves two table (abandon two table first_id) (id_slot first_id) (id_gen first_id) gone
abandon_lem_example = abandon_lem two table first_id table-IsValid

run_refines_example :
    Follows (board table) (run all_alive two table ops).1 (board (run all_alive two table ops).0)
    × IsValid two (run all_alive two table ops).0
run_refines_example = run_refines all_alive two table ops table-IsValid (omega arith)

answer_was_written_example : Memᴰ (wrote 1 1 (5 ∷ 6 ∷ [])) (took 1 1 ∷ wrote 1 1 (5 ∷ 6 ∷ []) ∷ [])
answer_was_written_example =
    answer_was_written all_alive two table ops table-IsValid (omega arith) 1 1 (5 ∷ 6 ∷ [])
      (took 1 1 ∷ wrote 1 1 (5 ∷ 6 ∷ []) ∷ []) [] events
      (λ e. let g : board table 1 1 ≡ gone = not_there in cc)

served_in_order_example : Served all_alive 9 two table (5 ∷ 6 ∷ [])
served_in_order_example =
    served_in_order all_alive 9 two table (5 ∷ 6 ∷ []) table-IsValid (omega arith) 1 (omega arith)
      refl
