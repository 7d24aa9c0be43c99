-- ===== src/Blocking/Tests.antt =====
-- The integer mode's operations at a concrete file: two request slots, a response slot that waits
-- and one that is answered.
use go_data_reqrep_shared.Base.{
  ℕ, zero, suc, ◌<◌, ◌≡◌, inl, refl, true, false, Option, some, List, [], ◌∷◌, replicate, arith,
}
use go_data_reqrep_shared.Shm.{RespSlot}
use go_data_reqrep_shared.Slots.{Table, slot_at}
use go_data_reqrep_shared.Layout.{MmapLayout}
use go_data_reqrep_shared.Queue.Window.{IsSetUp}
use go_data_reqrep_shared.Response.Board.{gone, board, IsValid, Sound}
use go_data_reqrep_shared.Reference.{Handle}
use go_data_reqrep_shared.Reference.Agreement.{view}
use go_data_reqrep_shared.Reference.Slots.{reply_ok}
use go_data_reqrep_shared.IntMode.{Item, ReqIntSlot, IntQueue}
use go_data_reqrep_shared.IntMode.Alone.{Resting, contents}
use go_data_reqrep_shared.IntMode.Fifo.{Op, push, pop, run_alone, list_run, run_alone_lem}
use go_data_reqrep_shared.IntMode.File.{
  IntFile, got_int, int_init_header, int_reply, int_try_get, int_clear, int_size,
}
use go_data_reqrep_shared.IntMode.Clear.{int_init_header-Resting, int_clear_lem}
use go_data_reqrep_shared.IntMode.Answer.{int_answer}
use go_data_reqrep_shared.Blocking.{wait_loop, blocking, endless, Round, within, returned}
use go_data_reqrep_shared.Blocking.SendKeeps.{Counted, leaving, no_others, send_wait_keeps}
use go_data_reqrep_shared.Blocking.Calls.{send_wait, send_up, send_down, send_done}
use go_data_reqrep_shared.Reference.Session.{File, no_slot_free, try_send, send_to}
use go_data_reqrep_shared.Reference.Slots.{slot_acquire, scan_free, scan_stale, pid_alive}
use go_data_reqrep_shared.Slots.{no_error}
use go_data_reqrep_shared.Blocking.Ends.{late}
use go_data_reqrep_shared.Blocking.IntCalls.{int_recv_wait, int_abandon}
use go_data_reqrep_shared.Blocking.IntEnds.{Calm, and_then, nobody, int_recv_wait_ends}
use go_data_reqrep_shared.Blocking.Abandon.{int_abandon_lem}

abbrev handle : Handle
handle = record {
  req_cap = 2;
  req_cap_mask = 1;
  req_arena_cap = 0;
  resp_slots = 2;
  resp_data_max = 8;
  copy_buf_cap = 0;
}

handle-IsSetUp : IsSetUp (view handle)
handle-IsSetUp = record {
  cap_bits = 1;
  power = refl;
  few_bits = omega arith;
  mask = refl;
  arena_fits = omega arith;
}

abbrev layout : MmapLayout
layout = record {
  req_slots_off = 256;
  req_arena_off = 0;
  req_arena_cap = 0;
  resp_stride = 64;
  resp_off = 320;
  total_size = 448;
}

abbrev zeroed : ℕ → ReqIntSlot
zeroed c = record { sequence = 0; item = record { value = 0; resp_slot = 0; resp_gen = 0 } }

abbrev fresh : IntQueue
fresh = (int_init_header 2 2 layout zeroed []).1

fresh-Resting : Resting 2 fresh
fresh-Resting = int_init_header-Resting 2 2 layout zeroed []

abbrev x : Item
x = record { value = 42; resp_slot = 1; resp_gen = 1 }

abbrev ops : List Op
ops = push x 2 ∷ push x 0 ∷ push x 1 ∷ pop 3 ∷ []

run_alone_lem_example :
    (q' : IntQueue) × (run_alone 2 1 ops fresh ≡ some (q', (list_run 2 ops (contents 2 fresh)).1))
    × Resting 2 q'
    × (contents 2 q' ≡ (list_run 2 ops (contents 2 fresh)).0)
unfolding int_init_header
run_alone_lem_example =
    run_alone_lem (view handle) handle-IsSetUp (omega arith) ops fresh fresh-Resting (omega arith)

abbrev waits : RespSlot
waits = record {
  state = 1;
  waiters = 1;
  owner_pid = 7;
  resp_len = 0;
  resp_flags = 0;
  generation = 3;
  area = replicate 8 0;
}

abbrev table : Table
table = record {
  resp_hint = 1;
  stat_recoveries = 0;
  slot_futex = 0;
  slot_waiters = 0;
  stat_replies = 0;
  slots = waits ∷ record waits { state = 2; generation = 4 } ∷ [];
  wakes = [];
}

slots-Sound : (i : ℕ) → i < 2 → Sound (view handle) (slot_at table i)
slots-Sound zero h = record {
  known = omega arith;
  room = refl;
  short = omega arith;
  gen_fits = omega arith;
}
slots-Sound (suc zero) h = record {
  known = omega arith;
  room = refl;
  short = omega arith;
  gen_fits = omega arith;
}
slots-Sound (suc (suc i)) h = absurd (omega arith)

table-IsValid : IsValid (view handle) table
table-IsValid = record {
  all_slots = refl;
  hint_fits = omega arith;
  few_slots = omega arith;
  data_fits = omega arith;
  sound = slots-Sound;
}

abbrev file : IntFile
file = record {
  queue = fresh;
  table = table;
  recv_waiters = 0;
  recv_futex = 0;
  send_waiters = 0;
  send_futex = 0;
  recv_wakes = 0;
  send_wakes = 0;
}

int_clear_lem_example :
    Resting 2 (int_clear handle file).queue
    × (contents 2 (int_clear handle file).queue ≡ [])
    × (int_size (int_clear handle file) ≡ 0)
    × IsValid (view handle) (int_clear handle file).table
    × ((j gen : ℕ) → j < 2 → board (int_clear handle file).table j gen ≡ gone)
int_clear_lem_example = int_clear_lem handle file table-IsValid

-- The id of slot 0 and generation 3.
abbrev id : ℕ
id = 0x3_0000_0000

int_answer_example :
    ((int_reply handle table id 77).1 ≡ reply_ok)
    × ((int_try_get handle (int_reply handle table id 77).0 id).1 ≡ got_int 77)
    × (board (int_try_get handle (int_reply handle table id 77).0 id).0 0 3 ≡ gone)
int_answer_example =
    int_answer handle table table-IsValid refl id 77 (omega arith) refl (omega arith)

int_abandon_lem_example : board (int_abandon handle id table) 0 3 ≡ gone
int_abandon_lem_example = int_abandon_lem handle table table-IsValid id (omega arith)

-- A round in which nobody else does anything and the time is up.
abbrev idle_round : Round IntFile
idle_round = record {
  before = λ f. f;
  meanwhile = λ f. f;
  asleep = λ f. f;
  time_left = false;
  timed_out = false;
}

file-Calm : Calm handle 0 file
unfolding int_init_header
file-Calm = record { rest = fresh-Resting; small = omega arith; counted = refl }

int_recv_wait_ends_example :
    (f' : IntFile) × (r : Option (ℕ × ℕ)) × (int_recv_wait handle
        (λ f. 2)
        within
        (idle_round ∷ [])
        file
      ≡ returned (f', r))
    × Calm handle 0 f'
int_recv_wait_ends_example =
    int_recv_wait_ends handle handle-IsSetUp (omega arith) 0 (omega arith) (λ f. 2)
      (idle_round ∷ []) file file-Calm
      (and_then
        (record { before_calm = λ k f c. c; meanwhile_calm = λ k f c. c; asleep_calm = λ k f c. c })
        nobody)
      (late (inl refl))

-- In the string mode: both response slots are taken, and the round finds no time left.
abbrev busy_round : Round File
busy_round = record {
  before = λ f. f;
  meanwhile = λ f. f;
  asleep = λ f. f;
  time_left = false;
  timed_out = false;
}

abbrev busy_file : File
busy_file = record {
  queue = record {
    req_head = 0;
    req_tail = 0;
    arena_wpos = 0;
    arena_used = 0;
    stat_requests = 0;
    stat_send_full = 0;
    stat_recv_empty = 0;
    slots = [];
    arena = [];
  };
  table = table;
  recv_waiters = 0;
  recv_futex = 0;
  send_waiters = 0;
  send_futex = 0;
  recv_wakes = 0;
  send_wakes = 0;
}

send_wait_keeps_example : Counted 0 0 busy_file × (within ≡ endless → send_done no_slot_free ≡ true)
unfolding send_wait blocking wait_loop send_up send_down try_send send_to slot_acquire scan_free
    scan_stale pid_alive
send_wait_keeps_example =
    send_wait_keeps 0 0 (omega arith) (omega arith) (λ p. no_error) 7 handle within (5 ∷ []) false
      (busy_round ∷ []) busy_file busy_file no_slot_free (record { senders = refl; slots = refl })
      (leaving
        (record {
          before_leaves = λ k l f c. c;
          meanwhile_leaves = λ k l f c. c;
          asleep_leaves = λ k l f c. c;
          no_timeout = λ e. refl;
        })
        no_others)
      refl
