-- ===== src/Layout/Generated.antt =====
-- gen/gen_layout.c, which prints the constants and the byte offsets of the structs of gen/reqrep.h, and
-- reqrep_layout_gen.go, which holds what it printed.
use go_data_reqrep_shared.Base.{ℕ, ◌+◌, ◌-◌, ◌*◌, ◌/◌, Option, none, some, List, [], ◌∷◌, ◌++◌}

-- The names that are printed.
pub data Label : Type 0 where
  magic version mode_str mode_int resp_free resp_acquired resp_ready utf8_flag : Label
  str_len_mask mutex_writer_bit mutex_pid_mask spin_limit lock_timeout_sec sizeof_header : Label
  sizeof_req_slot sizeof_resp_slot hdr_magic hdr_version hdr_mode hdr_req_cap : Label
  hdr_total_size hdr_req_slots_off hdr_req_arena_off hdr_req_arena_cap hdr_resp_slots : Label
  hdr_resp_data_max hdr_resp_off hdr_resp_stride hdr_req_head hdr_recv_waiters : Label
  hdr_recv_futex hdr_req_tail hdr_send_waiters hdr_send_futex hdr_mutex hdr_mutex_waiters : Label
  hdr_arena_wpos hdr_arena_used hdr_resp_hint hdr_stat_recoveries hdr_slot_futex : Label
  hdr_slot_waiters hdr_stat_requests hdr_stat_replies hdr_stat_send_full : Label
  hdr_stat_recv_empty req_arena_off req_packed_len req_arena_skip req_resp_slot : Label
  req_resp_gen resp_state resp_waiters resp_owner_pid resp_len resp_flags resp_generation : Label
  resp_data_start : Label

pub data Kind : Type 0 where
  byte word long : Kind

-- The size of an element, which is its alignment too.
abbrev pub size_of : Kind → ℕ
size_of byte = 1
size_of word = 4
size_of long = 8

-- A member of a struct, an array of `count` elements; padding has no name to print.
pub record Member : Type 0 where
  pub field : Option Label
  pub kind : Kind
  pub count : ℕ

-- The next multiple of an alignment.
abbrev pub align : ℕ → ℕ → ℕ
align n size = (n + size - 1) / size * size

-- Where a member begins that comes at `n` or behind, and where it ends.
abbrev pub start : ℕ → Member → ℕ
start n m = align n (size_of m.kind)

abbrev pub end : ℕ → Member → ℕ
end n m = start n m + m.count * size_of m.kind

-- The `offsetof` of each member that has a name, and the end of the last.
abbrev named : Option Label → ℕ → List (Label × ℕ) → List (Label × ℕ)
named none n rest = rest
named (some l) n rest = (l, n) ∷ rest

abbrev pub offsets : ℕ → List Member → List (Label × ℕ)
offsets n [] = []
offsets n (m ∷ ms) = named m.field (start n m) (offsets (end n m) ms)

abbrev pub extent : ℕ → List Member → ℕ
extent n [] = n
extent n (m ∷ ms) = extent (end n m) ms

-- `ReqRepHeader`
abbrev pub header_members : List Member
header_members =
    record { field = some hdr_magic; kind = word; count = 1 }
    ∷ record { field = some hdr_version; kind = word; count = 1 }
    ∷ record { field = some hdr_mode; kind = word; count = 1 }
    ∷ record { field = some hdr_req_cap; kind = word; count = 1 }
    ∷ record { field = some hdr_total_size; kind = long; count = 1 }
    ∷ record { field = some hdr_req_slots_off; kind = word; count = 1 }
    ∷ record { field = some hdr_req_arena_off; kind = word; count = 1 }
    ∷ record { field = some hdr_req_arena_cap; kind = word; count = 1 }
    ∷ record { field = some hdr_resp_slots; kind = word; count = 1 }
    ∷ record { field = some hdr_resp_data_max; kind = word; count = 1 }
    ∷ record { field = some hdr_resp_off; kind = word; count = 1 }
    ∷ record { field = some hdr_resp_stride; kind = word; count = 1 }
    ∷ record { field = none; kind = byte; count = 12 }
    ∷ record { field = some hdr_req_head; kind = long; count = 1 }
    ∷ record { field = some hdr_recv_waiters; kind = word; count = 1 }
    ∷ record { field = some hdr_recv_futex; kind = word; count = 1 }
    ∷ record { field = none; kind = byte; count = 48 }
    ∷ record { field = some hdr_req_tail; kind = long; count = 1 }
    ∷ record { field = some hdr_send_waiters; kind = word; count = 1 }
    ∷ record { field = some hdr_send_futex; kind = word; count = 1 }
    ∷ record { field = none; kind = byte; count = 48 }
    ∷ record { field = some hdr_mutex; kind = word; count = 1 }
    ∷ record { field = some hdr_mutex_waiters; kind = word; count = 1 }
    ∷ record { field = some hdr_arena_wpos; kind = word; count = 1 }
    ∷ record { field = some hdr_arena_used; kind = word; count = 1 }
    ∷ record { field = some hdr_resp_hint; kind = word; count = 1 }
    ∷ record { field = some hdr_stat_recoveries; kind = word; count = 1 }
    ∷ record { field = some hdr_slot_futex; kind = word; count = 1 }
    ∷ record { field = some hdr_slot_waiters; kind = word; count = 1 }
    ∷ record { field = some hdr_stat_requests; kind = long; count = 1 }
    ∷ record { field = some hdr_stat_replies; kind = long; count = 1 }
    ∷ record { field = some hdr_stat_send_full; kind = long; count = 1 }
    ∷ record { field = some hdr_stat_recv_empty; kind = word; count = 1 }
    ∷ record { field = none; kind = word; count = 1 }
    ∷ []

-- `ReqSlot`
abbrev pub req_slot_members : List Member
req_slot_members =
    record { field = some req_arena_off; kind = word; count = 1 }
    ∷ record { field = some req_packed_len; kind = word; count = 1 }
    ∷ record { field = some req_arena_skip; kind = word; count = 1 }
    ∷ record { field = some req_resp_slot; kind = word; count = 1 }
    ∷ record { field = some req_resp_gen; kind = word; count = 1 }
    ∷ record { field = none; kind = word; count = 1 }
    ∷ []

-- `RespSlotHeader`
abbrev pub resp_slot_members : List Member
resp_slot_members =
    record { field = some resp_state; kind = word; count = 1 }
    ∷ record { field = some resp_waiters; kind = word; count = 1 }
    ∷ record { field = some resp_owner_pid; kind = word; count = 1 }
    ∷ record { field = some resp_len; kind = word; count = 1 }
    ∷ record { field = some resp_flags; kind = word; count = 1 }
    ∷ record { field = some resp_generation; kind = word; count = 1 }
    ∷ record { field = none; kind = word; count = 2 }
    ∷ []

-- The `sizeof` of a struct whose largest alignment is `size`.
abbrev pub size_of_struct : ℕ → List Member → ℕ
size_of_struct size ms = align (extent 0 ms) size

-- What `main` prints.
unfoldable pub gen_layout : List (Label × ℕ)
gen_layout =
    ((magic, 0x52525331)
      ∷ (version, 1)
      ∷ (mode_str, 0)
      ∷ (mode_int, 1)
      ∷ (resp_free, 0)
      ∷ (resp_acquired, 1)
      ∷ (resp_ready, 2)
      ∷ (utf8_flag, 0x80000000)
      ∷ (str_len_mask, 0x7fffffff)
      ∷ (mutex_writer_bit, 0x80000000)
      ∷ (mutex_pid_mask, 0x7fffffff)
      ∷ (spin_limit, 32)
      ∷ (lock_timeout_sec, 2)
      ∷ (sizeof_header, size_of_struct 8 header_members)
      ∷ (sizeof_req_slot, size_of_struct 4 req_slot_members)
      ∷ (sizeof_resp_slot, size_of_struct 4 resp_slot_members)
      ∷ [])
    ++ offsets 0 header_members
    ++ offsets 0 req_slot_members
    ++ offsets 0 resp_slot_members
    ++ ((resp_data_start, size_of_struct 4 resp_slot_members) ∷ [])

-- The constants of reqrep_layout_gen.go.
unfoldable pub go_constant : Label → ℕ
go_constant magic = 0x52525331
go_constant version = 1
go_constant mode_str = 0
go_constant mode_int = 1
go_constant resp_free = 0
go_constant resp_acquired = 1
go_constant resp_ready = 2
go_constant utf8_flag = 0x80000000
go_constant str_len_mask = 0x7fffffff
go_constant mutex_writer_bit = 0x80000000
go_constant mutex_pid_mask = 0x7fffffff
go_constant spin_limit = 32
go_constant lock_timeout_sec = 2
go_constant sizeof_header = 256
go_constant sizeof_req_slot = 24
go_constant sizeof_resp_slot = 32
go_constant hdr_magic = 0
go_constant hdr_version = 4
go_constant hdr_mode = 8
go_constant hdr_req_cap = 12
go_constant hdr_total_size = 16
go_constant hdr_req_slots_off = 24
go_constant hdr_req_arena_off = 28
go_constant hdr_req_arena_cap = 32
go_constant hdr_resp_slots = 36
go_constant hdr_resp_data_max = 40
go_constant hdr_resp_off = 44
go_constant hdr_resp_stride = 48
go_constant hdr_req_head = 64
go_constant hdr_recv_waiters = 72
go_constant hdr_recv_futex = 76
go_constant hdr_req_tail = 128
go_constant hdr_send_waiters = 136
go_constant hdr_send_futex = 140
go_constant hdr_mutex = 192
go_constant hdr_mutex_waiters = 196
go_constant hdr_arena_wpos = 200
go_constant hdr_arena_used = 204
go_constant hdr_resp_hint = 208
go_constant hdr_stat_recoveries = 212
go_constant hdr_slot_futex = 216
go_constant hdr_slot_waiters = 220
go_constant hdr_stat_requests = 224
go_constant hdr_stat_replies = 232
go_constant hdr_stat_send_full = 240
go_constant hdr_stat_recv_empty = 248
go_constant req_arena_off = 0
go_constant req_packed_len = 4
go_constant req_arena_skip = 8
go_constant req_resp_slot = 12
go_constant req_resp_gen = 16
go_constant resp_state = 0
go_constant resp_waiters = 4
go_constant resp_owner_pid = 8
go_constant resp_len = 12
go_constant resp_flags = 16
go_constant resp_generation = 20
go_constant resp_data_start = 32
