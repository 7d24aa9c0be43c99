-- ===== src/Shm.antt =====
-- The mapped file as data: the structs of gen/reqrep.h, and the descriptor that a Go process caches
-- (`shm` of reqrep.go). An operation takes the state of what it touches and returns the next state.
pub mod Ident
pub use Ident.*
use go_data_reqrep_shared.Base.{ℕ, List}

-- `ReqSlot`
pub record ReqSlot : Type 0 where
  pub arena_off : ℕ
  pub packed_len : ℕ
  pub arena_skip : ℕ
  pub resp_slot : ℕ
  pub resp_gen : ℕ

-- What `ReqRepHeader` holds of the request queue, with the two areas that it guards: the request
-- slots and the bytes of the arena.
pub record Queue : Type 0 where
  pub req_head : ℕ
  pub req_tail : ℕ
  pub arena_wpos : ℕ
  pub arena_used : ℕ
  pub stat_requests : ℕ
  pub stat_send_full : ℕ
  pub stat_recv_empty : ℕ
  pub slots : List ReqSlot
  pub arena : List ℕ

-- `RespSlotHeader`, with the data area behind it.
pub record RespSlot : Type 0 where
  pub state : ℕ
  pub waiters : ℕ
  pub owner_pid : ℕ
  pub resp_len : ℕ
  pub resp_flags : ℕ
  pub generation : ℕ
  pub area : List ℕ

-- `shm`, without the base address and the offsets: the areas are lists here.
pub record Shm : Type 0 where
  pub req_cap : ℕ
  pub req_cap_mask : ℕ
  pub req_arena_cap : ℕ
  pub resp_slots : ℕ
  pub resp_data_max : ℕ
