-- ===== src/Reference.antt =====
-- gen/reqrep.h: the C implementation of the same shared-memory protocol, which the Perl peers run
-- over the files that the Go code maps. `fault` is a `memcpy` outside the arena.
pub mod Queue
pub mod CopyBuf
pub mod Agreement
mod Tests
pub mod Overflow
pub mod RecvAgreement
pub mod Growth
pub mod Slots
pub mod Layout
pub mod Power
pub mod Session
pub mod Clear
pub mod SlotAgreement
mod SlotTests
use go_data_reqrep_shared.Base.{ℕ}

-- The sizes that `ReqRepHandle` caches, and its receive buffer.
pub record Handle : Type 0 where
  pub req_cap : ℕ
  pub req_cap_mask : ℕ
  pub req_arena_cap : ℕ
  pub resp_slots : ℕ
  pub resp_data_max : ℕ
  pub copy_buf_cap : ℕ
