-- ===== src/Mutex.antt =====
-- The arena mutex as a step relation: reqrep_mutex.go, and the C functions of gen/reqrep.h that lock
-- the same word. A thread makes one access to shared memory at a time, and others come in between.
pub mod Go
pub mod Peer
pub mod Role
pub mod System
pub mod Exclusion
pub mod Takeover
pub mod Patience
mod Tests
use go_data_reqrep_shared.Base.{ℕ, Bool, bit_and, bit_or, ltb, if◌then◌else◌, ◌+◌}

-- What `ReqRepHeader` holds for the mutex, and the wake calls made on it.
pub record Lock : Type 0 where
  pub word : ℕ
  pub waiters : ℕ
  pub recoveries : ℕ
  pub wakes : ℕ

-- `layoutMutexWriterBit`, `layoutMutexPidMask`, `layoutSpinLimit`
abbrev pub writer_bit : ℕ
writer_bit = 0x8000_0000

abbrev pub pid_mask : ℕ
pid_mask = 0x7fff_ffff

abbrev pub spin_limit : ℕ
spin_limit = 32

-- `layoutMutexWriterBit | (pid & layoutMutexPidMask)`
unfoldable pub lock_value : ℕ → ℕ
lock_value pid = bit_or writer_bit (bit_and pid pid_mask)

-- The process that a lock value names.
abbrev pub holder : ℕ → ℕ
holder val = bit_and val pid_mask

-- `if waiters > 0 { futexWake(mutex, 1) }`
abbrev pub wake_one : Lock → Lock
wake_one m = record m { wakes = if ltb 0 m.waiters then m.wakes + 1 else m.wakes }
