-- ===== src/Files.antt =====
-- gen/reqrep.h: how a process opens, creates and closes the file of a handle, and the descriptors of
-- its event loop. The system calls are parameters: a kernel answers each from the calls before it.

pub mod Open
pub mod Create
pub mod Descriptors
pub mod Ledger
pub mod Balance
pub mod OpenBalance
pub mod CreateBalance
pub mod Leaks
pub mod Uses
pub mod Lifetime
pub mod Valid
pub mod OpenValid
pub mod CreateValid
pub mod Fresh
pub mod IntFresh
pub mod Bounds
pub mod Opened
pub mod Writes
pub mod Guarded
pub mod Reopen
pub mod GoOpen
pub mod GoEnds
pub mod GoOpened
mod Tests
use go_data_reqrep_shared.Base.{ℕ, Bool, Option, List, [], ◌∷◌, if◌then◌else◌, ◌==◌}
use go_data_reqrep_shared.Shm.{RespSlot}
use go_data_reqrep_shared.Layout.{Header}
use go_data_reqrep_shared.Reference.{Handle}
use go_data_reqrep_shared.IntMode.{ReqIntSlot, IntQueue}

-- A path or a name, as its bytes.
abbrev pub PathName : Type 0
PathName = List ℕ

-- What a process has done: calls that succeeded, calls whose answer the code ignores, and writes to a
-- fresh file.
pub data FileEvent : Type 0 where
  opened closed locked unlocked sealed : ℕ → FileEvent
  truncated : ℕ → ℕ → FileEvent
  mapped unmapped synced : ℕ → ℕ → FileEvent
  allocated freed : ℕ → FileEvent
  initialised : ℕ → Header × List RespSlot → FileEvent
  int_initialised : ℕ → Header × IntQueue × List RespSlot → FileEvent
  header_written : ℕ → Header → FileEvent
  incremented drained : ℕ → FileEvent

-- The last event first.
abbrev pub Trace : Type 0
Trace = List FileEvent

-- The answers of the system and of the allocator after a trace, `none` or `false` for a failure, the
-- size that fstat gives as an unsigned word,
-- and what a mapping holds: a header, the bytes of its region, the slots of the integer mode, and a
-- response's data area.
pub record Kernel : Type 1 where
  pub open_file : Trace → PathName → Bool → Option ℕ
  pub memfd_create : Trace → PathName → Option ℕ
  pub flock : Trace → ℕ → Bool
  pub fstat : Trace → ℕ → Option ℕ
  pub ftruncate : Trace → ℕ → ℕ → Bool
  pub mmap : Trace → Option ℕ → ℕ → Option ℕ
  pub dup : Trace → ℕ → Option ℕ
  pub eventfd : Trace → Option ℕ
  pub calloc : Trace → Option ℕ
  pub realloc : Trace → Option ℕ → ℕ → Option ℕ
  pub strdup : Trace → PathName → Option ℕ
  pub header : Trace → ℕ → Header
  pub header_bytes : Trace → ℕ → List ℕ
  pub int_slots : Trace → ℕ → ℕ → ReqIntSlot
  pub area : Trace → ℕ → List ℕ

-- What a read of the header behind `base` gives, of the fields that reqrep.h calls immutable after the
-- creation: what the process has written there, or what the mapping held when it was made.
abbrev pub header_at : Kernel → Trace → ℕ → Header
header_at k [] base = k.header [] base
header_at k (FileEvent.mapped b size ∷ t) base =
    if b == base then k.header (FileEvent.mapped b size ∷ t) base else header_at k t base
header_at k (FileEvent.initialised b x ∷ t) base = if b == base then x.0 else header_at k t base
header_at k (FileEvent.int_initialised b x ∷ t) base = if b == base then x.0 else header_at k t base
header_at k (FileEvent.header_written b h ∷ t) base = if b == base then h else header_at k t base
header_at k (e ∷ t) base = header_at k t base

-- `ReqRepHandle`: addresses, sizes, and descriptors with `none` for -1. `address` is the handle's
-- own, `path` that of its copy of the path.
pub record OpenHandle : Type 0 where
  pub address : ℕ
  pub hdr : ℕ
  pub req_slots : ℕ
  pub req_arena : ℕ
  pub resp_area : ℕ
  pub mmap_size : ℕ
  pub sizes : Handle
  pub resp_stride : ℕ
  pub copy_buf : Option ℕ
  pub path : Option ℕ
  pub notify_fd : Option ℕ
  pub reply_fd : Option ℕ
  pub backing_fd : Option ℕ

-- The messages of `REQREP_ERR`, and the errors of the Go program.
pub data Failure : Type 0 where
  path_required bad_req_cap no_resp_slots layout_overflow : Failure
  open_failed memfd_failed flock_failed fstat_failed too_small : Failure
  ftruncate_failed mmap_failed invalid_file dup_failed : Failure
  bad_data_max size_overflow negative_size : Failure

-- What a call returns: a handle, or NULL with a message, or NULL without one when `calloc` fails.
pub data Outcome : Type 0 where
  handle : OpenHandle → Outcome
  refused : Failure → Outcome
  no_memory : Outcome
