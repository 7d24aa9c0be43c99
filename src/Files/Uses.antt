-- ===== src/Files/Uses.antt =====
-- The operations on a handle's resources, from its opening on, and what their callers hand over.
use go_data_reqrep_shared.Base.{ℕ, ◌+◌, Option, none, some, List, [], ◌∷◌, ◌==◌, if◌then◌else◌}
use go_data_reqrep_shared.Files.{PathName, Trace, Kernel, OpenHandle, Outcome}
use go_data_reqrep_shared.Files.Open.{reqrep_open, reqrep_open_fd}
use go_data_reqrep_shared.Files.Create.{
  reqrep_create, reqrep_create_memfd, reqrep_create_int, reqrep_create_int_memfd,
}
use go_data_reqrep_shared.Files.Descriptors.{
  reqrep_eventfd_create, reqrep_eventfd_set, reqrep_notify, reqrep_eventfd_consume,
  reqrep_reply_eventfd_create, reqrep_reply_eventfd_set, reqrep_reply_notify,
  reqrep_reply_eventfd_consume, reqrep_sync, grow_copy_buf,
}
use go_data_reqrep_shared.Files.Ledger.{Resource, owned_fd}

-- The six ways to a handle, with their arguments.
pub data Opening : Type 0 where
  create : Option PathName → ℕ → ℕ → ℕ → ℕ → Opening
  create_memfd : PathName → ℕ → ℕ → ℕ → ℕ → Opening
  create_int : Option PathName → ℕ → ℕ → Opening
  create_int_memfd : PathName → ℕ → ℕ → Opening
  by_path : Option PathName → ℕ → Opening
  by_fd : ℕ → ℕ → Opening

-- What is done with the resources of an open handle.
pub data Use : Type 0 where
  eventfd_create notify consume reply_eventfd_create reply_notify reply_consume sync : Use
  eventfd_set reply_eventfd_set : Option ℕ → Use
  receive : ℕ → Use

-- What `close_replaced` leaves of a descriptor that the caller hands over: nothing is handed over
-- where the handle has that descriptor.
abbrev pub handed : Resource → Option ℕ → Option ℕ → ℕ
handed r none new = owned_fd r new
handed r (some fd) none = 0
handed r (some fd) (some new) = if fd == new then 0 else owned_fd r (some new)

-- What the caller of an operation hands over to the handle.
abbrev pub handed_over : Resource → Use → OpenHandle → ℕ
handed_over r (eventfd_set fd) h = handed r h.notify_fd fd
handed_over r (reply_eventfd_set fd) h = handed r h.reply_fd fd
handed_over r _ h = 0

module _ (k : Kernel) where
  unfoldable pub open_with : Opening → Trace → Outcome × Trace
  open_with (create path c n d a) = reqrep_create k path c n d a
  open_with (create_memfd name c n d a) = reqrep_create_memfd k name c n d a
  open_with (create_int path c n) = reqrep_create_int k path c n
  open_with (create_int_memfd name c n) = reqrep_create_int_memfd k name c n
  open_with (by_path path mode) = reqrep_open k path mode
  open_with (by_fd fd mode) = reqrep_open_fd k fd mode

  unfoldable pub use_handle : Use → OpenHandle → Trace → OpenHandle × Trace
  use_handle eventfd_create h t = reqrep_eventfd_create k h t
  use_handle notify h t = (h, reqrep_notify h t)
  use_handle consume h t = (h, reqrep_eventfd_consume h t)
  use_handle reply_eventfd_create h t = reqrep_reply_eventfd_create k h t
  use_handle reply_notify h t = (h, reqrep_reply_notify h t)
  use_handle reply_consume h t = (h, reqrep_reply_eventfd_consume h t)
  use_handle sync h t = (h, reqrep_sync h t)
  use_handle (eventfd_set fd) h t = reqrep_eventfd_set fd h t
  use_handle (reply_eventfd_set fd) h t = reqrep_reply_eventfd_set fd h t
  use_handle (receive needed) h t = grow_copy_buf k needed h t

  unfoldable pub use_all : List Use → OpenHandle → Trace → OpenHandle × Trace
  unfolding use_handle
  use_all [] h t = (h, t)
  use_all (u ∷ us) h t = let (h', t') = use_handle u h t in use_all us h' t'

  unfoldable pub all_handed_over : Resource → List Use → OpenHandle → Trace → ℕ
  unfolding use_handle
  all_handed_over r [] h t = 0
  all_handed_over r (u ∷ us) h t =
      let (h', t') = use_handle u h t in handed_over r u h + all_handed_over r us h' t'
