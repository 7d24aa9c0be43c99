-- ===== src/Files/Descriptors.antt =====
-- The event descriptors and the receive buffer of a handle, `reqrep_sync` and `reqrep_destroy` of gen/reqrep.h.
use go_data_reqrep_shared.Base.{ℕ, Option, none, some, ◌∷◌, if◌then◌else◌, ◌==◌, leb, true}
use go_data_reqrep_shared.Reference.{Handle}
use go_data_reqrep_shared.Reference.CopyBuf.{ensure_copy_buf}
use go_data_reqrep_shared.Files.{
  Trace, Kernel, OpenHandle, opened, closed, unmapped, synced, allocated, freed, incremented,
  drained,
}

-- `if (fd >= 0) close(fd)`
unfoldable pub close_if_set : Option ℕ → Trace → Trace
close_if_set none t = t
close_if_set (some fd) t = closed fd ∷ t

-- `free`, which does nothing with NULL.
unfoldable pub free_if_set : Option ℕ → Trace → Trace
free_if_set none t = t
free_if_set (some address) t = freed address ∷ t

-- `reqrep_destroy`
unfoldable pub reqrep_destroy : OpenHandle → Trace → Trace
unfolding close_if_set free_if_set
reqrep_destroy h t =
    let t₁ = close_if_set h.backing_fd (close_if_set h.reply_fd (close_if_set h.notify_fd t)) in
    let t₂ = unmapped h.hdr h.mmap_size ∷ t₁ in
    freed h.address ∷ free_if_set h.path (free_if_set h.copy_buf t₂)

-- `if (fd >= 0 && fd != new) close(fd)`
unfoldable pub close_replaced : Option ℕ → Option ℕ → Trace → Trace
close_replaced none new t = t
close_replaced (some fd) none t = closed fd ∷ t
close_replaced (some fd) (some new) t = if fd == new then t else closed fd ∷ t

-- `write` of a one to the descriptor, and `read` of its counter.
unfoldable pub increment : Option ℕ → Trace → Trace
increment none t = t
increment (some fd) t = incremented fd ∷ t

unfoldable pub drain : Option ℕ → Trace → Trace
drain none t = t
drain (some fd) t = drained fd ∷ t

-- `reqrep_eventfd_set`
unfoldable pub reqrep_eventfd_set : Option ℕ → OpenHandle → Trace → OpenHandle × Trace
unfolding close_replaced
reqrep_eventfd_set fd h t = (record h { notify_fd = fd }, close_replaced h.notify_fd fd t)

-- `reqrep_reply_eventfd_set`
unfoldable pub reqrep_reply_eventfd_set : Option ℕ → OpenHandle → Trace → OpenHandle × Trace
unfolding close_replaced
reqrep_reply_eventfd_set fd h t = (record h { reply_fd = fd }, close_replaced h.reply_fd fd t)

-- `reqrep_notify`
unfoldable pub reqrep_notify : OpenHandle → Trace → Trace
unfolding increment
reqrep_notify h t = increment h.notify_fd t

-- `reqrep_eventfd_consume`
unfoldable pub reqrep_eventfd_consume : OpenHandle → Trace → Trace
unfolding drain
reqrep_eventfd_consume h t = drain h.notify_fd t

-- `reqrep_reply_notify`
unfoldable pub reqrep_reply_notify : OpenHandle → Trace → Trace
unfolding increment
reqrep_reply_notify h t = increment h.reply_fd t

-- `reqrep_reply_eventfd_consume`
unfoldable pub reqrep_reply_eventfd_consume : OpenHandle → Trace → Trace
unfolding drain
reqrep_reply_eventfd_consume h t = drain h.reply_fd t

-- `reqrep_sync`, where `msync` succeeds.
unfoldable pub reqrep_sync : OpenHandle → Trace → Trace
reqrep_sync h t = synced h.hdr h.mmap_size ∷ t

-- What `reqrep_ensure_copy_buf` does with the answer of `realloc`, which frees the old buffer; where
-- it fails, nothing changes.
unfoldable pub keep_buffer : OpenHandle → Handle → Option ℕ → Trace → OpenHandle × Trace
unfolding free_if_set
keep_buffer h sizes none t = (h, t)
keep_buffer h sizes (some buf) t =
    (record h { copy_buf = some buf; sizes = sizes }, allocated buf ∷ free_if_set h.copy_buf t)

module _ (k : Kernel) where
  -- The descriptor, as the handle has it or new: the answer and the trace.
  unfoldable pub keep_or_create : Option ℕ → Trace → Option ℕ × Trace
  keep_or_create (some fd) t = (some fd, t)
  keep_or_create none t = elim (k.eventfd t) [
    | none ↦ (none, t)
    | some fd ↦ (some fd, opened fd ∷ t)
  ]

  -- `reqrep_eventfd_create`, which returns the new `notify_fd`.
  unfoldable pub reqrep_eventfd_create : OpenHandle → Trace → OpenHandle × Trace
  unfolding keep_or_create
  reqrep_eventfd_create h t =
      let (fd, t') = keep_or_create h.notify_fd t in (record h { notify_fd = fd }, t')

  -- `reqrep_reply_eventfd_create`, which returns the new `reply_fd`.
  unfoldable pub reqrep_reply_eventfd_create : OpenHandle → Trace → OpenHandle × Trace
  unfolding keep_or_create
  reqrep_reply_eventfd_create h t =
      let (fd, t') = keep_or_create h.reply_fd t in (record h { reply_fd = fd }, t')

  unfoldable pub resize_buffer : OpenHandle → Option Handle → Trace → OpenHandle × Trace
  unfolding keep_buffer
  resize_buffer h none t = (h, t)
  resize_buffer h (some sizes) t = keep_buffer h sizes (k.realloc t h.copy_buf sizes.copy_buf_cap) t

  -- `reqrep_ensure_copy_buf`
  unfoldable pub grow_copy_buf : ℕ → OpenHandle → Trace → OpenHandle × Trace
  unfolding resize_buffer
  grow_copy_buf needed h t =
      if leb needed h.sizes.copy_buf_cap
      then (h, t)
      else resize_buffer h (ensure_copy_buf true h.sizes needed) t
