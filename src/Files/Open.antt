-- ===== src/Files/Open.antt =====
-- `reqrep_validate_header`, `reqrep_setup_handle`, `reqrep_open` and `reqrep_open_fd` of
-- gen/reqrep.h, and their error paths.
use go_data_reqrep_shared.Base.{
  ℕ, ◌+◌, ◌*◌, ◌%◌, Bool, false, not, ◌&&◌, Option, none, some, ◌∷◌, if◌then◌else◌, ltb, ◌==◌,
  add64, u64_mod,
}
use go_data_reqrep_shared.Layout.{
  Header, sizeof_header, sizeof_req_slot, sizeof_resp_slot, layout_magic, bad_cap,
}
use go_data_reqrep_shared.IntMode.File.{sizeof_int_slot}
use go_data_reqrep_shared.Reference.Layout.{setup_handle}
use go_data_reqrep_shared.Files.{
  PathName, Trace, Kernel, header_at, OpenHandle, Failure, Outcome, opened, closed, locked,
  unlocked, mapped, unmapped, allocated, handle, refused, no_memory, path_required, open_failed,
  flock_failed, fstat_failed, too_small, mmap_failed, invalid_file, dup_failed,
}

abbrev pub mode_str : ℕ
mode_str = 0

abbrev pub mode_int : ℕ
mode_int = 1

-- The tests of the string mode's arena.
unfoldable pub arena_within : Header → ℕ → Bool
arena_within h slots_end =
    let arena_end = add64 h.req_arena_off h.req_arena_cap in
    if ltb h.req_arena_off slots_end
    then false
    else if ltb h.total_size arena_end
    then false
    else not (ltb h.resp_off arena_end)

-- `reqrep_validate_header`, in both modes.
unfoldable pub validate_mode : Header → ℕ → ℕ → Bool
unfolding arena_within
validate_mode h file_size expected_mode =
    let slot_size = if expected_mode == mode_str then sizeof_req_slot else sizeof_int_slot in
    let slots_end = add64 h.req_slots_off (h.req_cap * slot_size % u64_mod) in
    let resp_end = add64 h.resp_off (h.resp_slots * h.resp_stride % u64_mod) in
    if not (h.magic == layout_magic)
    then false
    else if not (h.version == 1)
    then false
    else if not (h.mode == expected_mode)
    then false
    else if bad_cap h.req_cap
    then false
    else if not (h.total_size == file_size)
    then false
    else if not (h.req_slots_off == sizeof_header)
    then false
    else if h.resp_slots == 0
    then false
    else if ltb h.resp_stride sizeof_resp_slot
    then false
    else if ltb h.total_size slots_end
    then false
    else if (expected_mode == mode_str) && not (arena_within h slots_end)
    then false
    else if ltb h.resp_off slots_end
    then false
    else not (ltb h.total_size resp_end)

-- The fields of a fresh handle over a header at `base`.
unfoldable pub handle_at : ℕ → ℕ → Option ℕ → Header → ℕ → Option ℕ → OpenHandle
handle_at base map_size backing_fd h address path = record {
  address = address;
  hdr = base;
  req_slots = base + h.req_slots_off;
  req_arena = base + h.req_arena_off;
  resp_area = base + h.resp_off;
  mmap_size = map_size;
  sizes = setup_handle h;
  resp_stride = h.resp_stride;
  copy_buf = none;
  path = path;
  notify_fd = none;
  reply_fd = none;
  backing_fd = backing_fd;
}

-- The way out that every error behind `flock` takes.
abbrev pub unlock_close : ℕ → Failure → Trace → Outcome × Trace
unlock_close fd e t = (refused e, closed fd ∷ unlocked fd ∷ t)

-- `if (!h) { munmap(base, map_size); return NULL; }`
unfoldable pub or_unmap : ℕ → ℕ → Option OpenHandle × Trace → Outcome × Trace
or_unmap base size (none, t) = (no_memory, unmapped base size ∷ t)
or_unmap base size (some h, t) = (handle h, t)

-- The same, with `close(fd)`.
unfoldable pub or_unmap_close : ℕ → ℕ → ℕ → Option OpenHandle × Trace → Outcome × Trace
or_unmap_close base size fd (none, t) = (no_memory, closed fd ∷ unmapped base size ∷ t)
or_unmap_close base size fd (some h, t) = (handle h, t)

module _ (k : Kernel) where
  -- `path ? strdup(path) : NULL`, where a copy that fails is NULL too.
  unfoldable pub copy_path : Option PathName → Trace → Option ℕ × Trace
  copy_path none t = (none, t)
  copy_path (some path) t = elim (k.strdup t path) [
    | none ↦ (none, t)
    | some address ↦ (some address, allocated address ∷ t)
  ]

  -- `reqrep_setup_handle`, which reads the header behind `base`; `none` for NULL.
  unfoldable pub reqrep_setup_handle :
      ℕ → ℕ → Option PathName → Option ℕ → Trace → Option OpenHandle × Trace
  unfolding copy_path
  reqrep_setup_handle base map_size path backing_fd t = elim (k.calloc t) [
    | none ↦ (none, t)
    | some address ↦
        let t₁ = allocated address ∷ t in
        let (copy, t₂) = copy_path path t₁ in
        (some (handle_at base map_size backing_fd (header_at k t₁ base) address copy), t₂)
  ]

  -- From the answer of `mmap` to the end, for a file that has a header.
  unfoldable pub open_mapped : PathName → ℕ → ℕ → ℕ → Option ℕ → Trace → Outcome × Trace
  unfolding or_unmap
  open_mapped path fd mode size none t = unlock_close fd mmap_failed t
  open_mapped path fd mode size (some base) t =
      let t' = mapped base size ∷ t in
      let h = k.header t' base in
      if not (validate_mode h size mode)
      then unlock_close fd invalid_file (unmapped base size ∷ t')
      else or_unmap base size
          (reqrep_setup_handle base size (some path) none (closed fd ∷ unlocked fd ∷ t'))

  unfoldable pub open_sized : PathName → ℕ → ℕ → Option ℕ → Trace → Outcome × Trace
  unfolding open_mapped
  open_sized path fd mode none t = unlock_close fd fstat_failed t
  open_sized path fd mode (some size) t =
      if ltb size sizeof_header
      then unlock_close fd too_small t
      else open_mapped path fd mode size (k.mmap t (some fd) size) t

  -- `flock`, with its error path, before the rest.
  unfoldable pub with_lock : ℕ → (Trace → Outcome × Trace) → Trace → Outcome × Trace
  with_lock fd rest t =
      if k.flock t fd then rest (locked fd ∷ t) else (refused flock_failed, closed fd ∷ t)

  -- `open` and `flock`, with their error paths, before the rest.
  unfoldable pub with_opened :
      PathName → Bool → (ℕ → Trace → Outcome × Trace) → Trace → Outcome × Trace
  unfolding with_lock
  with_opened path may_create rest t = elim (k.open_file t path may_create) [
    | none ↦ (refused open_failed, t)
    | some fd ↦ with_lock fd (rest fd) (opened fd ∷ t)
  ]

  -- `reqrep_open`
  unfoldable pub reqrep_open : Option PathName → ℕ → Trace → Outcome × Trace
  unfolding with_opened open_sized
  reqrep_open none mode t = (refused path_required, t)
  reqrep_open (some path) mode t =
      with_opened path false (λ fd t'. open_sized path fd mode (k.fstat t' fd) t') t

  -- From the answer of `mmap` to the end of `reqrep_open_fd`: the handle keeps a descriptor of its own.
  unfoldable pub dup_into : ℕ → ℕ → Option ℕ → Trace → Outcome × Trace
  unfolding or_unmap_close
  dup_into base size none t = (refused dup_failed, unmapped base size ∷ t)
  dup_into base size (some own) t =
      or_unmap_close base size own (reqrep_setup_handle base size none (some own) (opened own ∷ t))

  unfoldable pub open_fd_mapped : ℕ → ℕ → ℕ → Option ℕ → Trace → Outcome × Trace
  unfolding dup_into
  open_fd_mapped fd mode size none t = (refused mmap_failed, t)
  open_fd_mapped fd mode size (some base) t =
      let t' = mapped base size ∷ t in
      let h = k.header t' base in
      if not (validate_mode h size mode)
      then (refused invalid_file, unmapped base size ∷ t')
      else dup_into base size (k.dup t' fd) t'

  unfoldable pub open_fd_sized : ℕ → ℕ → Option ℕ → Trace → Outcome × Trace
  unfolding open_fd_mapped
  open_fd_sized fd mode none t = (refused fstat_failed, t)
  open_fd_sized fd mode (some size) t =
      if ltb size sizeof_header
      then (refused too_small, t)
      else open_fd_mapped fd mode size (k.mmap t (some fd) size) t

  -- `reqrep_open_fd`
  unfoldable pub reqrep_open_fd : ℕ → ℕ → Trace → Outcome × Trace
  unfolding open_fd_sized
  reqrep_open_fd fd mode t = open_fd_sized fd mode (k.fstat t fd) t
