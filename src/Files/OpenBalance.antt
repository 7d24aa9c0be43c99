-- ===== src/Files/OpenBalance.antt =====
-- `reqrep_open` and `reqrep_open_fd` give back what they take, unless the handle owns it.
use go_data_reqrep_shared.Base.{ℕ, Option, none, some, ◌∷◌, ltb, arith, false, Bool-cases, inl, inr}
use go_data_reqrep_shared.Layout.{sizeof_header}
use go_data_reqrep_shared.Files.{
  PathName, Trace, Kernel, Failure, mmap_failed, fstat_failed, too_small, invalid_file, unmapped,
  mapped,
}
use go_data_reqrep_shared.Files.Open.{
  validate_mode, unlock_close, open_mapped, open_sized, reqrep_open, dup_into, open_fd_mapped,
  open_fd_sized, reqrep_open_fd,
}
use go_data_reqrep_shared.Files.Ledger.{mapped_file, Adds, Settled}
use go_data_reqrep_shared.Files.Balance.{
  reqrep_setup_handle-SetUp, or_unmap-Settled, or_unmap_close-Settled, locked_file,
  unlock_close-Settled, with_opened-Settled,
}

module _ (k : Kernel) (mode : ℕ) (t₀ : Trace) where
  unlock_close_lem :
      (fd : ℕ) (e : Failure) (t : Trace)
      → Adds t₀ t (λ r. locked_file r fd)
      → Settled t₀ (unlock_close fd e t)
  unlock_close_lem = unlock_close-Settled t₀ (Settled t₀) (λ e t h. h)

  open_mapped-Settled :
      (path : PathName) (fd size : ℕ) (base : Option ℕ) (t : Trace)
      → Adds t₀ t (λ r. locked_file r fd)
      → Settled t₀ (open_mapped k path fd mode size base t)
  unfolding open_mapped
  open_mapped-Settled path fd size none t h = unlock_close_lem fd mmap_failed t h
  open_mapped-Settled path fd size (some base) t h =
      let t' = mapped base size ∷ t in
      let hd = k.header t' base in
      elim (Bool-cases (validate_mode hd size mode)) [
        | inl e ↦
            rw (e, open_mapped)
              (or_unmap-Settled t₀ base size _ (
                reqrep_setup_handle-SetUp t₀ k base size (some path) none _
                  (λ r. omega (arith, h r))))
        | inr e ↦
            rw (e, open_mapped)
              (unlock_close_lem fd invalid_file (unmapped base size ∷ t') (λ r. omega (arith, h r)))
      ]

  open_sized-Settled :
      (path : PathName) (fd : ℕ) (size : Option ℕ) (t : Trace)
      → Adds t₀ t (λ r. locked_file r fd)
      → Settled t₀ (open_sized k path fd mode size t)
  unfolding open_sized
  open_sized-Settled path fd none t h = unlock_close_lem fd fstat_failed t h
  open_sized-Settled path fd (some size) t h = elim (Bool-cases (ltb size sizeof_header)) [
    | inl e ↦ rw (e, open_sized) (unlock_close_lem fd too_small t h)
    | inr e ↦ rw (e, open_sized) (open_mapped-Settled path fd size (k.mmap t (some fd) size) t h)
  ]

  dup_into-Settled :
      (base size : ℕ) (own : Option ℕ) (t : Trace)
      → Adds t₀ t (λ r. mapped_file r base size none)
      → Settled t₀ (dup_into k base size own t)
  unfolding dup_into
  dup_into-Settled base size none t h = λ r. omega (arith, h r)
  dup_into-Settled base size (some own) t h =
      or_unmap_close-Settled t₀ base size own _
        (reqrep_setup_handle-SetUp t₀ k base size none (some own) _ (λ r. omega (arith, h r)))

  open_fd_mapped-Settled :
      (fd size : ℕ) (base : Option ℕ) (t : Trace)
      → Adds t₀ t (λ r. 0)
      → Settled t₀ (open_fd_mapped k fd mode size base t)
  unfolding open_fd_mapped
  open_fd_mapped-Settled fd size none t h = h
  open_fd_mapped-Settled fd size (some base) t h =
      let t' = mapped base size ∷ t in
      let hd = k.header t' base in
      elim (Bool-cases (validate_mode hd size mode)) [
        | inl e ↦
            rw (e, open_fd_mapped)
              (dup_into-Settled base size (k.dup t' fd) t' (λ r. omega (arith, h r)))
        | inr e ↦ rw (e, open_fd_mapped) (λ r. omega (arith, h r))
      ]

  open_fd_sized-Settled :
      (fd : ℕ) (size : Option ℕ) (t : Trace)
      → Adds t₀ t (λ r. 0)
      → Settled t₀ (open_fd_sized k fd mode size t)
  unfolding open_fd_sized
  open_fd_sized-Settled fd none t h = h
  open_fd_sized-Settled fd (some size) t h = elim (Bool-cases (ltb size sizeof_header)) [
    | inl e ↦ rw (e, open_fd_sized) h
    | inr e ↦ rw (e, open_fd_sized) (open_fd_mapped-Settled fd size (k.mmap t (some fd) size) t h)
  ]

-- Whatever the system answers, a call of reqrep_open that fails has given back each descriptor, lock,
-- mapping and piece of memory that it took, and one that succeeds has kept what its handle owns.
pub reqrep_open-Settled :
    (k : Kernel) (path : Option PathName) (mode : ℕ) (t : Trace)
    → Settled t (reqrep_open k path mode t)
unfolding reqrep_open
reqrep_open-Settled k none mode t = λ r. omega arith
reqrep_open-Settled k (some path) mode t =
    with_opened-Settled t (Settled t) (λ e t' h. h) k path false _ t
      (λ fd t' h. open_sized-Settled k mode t path fd (k.fstat t' fd) t' h) (λ r. omega arith)

-- The same for reqrep_open_fd, whose handle owns a descriptor of its own.
pub reqrep_open_fd-Settled :
    (k : Kernel) (fd mode : ℕ) (t : Trace) → Settled t (reqrep_open_fd k fd mode t)
unfolding reqrep_open_fd
reqrep_open_fd-Settled k fd mode t =
    open_fd_sized-Settled k mode t fd (k.fstat t fd) t (λ r. omega arith)
