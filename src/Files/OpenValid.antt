-- ===== src/Files/OpenValid.antt =====
-- The handles of `reqrep_open` and `reqrep_open_fd` stand over headers that were accepted.
use go_data_reqrep_shared.Base.{
  ℕ, ◌+◌, ◌<◌, ◌≡◌, ◌^◌, refl, Option, none, some, ◌∷◌, ltb, true, false, Bool-cases, inl, inr,
}
use go_data_reqrep_shared.Layout.{Header, sizeof_header}
use go_data_reqrep_shared.Files.{
  PathName, Trace, Kernel, header_at, opened, closed, unlocked, mapped,
}
use go_data_reqrep_shared.Files.Open.{
  validate_mode, open_mapped, open_sized, reqrep_open, dup_into, open_fd_mapped, open_fd_sized,
  reqrep_open_fd,
}
use go_data_reqrep_shared.Files.Valid.{
  IsWords, IsSane, Accepted, InSpace, header_at-mapped, reqrep_setup_handle-Made, or_unmap-Accepted,
  or_unmap_close-Accepted, with_opened-Accepted,
}

module _ (k : Kernel) (sane : IsSane k) (mode : ℕ) where
  open_mapped-Accepted :
      (path : PathName) (fd size : ℕ) (base : Option ℕ) (t : Trace)
      → InSpace size base
      → Accepted mode (open_mapped k path fd mode size base t)
  unfolding open_mapped
  open_mapped-Accepted path fd size none t s = tt
  open_mapped-Accepted path fd size (some base) t s =
      let t' = mapped base size ∷ t in
      elim (Bool-cases (validate_mode (k.header t' base) size mode)) [
        | inl e ↦
            rw (e, open_mapped)
              (or_unmap-Accepted k mode base size _ (
                reqrep_setup_handle-Made k mode base size (some path) none (k.header t' base)
                  (closed fd ∷ unlocked fd ∷ t') (header_at-mapped k base size t)
                  (sane.words t' base) e (s base refl)))
        | inr e ↦ rw (e, open_mapped) tt
      ]

  open_sized-Accepted :
      (path : PathName) (fd : ℕ) (size : Option ℕ) (t : Trace)
      → Accepted mode (open_sized k path fd mode size t)
  unfolding open_sized
  open_sized-Accepted path fd none t = tt
  open_sized-Accepted path fd (some size) t = elim (Bool-cases (ltb size sizeof_header)) [
    | inl e ↦ rw (e, open_sized) tt
    | inr e ↦
        rw (e, open_sized) (open_mapped-Accepted path fd size _ t (sane.in_space t (some fd) size))
  ]

  dup_into-Accepted :
      (base size : ℕ) (hd : Header) (own : Option ℕ) (t : Trace)
      → header_at k t base ≡ hd
      → IsWords hd
      → validate_mode hd size mode ≡ true
      → base + size < 2 ^ 63
      → Accepted mode (dup_into k base size own t)
  unfolding dup_into
  dup_into-Accepted base size hd none t same w v s = tt
  dup_into-Accepted base size hd (some own) t same w v s =
      or_unmap_close-Accepted k mode base size own _
        (reqrep_setup_handle-Made k mode base size none (some own) hd (opened own ∷ t) same w v s)

  open_fd_mapped-Accepted :
      (fd size : ℕ) (base : Option ℕ) (t : Trace)
      → InSpace size base
      → Accepted mode (open_fd_mapped k fd mode size base t)
  unfolding open_fd_mapped
  open_fd_mapped-Accepted fd size none t s = tt
  open_fd_mapped-Accepted fd size (some base) t s =
      let t' = mapped base size ∷ t in
      elim (Bool-cases (validate_mode (k.header t' base) size mode)) [
        | inl e ↦
            rw (e, open_fd_mapped)
              (dup_into-Accepted base size (k.header t' base) (k.dup t' fd) t'
                (header_at-mapped k base size t) (sane.words t' base) e (s base refl))
        | inr e ↦ rw (e, open_fd_mapped) tt
      ]

  open_fd_sized-Accepted :
      (fd : ℕ) (size : Option ℕ) (t : Trace) → Accepted mode (open_fd_sized k fd mode size t)
  unfolding open_fd_sized
  open_fd_sized-Accepted fd none t = tt
  open_fd_sized-Accepted fd (some size) t = elim (Bool-cases (ltb size sizeof_header)) [
    | inl e ↦ rw (e, open_fd_sized) tt
    | inr e ↦
        rw (e, open_fd_sized) (open_fd_mapped-Accepted fd size _ t (sane.in_space t (some fd) size))
  ]

  pub reqrep_open-Accepted :
      (path : Option PathName) (t : Trace) → Accepted mode (reqrep_open k path mode t)
  unfolding reqrep_open
  reqrep_open-Accepted none t = tt
  reqrep_open-Accepted (some path) t =
      with_opened-Accepted k mode path false _ t
        (λ fd t'. open_sized-Accepted path fd (k.fstat t' fd) t')

  pub reqrep_open_fd-Accepted : (fd : ℕ) (t : Trace) → Accepted mode (reqrep_open_fd k fd mode t)
  unfolding reqrep_open_fd
  reqrep_open_fd-Accepted fd t = open_fd_sized-Accepted fd (k.fstat t fd) t
