-- ===== src/Files/Writes.antt =====
-- When a file is written while it is opened: only where it was empty, and under its lock.
use go_data_reqrep_shared.Base.{
  ℕ, ◌≡◌, ◌≢◌, ◌⊎◌, refl, Option, none, some, [], ◌∷◌, ltb, ◌==◌, Bool, true, false, Bool-cases,
  Option-cases, inl, inr, arith,
}
use go_data_reqrep_shared.Layout.{sizeof_header}
use go_data_reqrep_shared.Files.{
  PathName, FileEvent, Trace, Kernel, OpenHandle, Failure, invalid_file, mmap_failed, fstat_failed,
  ftruncate_failed, too_small, opened, locked, truncated, mapped, allocated,
}
use go_data_reqrep_shared.Files.Open.{
  validate_mode, copy_path, reqrep_setup_handle, or_unmap, with_lock, with_opened, unlock_close,
}
use go_data_reqrep_shared.Files.Create.{
  Plan, or_null, use_fresh, use_existing, create_mapped, create_sized, create_file,
}

-- Whether an event writes to a file.
abbrev pub is_write : FileEvent → Bool
is_write (FileEvent.truncated fd size) = true
is_write (FileEvent.initialised base x) = true
is_write (FileEvent.int_initialised base x) = true
is_write (FileEvent.header_written base h) = true
is_write _ = false

-- The process holds the lock of the file behind `fd`.
abbrev pub Holds : ℕ → Trace → Type 0
Holds fd [] = ⊥
Holds fd (FileEvent.locked g ∷ t) = (g ≡ fd) ⊎ Holds fd t
Holds fd (FileEvent.unlocked g ∷ t) = (g ≢ fd) × Holds fd t
Holds fd (FileEvent.closed g ∷ t) = (g ≢ fd) × Holds fd t
Holds fd (_ ∷ t) = Holds fd t

-- What follows `reqrep_setup_handle` writes nothing.
abbrev pub FinishesFor : (Trace → Type 0) → Plan → Type 0
FinishesFor W p =
    (base size : ℕ) (x : Option OpenHandle × Trace) → W x.1 → W (p.finish base size x).1

-- What a new file is given keeps `W`.
abbrev pub KeepsNew : Kernel → (Trace → Type 0) → Plan → ℕ → Trace → Type 0
KeepsNew k W p fd t =
    let t' = truncated fd p.total_size ∷ t in
    W t'
    × ((base : ℕ)
        → k.mmap t' (some fd) p.total_size ≡ some base
        → let t'' = mapped base p.total_size ∷ t' in W (p.initialise t'' base ∷ t''))

-- A property of traces that events which write nothing keep.
module _ (W : Trace → Type 0)
    (quiet : (e : FileEvent) (t : Trace) → is_write e ≡ false → W t → W (e ∷ t)) (k : Kernel) where
  copy_path-Quiet : (path : Option PathName) (t : Trace) → W t → W (copy_path k path t).1
  unfolding copy_path
  copy_path-Quiet none t w = w
  copy_path-Quiet (some path) t w = elim (Option-cases (k.strdup t path)) [
    | inl e ↦ rw (e, copy_path) w
    | inr (a, e) ↦ rw (e, copy_path) (quiet _ t refl w)
  ]

  reqrep_setup_handle-Quiet :
      (base size : ℕ) (path : Option PathName) (fd : Option ℕ) (t : Trace)
      → W t
      → W (reqrep_setup_handle k base size path fd t).1
  unfolding reqrep_setup_handle
  reqrep_setup_handle-Quiet base size path fd t w = elim (Option-cases (k.calloc t)) [
    | inl e ↦ rw (e, reqrep_setup_handle) w
    | inr (a, e) ↦
        rw (e, reqrep_setup_handle) (copy_path-Quiet path (allocated a ∷ t) (quiet _ t refl w))
  ]

  pub or_unmap-Quiet :
      (base size : ℕ) (x : Option OpenHandle × Trace) → W x.1 → W (or_unmap base size x).1
  unfolding or_unmap
  or_unmap-Quiet base size (none, t) w = quiet _ t refl w
  or_unmap-Quiet base size (some h, t) w = w

  pub or_null-Quiet : (x : Option OpenHandle × Trace) → W x.1 → W (or_null x).1
  unfolding or_null
  or_null-Quiet (none, t) w = w
  or_null-Quiet (some h, t) w = w

  unlock_close-Quiet : (fd : ℕ) (e : Failure) (t : Trace) → W t → W (unlock_close fd e t).1
  unlock_close-Quiet fd e t w = quiet _ _ refl (quiet _ t refl w)

  module _ (p : Plan) (ends : FinishesFor W p) where
    use_existing-Quiet :
        (path : PathName) (fd base size : ℕ) (t : Trace)
        → W t
        → W (use_existing k p path fd base size t).1
    unfolding use_existing
    use_existing-Quiet path fd base size t w =
        elim (Bool-cases (validate_mode (k.header t base) size p.mode)) [
          | inl e ↦
              rw (e, use_existing)
                (ends base size _ (
                  reqrep_setup_handle-Quiet base size (some path) none _
                    (unlock_close-Quiet fd invalid_file t w)))
          | inr e ↦ rw (e, use_existing) (unlock_close-Quiet fd invalid_file _ (quiet _ t refl w))
        ]

    use_new-Quiet :
        (path : PathName) (fd : ℕ) (base : Option ℕ) (t : Trace)
        → KeepsNew k W p fd t
        → k.mmap (truncated fd p.total_size ∷ t) (some fd) p.total_size ≡ base
        → W (create_mapped k p path fd true p.total_size base (truncated fd p.total_size ∷ t)).1
    unfolding create_mapped use_fresh
    use_new-Quiet path fd none t n e = unlock_close-Quiet fd mmap_failed _ n.0
    use_new-Quiet path fd (some base) t n e = ends base p.total_size _ (
        reqrep_setup_handle-Quiet base p.total_size (some path) none _
          (unlock_close-Quiet fd mmap_failed _ (n.1 base e)))

    use_old-Quiet :
        (path : PathName) (fd size : ℕ) (base : Option ℕ) (t : Trace)
        → W t
        → W (create_mapped k p path fd false size base t).1
    unfolding create_mapped
    use_old-Quiet path fd size none t w = unlock_close-Quiet fd mmap_failed t w
    use_old-Quiet path fd size (some base) t w =
        use_existing-Quiet path fd base size _ (quiet _ t refl w)

    create_sized-Quiet :
        (path : PathName) (fd : ℕ) (size : Option ℕ) (t : Trace)
        → W t
        → (size ≡ some 0 → KeepsNew k W p fd t)
        → W (create_sized k p path fd size t).1
    unfolding create_sized
    create_sized-Quiet path fd none t w new = unlock_close-Quiet fd fstat_failed t w
    create_sized-Quiet path fd (some size) t w new = elim (Bool-cases (size == 0)) [
      | inl zero_size ↦ elim (Bool-cases (k.ftruncate t fd p.total_size)) [
        | inl e ↦
            rw (zero_size, e, create_sized)
              (use_new-Quiet path fd _ t (new (ground (arith, zero_size))) refl)
        | inr e ↦ rw (zero_size, e, create_sized) (unlock_close-Quiet fd ftruncate_failed t w)
      ]
      | inr old ↦ elim (Bool-cases (ltb size sizeof_header)) [
        | inl e ↦ rw (old, e, create_sized) (unlock_close-Quiet fd too_small t w)
        | inr e ↦ rw (old, e, create_sized) (use_old-Quiet path fd size _ t w)
      ]
    ]

    pub create_file-Quiet :
        (path : PathName) (t : Trace)
        → W t
        → ((fd : ℕ) (t' : Trace)
            → W t'
            → Holds fd t'
            → k.fstat t' fd ≡ some 0
            → KeepsNew k W p fd t')
        → W (create_file k p (some path) t).1
    unfolding create_file with_opened with_lock
    create_file-Quiet path t w new = elim (Option-cases (k.open_file t path true)) [
      | inl e ↦ rw (e, with_opened) w
      | inr (fd, e) ↦ elim (Bool-cases (k.flock (opened fd ∷ t) fd)) [
        | inl locks ↦
            let t' = locked fd ∷ opened fd ∷ t in
            let w' = quiet _ _ refl (quiet _ t refl w) in
            rw (e, with_opened, locks, with_lock)
              (create_sized-Quiet path fd (k.fstat t' fd) t' w' (new fd t' w' (inl refl)))
        | inr fails ↦ rw (e, with_opened, fails, with_lock) (quiet _ _ refl (quiet _ t refl w))
      ]
    ]
