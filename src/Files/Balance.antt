-- ===== src/Files/Balance.antt =====
-- The steps that the ways to a handle share give back what they take, unless the handle owns it.
use go_data_reqrep_shared.Base.{
  ℕ, ◌+◌, Option, none, some, ◌∷◌, arith, Bool, Bool-cases, Option-cases, inl, inr,
}
use go_data_reqrep_shared.Files.{
  PathName, Trace, Kernel, OpenHandle, Failure, Outcome, opened, locked, allocated,
}
use go_data_reqrep_shared.Files.Open.{
  handle_at, unlock_close, copy_path, reqrep_setup_handle, or_unmap, or_unmap_close, with_lock,
  with_opened,
}
use go_data_reqrep_shared.Files.Ledger.{
  Resource, descriptor, lock, one, owned_memory, mapped_file, Adds, Settled, SetUp,
}

copy_path-Adds :
    (k : Kernel) (path : Option PathName) (t : Trace)
    → let (copy, t') = copy_path k path t in Adds t t' (λ r. owned_memory r copy)
unfolding copy_path
copy_path-Adds k none t r = omega arith
copy_path-Adds k (some path) t r = ground arith

-- A descriptor with its lock.
abbrev pub locked_file : Resource → ℕ → ℕ
locked_file r fd = one r (descriptor fd) + one r (lock fd)

-- The calls that began at `t₀`.
module _ (t₀ : Trace) where
  -- `reqrep_setup_handle` takes the handle's memory, and that of the copied path.
  pub reqrep_setup_handle-SetUp :
      (k : Kernel) (base size : ℕ) (path : Option PathName) (fd : Option ℕ) (t : Trace)
      → Adds t₀ t (λ r. mapped_file r base size fd)
      → SetUp t₀ base size fd (reqrep_setup_handle k base size path fd t)
  unfolding reqrep_setup_handle handle_at
  reqrep_setup_handle-SetUp k base size path fd t h = elim (Option-cases (k.calloc t)) [
    | inl e ↦ rw (e, reqrep_setup_handle) h
    | inr (a, e) ↦
        let c = copy_path-Adds k path (allocated a ∷ t) in
        rw (e, reqrep_setup_handle) (λ r. omega (arith, c r, h r))
  ]

  pub or_unmap-Settled :
      (base size : ℕ) (x : Option OpenHandle × Trace)
      → SetUp t₀ base size none x
      → Settled t₀ (or_unmap base size x)
  unfolding or_unmap
  or_unmap-Settled base size (none, t) h = λ r. omega (arith, h r)
  or_unmap-Settled base size (some o, t) h = h

  pub or_unmap_close-Settled :
      (base size fd : ℕ) (x : Option OpenHandle × Trace)
      → SetUp t₀ base size (some fd) x
      → Settled t₀ (or_unmap_close base size fd x)
  unfolding or_unmap_close
  or_unmap_close-Settled base size fd (none, t) h = λ r. omega (arith, h r)
  or_unmap_close-Settled base size fd (some o, t) h = h

  -- What a whole call keeps: `P` holds of an error that gave everything back.
  module _ (P : Outcome × Trace → Type 0)
      (errs : (e : Failure) (t : Trace) → Adds t₀ t (λ r. 0) → P (Outcome.refused e, t)) where
    pub unlock_close-Settled :
        (fd : ℕ) (e : Failure) (t : Trace)
        → Adds t₀ t (λ r. locked_file r fd)
        → P (unlock_close fd e t)
    unlock_close-Settled fd e t h = errs e _ (λ r. omega (arith, h r))

    with_lock-Settled :
        (k : Kernel) (fd : ℕ) (rest : Trace → Outcome × Trace) (t : Trace)
        → ((t' : Trace) → Adds t₀ t' (λ r. locked_file r fd) → P (rest t'))
        → Adds t₀ t (λ r. one r (descriptor fd))
        → P (with_lock k fd rest t)
    unfolding with_lock
    with_lock-Settled k fd rest t step h = elim (Bool-cases (k.flock t fd)) [
      | inl e ↦ rw (e, with_lock) (step (locked fd ∷ t) (λ r. omega (arith, h r)))
      | inr e ↦ rw (e, with_lock) (errs _ _ (λ r. omega (arith, h r)))
    ]

    pub with_opened-Settled :
        (k : Kernel) (path : PathName) (may_create : Bool) (rest : ℕ → Trace → Outcome × Trace)
        (t : Trace)
        → ((fd : ℕ) (t' : Trace) → Adds t₀ t' (λ r. locked_file r fd) → P (rest fd t'))
        → Adds t₀ t (λ r. 0)
        → P (with_opened k path may_create rest t)
    unfolding with_opened
    with_opened-Settled k path may_create rest t step h =
        elim (Option-cases (k.open_file t path may_create)) [
          | inl e ↦ rw (e, with_opened) (errs _ t h)
          | inr (fd, e) ↦
              rw (e, with_opened)
                (with_lock-Settled k fd (rest fd) (opened fd ∷ t) (step fd)
                  (λ r. omega (arith, h r)))
        ]
