-- ===== src/Files/CreateBalance.antt =====
-- What `reqrep_create`, `reqrep_create_memfd` and their two int versions give back and what they leave.
use go_data_reqrep_shared.Base.{
  ℕ, ◌+◌, Option, none, some, ◌∷◌, ltb, ◌==◌, arith, Bool, true, false, Bool-cases, inl, inr,
}
use go_data_reqrep_shared.Layout.{sizeof_header}
use go_data_reqrep_shared.Files.{PathName, Trace, Kernel, Failure, OpenHandle, Outcome, mapped}
use go_data_reqrep_shared.Files.Open.{validate_mode}
use go_data_reqrep_shared.Files.Create.{
  Plan, use_fresh, use_existing, create_mapped, create_sized, create_anonymous, create_file,
  memfd_mapped,
}
use go_data_reqrep_shared.Files.Ledger.{descriptor, one, mapped_file, Adds, SetUp}
use go_data_reqrep_shared.Files.Balance.{
  reqrep_setup_handle-SetUp, locked_file, unlock_close-Settled, with_opened-Settled,
}

-- Initialising takes nothing and gives nothing back.
abbrev pub KeepsAll : Plan → Type 0
KeepsAll p = (t : Trace) (base : ℕ) → Adds t (p.initialise t base ∷ t) (λ r. 0)

-- What follows `reqrep_setup_handle` keeps `P`.
abbrev pub Finishes : Trace → (Outcome × Trace → Type 0) → Plan → Option ℕ → Type 0
Finishes t₀ P p fd =
    (base size : ℕ) (x : Option OpenHandle × Trace)
    → SetUp t₀ base size fd x
    → P (p.finish base size x)

module _ (k : Kernel) (p : Plan) (init : KeepsAll p) (t₀ : Trace) (P : Outcome × Trace → Type 0)
    (errs : (e : Failure) (t : Trace) → Adds t₀ t (λ r. 0) → P (Outcome.refused e, t)) where
  module _ (ends : Finishes t₀ P p none) where
    use_fresh-Settled :
        (path : PathName) (fd base : ℕ) (t : Trace)
        → Adds t₀ t (λ r. locked_file r fd + mapped_file r base p.total_size none)
        → P (use_fresh k p path fd base t)
    unfolding use_fresh
    use_fresh-Settled path fd base t h = ends base p.total_size _ (
        reqrep_setup_handle-SetUp t₀ k base p.total_size (some path) none _
          (λ r. omega (arith, h r, init t base r)))

    use_existing-Settled :
        (path : PathName) (fd base size : ℕ) (t : Trace)
        → Adds t₀ t (λ r. locked_file r fd + mapped_file r base size none)
        → P (use_existing k p path fd base size t)
    unfolding use_existing
    use_existing-Settled path fd base size t h =
        let hd = k.header t base in
        elim (Bool-cases (validate_mode hd size p.mode)) [
          | inl e ↦
              rw (e, use_existing)
                (ends base size _ (
                  reqrep_setup_handle-SetUp t₀ k base size (some path) none _
                    (λ r. omega (arith, h r))))
          | inr e ↦
              rw (e, use_existing) (unlock_close-Settled t₀ P errs fd _ _ (λ r. omega (arith, h r)))
        ]

    create_mapped-Settled :
        (path : PathName) (fd : ℕ) (is_new : Bool) (size : ℕ) (base : Option ℕ) (t : Trace)
        → Adds t₀ t (λ r. locked_file r fd)
        → P (create_mapped k p path fd is_new size base t)
    unfolding create_mapped
    create_mapped-Settled path fd is_new size none t h = unlock_close-Settled t₀ P errs fd _ t h
    create_mapped-Settled path fd true size (some base) t h =
        use_fresh-Settled path fd base _ (λ r. omega (arith, h r))
    create_mapped-Settled path fd false size (some base) t h =
        use_existing-Settled path fd base size _ (λ r. omega (arith, h r))

    create_sized-Settled :
        (path : PathName) (fd : ℕ) (size : Option ℕ) (t : Trace)
        → Adds t₀ t (λ r. locked_file r fd)
        → P (create_sized k p path fd size t)
    unfolding create_sized
    create_sized-Settled path fd none t h = unlock_close-Settled t₀ P errs fd _ t h
    create_sized-Settled path fd (some size) t h = elim (Bool-cases (size == 0)) [
      | inl new ↦ elim (Bool-cases (k.ftruncate t fd p.total_size)) [
        | inl e ↦
            rw (new, e, create_sized)
              (create_mapped-Settled path fd true p.total_size _ _ (λ r. omega (arith, h r)))
        | inr e ↦ rw (new, e, create_sized) (unlock_close-Settled t₀ P errs fd _ t h)
      ]
      | inr old ↦ elim (Bool-cases (ltb size sizeof_header)) [
        | inl e ↦ rw (old, e, create_sized) (unlock_close-Settled t₀ P errs fd _ t h)
        | inr e ↦ rw (old, e, create_sized) (create_mapped-Settled path fd false size _ t h)
      ]
    ]

    create_anonymous-Settled :
        (base : Option ℕ) (t : Trace) → Adds t₀ t (λ r. 0) → P (create_anonymous k p base t)
    unfolding create_anonymous
    create_anonymous-Settled none t h = errs _ t h
    create_anonymous-Settled (some base) t h = ends base p.total_size _ (
        reqrep_setup_handle-SetUp t₀ k base p.total_size none none _
          (λ r. omega (arith, h r, init (mapped base p.total_size ∷ t) base r)))

    pub create_file-Settled :
        (path : Option PathName) (t : Trace) → Adds t₀ t (λ r. 0) → P (create_file k p path t)
    unfolding create_file
    create_file-Settled none t h = create_anonymous-Settled _ t h
    create_file-Settled (some path) t h =
        with_opened-Settled t₀ P errs k path true _ t
          (λ fd t' h'. create_sized-Settled path fd (k.fstat t' fd) t' h') h

  pub memfd_mapped-Settled :
      (fd : ℕ) (base : Option ℕ) (t : Trace)
      → Finishes t₀ P p (some fd)
      → Adds t₀ t (λ r. one r (descriptor fd))
      → P (memfd_mapped k p fd base t)
  unfolding memfd_mapped
  memfd_mapped-Settled fd none t ends h = errs _ _ (λ r. omega (arith, h r))
  memfd_mapped-Settled fd (some base) t ends h = ends base p.total_size _ (
      reqrep_setup_handle-SetUp t₀ k base p.total_size none (some fd) _
        (λ r. omega (arith, h r, init (mapped base p.total_size ∷ t) base r)))
