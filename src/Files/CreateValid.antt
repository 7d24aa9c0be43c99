-- ===== src/Files/CreateValid.antt =====
-- The handles of the four creations stand over headers that are accepted, written or found.
use go_data_reqrep_shared.Base.{
  ℕ, ◌+◌, ◌<◌, ◌≡◌, ◌^◌, refl, subst, arith, if◌then◌else◌, Option, none, some, ◌∷◌, ltb, ◌==◌,
  Bool, true, false, Bool-cases, inl, inr,
}
use go_data_reqrep_shared.Layout.{sizeof_header}
use go_data_reqrep_shared.Files.{
  PathName, Trace, Kernel, header_at, OpenHandle, opened, closed, unlocked, sealed, truncated,
}
use go_data_reqrep_shared.Files.Open.{validate_mode, reqrep_setup_handle}
use go_data_reqrep_shared.Files.Create.{
  Plan, use_fresh, use_existing, create_mapped, create_sized, create_anonymous, create_file,
  memfd_mapped, memfd_made,
}
use go_data_reqrep_shared.Files.Valid.{
  IsWords, IsSane, Accepted, Made, InSpace, header_at-mapped, reqrep_setup_handle-Made,
  with_opened-Accepted,
}

-- What a plan's header and its end must satisfy.
pub record IsFit (k : Kernel) (p : Plan) : Type 0 where
  pub writes : (t : Trace) (base : ℕ) → header_at k (p.initialise t base ∷ t) base ≡ p.header
  pub words : IsWords p.header
  pub accepted : p.total_size < 2 ^ 63 → validate_mode p.header p.total_size p.mode ≡ true
  pub finishes :
      (base size : ℕ) (x : Option OpenHandle × Trace)
      → Made p.mode x
      → Accepted p.mode (p.finish base size x)

module _ (k : Kernel) (sane : IsSane k) (p : Plan) (fit : IsFit k p) where
  -- A handle over the header that the plan writes.
  fresh_lem :
      (base : ℕ) (path : Option PathName) (fd : Option ℕ) (t : Trace)
      → header_at k t base ≡ p.header
      → base + p.total_size < 2 ^ 63
      → Accepted p.mode
          (p.finish base p.total_size (reqrep_setup_handle k base p.total_size path fd t))
  fresh_lem base path fd t same s = fit.finishes base p.total_size _ (
      reqrep_setup_handle-Made k p.mode base p.total_size path fd p.header t same fit.words
        (fit.accepted (omega arith)) s)

  use_existing-Accepted :
      (path : PathName) (fd base size : ℕ) (t : Trace)
      → header_at k t base ≡ k.header t base
      → base + size < 2 ^ 63
      → Accepted p.mode (use_existing k p path fd base size t)
  unfolding use_existing
  use_existing-Accepted path fd base size t same s =
      elim (Bool-cases (validate_mode (k.header t base) size p.mode)) [
        | inl e ↦
            rw (e, use_existing)
              (fit.finishes base size _ (
                reqrep_setup_handle-Made k p.mode base size (some path) none (k.header t base)
                  (closed fd ∷ unlocked fd ∷ t) same (sane.words t base) e s))
        | inr e ↦ rw (e, use_existing) tt
      ]

  create_mapped-Accepted :
      (path : PathName) (fd : ℕ) (is_new : Bool) (size : ℕ) (base : Option ℕ) (t : Trace)
      → InSpace (if is_new then p.total_size else size) base
      → Accepted p.mode (create_mapped k p path fd is_new size base t)
  unfolding create_mapped use_fresh
  create_mapped-Accepted path fd is_new size none t s = tt
  create_mapped-Accepted path fd true size (some base) t s =
      fresh_lem base (some path) none _ (fit.writes _ base) (s base refl)
  create_mapped-Accepted path fd false size (some base) t s =
      use_existing-Accepted path fd base size _ (header_at-mapped k base size t) (s base refl)

  create_sized-Accepted :
      (path : PathName) (fd : ℕ) (size : Option ℕ) (t : Trace)
      → Accepted p.mode (create_sized k p path fd size t)
  unfolding create_sized
  create_sized-Accepted path fd none t = tt
  create_sized-Accepted path fd (some size) t = elim (Bool-cases (size == 0)) [
    | inl new ↦ elim (Bool-cases (k.ftruncate t fd p.total_size)) [
      | inl e ↦
          rw (new, e, create_sized)
            (create_mapped-Accepted path fd true p.total_size _ _
              (sane.in_space (truncated fd p.total_size ∷ t) (some fd) p.total_size))
      | inr e ↦ rw (new, e, create_sized) tt
    ]
    | inr old ↦ elim (Bool-cases (ltb size sizeof_header)) [
      | inl e ↦ rw (old, e, create_sized) tt
      | inr e ↦
          rw (old, e, create_sized)
            (create_mapped-Accepted path fd false size _ t (sane.in_space t (some fd) size))
    ]
  ]

  create_anonymous-Accepted :
      (base : Option ℕ) (t : Trace)
      → InSpace p.total_size base
      → Accepted p.mode (create_anonymous k p base t)
  unfolding create_anonymous
  create_anonymous-Accepted none t s = tt
  create_anonymous-Accepted (some base) t s =
      fresh_lem base none none _ (fit.writes _ base) (s base refl)

  pub create_file-Accepted :
      (path : Option PathName) (t : Trace) → Accepted p.mode (create_file k p path t)
  unfolding create_file
  create_file-Accepted none t = create_anonymous-Accepted _ t (sane.in_space t none p.total_size)
  create_file-Accepted (some path) t =
      with_opened-Accepted k p.mode path true _ t
        (λ fd t'. create_sized-Accepted path fd (k.fstat t' fd) t')

  memfd_mapped-Accepted :
      (fd : ℕ) (base : Option ℕ) (t : Trace)
      → InSpace p.total_size base
      → Accepted p.mode (memfd_mapped k p fd base t)
  unfolding memfd_mapped
  memfd_mapped-Accepted fd none t s = tt
  memfd_mapped-Accepted fd (some base) t s =
      fresh_lem base none (some fd) _ (fit.writes _ base) (s base refl)

pub memfd_made-Accepted :
    (k : Kernel) (sane : IsSane k) (mode : ℕ) (plan : ℕ → Plan) (fd : Option ℕ) (t : Trace)
    → ((own : ℕ) → IsFit k (plan own) × ((plan own).mode ≡ mode))
    → Accepted mode (memfd_made k plan fd t)
unfolding memfd_made
memfd_made-Accepted k sane mode plan none t fit = tt
memfd_made-Accepted k sane mode plan (some fd) t fit =
    let p = plan fd in
    let t₁ = opened fd ∷ t in
    let t₂ = sealed fd ∷ truncated fd p.total_size ∷ t₁ in
    let (fits, same) = fit fd in
    elim (Bool-cases (k.ftruncate t₁ fd p.total_size)) [
      | inl e ↦
          rw (e, memfd_made)
            (subst
              (λ (m : ℕ). Accepted m (memfd_mapped k p fd (k.mmap t₂ (some fd) p.total_size) t₂))
              same
              (memfd_mapped-Accepted k sane p fits fd _ t₂
                (sane.in_space t₂ (some fd) p.total_size)))
      | inr e ↦ rw (e, memfd_made) tt
    ]
