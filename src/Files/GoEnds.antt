-- ===== src/Files/GoEnds.antt =====
-- What the parts of `openOrCreate` and `openExisting` hold when they end, and the header of a mapping.
use go_data_reqrep_shared.Base.{
  ℕ, ◌+◌, ◌≡◌, Option, none, some, ◌∷◌, ltb, ◌==◌, ◌&&◌, Bool, true, false, Bool-cases,
  Option-cases, inl, inr, arith, refl,
}
use go_data_reqrep_shared.Layout.{Header, sizeof_header, max_int, validate_header, setup_shm}
use go_data_reqrep_shared.Layout.Fresh.{validate_header-IsSetUp}
use go_data_reqrep_shared.Queue.Window.{IsSetUp}
use go_data_reqrep_shared.Files.{PathName, Trace, Kernel, opened, mapped}
use go_data_reqrep_shared.Files.Ledger.{Resource, mapped_file, Adds}
use go_data_reqrep_shared.Files.Balance.{locked_file}
use go_data_reqrep_shared.Files.Valid.{IsWords}
use go_data_reqrep_shared.Files.GoOpen.{
  is_header_zero, GoResult, GoPlan, go_unlock_close, go_existing, go_mapped, go_map, go_sized,
  go_with_lock, go_with_file, existing_mapped, existing_sized,
}

-- A header that the Go program accepts for a file of `size` bytes, and the descriptor that is made of it.
abbrev pub IsUsable : ℕ → Header → Type 0
IsUsable size hd = IsSetUp (setup_shm hd) × (validate_header hd size ≡ true)

-- A call that began at `t` and holds `f` of each resource besides: a mapping that it returns is still
-- there, with a usable header; with an error there is nothing else.
abbrev pub Holding : (Resource → ℕ) → Trace → GoResult × Trace → Type 0
Holding f t (GoResult.mapping_at base size hd, t') =
    Adds t t' (λ r. f r + mapped_file r base size none) × IsUsable size hd
Holding f t (GoResult.failed e, t') = Adds t t' f

abbrev pub GoEnds : Trace → GoResult × Trace → Type 0
GoEnds t x = Holding (λ r. 0) t x

module _ (t₀ : Trace) (fd : ℕ) where
  go_unlock_close-GoEnds :
      (x : GoResult × Trace)
      → Holding (λ r. locked_file r fd) t₀ x
      → GoEnds t₀ (go_unlock_close fd x)
  go_unlock_close-GoEnds (GoResult.mapping_at base size hd, t) (h, s) = (λ r. omega (arith, h r), s)
  go_unlock_close-GoEnds (GoResult.failed e, t) h = λ r. omega (arith, h r)

module _ (k : Kernel) (words : (t : Trace) (base : ℕ) → IsWords (k.header t base))
    (t₀ : Trace) where
  pub go_with_file-GoEnds :
      (path : PathName) (may_create : Bool) (rest : ℕ → Trace → GoResult × Trace)
      → ((fd : ℕ) (t : Trace)
          → Adds t₀ t (λ r. locked_file r fd)
          → Holding (λ r. locked_file r fd) t₀ (rest fd t))
      → GoEnds t₀ (go_with_file k path may_create rest t₀)
  unfolding go_with_file go_with_lock
  go_with_file-GoEnds path may_create rest step =
      elim (Option-cases (k.open_file t₀ path may_create)) [
        | inl e ↦ rw (e, go_with_file) (λ r. omega arith)
        | inr (fd, e) ↦ elim (Bool-cases (k.flock (opened fd ∷ t₀) fd)) [
          | inl locks ↦
              rw (e, go_with_file, locks, go_with_lock)
                (go_unlock_close-GoEnds t₀ fd _ (step fd _ (λ r. omega arith)))
          | inr fails ↦ rw (e, go_with_file, fails, go_with_lock) (λ r. omega arith)
        ]
      ]

  -- A header that was read and validated.
  read_lem :
      (t : Trace) (base size : ℕ)
      → validate_header (k.header t base) size ≡ true
      → IsUsable size (k.header t base)
  read_lem t base size e =
      let w : IsWords (k.header t base) = words t base in
      (validate_header-IsSetUp (k.header t base) size w.req_cap_fits w.req_arena_cap_fits e, e)

  module _ (f : Resource → ℕ) where
    existing_mapped-Holding :
        (size : ℕ) (base : Option ℕ) (t : Trace)
        → Adds t₀ t f
        → Holding f t₀ (existing_mapped k size base t)
    unfolding existing_mapped
    existing_mapped-Holding size none t h = h
    existing_mapped-Holding size (some base) t h =
        let t' = mapped base size ∷ t in
        elim (Bool-cases (validate_header (k.header t' base) size)) [
          | inl e ↦ rw (e, existing_mapped) (λ r. omega (arith, h r), read_lem t' base size e)
          | inr e ↦ rw (e, existing_mapped) (λ r. omega (arith, h r))
        ]

    pub existing_sized-Holding :
        (fd : ℕ) (size : Option ℕ) (t : Trace)
        → Adds t₀ t f
        → Holding f t₀ (existing_sized k fd size t)
    unfolding existing_sized
    existing_sized-Holding fd none t h = h
    existing_sized-Holding fd (some size) t h = elim (Bool-cases (ltb max_int size)) [
      | inl e ↦ rw (e, existing_sized) h
      | inr e₁ ↦ elim (Bool-cases (ltb size sizeof_header)) [
        | inl e₂ ↦ rw (e₁, e₂, existing_sized) h
        | inr e₂ ↦ rw (e₁, e₂, existing_sized) (existing_mapped-Holding size _ t h)
      ]
    ]

    module _ (p : GoPlan) (fit : IsUsable p.total_size p.fresh) where
      go_existing-Holding :
          (base size : ℕ) (t : Trace)
          → Adds t₀ t (λ r. f r + mapped_file r base size none)
          → Holding f t₀ (go_existing k p base size t)
      unfolding go_existing
      go_existing-Holding base size t h =
          elim (Bool-cases (is_header_zero (k.header_bytes t base) && (size == p.total_size))) [
            | inl e ↦
                let same : size ≡ p.total_size = ground (arith, e) in
                rw (e, go_existing) (λ r. omega (arith, h r), rw same fit)
            | inr e₁ ↦ elim (Bool-cases (validate_header (k.header t base) size)) [
              | inl e₂ ↦ rw (e₁, e₂, go_existing) (h, read_lem t base size e₂)
              | inr e₂ ↦ rw (e₁, e₂, go_existing) (λ r. omega (arith, h r))
            ]
          ]

      go_mapped-Holding :
          (is_new : Bool) (size : ℕ) (base : Option ℕ) (t : Trace)
          → (is_new ≡ true → size ≡ p.total_size)
          → Adds t₀ t f
          → Holding f t₀ (go_mapped k p is_new size base t)
      unfolding go_mapped
      go_mapped-Holding is_new size none t new h = h
      go_mapped-Holding true size (some base) t new h =
          let same : size ≡ p.total_size = new refl in (λ r. omega (arith, h r), rw same fit)
      go_mapped-Holding false size (some base) t new h =
          go_existing-Holding base size _ (λ r. omega (arith, h r))

      go_map-Holding :
          (fd : ℕ) (is_new : Bool) (size : ℕ) (t : Trace)
          → (is_new ≡ true → size ≡ p.total_size)
          → Adds t₀ t f
          → Holding f t₀ (go_map k p fd is_new size t)
      unfolding go_map
      go_map-Holding fd is_new size t new h = elim (Bool-cases (ltb max_int size)) [
        | inl e ↦ rw (e, go_map) h
        | inr e ↦ rw (e, go_map) (go_mapped-Holding is_new size (k.mmap t (some fd) size) t new h)
      ]

      pub go_sized-Holding :
          (fd : ℕ) (size : Option ℕ) (t : Trace)
          → Adds t₀ t f
          → Holding f t₀ (go_sized k p fd size t)
      unfolding go_sized
      go_sized-Holding fd none t h = h
      go_sized-Holding fd (some size) t h = elim (Bool-cases (size == 0)) [
        | inl new ↦ elim (Bool-cases (k.ftruncate t fd p.total_size)) [
          | inl e ↦
              rw (new, e, go_sized)
                (go_map-Holding fd true p.total_size _ (λ _. refl) (λ r. omega (arith, h r)))
          | inr e ↦ rw (new, e, go_sized) h
        ]
        | inr old ↦ elim (Bool-cases (ltb size sizeof_header)) [
          | inl e ↦ rw (old, e, go_sized) h
          | inr e ↦ rw (old, e, go_sized) (go_map-Holding fd false size t (λ z. absurd (cc z)) h)
        ]
      ]
