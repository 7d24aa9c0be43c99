-- ===== src/Files/Leaks.antt =====
-- What the four creations of gen/reqrep.h leave when they return: the string mode nothing but what the
-- handle owns, the int mode also a mapping that no handle has.
use go_data_reqrep_shared.Base.{
  ℕ, ◌*◌, ◌%◌, if◌then◌else◌, u64_mod, Option, none, some, ◌∷◌, ◌==◌, arith, Bool, true, false,
  Bool-cases, Option-cases, inl, inr,
}
use go_data_reqrep_shared.Layout.{MmapLayout}
use go_data_reqrep_shared.Reference.Layout.{next_pow2, reqrep_compute_layout}
use go_data_reqrep_shared.IntMode.File.{int_compute_layout}
use go_data_reqrep_shared.Files.{
  PathName, Trace, Kernel, Failure, OpenHandle, Outcome, opened, bad_req_cap, no_resp_slots,
  layout_overflow, memfd_failed, ftruncate_failed,
}
use go_data_reqrep_shared.Files.Open.{or_unmap}
use go_data_reqrep_shared.Files.Create.{
  Plan, or_null, memfd_made, create_file, string_plan, memfd_plan, int_plan, with_layout,
  with_int_layout, reqrep_create, reqrep_create_memfd, reqrep_create_int, reqrep_create_int_memfd,
}
use go_data_reqrep_shared.Files.Ledger.{Adds, Settled, Leaks, SetUp}
use go_data_reqrep_shared.Files.Balance.{or_unmap-Settled, or_unmap_close-Settled}
use go_data_reqrep_shared.Files.CreateBalance.{
  KeepsAll, Finishes, create_file-Settled, memfd_mapped-Settled,
}

module _ (t₀ : Trace) (P : Outcome × Trace → Type 0)
    (errs : (e : Failure) (t : Trace) → Adds t₀ t (λ r. 0) → P (Outcome.refused e, t)) where
  with_layout-Settled :
      (c n d a : ℕ) (rest : MmapLayout → Trace → Outcome × Trace)
      → ((l : MmapLayout) → P (rest l t₀))
      → P (with_layout c n d a rest t₀)
  unfolding with_layout
  with_layout-Settled c n d a rest step = elim (Bool-cases (c == 0)) [
    | inl e ↦ rw (e, with_layout) (errs bad_req_cap t₀ (λ r. omega arith))
    | inr e₁ ↦ elim (Bool-cases (n == 0)) [
      | inl e₂ ↦ rw (e₁, e₂, with_layout) (errs no_resp_slots t₀ (λ r. omega arith))
      | inr e₂ ↦
          elim (Option-cases
            (reqrep_compute_layout c n d (if a == 0 then c * 256 % u64_mod else a))) [
              | inl e₃ ↦ rw (e₁, e₂, e₃, with_layout) (errs layout_overflow t₀ (λ r. omega arith))
              | inr (l, e₃) ↦ rw (e₁, e₂, e₃, with_layout) (step l)
            ]
    ]
  ]

  with_int_layout-Settled :
      (c n : ℕ) (rest : MmapLayout → Trace → Outcome × Trace)
      → ((l : MmapLayout) → P (rest l t₀))
      → P (with_int_layout c n rest t₀)
  unfolding with_int_layout
  with_int_layout-Settled c n rest step = elim (Bool-cases (c == 0)) [
    | inl e ↦ rw (e, with_int_layout) (errs bad_req_cap t₀ (λ r. omega arith))
    | inr e₁ ↦ elim (Bool-cases (n == 0)) [
      | inl e₂ ↦ rw (e₁, e₂, with_int_layout) (errs no_resp_slots t₀ (λ r. omega arith))
      | inr e₂ ↦ elim (Option-cases (int_compute_layout c n)) [
        | inl e₃ ↦ rw (e₁, e₂, e₃, with_int_layout) (errs layout_overflow t₀ (λ r. omega arith))
        | inr (l, e₃) ↦ rw (e₁, e₂, e₃, with_int_layout) (step l)
      ]
    ]
  ]

  memfd_made-Settled :
      (k : Kernel) (plan : ℕ → Plan) (fd : Option ℕ)
      → ((own : ℕ) → KeepsAll (plan own))
      → ((own : ℕ) → Finishes t₀ P (plan own) (some own))
      → P (memfd_made k plan fd t₀)
  unfolding memfd_made
  memfd_made-Settled k plan none init ends = errs memfd_failed t₀ (λ r. omega arith)
  memfd_made-Settled k plan (some fd) init ends =
      elim (Bool-cases (k.ftruncate (opened fd ∷ t₀) fd (plan fd).total_size)) [
        | inl e ↦
            rw (e, memfd_made)
              (memfd_mapped-Settled k (plan fd) (init fd) t₀ P errs fd _ _ (ends fd)
                (λ r. omega arith))
        | inr e ↦ rw (e, memfd_made) (errs ftruncate_failed _ (λ r. omega arith))
      ]

-- Whatever the system answers, a call of reqrep_create that fails has given back each descriptor, lock,
-- mapping and piece of memory that it took, and one that succeeds has kept what its handle owns.
pub reqrep_create-Settled :
    (k : Kernel) (path : Option PathName) (req_cap resp_slots resp_data_max arena_hint : ℕ)
    (t : Trace)
    → Settled t (reqrep_create k path req_cap resp_slots resp_data_max arena_hint t)
unfolding reqrep_create string_plan
reqrep_create-Settled k path c n d a t =
    let plan : MmapLayout → Plan = λ l. string_plan k (next_pow2 c) n d l or_unmap in
    with_layout-Settled t (Settled t) (λ e t' h. h) (next_pow2 c) n d a
      (λ l. create_file k (plan l) path)
      λ l.
        create_file-Settled k (plan l) (λ t' base r. omega arith) t (Settled t) (λ e t' h. h)
          (or_unmap-Settled t) path t (λ r. omega arith)

-- The same for reqrep_create_memfd.
pub reqrep_create_memfd-Settled :
    (k : Kernel) (name : PathName) (req_cap resp_slots resp_data_max arena_hint : ℕ) (t : Trace)
    → Settled t (reqrep_create_memfd k name req_cap resp_slots resp_data_max arena_hint t)
unfolding reqrep_create_memfd string_plan
reqrep_create_memfd-Settled k name c n d a t =
    let plan : MmapLayout → ℕ → Plan = memfd_plan k (next_pow2 c) n d in
    with_layout-Settled t (Settled t) (λ e t' h. h) (next_pow2 c) n d a
      (λ l t'. memfd_made k (plan l) (k.memfd_create t' name) t')
      λ l.
        memfd_made-Settled t (Settled t) (λ e t' h. h) k (plan l) (k.memfd_create t name)
          (λ own t' base r. omega arith) (λ own base size. or_unmap_close-Settled t base size own)

or_null-Leaks :
    (keeps_fd : Bool) (t : Trace) (own base size : ℕ) (x : Option OpenHandle × Trace)
    → SetUp t base size (if keeps_fd then some own else none) x
    → Leaks keeps_fd t (or_null x)
unfolding or_null
or_null-Leaks keeps_fd t own base size (none, t') h = (base, size, own, h)
or_null-Leaks keeps_fd t own base size (some o, t') h = h

-- Whatever the system answers, a call of reqrep_create_int that succeeds has kept what its handle
-- owns, one that fails with a message has given everything back, and one for which calloc fails
-- leaves a mapping that no handle has.
pub reqrep_create_int-Leaks :
    (k : Kernel) (path : Option PathName) (req_cap resp_slots : ℕ) (t : Trace)
    → Leaks false t (reqrep_create_int k path req_cap resp_slots t)
unfolding reqrep_create_int int_plan
reqrep_create_int-Leaks k path c n t =
    let plan : MmapLayout → Plan = int_plan k (next_pow2 c) n in
    with_int_layout-Settled t (Leaks false t) (λ e t' h. h) (next_pow2 c) n
      (λ l. create_file k (plan l) path)
      λ l.
        create_file-Settled k (plan l) (λ t' base r. omega arith) t (Leaks false t) (λ e t' h. h)
          (or_null-Leaks false t 0) path t (λ r. omega arith)

-- The same for reqrep_create_int_memfd, which leaves the descriptor of the memory file too.
pub reqrep_create_int_memfd-Leaks :
    (k : Kernel) (name : PathName) (req_cap resp_slots : ℕ) (t : Trace)
    → Leaks true t (reqrep_create_int_memfd k name req_cap resp_slots t)
unfolding reqrep_create_int_memfd int_plan
reqrep_create_int_memfd-Leaks k name c n t =
    let plan : MmapLayout → ℕ → Plan = λ l fd. int_plan k (next_pow2 c) n l in
    with_int_layout-Settled t (Leaks true t) (λ e t' h. h) (next_pow2 c) n
      (λ l t'. memfd_made k (plan l) (k.memfd_create t' name) t')
      λ l.
        memfd_made-Settled t (Leaks true t) (λ e t' h. h) k (plan l) (k.memfd_create t name)
          (λ own t' base r. omega arith) (or_null-Leaks true t)
