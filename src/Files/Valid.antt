-- ===== src/Files/Valid.antt =====
-- A handle of gen/reqrep.h stands over a header that `reqrep_validate_header` accepts: what the ways to
-- a handle keep of the header that they validate or write.
use go_data_reqrep_shared.Base.{
  ℕ, ◌+◌, ◌<◌, ◌≡◌, ◌^◌, refl, Option, none, some, ◌∷◌, Bool, true, Bool-cases, Option-cases, inl,
  inr, u32_mod, ◌==◌, arith,
}
use go_data_reqrep_shared.Layout.{Header}
use go_data_reqrep_shared.Files.{
  PathName, Trace, Kernel, header_at, mapped, OpenHandle, Outcome, opened,
}
use go_data_reqrep_shared.Files.Open.{
  validate_mode, handle_at, reqrep_setup_handle, or_unmap, or_unmap_close, with_lock, with_opened,
}
use go_data_reqrep_shared.Files.Create.{or_null}

-- The 32-bit fields.
pub record IsWords (h : Header) : Type 0 where
  pub req_cap_fits : h.req_cap < u32_mod
  pub req_arena_off_fits : h.req_arena_off < u32_mod
  pub req_arena_cap_fits : h.req_arena_cap < u32_mod
  pub resp_slots_fits : h.resp_slots < u32_mod
  pub resp_off_fits : h.resp_off < u32_mod
  pub resp_stride_fits : h.resp_stride < u32_mod

-- A mapping lies within a process's part of the address space, and a header's fields have their
-- types.
pub record IsSane (k : Kernel) : Type 0 where
  pub in_space :
      (t : Trace) (fd : Option ℕ) (size base : ℕ)
      → k.mmap t fd size ≡ some base
      → base + size < 2 ^ 63
  pub words : (t : Trace) (base : ℕ) → IsWords (k.header t base)

-- The handle of a mapping of `size` bytes at `base`, over a header that is accepted.
pub record Stands (mode : ℕ) (hd : Header) (h : OpenHandle) : Type 0 where
  pub words : IsWords hd
  pub accepted : validate_mode hd h.mmap_size mode ≡ true
  pub in_space : h.hdr + h.mmap_size < 2 ^ 63
  pub fields : h ≡ handle_at h.hdr h.mmap_size h.backing_fd hd h.address h.path

-- What a call in `mode` returns, if it returns a handle.
abbrev pub Accepted : ℕ → Outcome × Trace → Type 0
Accepted mode (Outcome.handle h, t) = (hd : Header) × Stands mode hd h
Accepted mode (Outcome.refused e, t) = Unit {0}
Accepted mode (Outcome.no_memory, t) = Unit {0}

abbrev pub Made : ℕ → Option OpenHandle × Trace → Type 0
Made mode (some h, t) = (hd : Header) × Stands mode hd h
Made mode (none, t) = Unit {0}

-- What is known of an answer of `mmap`.
abbrev pub InSpace : ℕ → Option ℕ → Type 0
InSpace size base = (b : ℕ) → base ≡ some b → b + size < 2 ^ 63

-- A mapping holds what the system put there.
pub header_at-mapped :
    (k : Kernel) (base size : ℕ) (t : Trace)
    → header_at k (mapped base size ∷ t) base ≡ k.header (mapped base size ∷ t) base
header_at-mapped k base size t = let same : (base == base) ≡ true = ground arith in rw same refl

module _ (k : Kernel) (mode : ℕ) where
  pub reqrep_setup_handle-Made :
      (base size : ℕ) (path : Option PathName) (fd : Option ℕ) (hd : Header) (t : Trace)
      → header_at k t base ≡ hd
      → IsWords hd
      → validate_mode hd size mode ≡ true
      → base + size < 2 ^ 63
      → Made mode (reqrep_setup_handle k base size path fd t)
  unfolding reqrep_setup_handle handle_at
  reqrep_setup_handle-Made base size path fd hd t same w v s = elim (Option-cases (k.calloc t)) [
    | inl e ↦ rw (e, reqrep_setup_handle) tt
    | inr (a, e) ↦
        rw (e, reqrep_setup_handle, same)
          (hd, record { words = w; accepted = v; in_space = s; fields = refl })
  ]

  pub or_unmap-Accepted :
      (base size : ℕ) (x : Option OpenHandle × Trace)
      → Made mode x
      → Accepted mode (or_unmap base size x)
  unfolding or_unmap
  or_unmap-Accepted base size (none, t) m = tt
  or_unmap-Accepted base size (some h, t) m = m

  pub or_unmap_close-Accepted :
      (base size fd : ℕ) (x : Option OpenHandle × Trace)
      → Made mode x
      → Accepted mode (or_unmap_close base size fd x)
  unfolding or_unmap_close
  or_unmap_close-Accepted base size fd (none, t) m = tt
  or_unmap_close-Accepted base size fd (some h, t) m = m

  pub or_null-Accepted : (x : Option OpenHandle × Trace) → Made mode x → Accepted mode (or_null x)
  unfolding or_null
  or_null-Accepted (none, t) m = tt
  or_null-Accepted (some h, t) m = m

  pub with_opened-Accepted :
      (path : PathName) (may_create : Bool) (rest : ℕ → Trace → Outcome × Trace) (t : Trace)
      → ((fd : ℕ) (t' : Trace) → Accepted mode (rest fd t'))
      → Accepted mode (with_opened k path may_create rest t)
  unfolding with_opened with_lock
  with_opened-Accepted path may_create rest t step =
      elim (Option-cases (k.open_file t path may_create)) [
        | inl e ↦ rw (e, with_opened) tt
        | inr (fd, e) ↦ elim (Bool-cases (k.flock (opened fd ∷ t) fd)) [
          | inl locks ↦ rw (e, with_opened, locks, with_lock) (step fd _)
          | inr fails ↦ rw (e, with_opened, fails, with_lock) tt
        ]
      ]
