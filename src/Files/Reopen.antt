-- ===== src/Files/Reopen.antt =====
-- A file that a creation has initialised is opened by another process.
use go_data_reqrep_shared.Base.{
  ℕ, ◌+◌, ◌<◌, ◌≤◌, ◌≡◌, ◌≢◌, some, [], ◌∷◌, true, false, ltb, ◌∙◌, ap, arith, u32_mod,
}
use go_data_reqrep_shared.Layout.{MmapLayout, Header, sizeof_header, max_int}
use go_data_reqrep_shared.Reference.Layout.{
  next_pow2, reqrep_compute_layout, reqrep_init_header, setup_handle,
}
use go_data_reqrep_shared.Files.{
  PathName, Trace, Kernel, Outcome, opened, closed, locked, unlocked, mapped,
}
use go_data_reqrep_shared.Files.Open.{
  mode_str, validate_mode, handle_at, reqrep_setup_handle, or_unmap, open_mapped, open_sized,
  with_lock, with_opened, reqrep_open,
}
use go_data_reqrep_shared.Files.Fresh.{next_pow2-bad_cap, string_header, string_header-IsWords}
use go_data_reqrep_shared.Files.Valid.{header_at-mapped}
use go_data_reqrep_shared.Files.Bounds.{accepted_size}

-- A system that has a file of `size` bytes with the header `hd` at `path`, and refuses nothing.
pub record Serves (k : Kernel) (path : PathName) (size : ℕ) (hd : Header) : Type 0 where
  pub fd : ℕ
  pub base : ℕ
  pub address : ℕ
  pub opens : (t : Trace) → k.open_file t path false ≡ some fd
  pub locks : (t : Trace) → k.flock t fd ≡ true
  pub sizes : (t : Trace) → k.fstat t fd ≡ some size
  pub maps : (t : Trace) → k.mmap t (some fd) size ≡ some base
  pub holds : (t : Trace) → k.header t base ≡ hd
  pub allocates : (t : Trace) → k.calloc t ≡ some address

-- The call returns a handle with the sizes of the header.
abbrev pub Opens : Header → Outcome × Trace → Type 0
Opens hd (Outcome.handle h, t) = h.sizes ≡ setup_handle hd
Opens hd (Outcome.refused e, t) = ⊥
Opens hd (Outcome.no_memory, t) = ⊥

reqrep_open-Opens :
    (k : Kernel) (path : PathName) (size mode : ℕ) (hd : Header) (t : Trace)
    → Serves k path size hd
    → ltb size sizeof_header ≡ false
    → validate_mode hd size mode ≡ true
    → Opens hd (reqrep_open k (some path) mode t)
unfolding reqrep_open with_opened with_lock open_sized open_mapped or_unmap reqrep_setup_handle
    handle_at
reqrep_open-Opens k path size mode hd t s large valid =
    let t₁ = locked s.fd ∷ opened s.fd ∷ t in
    let t₂ = mapped s.base size ∷ t₁ in
    let t₃ = closed s.fd ∷ unlocked s.fd ∷ t₂ in
    let accepted : validate_mode (k.header t₂ s.base) size mode ≡ true =
      ap (λ (h : Header). validate_mode h size mode) (s.holds t₂) ∙ valid in
    rw
      (
        s.opens t,
        with_opened,
        s.locks (opened s.fd ∷ t),
        with_lock,
        s.sizes t₁,
        open_sized,
        large,
        s.maps t₁,
        open_mapped,
        accepted,
        s.allocates t₃,
        reqrep_setup_handle,
      )
      (rw (header_at-mapped k s.base size t₁) (ap setup_handle (s.holds t₂)))

-- The header that `reqrep_create` writes for a layout.
abbrev pub created_header : ℕ → ℕ → ℕ → MmapLayout → Header
created_header req_cap resp_slots resp_data_max l =
    (reqrep_init_header (next_pow2 req_cap) resp_slots resp_data_max l []).0

-- For a 32-bit number of request slots that next_pow2 accepts, a 32-bit number of response slots, at
-- least one, and responses of at most 2 ^ 32 - 96 bytes, where the system serves a file with the size
-- and the header that reqrep_create computes, a size that off_t holds, and refuses no call,
-- reqrep_open returns a handle with the sizes of that header.
pub created-Opens :
    (req_cap resp_slots resp_data_max hint : ℕ) (l : MmapLayout)
    → req_cap < u32_mod
    → next_pow2 req_cap ≢ 0
    → 0 < resp_slots
    → resp_slots < u32_mod
    → resp_data_max + 95 < u32_mod
    → reqrep_compute_layout (next_pow2 req_cap) resp_slots resp_data_max hint ≡ some l
    → l.total_size ≤ max_int
    → (k : Kernel) (path : PathName) (t : Trace)
    → Serves k path l.total_size (created_header req_cap resp_slots resp_data_max l)
    → Opens
        (created_header req_cap resp_slots resp_data_max l)
        (reqrep_open k (some path) mode_str t)
created-Opens c n d a l fits ne pos few room made small k path t s =
    let cap = next_pow2-bad_cap c fits ne in
    let valid = string_header (next_pow2 c) n d a l cap.0 cap.1 pos few room made small in
    let words = string_header-IsWords (next_pow2 c) n d a l cap.0 few made in
    reqrep_open-Opens k path l.total_size mode_str _ t s
      (accepted_size mode_str l.total_size _ words valid (omega arith)) valid
