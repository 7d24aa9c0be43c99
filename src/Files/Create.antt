-- ===== src/Files/Create.antt =====
-- `reqrep_create`, `reqrep_create_memfd`, `reqrep_create_int` and `reqrep_create_int_memfd` of
-- gen/reqrep.h, and their error paths. What the two modes share is written once, over a `Plan`.
use go_data_reqrep_shared.Base.{
  ℕ, ◌*◌, ◌%◌, [], Bool, true, false, not, ◌&&◌, Option, none, some, ◌∷◌, if◌then◌else◌, ltb, ◌==◌,
  u64_mod,
}
use go_data_reqrep_shared.Layout.{MmapLayout, Header, sizeof_header}
use go_data_reqrep_shared.Reference.Layout.{next_pow2, reqrep_compute_layout, reqrep_init_header}
use go_data_reqrep_shared.IntMode.File.{int_compute_layout, int_init_header}
use go_data_reqrep_shared.Files.{
  PathName, FileEvent, Trace, Kernel, OpenHandle, Outcome, opened, closed, unlocked, sealed,
  truncated, mapped, unmapped, initialised, int_initialised, handle, refused, no_memory,
  bad_req_cap, no_resp_slots, layout_overflow, memfd_failed, fstat_failed, too_small,
  ftruncate_failed, mmap_failed, invalid_file,
}
use go_data_reqrep_shared.Files.Open.{
  mode_str, mode_int, validate_mode, unlock_close, reqrep_setup_handle, or_unmap, or_unmap_close,
  with_opened,
}

-- What the creation of a file of one mode is given: the mode, the size, the header that
-- initialisation writes, the write, and what follows `reqrep_setup_handle`.
pub record Plan : Type 0 where
  pub mode : ℕ
  pub total_size : ℕ
  pub header : Header
  pub initialise : Trace → ℕ → FileEvent
  pub finish : ℕ → ℕ → Option OpenHandle × Trace → Outcome × Trace

-- The int mode returns what `reqrep_setup_handle` returns.
unfoldable pub or_null : Option OpenHandle × Trace → Outcome × Trace
or_null (none, t) = (no_memory, t)
or_null (some h, t) = (handle h, t)

-- The arguments' tests, and the arena's default size, before the rest.
unfoldable pub with_layout :
    ℕ → ℕ → ℕ → ℕ → (MmapLayout → Trace → Outcome × Trace) → Trace → Outcome × Trace
with_layout req_cap resp_slots resp_data_max arena_hint rest t =
    let hint = if arena_hint == 0 then req_cap * 256 % u64_mod else arena_hint in
    if req_cap == 0
    then (refused bad_req_cap, t)
    else if resp_slots == 0
    then (refused no_resp_slots, t)
    else elim (reqrep_compute_layout req_cap resp_slots resp_data_max hint) [
      | none ↦ (refused layout_overflow, t)
      | some l ↦ rest l t
    ]

unfoldable pub with_int_layout :
    ℕ → ℕ → (MmapLayout → Trace → Outcome × Trace) → Trace → Outcome × Trace
with_int_layout req_cap resp_slots rest t =
    if req_cap == 0
    then (refused bad_req_cap, t)
    else if resp_slots == 0
    then (refused no_resp_slots, t)
    else elim (int_compute_layout req_cap resp_slots) [
      | none ↦ (refused layout_overflow, t)
      | some l ↦ rest l t
    ]

module _ (k : Kernel) where
  -- A mapping of a new file: written, unlocked, and made a handle.
  unfoldable pub use_fresh : Plan → PathName → ℕ → ℕ → Trace → Outcome × Trace
  use_fresh p path fd base t =
      let t' = closed fd ∷ unlocked fd ∷ p.initialise t base ∷ t in
      p.finish base p.total_size (reqrep_setup_handle k base p.total_size (some path) none t')

  -- A mapping of a file that has a header: validated, unlocked, and made a handle.
  unfoldable pub use_existing : Plan → PathName → ℕ → ℕ → ℕ → Trace → Outcome × Trace
  use_existing p path fd base size t =
      let h = k.header t base in
      if not (validate_mode h size p.mode)
      then unlock_close fd invalid_file (unmapped base size ∷ t)
      else p.finish base size
          (reqrep_setup_handle k base size (some path) none (closed fd ∷ unlocked fd ∷ t))

  -- From the answer of `mmap` to the end, for a new file and for another.
  unfoldable pub create_mapped : Plan → PathName → ℕ → Bool → ℕ → Option ℕ → Trace → Outcome × Trace
  unfolding use_fresh use_existing
  create_mapped p path fd is_new size none t = unlock_close fd mmap_failed t
  create_mapped p path fd true size (some base) t =
      use_fresh p path fd base (mapped base p.total_size ∷ t)
  create_mapped p path fd false size (some base) t =
      use_existing p path fd base size (mapped base size ∷ t)

  -- From the answer of `fstat`; a new file is given its size.
  unfoldable pub create_sized : Plan → PathName → ℕ → Option ℕ → Trace → Outcome × Trace
  unfolding create_mapped
  create_sized p path fd none t = unlock_close fd fstat_failed t
  create_sized p path fd (some size) t =
      let is_new = size == 0 in
      let t' = truncated fd p.total_size ∷ t in
      if not is_new && ltb size sizeof_header
      then unlock_close fd too_small t
      else if not is_new
      then create_mapped p path fd false size (k.mmap t (some fd) size) t
      else if not (k.ftruncate t fd p.total_size)
      then unlock_close fd ftruncate_failed t
      else create_mapped p path fd true p.total_size (k.mmap t' (some fd) p.total_size) t'

  -- From the answer of the anonymous `mmap`.
  unfoldable pub create_anonymous : Plan → Option ℕ → Trace → Outcome × Trace
  create_anonymous p none t = (refused mmap_failed, t)
  create_anonymous p (some base) t =
      let t' = mapped base p.total_size ∷ t in
      p.finish base p.total_size
        (reqrep_setup_handle k base p.total_size none none (p.initialise t' base ∷ t'))

  -- What a creation does once it has its layout; without a path, the mapping is anonymous.
  unfoldable pub create_file : Plan → Option PathName → Trace → Outcome × Trace
  unfolding create_anonymous create_sized
  create_file p none t = create_anonymous p (k.mmap t none p.total_size) t
  create_file p (some path) t =
      with_opened k path true (λ fd t'. create_sized p path fd (k.fstat t' fd) t') t

  -- From the answer of `mmap` for a memory file, whose descriptor the handle keeps.
  unfoldable pub memfd_mapped : Plan → ℕ → Option ℕ → Trace → Outcome × Trace
  memfd_mapped p fd none t = (refused mmap_failed, closed fd ∷ t)
  memfd_mapped p fd (some base) t =
      let t' = mapped base p.total_size ∷ t in
      p.finish base p.total_size
        (reqrep_setup_handle k base p.total_size none (some fd) (p.initialise t' base ∷ t'))

  unfoldable pub memfd_made : (ℕ → Plan) → Option ℕ → Trace → Outcome × Trace
  unfolding memfd_mapped
  memfd_made plan none t = (refused memfd_failed, t)
  memfd_made plan (some fd) t =
      let p = plan fd in
      let t₁ = opened fd ∷ t in
      let t₂ = sealed fd ∷ truncated fd p.total_size ∷ t₁ in
      if not (k.ftruncate t₁ fd p.total_size)
      then (refused ftruncate_failed, closed fd ∷ t₁)
      else memfd_mapped p fd (k.mmap t₂ (some fd) p.total_size) t₂

  -- The plan of the string mode, with what follows `reqrep_setup_handle`.
  unfoldable pub string_plan :
      ℕ → ℕ → ℕ → MmapLayout → (ℕ → ℕ → Option OpenHandle × Trace → Outcome × Trace) → Plan
  string_plan req_cap resp_slots resp_data_max l finish = record {
    mode = mode_str;
    total_size = l.total_size;
    header = (reqrep_init_header req_cap resp_slots resp_data_max l []).0;
    initialise = λ t base.
        initialised base (reqrep_init_header req_cap resp_slots resp_data_max l (k.area t base));
    finish = finish;
  }

  unfoldable pub int_plan : ℕ → ℕ → MmapLayout → Plan
  unfolding or_null
  int_plan req_cap resp_slots l = record {
    mode = mode_int;
    total_size = l.total_size;
    header = (int_init_header req_cap resp_slots l (k.int_slots [] 0) []).0;
    initialise = λ t base.
        int_initialised base
          (int_init_header req_cap resp_slots l (k.int_slots t base) (k.area t base));
    finish = λ base size. or_null;
  }

  -- `reqrep_create`
  unfoldable pub reqrep_create : Option PathName → ℕ → ℕ → ℕ → ℕ → Trace → Outcome × Trace
  unfolding with_layout create_file string_plan
  reqrep_create path req_cap resp_slots resp_data_max arena_hint =
      let cap = next_pow2 req_cap in
      with_layout cap resp_slots resp_data_max arena_hint
        (λ l. create_file (string_plan cap resp_slots resp_data_max l or_unmap) path)

  -- The plan of `reqrep_create_memfd` for the descriptor that it gets.
  abbrev pub memfd_plan : ℕ → ℕ → ℕ → MmapLayout → ℕ → Plan
  memfd_plan cap resp_slots resp_data_max l fd =
      string_plan cap resp_slots resp_data_max l (λ base size. or_unmap_close base size fd)

  -- `reqrep_create_memfd`
  unfoldable pub reqrep_create_memfd : PathName → ℕ → ℕ → ℕ → ℕ → Trace → Outcome × Trace
  unfolding with_layout memfd_made string_plan
  reqrep_create_memfd name req_cap resp_slots resp_data_max arena_hint =
      let cap = next_pow2 req_cap in
      with_layout cap resp_slots resp_data_max arena_hint
        λ l t. memfd_made (memfd_plan cap resp_slots resp_data_max l) (k.memfd_create t name) t

  -- `reqrep_create_int`
  unfoldable pub reqrep_create_int : Option PathName → ℕ → ℕ → Trace → Outcome × Trace
  unfolding with_int_layout create_file int_plan
  reqrep_create_int path req_cap resp_slots =
      let cap = next_pow2 req_cap in
      with_int_layout cap resp_slots λ l. create_file (int_plan cap resp_slots l) path

  -- `reqrep_create_int_memfd`
  unfoldable pub reqrep_create_int_memfd : PathName → ℕ → ℕ → Trace → Outcome × Trace
  unfolding with_int_layout memfd_made int_plan
  reqrep_create_int_memfd name req_cap resp_slots =
      let cap = next_pow2 req_cap in
      with_int_layout cap resp_slots
        λ l t. memfd_made (λ fd. int_plan cap resp_slots l) (k.memfd_create t name) t
