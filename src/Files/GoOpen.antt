-- ===== src/Files/GoOpen.antt =====
-- `openOrCreate` and `openExisting` of reqrep.go, with `nextPow2`, over the same system.
use go_data_reqrep_shared.Base.{
  ℕ, ◌*◌, ◌/◌, Bool, true, false, not, ◌&&◌, Option, none, some, List, [], ◌∷◌, if◌then◌else◌, ltb,
  ◌==◌, bit_or, sub32, add32,
}
use go_data_reqrep_shared.Layout.{
  Header, sizeof_header, max_int, compute_layout, init_header, validate_header,
}
use go_data_reqrep_shared.Files.{
  PathName, Trace, Kernel, Failure, opened, closed, locked, unlocked, truncated, mapped, unmapped,
  header_written, open_failed, flock_failed, fstat_failed, too_small, ftruncate_failed, mmap_failed,
  invalid_file, layout_overflow, bad_data_max, size_overflow, negative_size,
}

-- `nextPow2`
unfoldable pub go_next_pow2 : ℕ → ℕ
go_next_pow2 v =
    let a = sub32 v 1 in
    let b = bit_or a (a / 2) in
    let c = bit_or b (b / 4) in
    let d = bit_or c (c / 16) in
    let e = bit_or d (d / 256) in let f = bit_or e (e / 65536) in if ltb v 2 then 2 else add32 f 1

-- `Options`
pub record Options : Type 0 where
  pub req_cap : ℕ
  pub req_arena_cap : ℕ
  pub resp_slots : ℕ
  pub resp_data_max : ℕ

-- `isHeaderZero`, over the bytes of the header's region.
unfoldable pub is_header_zero : List ℕ → Bool
is_header_zero [] = true
is_header_zero (b ∷ bs) = if not (b == 0) then false else is_header_zero bs

-- A mapping, with the header that it holds, or an error.
pub data GoResult : Type 0 where
  mapping_at : ℕ → ℕ → Header → GoResult
  failed : Failure → GoResult

abbrev pub max_resp_data_max : ℕ
max_resp_data_max = 0xffff_ffa0

-- What a zero field stands for.
abbrev pub or_default : ℕ → ℕ → ℕ
or_default default v = if v == 0 then default else v

-- The deferred calls of a function that has locked `fd`.
abbrev pub go_unlock_close : ℕ → GoResult × Trace → GoResult × Trace
go_unlock_close fd (r, t) = (r, closed fd ∷ unlocked fd ∷ t)

-- The size, the layout's and the header's part of the arguments of `openOrCreate`.
pub record GoPlan : Type 0 where
  pub total_size : ℕ
  pub fresh : Header

module _ (k : Kernel) where
  -- A mapping of a file that had bytes: initialised again after a crash, or validated.
  unfoldable pub go_existing : GoPlan → ℕ → ℕ → Trace → GoResult × Trace
  go_existing p base size t =
      if is_header_zero (k.header_bytes t base) && (size == p.total_size)
      then (mapping_at base size p.fresh, header_written base p.fresh ∷ t)
      else if not (validate_header (k.header t base) size)
      then (failed invalid_file, unmapped base size ∷ t)
      else (mapping_at base size (k.header t base), t)

  unfoldable pub go_mapped : GoPlan → Bool → ℕ → Option ℕ → Trace → GoResult × Trace
  unfolding go_existing
  go_mapped p is_new size none t = (failed mmap_failed, t)
  go_mapped p true size (some base) t =
      (mapping_at base size p.fresh, header_written base p.fresh ∷ mapped base size ∷ t)
  go_mapped p false size (some base) t = go_existing p base size (mapped base size ∷ t)

  -- From the size of the mapping on.
  unfoldable pub go_map : GoPlan → ℕ → Bool → ℕ → Trace → GoResult × Trace
  unfolding go_mapped
  go_map p fd is_new size t =
      if ltb max_int size
      then (failed size_overflow, t)
      else go_mapped p is_new size (k.mmap t (some fd) size) t

  -- From the answer of `fstat` on.
  unfoldable pub go_sized : GoPlan → ℕ → Option ℕ → Trace → GoResult × Trace
  unfolding go_map
  go_sized p fd none t = (failed fstat_failed, t)
  go_sized p fd (some size) t =
      let is_new = size == 0 in
      if not is_new && ltb size sizeof_header
      then (failed too_small, t)
      else if not is_new
      then go_map p fd false size t
      else if not (k.ftruncate t fd p.total_size)
      then (failed ftruncate_failed, t)
      else go_map p fd true p.total_size (truncated fd p.total_size ∷ t)

  -- `Open` and `Flock`, with the deferred calls around the rest.
  unfoldable pub go_with_lock : ℕ → (Trace → GoResult × Trace) → Trace → GoResult × Trace
  go_with_lock fd rest t =
      if k.flock t fd
      then go_unlock_close fd (rest (locked fd ∷ t))
      else (failed flock_failed, closed fd ∷ t)

  unfoldable pub go_with_file :
      PathName → Bool → (ℕ → Trace → GoResult × Trace) → Trace → GoResult × Trace
  unfolding go_with_lock
  go_with_file path may_create rest t = elim (k.open_file t path may_create) [
    | none ↦ (failed open_failed, t)
    | some fd ↦ go_with_lock fd (rest fd) (opened fd ∷ t)
  ]

  unfoldable pub go_create : PathName → GoPlan → Trace → GoResult × Trace
  unfolding go_with_file go_sized
  go_create path p t = go_with_file path true (λ fd t'. go_sized p fd (k.fstat t' fd) t') t

  -- `openOrCreate`
  unfoldable pub open_or_create : PathName → Options → Trace → GoResult × Trace
  unfolding go_create
  open_or_create path o t =
      let data_max = or_default 4096 o.resp_data_max in
      let cap = go_next_pow2 (or_default 256 o.req_cap) in
      let slots = or_default cap o.resp_slots in
      if ltb max_resp_data_max data_max
      then (failed bad_data_max, t)
      else elim (compute_layout cap slots data_max (or_default (cap * 256) o.req_arena_cap)) [
        | none ↦ (failed layout_overflow, t)
        | some l ↦
            go_create path
              (record { total_size = l.total_size; fresh = init_header cap slots data_max l }) t
      ]

  -- From the answer of `Mmap` on, in `openExisting`.
  unfoldable pub existing_mapped : ℕ → Option ℕ → Trace → GoResult × Trace
  existing_mapped size none t = (failed mmap_failed, t)
  existing_mapped size (some base) t =
      let t' = mapped base size ∷ t in
      if not (validate_header (k.header t' base) size)
      then (failed invalid_file, unmapped base size ∷ t')
      else (mapping_at base size (k.header t' base), t')

  -- From the answer of `Fstat` on; a size with the sign bit is negative.
  unfoldable pub existing_sized : ℕ → Option ℕ → Trace → GoResult × Trace
  unfolding existing_mapped
  existing_sized fd none t = (failed fstat_failed, t)
  existing_sized fd (some size) t =
      if ltb max_int size
      then (failed negative_size, t)
      else if ltb size sizeof_header
      then (failed too_small, t)
      else if ltb max_int size
      then (failed size_overflow, t)
      else existing_mapped size (k.mmap t (some fd) size) t

  -- `openExisting`
  unfoldable pub open_existing : PathName → Trace → GoResult × Trace
  unfolding go_with_file existing_sized
  open_existing path t = go_with_file path false (λ fd t'. existing_sized fd (k.fstat t' fd) t') t
