-- ===== src/Files/GoOpened.antt =====
-- How `openOrCreate` and `openExisting` end: what they hold, and what the header of the mapping gives.
use go_data_reqrep_shared.Base.{
  ℕ, ◌+◌, ◌*◌, ◌<◌, ◌≡◌, some, ltb, true, false, Bool-cases, Option-cases, inl, inr, arith, u32_mod,
}
use go_data_reqrep_shared.Layout.{MmapLayout, compute_layout, init_header}
use go_data_reqrep_shared.Layout.Fresh.{
  fresh_header_accepted, compute_layout-Apart, validate_header-IsSetUp,
}
use go_data_reqrep_shared.Files.{PathName, Trace, Kernel}
use go_data_reqrep_shared.Files.Balance.{locked_file}
use go_data_reqrep_shared.Files.Valid.{IsWords}
use go_data_reqrep_shared.Files.GoOpen.{
  Options, GoPlan, max_resp_data_max, or_default, go_next_pow2, go_sized, go_create, open_or_create,
  open_existing,
}
use go_data_reqrep_shared.Files.GoEnds.{
  GoEnds, IsUsable, go_with_file-GoEnds, existing_sized-Holding, go_sized-Holding,
}

-- What the tests of `openOrCreate` and the layout leave of a request for a new file.
fresh_lem :
    (cap slots data_max hint : ℕ) (l : MmapLayout)
    → cap < u32_mod
    → slots < u32_mod
    → data_max + 95 < u32_mod
    → 0 < slots
    → compute_layout cap slots data_max hint ≡ some l
    → IsUsable l.total_size (init_header cap slots data_max l)
unfolding init_header
fresh_lem c n d a l cf nf df pos made =
    let accepted = (fresh_header_accepted c n d a cf nf df l made pos).0 in
    let fits = (compute_layout-Apart c n d a cf nf df l made).arena_fits in
    (validate_header-IsSetUp (init_header c n d l) l.total_size cf fits accepted, accepted)

go_next_pow2_fits : (v : ℕ) → go_next_pow2 v < u32_mod
unfolding go_next_pow2
go_next_pow2_fits v = ground arith

or_default_fits : (d v : ℕ) → d < u32_mod → v < u32_mod → or_default d v < u32_mod
or_default_fits d v hd hv = ground (arith, hd, hv)

or_default_pos : (d v : ℕ) → 0 < d → 0 < or_default d v
or_default_pos d v h = ground (arith, h)

open_or_create-GoEnds :
    (k : Kernel)
    → ((t : Trace) (base : ℕ) → IsWords (k.header t base))
    → (path : PathName) (o : Options) → o.resp_slots < u32_mod
    → (t : Trace) → GoEnds t (open_or_create k path o t)
unfolding open_or_create go_create
open_or_create-GoEnds k words path o few t =
    let d = or_default 4096 o.resp_data_max in
    let c = go_next_pow2 (or_default 256 o.req_cap) in
    let n = or_default c o.resp_slots in
    let a = or_default (c * 256) o.req_arena_cap in
    let cf : c < u32_mod = go_next_pow2_fits (or_default 256 o.req_cap) in
    let nf : n < u32_mod = or_default_fits c o.resp_slots cf few in
    elim (Bool-cases (ltb max_resp_data_max d)) [
      | inl e ↦ rw (e, open_or_create) (λ r. omega arith)
      | inr e₁ ↦
          let df : d + 95 < u32_mod = ground (arith, e₁) in
          elim (Option-cases (compute_layout c n d a)) [
            | inl e₂ ↦ rw (e₁, e₂, open_or_create) (λ r. omega arith)
            | inr (l, e₂) ↦
                let pos : 0 < c = (compute_layout-Apart c n d a cf nf df l e₂).cap_pos in
                let fit = fresh_lem c n d a l cf nf df (or_default_pos c o.resp_slots pos) e₂ in
                let p : GoPlan = record {
                  total_size = l.total_size;
                  fresh = init_header c n d l;
                } in
                rw (e₁, e₂, open_or_create)
                  (go_with_file-GoEnds k words t path true
                    (λ fd t'. go_sized k p fd (k.fstat t' fd) t')
                    (λ fd t' h.
                      go_sized-Holding k words t (λ r. locked_file r fd) p fit fd (k.fstat t' fd) t'
                        h))
          ]
    ]

-- Where the headers of the system hold 32-bit fields and the number of response slots in the options
-- is a 32-bit number, openOrCreate and openExisting end so, whatever the system answers: a call that
-- fails has given back each descriptor, lock and mapping that it took; one that succeeds has kept its
-- mapping only, and the header in it, written or read, passes validate_header for the mapping's
-- size and gives setup_shm a power of two of at most 2 ^ 31 request slots, its mask and a 32-bit arena.
pub go_opened-GoEnds :
    (k : Kernel)
    → ((t : Trace) (base : ℕ) → IsWords (k.header t base))
    → (path : PathName) (o : Options) → o.resp_slots < u32_mod
    → (t : Trace) → GoEnds t (open_or_create k path o t) × GoEnds t (open_existing k path t)
unfolding open_existing
go_opened-GoEnds k words path o few t = (
  open_or_create-GoEnds k words path o few t,
  go_with_file-GoEnds k words t path false _
      (λ fd t' h. existing_sized-Holding k words t (λ r. locked_file r fd) fd (k.fstat t' fd) t' h),
)
