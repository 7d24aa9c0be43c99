-- ===== src/Reference/Growth.antt =====
-- The receive buffer grows far enough, in at most 33 rounds.
use native.Mathlib.Nat.{pow-suc}
use go_data_reqrep_shared.Base.{
  ℕ, zero, suc, ◌*◌, ◌%◌, ◌^◌, ◌≤◌, ◌<◌, ◌≡◌, refl, true, Option, some, arith, ap, dec_lt, ◌==◌,
  if◌then◌else◌,
}
use go_data_reqrep_shared.Reference.{Handle}
use go_data_reqrep_shared.Reference.CopyBuf.{grow, grow_fuel, ensure_copy_buf}

abbrev Grown : ℕ → ℕ → ℕ → Type 0
Grown fuel ns needed = (r : ℕ) × (grow fuel ns needed ≡ some r) × (needed ≤ r) × (r < 2 ^ 32)

grow_enough :
    (fuel ns needed : ℕ)
    → 0 < ns
    → ns < 2 ^ 32
    → needed < 2 ^ 32
    → 2 ^ 32 ≤ ns * 2 ^ fuel
    → Grown fuel ns needed
unfolding grow
grow_enough zero ns needed p f nf h = absurd (omega arith)
grow_enough (suc fuel) ns needed p f nf h = elim (dec_lt ns needed) [
  | no wide ↦ (ns, ground arith, omega arith, f)
  | yes narrow ↦ elim (dec_lt ns (ns * 2 % 2 ^ 32)) [
    | no wrapped ↦ (needed, ground arith, omega arith, nf)
    | yes doubled ↦
        let twice : ns * 2 % 2 ^ 32 ≡ ns * 2 = omega arith in
        let room : 2 ^ 32 ≤ ns * 2 % 2 ^ 32 * 2 ^ fuel =
          omega
            (arith, ap (λ (t : ℕ). t * 2 ^ fuel) twice, ap (λ (t : ℕ). ns * t) (pow-suc 2 fuel)) in
        let (r, e, le, lt) : Grown fuel (ns * 2 % 2 ^ 32) needed =
          grow_enough fuel (ns * 2 % 2 ^ 32) needed (omega arith) (omega arith) nf room in
        (r, ground (arith, e), le, lt)
  ]
]

-- A handle that differs in its buffer only, and has room for `needed` bytes.
abbrev pub Roomy : Handle → ℕ → Option Handle → Type 0
Roomy h needed r =
    (h' : Handle) × (r ≡ some h')
    × (needed ≤ h'.copy_buf_cap)
    × (h'.copy_buf_cap < 2 ^ 32)
    × (h' ≡ record h { copy_buf_cap = h'.copy_buf_cap })

-- For a 32-bit buffer size and a 32-bit request the doubling loop of ensure_copy_buf ends within
-- its fuel, and when realloc succeeds the handle then has room for the request, with a 32-bit
-- size, and differs in nothing else.
pub ensure_copy_buf_room :
    (h : Handle) (needed : ℕ)
    → h.copy_buf_cap < 2 ^ 32
    → needed < 2 ^ 32
    → Roomy h needed (ensure_copy_buf true h needed)
unfolding ensure_copy_buf
ensure_copy_buf_room h needed hf nf = elim (dec_lt h.copy_buf_cap needed) [
  | no wide ↦ (h, ground arith, omega arith, hf, refl)
  | yes narrow ↦
      let start : ℕ = if h.copy_buf_cap == 0 then 64 else h.copy_buf_cap in
      let (r, e, le, lt) : Grown grow_fuel start needed =
        grow_enough grow_fuel start needed (ground arith) (ground arith) nf (ground arith) in
      (record h { copy_buf_cap = r }, ground (arith, e), le, lt, refl)
]
