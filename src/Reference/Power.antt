-- ===== src/Reference/Power.antt =====
-- `reqrep_next_pow2` and `nextPow2`: the shifts and ors fill every bit below the top one.
use go_data_reqrep_shared.Base.{
  ℕ, zero, suc, ◌-◌, ◌*◌, ◌/◌, ◌%◌, ◌^◌, ◌<◌, ◌≤◌, ◌≡◌, refl, sym, ap, ap₂, ◌∙◌, bit_or,
  bit_or_step, subst, sub32, add32, u32_mod, arith, dec_lt, ltb, if◌then◌else◌, ◌⊎◌, inl, inr,
}
use native.Mathlib.Nat.{
  pow-suc, one-le-pow, pow-le-pow_right, div-div-eq-div-mul, mul_assoc, mul-div_cancel_left,
}
use go_data_reqrep_shared.Reference.Layout.{next_pow2}
use go_data_reqrep_shared.Files.GoOpen.{go_next_pow2}

bit_or-half : (v m : ℕ) → bit_or v m / 2 ≡ bit_or (v / 2) (m / 2)
bit_or-half v m = omega (arith, bit_or_step v m)

bit_or-even : (v m : ℕ) → bit_or v m % 2 ≡ 0 → (v % 2 ≡ 0) × (m % 2 ≡ 0)
bit_or-even v m h = omega (arith, bit_or_step v m)

-- A function on words that commutes with a shift by one.
abbrev Halves : (ℕ → ℕ) → Type 0
Halves f = (v : ℕ) → f v / 2 ≡ f (v / 2)

-- A function that is even only on the multiples of `d`.
abbrev Fills : ℕ → (ℕ → ℕ) → Type 0
Fills d f = (v : ℕ) → f v % 2 ≡ 0 → (q : ℕ) × (v ≡ d * q)

shift : (f : ℕ → ℕ) → Halves f → (n v : ℕ) → f v / 2 ^ n ≡ f (v / 2 ^ n)
shift f h zero v = let one : v / 1 ≡ v = omega arith in omega (arith, ap f one)
shift f h (suc n) v =
    let double : 2 ^ suc n ≡ 2 * 2 ^ n = omega (arith, pow-suc 2 n) in
    let split : (w : ℕ) → w / 2 ^ suc n ≡ w / 2 / 2 ^ n =
      λ w. ap (λ (t : ℕ). w / t) double ∙ sym (div-div-eq-div-mul w 2 (2 ^ n)) in
    split (f v) ∙ ap (λ (t : ℕ). t / 2 ^ n) (h v) ∙ shift f h n (v / 2) ∙ ap f (sym (split v))

-- One step of the function.
abbrev spread : ℕ → (ℕ → ℕ) → ℕ → ℕ
spread d f v = bit_or (f v) (f v / d)

module _ (n d : ℕ) (power : 2 ^ n ≡ d) (pos : 0 < d) (f : ℕ → ℕ) (h : Halves f) where
  shift_by : (v : ℕ) → f v / d ≡ f (v / d)
  shift_by v = subst (λ (t : ℕ). f v / t ≡ f (v / t)) power (shift f h n v)

  spread-Halves : Halves (spread d f)
  spread-Halves v =
      let turn : f v / d / 2 ≡ f v / 2 / d =
        div-div-eq-div-mul (f v) d 2
        ∙ ap (λ (t : ℕ). f v / t) (omega arith)
        ∙ sym (div-div-eq-div-mul (f v) 2 d) in
      bit_or-half (f v) (f v / d) ∙ ap₂ bit_or (h v) (turn ∙ ap (λ (t : ℕ). t / d) (h v))

  spread-Fills : Fills d f → Fills (d * d) (spread d f)
  spread-Fills s v e =
      let (low, high) = bit_or-even (f v) (f v / d) e in
      let (q, c) = s v low in
      let rest : v / d ≡ q = ap (λ (t : ℕ). t / d) c ∙ mul-div_cancel_left q pos in
      let (q', c') = s q (ap (λ (t : ℕ). t % 2) (sym (shift_by v ∙ ap f rest)) ∙ high) in
      (q', c ∙ ap (λ (t : ℕ). d * t) c' ∙ sym (mul_assoc d d q'))

abbrev Fill : ℕ → (ℕ → ℕ) → Type 0
Fill d f = Halves f × Fills d f

-- The five steps, and with how many bits each fills.
abbrev fill₈ : ℕ → ℕ
fill₈ = spread 256 (spread 16 (spread 4 (spread 2 (λ v. v))))

spread-Fill : (n d : ℕ) → 2 ^ n ≡ d → 0 < d → (f : ℕ → ℕ) → Fill d f → Fill (d * d) (spread d f)
spread-Fill n d e p f (h, s) = (spread-Halves n d e p f h, spread-Fills n d e p f h s)

fill₈-Fill : Fill 65536 fill₈
fill₈-Fill =
    let base : Fill 2 (λ v. v) = (λ v. refl, λ v e. (v / 2, omega arith)) in
    spread-Fill 8 256 refl (omega arith) _ (
      spread-Fill 4 16 refl (omega arith) _
        (spread-Fill 2 4 refl (omega arith) _ (spread-Fill 1 2 refl (omega arith) _ base)))

unfoldable fill : ℕ → ℕ
fill = spread 65536 fill₈

fill-Fill : Fill 0x1_0000_0000 fill
unfolding fill
fill-Fill = spread-Fill 16 65536 refl (omega arith) fill₈ fill₈-Fill

fill_one : fill 1 ≡ 1
unfolding fill
fill_one = refl

-- A word that is not 0 is filled to one below a power of two, which is the next.
fill_lem :
    (n a : ℕ)
    → a ≤ n
    → 0 < a
    → a < u32_mod
    → (a < suc (fill a)) × (suc (fill a) ≤ 2 * a) × (k : ℕ) × (suc (fill a) ≡ 2 ^ k)
fill_lem zero a le p h = absurd (omega arith)
fill_lem (suc n) a le p h =
    let half = fill-Fill.0 a in
    let odd : fill a % 2 ≡ 1 = elim (dec_lt 0 (fill a % 2)) [
      | yes one ↦ omega arith
      | no none ↦ let (q, c) = fill-Fill.1 a (omega arith) in absurd (omega (arith, c))
    ] in
    elim (dec_lt 0 (a / 2)) [
      | yes more ↦
          let (lower, upper, k, power) = fill_lem n (a / 2) (omega arith) more (omega arith) in
          (omega arith, omega arith, suc k, omega (arith, pow-suc 2 k))
      | no last ↦
          let one : a ≡ 1 = omega arith in
          let e : fill a ≡ 1 = ap fill one ∙ fill_one in
          (omega (arith, e), omega (arith, e), 1, omega (arith, e))
    ]

-- `p` is the least power of two, from 2 on, that is at least `v`.
unfoldable pub IsLeastPower : ℕ → ℕ → Type 0
IsLeastPower v p = (v ≤ p) × ((k : ℕ) × (p ≡ 2 ^ suc k)) × ((j : ℕ) → v ≤ 2 ^ suc j → p ≤ 2 ^ suc j)

power_bound : (k j p : ℕ) → p ≡ 2 ^ k → p < 2 ^ suc j → p ≤ 2 ^ j
power_bound k j p e h = elim (dec_lt j k) [
  | no few ↦ omega (arith, e, pow-le-pow_right {n = 2} (omega arith) {i = k} {j = j} (omega arith))
  | yes many ↦
      absurd
        (omega (arith, e, pow-le-pow_right {n = 2} (omega arith) {i = suc j} {j = k} (omega arith)))
]

abbrev choose : ℕ → ℕ → ℕ
choose v filled = if ltb v 2 then 2 else if ltb 0x8000_0000 v then 0 else add32 filled 1

next_pow2-fill : (v : ℕ) → next_pow2 v ≡ choose v (fill (sub32 v 1))
unfolding next_pow2 fill
next_pow2-fill v = refl

fill-IsLeastPower : (v : ℕ) → 2 ≤ v → v ≤ 2 ^ 31 → IsLeastPower v (suc (fill (v - 1)))
unfolding IsLeastPower
fill-IsLeastPower v lo hi =
    let (lower, upper, k, power) = fill_lem v (v - 1) (omega arith) (omega arith) (omega arith) in
    let positive : 0 < k = elim (dec_lt 0 k) [
      | yes more ↦ more
      | no none ↦
          let zeroth : k ≡ 0 = omega arith in absurd (omega (arith, ap (λ (t : ℕ). 2 ^ t) zeroth))
    ] in
    let shape : suc (k - 1) ≡ k = omega arith in
    (
      omega arith,
      (k - 1, power ∙ ap (λ (t : ℕ). 2 ^ t) (sym shape)),
      λ j le. power_bound k (suc j) (suc (fill (v - 1))) power (omega (arith, pow-suc 2 (suc j))),
    )

two_lem : (v : ℕ) → v < 2 → IsLeastPower v 2
unfolding IsLeastPower
two_lem v h =
    (omega arith, (0, refl), λ j le. omega (arith, pow-suc 2 j, one-le-pow j 2 (omega arith)))

pub next_pow2-IsLeastPower :
    (v : ℕ)
    → v < u32_mod
    → ((v ≤ 2 ^ 31) × IsLeastPower v (next_pow2 v)) ⊎ ((2 ^ 31 < v) × (next_pow2 v ≡ 0))
unfolding IsLeastPower
next_pow2-IsLeastPower v h =
    let same = next_pow2-fill v in
    elim (dec_lt v 2) [
      | yes small ↦
          let e : next_pow2 v ≡ 2 = same ∙ ground arith in
          inl (omega arith, subst (IsLeastPower v) (sym e) (two_lem v small))
      | no more ↦ elim (dec_lt (2 ^ 31) v) [
        | yes large ↦ inr (large, same ∙ ground arith)
        | no fits ↦
            let before : sub32 v 1 ≡ v - 1 = omega arith in
            let (lower, upper, k, power) =
              fill_lem v (v - 1) (omega arith) (omega arith) (omega arith) in
            let e : next_pow2 v ≡ suc (fill (v - 1)) =
              same ∙ ap (λ (t : ℕ). choose v (fill t)) before ∙ ground arith in
            inl (
              omega arith,
              subst (IsLeastPower v) (sym e) (fill-IsLeastPower v (omega arith) (omega arith)),
            )
      ]
    ]

go_next_pow2-fill : (v : ℕ) → go_next_pow2 v ≡ (if ltb v 2 then 2 else add32 (fill (sub32 v 1)) 1)
unfolding go_next_pow2 fill
go_next_pow2-fill v = refl

-- Above 2 ^ 31 every bit is filled.
fill_top : (v : ℕ) → 2 ^ 31 < v → v < u32_mod → suc (fill (v - 1)) ≡ 2 ^ 32
fill_top v big h =
    let (lower, upper, k, power) = fill_lem v (v - 1) (omega arith) (omega arith) (omega arith) in
    elim (dec_lt 31 k) [
      | no few ↦ absurd (
          omega
            (arith, power, pow-le-pow_right {n = 2} (omega arith) {i = k} {j = 31} (omega arith)))
      | yes many ↦ elim (dec_lt 32 k) [
        | yes more ↦ absurd (
            omega
              (arith, power, pow-le-pow_right {n = 2} (omega arith) {i = 33} {j = k} (omega arith)))
        | no last ↦ let top : k ≡ 32 = omega arith in power ∙ ap (λ (t : ℕ). 2 ^ t) top
      ]
    ]

-- The Go and the C function return the same for every 32-bit argument.
go_next_pow2-next_pow2 : (v : ℕ) → v < u32_mod → go_next_pow2 v ≡ next_pow2 v
go_next_pow2-next_pow2 v h =
    let go = go_next_pow2-fill v in
    let c = next_pow2-fill v in
    elim (dec_lt (2 ^ 31) v) [
      | no fits ↦ ground (arith, go, c)
      | yes large ↦
          let before : sub32 v 1 ≡ v - 1 = omega arith in
          let e : fill (sub32 v 1) ≡ 2 ^ 32 - 1 =
            ap fill before ∙ omega (arith, fill_top v large h) in
          ground (arith, go, c, e)
    ]

-- For a 32-bit argument the C next_pow2 returns the least power of two that is at least the argument
-- and at least 2, or 0 if the argument is above 2 ^ 31, and the Go nextPow2 returns the same.
pub go_next_pow2-IsLeastPower :
    (v : ℕ)
    → v < u32_mod
    → (((v ≤ 2 ^ 31) × IsLeastPower v (next_pow2 v)) ⊎ ((2 ^ 31 < v) × (next_pow2 v ≡ 0)))
      × (go_next_pow2 v ≡ next_pow2 v)
go_next_pow2-IsLeastPower v h = (next_pow2-IsLeastPower v h, go_next_pow2-next_pow2 v h)
