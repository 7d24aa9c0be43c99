-- ===== src/Blocking/GetEnds.antt =====
-- A call that waits for a response ends.
use go_data_reqrep_shared.Base.{
  ◌⊎◌, ℕ, Bool, false, Option, some, List, [], ◌∷◌, ◌==◌, ◌≡◌, refl, Bool-cases, inl, inr,
}
use go_data_reqrep_shared.Slots.{resp_ready}
use go_data_reqrep_shared.Blocking.{within, Round, Wait, returned}
use go_data_reqrep_shared.Blocking.Get.{get_round, get_loop, get_blocking}

-- One of the rounds finds no time left.
pub data NoTimeLeft {W : Type 0} : List (Round W) → Type 0 where
  at_this : {o : Round W} {os : List (Round W)} → o.time_left ≡ false → NoTimeLeft (o ∷ os)
  at_later : {o : Round W} {os : List (Round W)} → NoTimeLeft os → NoTimeLeft (o ∷ os)

module _ {W R : Type 0} (try : W → Option (W × R)) (pending : R → Bool) (not_ready stale : R)
    (state generation : W → ℕ) (gen : ℕ) (up down : W → W)
    (total : (w : W) → (w' : W) × (r : R) × (try w ≡ some (w', r))) where
  abbrev Ends : Wait (W × R) → Type 0
  Ends x = (w' : W) × (r : R) × (x ≡ returned (w', r))

  abbrev loop : List (Round W) → W → Wait (W × R)
  loop = get_loop try pending not_ready stale state generation gen up down within

  round-Ends :
      (o : Round W) (again : W → Wait (W × R)) (w : W)
      → (o.time_left ≡ false) ⊎ ((w' : W) → Ends (again w'))
      → Ends (get_round try pending not_ready stale state generation gen up down within o again w)
  round-Ends o again w l =
      let w1 : W = o.before w in
      let w2 : W = o.meanwhile (up w1) in
      let (v1, r1, e1) = total w1 in
      let (v2, r2, e2) = total (down w2) in
      let (v3, r3, e3) = total (down (o.asleep w2)) in
      elim (Bool-cases (state w1 == resp_ready)) [
        | inl a ↦ (v1, r1, rw (a, e1) refl)
        | inr a ↦ elim (Bool-cases (generation w2 == gen)) [
          | inr b ↦ (down w2, stale, rw (a, b) refl)
          | inl b ↦ elim (Bool-cases (state w2 == resp_ready)) [
            | inl c ↦ (v2, r2, rw (a, b, c, e2) refl)
            | inr c ↦ elim (Bool-cases o.time_left) [
              | inr d ↦ (down w2, not_ready, rw (a, b, c, d) refl)
              | inl d ↦ elim l [
                | inl e ↦ absurd (cc (e, d))
                | inr more ↦ elim (Bool-cases (pending r3)) [
                  | inr p ↦ (v3, r3, rw (a, b, c, d, e3, p) refl)
                  | inl p ↦ let (v4, r4, e4) = more v3 in (v4, r4, rw (a, b, c, d, e3, p) e4)
                ]
              ]
            ]
          ]
        ]
      ]

  loop-Ends : (os : List (Round W)) (w : W) → NoTimeLeft os → Ends (loop os w)
  unfolding get_loop
  loop-Ends [] w l = elim l [ ]
  loop-Ends (o ∷ os) w (at_this e) = round-Ends o (loop os) w (inl e)
  loop-Ends (o ∷ os) w (at_later l) = round-Ends o (loop os) w (inr (λ w'. loop-Ends os w' l))

  pub get-Ends :
      (os : List (Round W)) (w : W)
      → NoTimeLeft os
      → Ends (get_blocking try pending not_ready stale state generation gen up down within os w)
  unfolding get_blocking
  get-Ends os w l =
      let (w1, r1, e1) = total w in
      rw e1 (elim (Bool-cases (pending r1)) [
        | inr d ↦ (w1, r1, rw d refl)
        | inl d ↦ let (w2, r2, e2) = loop-Ends os w1 l in (w2, r2, rw d e2)
      ])
