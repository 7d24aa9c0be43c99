-- ===== src/Blocking/Ends.antt =====
-- A blocking call ends, and with what.
use go_data_reqrep_shared.Base.{
  Bool, true, false, Option, some, List, [], ◌∷◌, ◌≡◌, ◌⊎◌, inl, inr, refl, Bool-cases,
}
use go_data_reqrep_shared.Blocking.{within, Round, Wait, returned, wait_loop, blocking}
use go_data_reqrep_shared.Blocking.Keeps.{Fair, AllFair, and_round}

-- One of the rounds comes too late.
pub data LateRound {W : Type 0} : List (Round W) → Type 0 where
  late :
      {o : Round W} {os : List (Round W)}
      → (o.time_left ≡ false) ⊎ (o.timed_out ≡ true)
      → LateRound (o ∷ os)
  later : {o : Round W} {os : List (Round W)} → LateRound os → LateRound (o ∷ os)

module _ {W R : Type 0} (try : W → Option (W × R)) (done : R → Bool) (up down : R → W → W)
    (P : W → Type 0)
    (total : (w : W) → P w → (w' : W) × (r : R) × (try w ≡ some (w', r)) × P w') where
  abbrev Ends : Wait (W × R) → Type 0
  Ends x = (w' : W) × (r : R) × (x ≡ returned (w', r)) × P w'

  abbrev loop : List (Round W) → W → R → Wait (W × R)
  loop = wait_loop try done up down within

  round-Ends :
      (o : Round W) (os : List (Round W)) (w : W) (at : R)
      → P w
      → Fair try done up down within P o
      → ((o.time_left ≡ false) ⊎ (o.timed_out ≡ true))
        ⊎ ((w' : W) (r : R) → P w' → Ends (loop os w' r))
      → Ends (loop (o ∷ os) w at)
  unfolding wait_loop
  round-Ends o os w at k f l =
      let (w2, r2, e2, k2) = total (o.before w) (f.before_keeps w k) in
      let w3 : W = o.meanwhile (up at w2) in
      let (w4, r4, e4, k4) = total (down at (o.asleep w3)) (f.late_keeps at w2 k2) in
      rw e2 (elim (Bool-cases (done r2)) [
        | inl d ↦ (w2, r2, rw d refl, k2)
        | inr d ↦ elim (Bool-cases o.time_left) [
          | inr tl ↦ (down at w3, r2, rw (d, tl) refl, f.early_keeps at w2 k2)
          | inl tl ↦ elim (Bool-cases (done r4)) [
            | inl d4 ↦ (w4, r4, rw (d, tl, e4, d4) refl, k4)
            | inr d4 ↦ elim (Bool-cases o.timed_out) [
              | inl to ↦ (w4, r4, rw (d, tl, e4, d4, to) refl, k4)
              | inr to ↦ elim l [
                | inl (inl e) ↦ absurd (cc (e, tl))
                | inl (inr e) ↦ absurd (cc (e, to))
                | inr more ↦
                    let (w5, r5, e5, k5) = more w4 r4 k4 in (w5, r5, rw (d, tl, e4, d4, to) e5, k5)
              ]
            ]
          ]
        ]
      ])

  loop-Ends :
      (os : List (Round W)) (w : W) (at : R)
      → P w
      → AllFair try done up down within P os
      → LateRound os
      → Ends (loop os w at)
  loop-Ends [] w at k f l = elim l [ ]
  loop-Ends (o ∷ os) w at k (and_round f fs) (late e) = round-Ends o os w at k f (inl e)
  loop-Ends (o ∷ os) w at k (and_round f fs) (later l) =
      round-Ends o os w at k f (inr (λ w' r k'. loop-Ends os w' r k' fs l))

  -- A blocking call with a deadline ends at the latest in the round that finds no time left or whose
  -- wait times out.
  pub blocking-Ends :
      (os : List (Round W)) (w : W)
      → P w
      → AllFair try done up down within P os
      → LateRound os
      → Ends (blocking try done up down within os w)
  unfolding blocking
  blocking-Ends os w k fs l =
      let (w1, r1, e1, k1) = total w k in
      rw e1 (elim (Bool-cases (done r1)) [
        | inl d ↦ (w1, r1, rw d refl, k1)
        | inr d ↦ let (w2, r2, e2, k2) = loop-Ends os w1 r1 k1 fs l in (w2, r2, rw d e2, k2)
      ])
