-- ===== src/Blocking/Keeps.antt =====
-- What a blocking call leaves and returns.
use go_data_reqrep_shared.Base.{
  Bool, true, false, not, ◌&&◌, Option, none, some, List, [], ◌∷◌, ◌≡◌, inl, inr, refl, Bool-cases,
}
use go_data_reqrep_shared.Blocking.{
  Timeout, within, endless, at_once, has_deadline, Round, Wait, returned, waiting, failed,
  wait_loop, blocking, after_first, after_try, after_wait,
}

no_deadline : (l : Timeout) (b : Bool) → l ≡ endless → (has_deadline l && b) ≡ true → ⊥
no_deadline at_once b e h = cc
no_deadline within b e h = cc
no_deadline endless b e h = cc

module _ {W R : Type 0} (try : W → Option (W × R)) (done : R → Bool) (up down : R → W → W)
    (limit : Timeout) (P : W → Type 0) where
  -- What the others do, and what the thread does to the number of waiters, keeps `P`; without a
  -- deadline no wait times out.
  pub record Fair (o : Round W) : Type 0 where
    pub before_keeps : (w : W) → P w → P (o.before w)
    pub early_keeps : (at : R) (w : W) → P w → P (down at (o.meanwhile (up at w)))
    pub late_keeps : (at : R) (w : W) → P w → P (down at (o.asleep (o.meanwhile (up at w))))
    pub no_timeout : limit ≡ endless → o.timed_out ≡ false

  pub data AllFair : List (Round W) → Type 0 where
    no_rounds : AllFair []
    and_round : {o : Round W} {os : List (Round W)} → Fair o → AllFair os → AllFair (o ∷ os)

  -- A call that returns leaves `P`, and without a deadline it returns a result that is done.
  abbrev pub Good : Wait (W × R) → Type 0
  Good (returned (w, r)) = P w × (limit ≡ endless → done r ≡ true)
  Good waiting = Unit
  Good failed = Unit

  module _ (tried : (w w' : W) (r : R) → P w → try w ≡ some (w', r) → P w') where
    wait-Good :
        (is_late : Bool) (again : W → R → Wait (W × R)) (t : Option (W × R))
        → ((w : W) (r : R) → t ≡ some (w, r) → P w)
        → ((w : W) (r : R) → P w → Good (again w r))
        → (limit ≡ endless → is_late ≡ false)
        → Good (after_wait try done up down limit is_late again t)
    wait-Good is_late again none k g f = tt
    wait-Good is_late again (some (w, r)) k g f = elim (Bool-cases (done r)) [
      | inl d ↦ rw d (k w r refl, λ e. d)
      | inr d ↦ elim (Bool-cases is_late) [
        | inl l ↦ rw (d, l) (k w r refl, λ e. absurd (cc (f e, l)))
        | inr l ↦ rw (d, l) (g w r (k w r refl))
      ]
    ]

    try-Good :
        (at : R) (o : Round W) (again : W → R → Wait (W × R)) (t : Option (W × R))
        → ((w : W) (r : R) → t ≡ some (w, r) → P w)
        → ((w : W) (r : R) → P w → Good (again w r))
        → Fair o
        → Good (after_try try done up down limit at o again t)
    try-Good at o again none k g f = tt
    try-Good at o again (some (w, r)) k g f =
        let w3 : W = o.meanwhile (up at w) in
        let kept : P w = k w r refl in
        elim (Bool-cases (done r)) [
          | inl d ↦ rw d (kept, λ e. d)
          | inr d ↦ elim (Bool-cases (has_deadline limit && not o.time_left)) [
            | inl l ↦
                rw (d, l)
                  (f.early_keeps at w kept, λ e. absurd (no_deadline limit (not o.time_left) e l))
            | inr l ↦
                rw (d, l)
                  (wait-Good o.timed_out again (try (down at (o.asleep w3)))
                    (λ w' r' e. tried (down at (o.asleep w3)) w' r' (f.late_keeps at w kept) e) g
                    f.no_timeout)
          ]
        ]

    loop-Good :
        (os : List (Round W)) (w : W) (at : R)
        → AllFair os
        → P w
        → Good (wait_loop try done up down limit os w at)
    unfolding wait_loop
    loop-Good [] w at fair k = tt
    loop-Good (o ∷ os) w at (and_round f fair) k =
        try-Good at o (wait_loop try done up down limit os) (try (o.before w))
          (λ w' r e. tried (o.before w) w' r (f.before_keeps w k) e)
          (λ w' r k'. loop-Good os w' r fair k') f

    first-Good :
        (l : Timeout) (loop : W → R → Wait (W × R)) (t : Option (W × R))
        → limit ≡ l
        → ((w : W) (r : R) → t ≡ some (w, r) → P w)
        → ((w : W) (r : R) → P w → Good (loop w r))
        → Good (after_first try done up down limit l loop t)
    first-Good l loop none e k g = tt
    first-Good at_once loop (some (w, r)) e k g = (k w r refl, λ e'. absurd (cc (e, e')))
    first-Good within loop (some (w, r)) e k g = elim (Bool-cases (done r)) [
      | inl d ↦ rw d (k w r refl, λ e'. d)
      | inr d ↦ rw d (g w r (k w r refl))
    ]
    first-Good endless loop (some (w, r)) e k g = elim (Bool-cases (done r)) [
      | inl d ↦ rw d (k w r refl, λ e'. d)
      | inr d ↦ rw d (g w r (k w r refl))
    ]

    -- A blocking call that returns leaves what its operation, the other processes and the changes of
    -- the number of waiters keep; without a deadline it returns only with a result that ends it.
    pub blocking_keeps :
        (os : List (Round W)) (w : W)
        → AllFair os
        → P w
        → Good (blocking try done up down limit os w)
    unfolding blocking
    blocking_keeps os w fair k =
        first-Good limit (wait_loop try done up down limit os) (try w) refl
          (λ w' r e. tried w w' r k e) (λ w' r k'. loop-Good os w' r fair k')
