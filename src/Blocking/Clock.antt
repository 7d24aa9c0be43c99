-- ===== src/Blocking/Clock.antt =====
-- `reqrep_make_deadline` and `reqrep_remaining_time` of gen/reqrep.h.
use go_data_reqrep_shared.Base.{
  ℕ, ◌+◌, ◌-◌, ◌*◌, ◌≤◌, ◌<◌, ◌≡◌, inl, inr, refl, Bool-cases, Option, none, some, ltb, leb,
  if◌then◌else◌, arith, subst,
}

-- `struct timespec`
pub record Timespec : Type 0 where
  pub tv_sec : ℕ
  pub tv_nsec : ℕ

abbrev pub second : ℕ
second = 1_000_000_000

-- `reqrep_make_deadline`: `whole` is `(time_t)timeout`, and `part` the nanoseconds that the
-- floating-point arithmetic makes of the rest.
unfoldable pub make_deadline : Timespec → ℕ → ℕ → Timespec
make_deadline now whole part =
    let sec = now.tv_sec + whole in
    let nsec = now.tv_nsec + part in
    if leb second nsec
    then record { tv_sec = sec + 1; tv_nsec = nsec - second }
    else record { tv_sec = sec; tv_nsec = nsec }

-- `reqrep_remaining_time`; `none` is the return value 0, when `tv_sec` is negative.
unfoldable pub remaining_time : Timespec → Timespec → Option Timespec
remaining_time deadline now =
    if ltb deadline.tv_nsec now.tv_nsec
    then (if leb (now.tv_sec + 1) deadline.tv_sec
        then some (record {
          tv_sec = deadline.tv_sec - now.tv_sec - 1;
          tv_nsec = deadline.tv_nsec + second - now.tv_nsec;
        })
        else none)
    else if leb now.tv_sec deadline.tv_sec
    then some
        (record { tv_sec = deadline.tv_sec - now.tv_sec; tv_nsec = deadline.tv_nsec - now.tv_nsec })
    else none

-- A time in nanoseconds.
abbrev pub nanos : Timespec → ℕ
nanos t = t.tv_sec * second + t.tv_nsec

abbrev pub IsNormal : Timespec → Type 0
IsNormal t = t.tv_nsec < second

deadline_nanos :
    (now : Timespec) (whole part : ℕ)
    → IsNormal now
    → part < second
    → (nanos (make_deadline now whole part) ≡ nanos now + whole * second + part)
      × IsNormal (make_deadline now whole part)
unfolding make_deadline
deadline_nanos now whole part n p = elim (Bool-cases (leb second (now.tv_nsec + part))) [
  | inl e ↦
      let c : second ≤ now.tv_nsec + part = ground (arith, e) in
      rw e (omega (arith, c, n, p), omega (arith, c, n, p))
  | inr e ↦
      let c : now.tv_nsec + part < second = ground (arith, e) in
      rw e (omega (arith, c, n, p), omega (arith, c, n, p))
]

-- What is left until a deadline.
pub data Left (d : ℕ) (now : ℕ) : Option Timespec → Type 0 where
  late : {o : Option Timespec} → o ≡ none → d < now → Left d now o
  left :
      {o : Option Timespec} (t : Timespec)
      → o ≡ some t
      → nanos t + now ≡ d
      → IsNormal t
      → Left d now o

remaining_nanos :
    (deadline now : Timespec)
    → IsNormal deadline
    → IsNormal now
    → Left (nanos deadline) (nanos now) (remaining_time deadline now)
unfolding remaining_time
remaining_nanos deadline now d n = elim (Bool-cases (ltb deadline.tv_nsec now.tv_nsec)) [
  | inl a ↦ elim (Bool-cases (leb (now.tv_sec + 1) deadline.tv_sec)) [
    | inl b ↦
        let a' : deadline.tv_nsec < now.tv_nsec = ground (arith, a) in
        let b' : now.tv_sec + 1 ≤ deadline.tv_sec = ground (arith, b) in
        left
          (record {
            tv_sec = deadline.tv_sec - now.tv_sec - 1;
            tv_nsec = deadline.tv_nsec + second - now.tv_nsec;
          })
          (rw (a, b) refl) (omega (arith, a', b', d, n)) (omega (arith, a', b', d, n))
    | inr b ↦
        let a' : deadline.tv_nsec < now.tv_nsec = ground (arith, a) in
        let b' : deadline.tv_sec ≤ now.tv_sec = ground (arith, b) in
        late (rw (a, b) refl) (omega (arith, a', b', d, n))
  ]
  | inr a ↦ elim (Bool-cases (leb now.tv_sec deadline.tv_sec)) [
    | inl b ↦
        let a' : now.tv_nsec ≤ deadline.tv_nsec = ground (arith, a) in
        let b' : now.tv_sec ≤ deadline.tv_sec = ground (arith, b) in
        left
          (record {
            tv_sec = deadline.tv_sec - now.tv_sec;
            tv_nsec = deadline.tv_nsec - now.tv_nsec;
          })
          (rw (a, b) refl) (omega (arith, a', b', d, n)) (omega (arith, a', b', d, n))
    | inr b ↦
        let b' : deadline.tv_sec < now.tv_sec = ground (arith, b) in
        late (rw (a, b) refl) (omega (arith, b', d, n))
  ]
]

-- For clock readings and a remainder of less than a second's nanoseconds, what is left at a later
-- reading is exactly the timeout after the first reading less that reading, in normal form, and
-- there is none once the reading is past it.
remaining_after :
    (now later : Timespec) (whole part : ℕ)
    → IsNormal now
    → IsNormal later
    → part < second
    → Left
        (nanos now + whole * second + part)
        (nanos later)
        (remaining_time (make_deadline now whole part) later)
remaining_after now later whole part n l p =
    let (e, d) = deadline_nanos now whole part n p in
    subst (λ k. Left k (nanos later) (remaining_time (make_deadline now whole part) later)) e
      (remaining_nanos (make_deadline now whole part) later d l)
