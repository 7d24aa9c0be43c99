-- ===== src/Blocking.antt =====
-- The blocking loops of gen/reqrep.h: `reqrep_send_wait`, `reqrep_recv_wait` and
-- `reqrep_get_wait`, each over the operation that it tries. The loops of the integer mode are the
-- same with its operations.
pub mod Ends
pub mod Clock
pub mod Keeps
pub mod Get
pub mod GetEnds
pub mod Calls
pub mod SendKeeps
pub mod IntCalls
pub mod IntEnds
pub mod Abandon
mod Tests
use go_data_reqrep_shared.Base.{
  Bool, true, false, not, ◌&&◌, if◌then◌else◌, Option, none, some, List, [], ◌∷◌, ◌==◌,
}

-- `timeout == 0`, `timeout > 0` and `timeout < 0`
pub data Timeout : Type 0 where
  at_once within endless : Timeout

abbrev pub has_deadline : Timeout → Bool
has_deadline at_once = false
has_deadline within = true
has_deadline endless = false

-- One round of a loop as the rest of the world makes it: what the other processes do to `W` before
-- the operation is tried, after the thread has counted itself, and while it waits; whether
-- `reqrep_remaining_time` finds time left, and whether the wait reports `ETIMEDOUT`.
pub record Round (W : Type 0) : Type 0 where
  pub before : W → W
  pub meanwhile : W → W
  pub asleep : W → W
  pub time_left : Bool
  pub timed_out : Bool

-- A call returns, is still in its loop after the given rounds, or the operation tried is out of its
-- bounds.
pub data Wait (A : Type 0) : Type 0 where
  returned : A → Wait A
  waiting : Wait A
  failed : Wait A

-- `try` is the operation, `done` tells the results that end the call. `up` and `down` change the
-- number of waiters that a result stands for.
module _ {W R : Type 0} (try : W → Option (W × R)) (done : R → Bool) (up down : R → W → W)
    (limit : Timeout) where
  -- The end of a round, after the second try.
  abbrev pub after_wait : Bool → (W → R → Wait (W × R)) → Option (W × R) → Wait (W × R)
  after_wait late again none = failed
  after_wait late again (some (w, r)) =
      let rest = again w r in
      if done r then returned (w, r) else if late then returned (w, r) else rest

  -- A round from the first try on; `at` is the last result, which the waiters are chosen by.
  abbrev pub after_try : R → Round W → (W → R → Wait (W × R)) → Option (W × R) → Wait (W × R)
  after_try at o again none = failed
  after_try at o again (some (w, r)) =
      let w1 = o.meanwhile (up at w) in
      let rest = after_wait o.timed_out again (try (down at (o.asleep w1))) in
      if done r
      then returned (w, r)
      else if has_deadline limit && not o.time_left
      then returned (down at w1, r)
      else rest

  unfoldable pub wait_loop : List (Round W) → W → R → Wait (W × R)
  wait_loop [] w at = waiting
  wait_loop (o ∷ os) w at = after_try at o (wait_loop os) (try (o.before w))

  abbrev pub after_first : Timeout → (W → R → Wait (W × R)) → Option (W × R) → Wait (W × R)
  after_first l loop none = failed
  after_first at_once loop (some (w, r)) = returned (w, r)
  after_first within loop (some (w, r)) =
      let rest = loop w r in if done r then returned (w, r) else rest
  after_first endless loop (some (w, r)) =
      let rest = loop w r in if done r then returned (w, r) else rest

  -- The whole call.
  unfoldable pub blocking : List (Round W) → W → Wait (W × R)
  unfolding wait_loop
  blocking os w = after_first limit (wait_loop os) (try w)
