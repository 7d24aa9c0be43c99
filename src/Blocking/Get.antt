-- ===== src/Blocking/Get.antt =====
-- The loop of `reqrep_get_wait` over the operation that it tries.
use go_data_reqrep_shared.Base.{
  ℕ, Bool, not, ◌&&◌, if◌then◌else◌, Option, none, some, List, [], ◌∷◌, ◌==◌,
}
use go_data_reqrep_shared.Slots.{resp_ready}
use go_data_reqrep_shared.Blocking.{
  Timeout, at_once, within, endless, has_deadline, Round, Wait, returned, waiting, failed,
}

-- `not_ready` and `stale` are the results 0 and -4, of which `pending` tells the first. `state` and
-- `generation` are those of the slot, `gen` the generation in the id; `up` and `down` change the
-- slot's number of waiters.
module _ {W R : Type 0} (try : W → Option (W × R)) (pending : R → Bool) (not_ready stale : R)
    (state generation : W → ℕ) (gen : ℕ) (up down : W → W) (limit : Timeout) where
  abbrev pub answer : Option (W × R) → Wait (W × R)
  answer none = failed
  answer (some r) = returned r

  abbrev pub unless_pending : (W → Wait (W × R)) → Option (W × R) → Wait (W × R)
  unless_pending again none = failed
  unless_pending again (some (w, r)) =
      let rest = again w in if pending r then rest else returned (w, r)

  abbrev pub get_round : Round W → (W → Wait (W × R)) → W → Wait (W × R)
  get_round o again w =
      let w1 = o.before w in
      let w2 = o.meanwhile (up w1) in
      let rest = unless_pending again (try (down (o.asleep w2))) in
      if state w1 == resp_ready
      then answer (try w1)
      else if not (generation w2 == gen)
      then returned (down w2, stale)
      else if state w2 == resp_ready
      then answer (try (down w2))
      else if has_deadline limit && not o.time_left
      then returned (down w2, not_ready)
      else rest

  unfoldable pub get_loop : List (Round W) → W → Wait (W × R)
  get_loop [] w = waiting
  get_loop (o ∷ os) w = get_round o (get_loop os) w

  abbrev pub get_first : Timeout → (W → Wait (W × R)) → Option (W × R) → Wait (W × R)
  get_first l loop none = failed
  get_first at_once loop (some (w, r)) = returned (w, r)
  get_first within loop (some (w, r)) =
      let rest = loop w in if pending r then rest else returned (w, r)
  get_first endless loop (some (w, r)) =
      let rest = loop w in if pending r then rest else returned (w, r)

  -- The whole call.
  unfoldable pub get_blocking : List (Round W) → W → Wait (W × R)
  unfolding get_loop
  get_blocking os w = get_first limit (get_loop os) (try w)
