-- ===== src/Response/Exchange.antt =====
-- The response slots over any sequence of operations of any number of clients and servers.
use go_data_reqrep_shared.Base.{
  ℕ, ◌<◌, ◌≡◌, refl, List, [], ◌∷◌, Option, none, some, ◌==◌, if◌then◌else◌,
}
use go_data_reqrep_shared.Shm.{Shm, id_slot, id_gen}
use go_data_reqrep_shared.Slots.{Table, KillResult, acquire_resp_slot}
use go_data_reqrep_shared.Response.{
  Reply, replied, stale_slot, resp_too_long, Poll, response, pending, poll_stale, poll_too_long,
  write_response, poll_response, abandon,
}
use go_data_reqrep_shared.Response.Board.{gone, awaiting, answered, Board, board, update, IsValid}
use go_data_reqrep_shared.Response.Moves.{
  Replied, accepted, too_long, stale, Polled, delivered, not_yet, outdated, write_response_cases,
  poll_response_cases,
}
use go_data_reqrep_shared.Response.Acquire.{Acquired, acquired, exhausted, acquire_resp_slot_cases}
use go_data_reqrep_shared.Response.Abandon.{abandon_lem}

-- A client process takes a slot, a server replies, a client polls, or it gives up.
pub data Op : Type 0 where
  take : ℕ → Op
  reply : ℕ → List ℕ → Op
  poll : ℕ → Op
  give_up : ℕ → Op

-- What came of it, by slot index and generation.
pub data Event : Type 0 where
  took : ℕ → ℕ → Event
  wrote : ℕ → ℕ → List ℕ → Event
  got : ℕ → ℕ → List ℕ → Event
  dropped : ℕ → ℕ → Event
  idle : Event

abbrev took_event : Table → Option (Table × ℕ × ℕ) → Table × Event
took_event t none = (t, idle)
took_event t (some (t', i, gen)) = (t', took i gen)

abbrev wrote_event : ℕ → List ℕ → Table × Reply → Table × Event
wrote_event id bytes (t, replied) = (t, wrote (id_slot id) (id_gen id) bytes)
wrote_event id bytes (t, stale_slot) = (t, idle)
wrote_event id bytes (t, resp_too_long) = (t, idle)

abbrev got_event : ℕ → Table × Poll → Table × Event
got_event id (t, response bytes) = (t, got (id_slot id) (id_gen id) bytes)
got_event id (t, poll_stale) = (t, idle)
got_event id (t, poll_too_long) = (t, idle)
got_event id (t, pending) = (t, idle)

unfoldable pub exec : (ℕ → KillResult) → Shm → Table → Op → Table × Event
exec kill s t (take pid) = took_event t (acquire_resp_slot kill pid s t)
exec kill s t (reply id bytes) = wrote_event id bytes (write_response s t id bytes)
exec kill s t (poll id) = got_event id (poll_response s t id)
exec kill s t (give_up id) = (abandon s t id, dropped (id_slot id) (id_gen id))

unfoldable pub run : (ℕ → KillResult) → Shm → Table → List Op → Table × List Event
unfolding exec
run kill s t [] = (t, [])
run kill s t (op ∷ ops) =
    let r = exec kill s t op in let rest = run kill s r.0 ops in (rest.0, r.1 ∷ rest.1)

-- A client polls for a slot that it was given.
abbrev pub IsKnown : Shm → Op → Type 0
IsKnown s (poll id) = id_slot id < s.resp_slots
IsKnown s (take pid) = Unit
IsKnown s (reply id bytes) = Unit
IsKnown s (give_up id) = Unit

abbrev pub AllKnown : Shm → List Op → Type 0
AllKnown s [] = Unit
AllKnown s (op ∷ ops) = IsKnown s op × AllKnown s ops

-- The abstract table: a board that each event changes in one place.
pub data Step (b b' : Board) : Event → Type 0 where
  takes :
      (i gen : ℕ)
      → ((j h : ℕ) → b' j h ≡ (if j == i then (if h == gen then awaiting else gone) else b j h))
      → Step b b' (took i gen)
  writes :
      (i gen : ℕ) (bytes : List ℕ)
      → b i gen ≡ awaiting
      → ((j h : ℕ) → b' j h ≡ update b i gen (answered bytes) j h)
      → Step b b' (wrote i gen bytes)
  gets :
      (i gen : ℕ) (bytes : List ℕ)
      → b i gen ≡ answered bytes
      → ((j h : ℕ) → b' j h ≡ update b i gen gone j h)
      → Step b b' (got i gen bytes)
  drops : (i gen : ℕ) → ((j h : ℕ) → b' j h ≡ update b i gen gone j h) → Step b b' (dropped i gen)
  stands : ((j h : ℕ) → b' j h ≡ b j h) → Step b b' idle

pub data Follows : Board → List Event → Board → Type 0 where
  done : {b : Board} → Follows b [] b
  more :
      {b c d : Board} {e : Event} {es : List Event}
      → Step b c e
      → Follows c es d
      → Follows b (e ∷ es) d

module _ (kill : ℕ → KillResult) (s : Shm) where
  pub record Good (t : Table) (r : Table × Event) : Type 0 where
    pub step : Step (board t) (board r.0) r.1
    pub valid : IsValid s r.0

  took-Good :
      (t : Table) (pid : ℕ) (r : Option (Table × ℕ × ℕ))
      → IsValid s t
      → Acquired kill pid s t r
      → Good t (took_event t r)
  took-Good t pid r w (acquired t' i gen e k p g why o b v) =
      rw e (record { step = takes i gen b; valid = v })
  took-Good t pid r w (exhausted e none_free none_stale) =
      rw e (record { step = stands (λ j h. refl); valid = w })

  wrote-Good :
      (t : Table) (id : ℕ) (bytes : List ℕ) (r : Table × Reply) (w : IsValid s t)
      → Replied s t id w bytes r
      → Good t (wrote_event id bytes r)
  wrote-Good t id bytes r w (accepted t' e a m) =
      rw e (record { step = writes (id_slot id) (id_gen id) bytes a m.boards; valid = m.valid })
  wrote-Good t id bytes r w (too_long e l) =
      rw e (record { step = stands (λ j h. refl); valid = w })
  wrote-Good t id bytes r w (stale e n) = rw e (record { step = stands (λ j h. refl); valid = w })

  got-Good :
      (t : Table) (id : ℕ) (r : Table × Poll) (w : IsValid s t)
      → Polled s t id w r
      → Good t (got_event id r)
  got-Good t id r w (delivered t' bytes e a m) =
      rw e (record { step = gets (id_slot id) (id_gen id) bytes a m.boards; valid = m.valid })
  got-Good t id r w (not_yet e n) = rw e (record { step = stands (λ j h. refl); valid = w })
  got-Good t id r w (outdated e n) = rw e (record { step = stands (λ j h. refl); valid = w })

  exec-Good : (t : Table) (op : Op) → IsValid s t → IsKnown s op → Good t (exec kill s t op)
  unfolding exec
  exec-Good t (take pid) w k =
      took-Good t pid (acquire_resp_slot kill pid s t) w (acquire_resp_slot_cases kill pid s t w)
  exec-Good t (reply id bytes) w k =
      wrote-Good t id bytes (write_response s t id bytes) w (write_response_cases s t id w bytes)
  exec-Good t (poll id) w k =
      got-Good t id (poll_response s t id) w (poll_response_cases s t id w k)
  exec-Good t (give_up id) w k =
      let m = abandon_lem s t id w in
      record { step = drops (id_slot id) (id_gen id) m.boards; valid = m.valid }

  -- On a valid table, any sequence of takes, replies, polls of known slots and give-ups is a run of
  -- the board of ids with the same events, and the table is valid at the end.
  pub run_refines :
      (t : Table) (ops : List Op)
      → IsValid s t
      → AllKnown s ops
      → Follows (board t) (run kill s t ops).1 (board (run kill s t ops).0)
        × IsValid s (run kill s t ops).0
  unfolding run
  run_refines t [] w k = (done, w)
  run_refines t (op ∷ ops) w k =
      let g = exec-Good t op w k.0 in
      let rest = run_refines (exec kill s t op).0 ops g.valid k.1 in (more g.step rest.0, rest.1)
