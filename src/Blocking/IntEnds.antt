-- ===== src/Blocking/IntEnds.antt =====
-- What the blocking calls of the integer mode come to.
use go_data_reqrep_shared.Base.{
  ℕ, ◌+◌, ◌^◌, ◌≤◌, ◌<◌, ◌≡◌, refl, ap, ◌∙◌, Option, none, some, List, [], ◌∷◌, arith, dec_lt,
  add32, sub32, u32_mod,
}
use go_data_reqrep_shared.Shm.{id_slot, id_gen}
use go_data_reqrep_shared.Queue.Window.{IsSetUp}
use go_data_reqrep_shared.Slots.{slot_at}
use go_data_reqrep_shared.Reference.{Handle}
use go_data_reqrep_shared.Reference.Agreement.{view}
use go_data_reqrep_shared.Reference.Session.{wake_producers}
use go_data_reqrep_shared.IntMode.{IntQueue, Item}
use go_data_reqrep_shared.IntMode.Alone.{Resting, after_received, recv_some, recv_none, at_pos}
use go_data_reqrep_shared.IntMode.Contents.{after_received-Resting}
use go_data_reqrep_shared.IntMode.File.{
  IntFile, IntGet, int_try_recv, after_int_recv, on_return, int_try_get, int_not_ready, int_stale,
}
use go_data_reqrep_shared.Blocking.{Timeout, within, Round, returned}
use go_data_reqrep_shared.Blocking.Keeps.{AllFair, and_round, no_rounds}
use go_data_reqrep_shared.Blocking.Ends.{LateRound, blocking-Ends}
use go_data_reqrep_shared.Blocking.GetEnds.{NoTimeLeft, get-Ends}
use go_data_reqrep_shared.Blocking.Calls.{recv_up, recv_down, set_slot_waiters}
use go_data_reqrep_shared.Blocking.IntCalls.{
  int_recv_wait, int_recv_done, int_get_wait, int_get_pending, try_get_in,
}

-- No thread is inside an operation of the queue, and `k` threads are counted as waiting receivers.
pub record Calm (h : Handle) (k : ℕ) (f : IntFile) : Type 0 where
  pub rest : Resting h.req_cap f.queue
  pub small : f.queue.req_tail + h.req_cap < 2 ^ 63
  pub counted : f.recv_waiters ≡ k

-- The other processes finish their operations, and count themselves out if they count themselves in.
pub record Polite (h : Handle) (o : Round IntFile) : Type 0 where
  pub before_calm : (k : ℕ) (f : IntFile) → Calm h k f → Calm h k (o.before f)
  pub meanwhile_calm : (k : ℕ) (f : IntFile) → Calm h k f → Calm h k (o.meanwhile f)
  pub asleep_calm : (k : ℕ) (f : IntFile) → Calm h k f → Calm h k (o.asleep f)

pub data AllPolite (h : Handle) : List (Round IntFile) → Type 0 where
  nobody : AllPolite h []
  and_then :
      {o : Round IntFile} {os : List (Round IntFile)}
      → Polite h o
      → AllPolite h os
      → AllPolite h (o ∷ os)

woken :
    (f : IntFile)
    → ((wake_producers f).queue ≡ f.queue) × ((wake_producers f).recv_waiters ≡ f.recv_waiters)
unfolding wake_producers
woken f = (ground arith, ground arith)

module _ (h : Handle) (v : IsSetUp (view h)) (two : 2 ≤ h.req_cap) (n : ℕ) (few : n < u32_mod)
    (fails : IntFile → ℕ) where
  tried :
      (f : IntFile)
      → Calm h n f
      → (f' : IntFile) × (r : Option (ℕ × ℕ)) × (int_try_recv h (fails f) f ≡ some (f', r))
        × Calm h n f'
  unfolding int_try_recv after_int_recv
  tried f c =
      let q = f.queue in
      elim (dec_lt q.req_head q.req_tail) [
        | yes more ↦
            let x : Item = (at_pos h.req_cap q q.req_head).item in
            let f1 : IntFile = record f { queue = after_received h.req_cap q } in
            let (same_queue, same_count) = woken f1 in
            (
              wake_producers f1,
              (after_int_recv f (after_received h.req_cap q, some x)).1,
              ap (on_return (after_int_recv f))
                  (recv_some (view h) v two q c.rest c.small (fails f) 0 more),
              record {
                rest = rw same_queue (after_received-Resting q c.rest more);
                small = rw same_queue c.small;
                counted = same_count ∙ c.counted;
              },
            )
        | no no_more ↦
            let q1 : IntQueue = record q { stat_recv_empty = add32 q.stat_recv_empty 1 } in
            (
              record f { queue = q1 },
              none,
              ap (on_return (after_int_recv f)) (
                  recv_none (view h) v two q c.rest c.small (fails f) 0
                    (omega (arith, c.rest.ordered))),
              record {
                rest = record {
                  ordered = c.rest.ordered;
                  bounded = c.rest.bounded;
                  holds = c.rest.holds;
                  vacant = c.rest.vacant;
                };
                small = c.small;
                counted = c.counted;
              },
            )
      ]

  abbrev up : Option (ℕ × ℕ) → IntFile → IntFile
  up r = recv_up

  abbrev down : Option (ℕ × ℕ) → IntFile → IntFile
  down r = recv_down

  counted_in : (f : IntFile) → Calm h n f → Calm h (add32 n 1) (recv_up f)
  counted_in f c = record {
    rest = c.rest;
    small = c.small;
    counted = ap (λ k. add32 k 1) c.counted;
  }

  counted_out : (f : IntFile) → Calm h (add32 n 1) f → Calm h n (recv_down f)
  counted_out f c = record { rest = c.rest; small = c.small; counted = omega (arith, c.counted) }

  all_fair :
      (limit : Timeout)
      → limit ≡ within
      → (os : List (Round IntFile)) → AllPolite h os
      → AllFair (λ g. int_try_recv h (fails g) g) int_recv_done up down limit (Calm h n) os
  all_fair limit w [] p = no_rounds
  all_fair limit w (o ∷ os) (and_then p ps) =
      and_round
        (record {
          before_keeps = p.before_calm n;
          early_keeps = λ at f c.
              counted_out (o.meanwhile (recv_up f))
                (p.meanwhile_calm (add32 n 1) (recv_up f) (counted_in f c));
          late_keeps = λ at f c. counted_out (o.asleep (o.meanwhile (recv_up f))) (
              p.asleep_calm (add32 n 1) (o.meanwhile (recv_up f))
                (p.meanwhile_calm (add32 n 1) (recv_up f) (counted_in f c)));
          no_timeout = λ e. absurd (cc (w, e));
        })
        (all_fair limit w os ps)

  -- For a set-up queue of at least two slots, at rest, far from 2 ^ 63 and with fewer than 2 ^
  -- 32 waiting receivers, while the other processes leave it so between their operations and
  -- leave the number of waiting receivers as they find it, int_recv_wait with a deadline,
  -- however often the weak compare-and-swap of a try fails spuriously, returns, at the latest in the round that finds no time left or whose wait times out, with
  -- the queue at rest and as many waiting receivers as before.
  pub int_recv_wait_ends :
      (os : List (Round IntFile)) (f : IntFile)
      → Calm h n f
      → AllPolite h os
      → LateRound os
      → (f' : IntFile) × (r : Option (ℕ × ℕ)) × (int_recv_wait h fails within os f
          ≡ returned (f', r))
        × Calm h n f'
  unfolding int_recv_wait
  int_recv_wait_ends os f c ps l =
      blocking-Ends (λ g. int_try_recv h (fails g) g) int_recv_done up down (Calm h n) tried os f c
        (all_fair within refl os ps) l

-- For any file and id, whatever the other processes do, int_get_wait with a deadline returns,
-- at the latest in the round that finds no time left.
int_get_wait_ends :
    (h : Handle) (id : ℕ) (os : List (Round IntFile)) (f : IntFile)
    → NoTimeLeft os
    → (f' : IntFile) × (r : IntGet) × (int_get_wait h within id os f ≡ returned (f', r))
unfolding int_get_wait
int_get_wait_ends h id os f l =
    get-Ends (try_get_in h id) int_get_pending int_not_ready int_stale
      (λ g. (slot_at g.table (id_slot id)).state) (λ g. (slot_at g.table (id_slot id)).generation)
      (id_gen id) (set_slot_waiters (id_slot id) (λ n. add32 n 1))
      (set_slot_waiters (id_slot id) (λ n. sub32 n 1))
      (λ g. let r = int_try_get h g.table id in (record g { table = r.0 }, r.1, refl)) os f l
