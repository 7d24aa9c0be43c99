-- ===== src/Queue/Fifo.antt =====
-- The request queue over any sequence of locked operations: a bounded first-in first-out queue.
use go_data_reqrep_shared.Base.{
  ℕ, ◌≤◌, ◌<◌, ◌≡◌, refl, sym, ap, ◌∙◌, List, [], ◌∷◌, ◌++◌, map, length, true, false, Bool, none,
  some, Option, Run, ok, ◌>>=◌,
}
use mathlib.Core.List.{map-append, append_assoc, append-nil}
use go_data_reqrep_shared.Shm.{Shm, Queue, make_id}
use go_data_reqrep_shared.Arena.Write.{max_len}
use go_data_reqrep_shared.Queue.{send_locked, recv_locked}
use go_data_reqrep_shared.Queue.Invariant.{IsValid, Message, messages}
use go_data_reqrep_shared.Queue.Sent.{Sent, accepted, refused, send_locked_cases}
use go_data_reqrep_shared.Queue.Received.{Received, nothing, taken, recv_locked_cases}
use go_data_reqrep_shared.Queue.Window.{IsSetUp}

pub data Op : Type 0 where
  send : List ℕ → ℕ → ℕ → Op
  recv : Op

-- What a client knows of a delivery: the bytes and the id.
abbrev pub Delivery : Type 0
Delivery = List ℕ × ℕ

abbrev pub deliver : Message → Delivery
deliver m = (m.bytes, make_id m.resp_slot m.resp_gen)

-- The operations in order, with the requests that were accepted and those handed out.
pub record Trace : Type 0 where
  pub queue : Queue
  pub accepted_sends : List Delivery
  pub received : List Delivery

abbrev note_send : Delivery → Bool → Trace → Run Trace
note_send d true t = ok (record t { accepted_sends = d ∷ t.accepted_sends })
note_send d false t = ok t

abbrev note_recv : Option Delivery → Trace → Run Trace
note_recv (some d) t = ok (record t { received = d ∷ t.received })
note_recv none t = ok t

unfoldable pub run : Shm → Queue → List Op → Run Trace
run s q [] = ok (record { queue = q; accepted_sends = []; received = [] })
run s q (send bytes slot gen ∷ ops) = send_locked s q bytes slot gen >>= λ r.
    run s r.0 ops >>= note_send (bytes, make_id slot gen) r.1
run s q (recv ∷ ops) = recv_locked s q >>= λ r. run s r.0 ops >>= note_recv r.1

-- The requests that `trySend` passes on: of a known response slot, and not too long.
abbrev pub IsRequest : Shm → Op → Type 0
IsRequest s (send bytes slot gen) = (slot < s.resp_slots) × (length bytes ≤ max_len)
IsRequest s recv = Unit

abbrev pub AllRequests : Shm → List Op → Type 0
AllRequests s [] = Unit
AllRequests s (op ∷ ops) = IsRequest s op × AllRequests s ops

pub record InOrder (s : Shm) (q : Queue) (r : Run Trace) : Type 0 where
  pub trace : Trace
  pub returns : r ≡ ok trace
  pub valid : IsValid s trace.queue
  pub order :
      map deliver (messages s q) ++ trace.accepted_sends
      ≡ trace.received ++ map deliver (messages s trace.queue)

module _ {s : Shm} (v : IsSetUp s) where
  send_step :
      {q : Queue} (bytes : List ℕ) (slot gen : ℕ) (ops : List Op)
      → Sent s q bytes slot gen (send_locked s q bytes slot gen)
      → ((q' : Queue) → IsValid s q' → InOrder s q' (run s q' ops))
      → InOrder s q (run s q (send bytes slot gen ∷ ops))
  unfolding run
  send_step {q} bytes slot gen ops (accepted q' e valid m) rest =
      let i : InOrder s q' (run s q' ops) = rest q' valid in
      let d : Delivery = (bytes, make_id slot gen) in
      record {
        trace = record i.trace { accepted_sends = d ∷ i.trace.accepted_sends };
        returns = rw (e, i.returns);
        valid = i.valid;
        order =
            sym (append_assoc (map deliver (messages s q)) (d ∷ []) i.trace.accepted_sends)
            ∙ ap (λ l. l ++ i.trace.accepted_sends)
                (sym (ap (map deliver) m ∙ map-append deliver (messages s q) _))
            ∙ i.order;
      }
  send_step {q} bytes slot gen ops (refused q' e valid m why) rest =
      let i : InOrder s q' (run s q' ops) = rest q' valid in
      record {
        trace = i.trace;
        returns = rw (e, i.returns);
        valid = i.valid;
        order = ap (λ l. map deliver l ++ i.trace.accepted_sends) (sym m) ∙ i.order;
      }

  recv_step :
      {q : Queue} (ops : List Op)
      → Received s q (recv_locked s q)
      → ((q' : Queue) → IsValid s q' → InOrder s q' (run s q' ops))
      → InOrder s q (run s q (recv ∷ ops))
  unfolding run
  recv_step {q} ops (nothing q' e valid before after) rest =
      let i : InOrder s q' (run s q' ops) = rest q' valid in
      record {
        trace = i.trace;
        returns = rw (e, i.returns);
        valid = i.valid;
        order = ap (λ l. map deliver l ++ i.trace.accepted_sends) (before ∙ sym after) ∙ i.order;
      }
  recv_step {q} ops (taken q' m e valid before) rest =
      let i : InOrder s q' (run s q' ops) = rest q' valid in
      record {
        trace = record i.trace { received = deliver m ∷ i.trace.received };
        returns = rw (e, i.returns);
        valid = i.valid;
        order =
            ap (λ l. map deliver l ++ i.trace.accepted_sends) before
            ∙ ap (λ l. deliver m ∷ l) i.order;
      }

  -- On a valid queue, any sequence of locked sends (of known response slots and of requests
  -- within the length mask) and locked receives returns without a panic, the invariant holds at
  -- the end, and the requests handed out followed by those still waiting are exactly those that
  -- waited before followed by those accepted, in order, with their bytes and ids; this also holds
  -- while the 64-bit counters wrap.
  pub run_fifo :
      (q : Queue) (ops : List Op) → IsValid s q → AllRequests s ops → InOrder s q (run s q ops)
  unfolding run
  run_fifo q [] w a = record {
    trace = record { queue = q; accepted_sends = []; received = [] };
    returns = refl;
    valid = w;
    order = append-nil (map deliver (messages s q));
  }
  run_fifo q (send bytes slot gen ∷ ops) w a =
      send_step bytes slot gen ops (send_locked_cases bytes gen v w a.0.0 a.0.1)
        λ q' w'. run_fifo q' ops w' a.1
  run_fifo q (recv ∷ ops) w a =
      recv_step ops (recv_locked_cases v w) λ q' w'. run_fifo q' ops w' a.1
