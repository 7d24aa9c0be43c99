-- ===== src/IntMode/Run.antt =====
-- What holds of the integer queue after any run of its threads.
use native.Mathlib.Nat.{mod-eq_of_lt}
use go_data_reqrep_shared.Base.{
  ℕ, ◌+◌, ◌^◌, ◌%◌, ◌≤◌, ◌<◌, ◌≡◌, sym, subst, ap, ◌∙◌, refl, Option, none, some, arith,
}
use go_data_reqrep_shared.Shm.{Shm}
use go_data_reqrep_shared.Queue.Window.{IsSetUp}
use go_data_reqrep_shared.IntMode.{Item, IntQueue, SendPc, RecvPc}
use go_data_reqrep_shared.IntMode.System.{
  Thread, sender, receiver, System, Step, start_send, start_recv, send, recv, Reach, here, next,
}
use go_data_reqrep_shared.IntMode.Inv.{Stage, vacant, stage_owner, Local, IsFresh}
use go_data_reqrep_shared.IntMode.Keep.{Kept, quiet}
use go_data_reqrep_shared.IntMode.KeepSend.{send-Kept}
use go_data_reqrep_shared.IntMode.KeepRecv.{recv-Kept}

-- The thread is past its compare-and-swap and before its store of `sequence`, at the slot `c`.
unfoldable pub WorksAt : (cap c : ℕ) → Thread → Type 0
WorksAt cap c (sender x (SendPc.store pos)) = pos % cap ≡ c
WorksAt cap c (sender x (SendPc.publish pos)) = pos % cap ≡ c
WorksAt cap c (receiver (RecvPc.read pos)) = pos % cap ≡ c
WorksAt cap c (receiver (RecvPc.release pos x)) = pos % cap ≡ c
WorksAt cap c t = ⊥

-- What the receive of the `k`-th position has returned, if it has, is what was sent there.
abbrev pub AsSent : System → ℕ → Option Item → Type 0
AsSent t k none = Unit {0}
AsSent t k (some x) = (t.history k ≡ x) × (k < t.queue.req_head)

received-AsSent :
    (t : System) (k : ℕ)
    → ((j : ℕ) (x : Item) → t.received j ≡ some x → (j < t.queue.req_head) × (t.history j ≡ x))
    → (o : Option Item) → t.received k ≡ o
    → AsSent t k o
received-AsSent t k got none e = tt
received-AsSent t k got (some x) e = let (lt, h) = got k x e in (h, lt)

module _ (cap : ℕ) (q : IntQueue) (history : ℕ → Item) (cur : ℕ → ℕ) (stage : ℕ → Stage)
    (c i k : ℕ) where
  owner_at :
      (pos : ℕ) (g : Stage)
      → stage (pos % cap) ≡ g
      → pos % cap ≡ c
      → stage_owner k g ≡ i
      → stage_owner k (stage c) ≡ i
  owner_at pos g e at_c o = ap (λ d. stage_owner k (stage d)) (sym at_c) ∙ ap (stage_owner k) e ∙ o

  works_owner :
      (t : Thread)
      → Local cap q history cur stage i t
      → WorksAt cap c t
      → stage_owner k (stage c) ≡ i
  unfolding WorksAt
  works_owner (sender x (SendPc.store pos)) l w = owner_at pos (Stage.filling i) l.0.1 w refl
  works_owner (sender x (SendPc.publish pos)) l w = owner_at pos (Stage.filling i) l.0.1 w refl
  works_owner (receiver (RecvPc.read pos)) l w = owner_at pos (Stage.emptying i) l.1 w refl
  works_owner (receiver (RecvPc.release pos x)) l w = owner_at pos (Stage.emptying i) l.0.1 w refl
  works_owner t l w = absurd w

module _ (m : Shm) (v : IsSetUp m) (two : 2 ≤ m.req_cap) where
  fresh-Kept : (s : System) → IsFresh m.req_cap s → Kept m.req_cap s
  unfolding Kept
  fresh-Kept s f = (
    (λ c. c),
    (λ c. vacant),
    record {
      queue = record {
        ordered = omega (arith, f.no_head, f.no_tail);
        bounded = omega (arith, f.no_head, f.no_tail);
        slots = λ c lt. record {
          own = mod-eq_of_lt lt;
          seq = omega (arith, f.numbered c lt);
          place = omega (arith, f.no_head, f.no_tail, lt);
          holds = tt;
        };
      };
      locals = λ i. rw (f.all_rest i) tt;
      got = λ k x e. absurd (cc (f.none_received k, e));
    },
  )

  Step-Kept :
      (s t : System)
      → Kept m.req_cap s
      → s.queue.req_tail + m.req_cap < 2 ^ 63
      → Step m s t
      → Kept m.req_cap t
  unfolding Kept
  Step-Kept s t (cur, stage, inv) small (start_send i x) =
      quiet m v two s i inv s.queue.stat_requests s.queue.stat_send_full s.queue.stat_recv_empty
        (sender x SendPc.load_tail) tt
  Step-Kept s t (cur, stage, inv) small (start_recv i) =
      quiet m v two s i inv s.queue.stat_requests s.queue.stat_send_full s.queue.stat_recv_empty
        (receiver RecvPc.load_head) tt
  Step-Kept s t (cur, stage, inv) small (send i x p b e) =
      send-Kept m v two s i inv small b x p
        (subst (Local m.req_cap s.queue s.history cur stage i) e (inv.locals i))
  Step-Kept s t (cur, stage, inv) small (recv i p b e) =
      recv-Kept m v two s i inv small b p
        (subst (Local m.req_cap s.queue s.history cur stage i) e (inv.locals i))

  Reach-Kept : (s t : System) → IsFresh m.req_cap s → Reach m s t → Kept m.req_cap t
  Reach-Kept s t f here = fresh-Kept s f
  Reach-Kept s t f (next {t = u} r small st) = Step-Kept u t (Reach-Kept s u f r) small st

  module _ (s t : System) (f : IsFresh m.req_cap s) (run : Reach m s t) where
    -- From a fresh queue whose number of slots is a power of two from 2 to 2 ^ 31, after any run
    -- of senders and receivers in which the tail and the number of slots come to less than 2 ^ 63
    -- before each step, the head is not ahead of the tail, no more requests than slots lie between
    -- them, and what the receive of any k-th position has returned, if it has, is what the send of
    -- the k-th position carries, at a position behind the head.
    pub fifo :
        (t.queue.req_head ≤ t.queue.req_tail)
        × (t.queue.req_tail ≤ t.queue.req_head + m.req_cap)
        × ((k : ℕ) → AsSent t k (t.received k))
    unfolding Kept
    fifo =
        let (cur, stage, inv) = Reach-Kept s t f run in
        (inv.queue.ordered, inv.queue.bounded, λ k. received-AsSent t k inv.got (t.received k) refl)

    -- From a fresh queue whose number of slots is a power of two from 2 to 2 ^ 31, after any run
    -- of senders and receivers in which the tail and the number of slots come to less than 2 ^ 63
    -- before each step, two threads that read or write the same slot, between their
    -- compare-and-swap and their store of its sequence, are the same thread.
    pub one_per_slot :
        (c i j : ℕ) → WorksAt m.req_cap c (t.thread i) → WorksAt m.req_cap c (t.thread j) → i ≡ j
    unfolding Kept
    one_per_slot c i j w w' =
        let (cur, stage, inv) = Reach-Kept s t f run in
        sym (works_owner m.req_cap t.queue t.history cur stage c i 0 (t.thread i) (inv.locals i) w)
        ∙ works_owner m.req_cap t.queue t.history cur stage c j 0 (t.thread j) (inv.locals j) w'
