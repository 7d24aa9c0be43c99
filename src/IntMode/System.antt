-- ===== src/IntMode/System.antt =====
-- Any number of senders and receivers over one integer queue, in any order.
use go_data_reqrep_shared.Base.{ℕ, ◌+◌, ◌^◌, ◌<◌, ◌≡◌, Bool, Option, some, put}
use go_data_reqrep_shared.Shm.{Shm}
use go_data_reqrep_shared.IntMode.{Item, IntQueue, SendPc, send_step, RecvPc, recv_step}

pub data Thread : Type 0 where
  resting : Thread
  sender : Item → SendPc → Thread
  receiver : RecvPc → Thread

-- `history k` is what the `k`-th send that moved the tail carries, and `received k` what the `k`-th
-- receive that moved the head has returned.
pub record System : Type 0 where
  pub queue : IntQueue
  pub thread : ℕ → Thread
  pub history : ℕ → Item
  pub received : ℕ → Option Item

abbrev pub note_send : Item → SendPc → SendPc → (ℕ → Item) → ℕ → Item
note_send x (SendPc.claim pos) (SendPc.store pos') h = put h pos x
note_send x p p' h = h

abbrev pub note_recv : RecvPc → (ℕ → Option Item) → ℕ → Option Item
note_recv (RecvPc.release pos x) r = put r pos (some x)
note_recv p r = r

abbrev pub after_send_step : System → ℕ → Item → SendPc → IntQueue × SendPc → System
after_send_step s i x p (q, p') = record {
  queue = q;
  thread = put s.thread i (sender x p');
  history = note_send x p p' s.history;
  received = s.received;
}

abbrev pub after_recv_step : System → ℕ → RecvPc → IntQueue × RecvPc → System
after_recv_step s i p (q, p') = record {
  queue = q;
  thread = put s.thread i (receiver p');
  history = s.history;
  received = note_recv p s.received;
}

pub data Step (m : Shm) (s : System) : System → Type 0 where
  start_send :
      (i : ℕ) (x : Item)
      → Step m s (record s { thread = put s.thread i (sender x SendPc.load_tail) })
  start_recv : (i : ℕ) → Step m s (record s { thread = put s.thread i (receiver RecvPc.load_head) })
  send :
      (i : ℕ) (x : Item) (p : SendPc) (swap_ok : Bool)
      → s.thread i ≡ sender x p
      → Step m s (after_send_step s i x p (send_step m.req_cap_mask x swap_ok s.queue p))
  recv :
      (i : ℕ) (p : RecvPc) (swap_ok : Bool)
      → s.thread i ≡ receiver p
      → Step m s (after_recv_step s i p (recv_step m.req_cap m.req_cap_mask swap_ok s.queue p))

-- A run in which the tail and the number of slots come to less than 2 ^ 63 before each step.
pub data Reach (m : Shm) (s : System) : System → Type 0 where
  here : Reach m s s
  next :
      {t u : System}
      → Reach m s t
      → t.queue.req_tail + m.req_cap < 2 ^ 63
      → Step m t u
      → Reach m s u
