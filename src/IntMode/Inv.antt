-- ===== src/IntMode/Inv.antt =====
-- The invariant of the integer queue, over a position and a stage for each slot that the program
-- does not store.
use go_data_reqrep_shared.Base.{ℕ, ◌+◌, ◌%◌, ◌≤◌, ◌<◌, ◌≡◌, Option, some}
use go_data_reqrep_shared.IntMode.{Item, ReqIntSlot, IntQueue, SendPc, RecvPc}
use go_data_reqrep_shared.IntMode.System.{Thread, resting, sender, receiver, System}

-- What happens at a slot: nothing, sender `i` fills it, it holds a request, receiver `i` empties it.
pub data Stage : Type 0 where
  vacant : Stage
  filling : (i : ℕ) → Stage
  filled : Stage
  emptying : (i : ℕ) → Stage

-- How far `sequence` is ahead of the position.
abbrev pub offset : Stage → ℕ
offset vacant = 0
offset (filling i) = 0
offset filled = 1
offset (emptying i) = 1

-- The thread that has the slot, `i` if there is none.
abbrev pub stage_owner : ℕ → Stage → ℕ
stage_owner i (filling j) = j
stage_owner i (emptying j) = j
stage_owner i g = i

-- Where the position stands to head and tail.
abbrev pub Place : (cap head tail cur : ℕ) → Stage → Type 0
Place cap head tail cur vacant = (tail ≤ cur) × (cur < tail + cap) × (cur < head + cap)
Place cap head tail cur (filling i) = (head ≤ cur) × (cur < tail) × (tail ≤ cur + cap)
Place cap head tail cur filled = (head ≤ cur) × (cur < tail) × (tail ≤ cur + cap)
Place cap head tail cur (emptying i) = (cur < head) × (tail ≤ cur + cap)

-- The item of a slot that holds one.
abbrev pub Holds : Item → Item → Stage → Type 0
Holds item sent vacant = Unit
Holds item sent (filling i) = Unit
Holds item sent filled = item ≡ sent
Holds item sent (emptying i) = item ≡ sent

-- A slot as its thread has it.
abbrev pub Mine : (ℕ → ℕ) → (ℕ → Stage) → ℕ → ℕ → Stage → Type 0
Mine cur stage c pos g = (cur c ≡ pos) × (stage c ≡ g)

module _ (cap : ℕ) (q : IntQueue) (history : ℕ → Item) (cur : ℕ → ℕ) (stage : ℕ → Stage)
    (i : ℕ) where
  abbrev pub SendLocal : Item → SendPc → Type 0
  SendLocal x (SendPc.load_seq pos) = pos ≤ q.req_tail
  SendLocal x (SendPc.claim pos) =
      (pos ≤ q.req_tail) × (q.req_tail ≡ pos → (q.slot (pos % cap)).sequence ≡ pos)
  SendLocal x (SendPc.store pos) = Mine cur stage (pos % cap) pos (filling i) × (history pos ≡ x)
  SendLocal x (SendPc.publish pos) =
      Mine cur stage (pos % cap) pos (filling i)
      × (history pos ≡ x)
      × ((q.slot (pos % cap)).item ≡ x)
  SendLocal x SendPc.load_tail = Unit
  SendLocal x _ = Unit

  abbrev pub RecvLocal : RecvPc → Type 0
  RecvLocal (RecvPc.load_seq pos) = pos ≤ q.req_head
  RecvLocal (RecvPc.claim pos) =
      (pos ≤ q.req_head) × (q.req_head ≡ pos → (q.slot (pos % cap)).sequence ≡ pos + 1)
  RecvLocal (RecvPc.read pos) = Mine cur stage (pos % cap) pos (emptying i)
  RecvLocal (RecvPc.release pos x) = Mine cur stage (pos % cap) pos (emptying i) × (history pos ≡ x)
  RecvLocal RecvPc.load_head = Unit
  RecvLocal _ = Unit

  abbrev pub Local : Thread → Type 0
  Local resting = Unit
  Local (sender x p) = SendLocal x p
  Local (receiver p) = RecvLocal p

-- A slot, with its position and stage.
pub record SlotInv (cap head tail : ℕ) (history : ℕ → Item) (c : ℕ) (slot : ReqIntSlot) (cur : ℕ)
    (stage : Stage) : Type 0 where
  pub own : cur % cap ≡ c
  pub seq : slot.sequence ≡ cur + offset stage
  pub place : Place cap head tail cur stage
  pub holds : Holds slot.item (history cur) stage

pub record QueueInv (cap : ℕ) (q : IntQueue) (history : ℕ → Item) (cur : ℕ → ℕ) (stage : ℕ → Stage)
    : Type 0 where
  pub ordered : q.req_head ≤ q.req_tail
  pub bounded : q.req_tail ≤ q.req_head + cap
  pub slots :
      (c : ℕ) → c < cap → SlotInv cap q.req_head q.req_tail history c (q.slot c) (cur c) (stage c)

pub record Inv (cap : ℕ) (s : System) (cur : ℕ → ℕ) (stage : ℕ → Stage) : Type 0 where
  pub queue : QueueInv cap s.queue s.history cur stage
  pub locals : (i : ℕ) → Local cap s.queue s.history cur stage i (s.thread i)
  pub got : (k : ℕ) (x : Item) → s.received k ≡ some x → (k < s.queue.req_head) × (s.history k ≡ x)

-- The queue as `reqrep_int_init_header` leaves it, with no thread at work.
pub record IsFresh (cap : ℕ) (s : System) : Type 0 where
  pub no_head : s.queue.req_head ≡ 0
  pub no_tail : s.queue.req_tail ≡ 0
  pub numbered : (c : ℕ) → c < cap → (s.queue.slot c).sequence ≡ c
  pub all_rest : (i : ℕ) → s.thread i ≡ resting
  pub none_received : (k : ℕ) → s.received k ≡ Option.none
