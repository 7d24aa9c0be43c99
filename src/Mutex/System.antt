-- ===== src/Mutex/System.antt =====
-- Go and C threads of any number of processes over one mutex, in any order. Processes may die.
use go_data_reqrep_shared.Base.{ℕ, ◌≡◌, Bool, true, false, put}
use go_data_reqrep_shared.Mutex.{Lock}
use go_data_reqrep_shared.Mutex.Go
use go_data_reqrep_shared.Mutex.Peer
use go_data_reqrep_shared.Mutex.Role.{Role, go_role, peer_role}

pub data Thread : Type 0 where
  go : Go.Pc → Thread
  peer : Peer.Pc → Thread

abbrev pub role : Thread → Role
role (go p) = go_role p
role (peer p) = peer_role p

-- `dead` is by process, `thread` by thread.
pub record System : Type 0 where
  pub lock : Lock
  pub dead : ℕ → Bool
  pub thread : ℕ → Thread

-- `pid` gives each thread its process. A thread of a dead process makes no step.
pub data Step (pid : ℕ → ℕ) (s : System) : System → Type 0 where
  go_step :
      (i : ℕ) {p p' : Go.Pc} {m : Lock}
      → s.dead (pid i) ≡ false
      → s.thread i ≡ go p
      → Go.Move s.dead (pid i) s.lock p m p'
      → Step pid s (record s { lock = m; thread = put s.thread i (go p') })
  peer_step :
      (i : ℕ) {p p' : Peer.Pc} {m : Lock}
      → s.dead (pid i) ≡ false
      → s.thread i ≡ peer p
      → Peer.Move s.dead (pid i) s.lock p m p'
      → Step pid s (record s { lock = m; thread = put s.thread i (peer p') })
  death : (p : ℕ) → Step pid s (record s { dead = put s.dead p true })

-- The mutex is free, and no thread has started to lock it.
pub record IsFresh (s : System) : Type 0 where
  pub free : s.lock.word ≡ 0
  pub nobody : (i : ℕ) → role (s.thread i) ≡ Role.outside

pub data Reach (pid : ℕ → ℕ) (s : System) : System → Type 0 where
  here : Reach pid s s
  next : {t u : System} → Reach pid s t → Step pid t u → Reach pid s u
