-- ===== src/Mutex/Role.antt =====
-- What a step of either program does to the mutex, with the rest left out.
use go_data_reqrep_shared.Base.{ℕ, ◌≡◌, ◌≢◌, refl, Bool, true}
use go_data_reqrep_shared.Mutex.{Lock, lock_value, holder}
use go_data_reqrep_shared.Mutex.Go
use go_data_reqrep_shared.Mutex.Peer

-- Without the mutex, in possession of it, or about to free the word `val` of a process that is gone.
pub data Role : Type 0 where
  outside inside : Role
  freeing : (val : ℕ) → Role

abbrev pub go_role : Go.Pc → Role
go_role Go.critical = inside
go_role (Go.counting val n last) = freeing val
go_role (Go.recovering val) = freeing val
go_role Go.idle = outside
go_role _ = outside

abbrev pub peer_role : Peer.Pc → Role
peer_role Peer.critical = inside
peer_role (Peer.recovering val) = freeing val
peer_role Peer.idle = outside
peer_role _ = outside

-- The word before and after, and the role before and after.
pub data Change (dead : ℕ → Bool) (pid w w' : ℕ) (r r' : Role) : Type 0 where
  enters : w ≡ 0 → w' ≡ lock_value pid → r ≡ outside → r' ≡ inside → Change dead pid w w' r r'
  exits : w' ≡ 0 → r ≡ inside → r' ≡ outside → Change dead pid w w' r r'
  suspects :
      (val : ℕ)
      → w' ≡ w
      → dead (holder val) ≡ true
      → r ≢ inside
      → r' ≡ freeing val
      → Change dead pid w w' r r'
  keeps : w' ≡ w → r ≢ inside → r ≡ r' → Change dead pid w w' r r'
  frees : (val : ℕ) → w ≡ val → w' ≡ 0 → r ≡ freeing val → r' ≡ outside → Change dead pid w w' r r'
  stays : w' ≡ w → r ≢ inside → r' ≡ outside → Change dead pid w w' r r'

pub go-Change :
    {dead : ℕ → Bool} {pid : ℕ} {m m' : Lock} {p p' : Go.Pc}
    → Go.Move dead pid m p m' p'
    → Change dead pid m.word m'.word (go_role p) (go_role p')
go-Change (Go.spin_win h e) = enters e refl refl refl
go-Change (Go.retry_win e) = enters e refl refl refl
go-Change Go.unlock = exits refl refl refl
go-Change (Go.not_found {val} pos d) = suspects val refl d (λ e. cc) refl
go-Change (Go.recover {val} h) = keeps refl (λ e. cc) refl
go-Change (Go.recover_win {val} e) = frees val e refl refl refl
go-Change Go.start = stays refl (λ e. cc) refl
go-Change mv = stays refl (λ e. cc) refl

pub peer-Change :
    {dead : ℕ → Bool} {pid : ℕ} {m m' : Lock} {p p' : Peer.Pc}
    → Peer.Move dead pid m p m' p'
    → Change dead pid m.word m'.word (peer_role p) (peer_role p')
peer-Change (Peer.spin_win e) = enters e refl refl refl
peer-Change Peer.unlock = exits refl refl refl
peer-Change (Peer.not_found {val} pos d) = suspects val refl d (λ e. cc) refl
peer-Change (Peer.recover_win {val} e) = frees val e refl refl refl
peer-Change Peer.start = stays refl (λ e. cc) refl
peer-Change mv = stays refl (λ e. cc) refl
