-- ===== src/Mutex/Exclusion.antt =====
-- Mutual exclusion.
use mathlib.Core.Path.{fun_ext}
use go_data_reqrep_shared.Base.{
  put, ℕ, ◌+◌, ◌^◌, ◌<◌, ◌≡◌, ◌≢◌, sym, ap, ◌∙◌, Bool, true, false, bit_and, bit_or_low,
  bit_and_mask, arith, ℕ_discrete,
}
use go_data_reqrep_shared.Mutex.{lock_value, holder, pid_mask}
use go_data_reqrep_shared.Mutex.Role.{
  Role, inside, freeing, Change, enters, exits, suspects, keeps, frees, stays, go-Change,
  peer-Change,
}
use go_data_reqrep_shared.Mutex.System.{
  Thread, go, peer, role, System, Step, go_step, peer_step, death, IsFresh, Reach, here, next,
}

pub lock_value_lem : (pid : ℕ) → pid < 2 ^ 31 → lock_value pid ≡ 2 ^ 31 + pid
unfolding lock_value
lock_value_lem pid h = omega (
  arith,
  bit_or_low 31 1 (bit_and pid pid_mask) (omega (arith, bit_and_mask 31 pid)),
  bit_and_mask 31 pid,
)

-- A lock value names its process.
pub holder-lock_value : (pid : ℕ) → pid < 2 ^ 31 → holder (lock_value pid) ≡ pid
holder-lock_value pid h = omega (arith, lock_value_lem pid h, bit_and_mask 31 (lock_value pid))

-- Of the threads whose process is alive at most one is inside, the word is its, and a word is
-- freed only for a process that is dead.
pub record Inv (pid : ℕ → ℕ) (word : ℕ) (dead : ℕ → Bool) (r : ℕ → Role) : Type 0 where
  pub held : (i : ℕ) → dead (pid i) ≡ false → r i ≡ inside → word ≡ lock_value (pid i)
  pub unique :
      (i j : ℕ) → dead (pid i) ≡ false → dead (pid j) ≡ false → r i ≡ inside → r j ≡ inside → i ≡ j
  pub doubted : (i val : ℕ) → r i ≡ freeing val → dead (holder val) ≡ true

module _ {pid : ℕ → ℕ} (fits : (i : ℕ) → pid i < 2 ^ 31) where
  module _ {w : ℕ} {dead : ℕ → Bool} {r : ℕ → Role} (i : ℕ) (live : dead (pid i) ≡ false)
      (inv : Inv pid w dead r) where
    -- Where the word changes, no other thread of a live process is inside.
    abbrev Alone : Type 0
    Alone = (j : ℕ) → i ≢ j → dead (pid j) ≡ false → r j ≢ inside

    alone_free : w ≡ 0 → Alone
    alone_free e j ne l h = omega (arith, inv.held j l h, lock_value_lem (pid j) (fits j))

    alone_inside : r i ≡ inside → Alone
    alone_inside e j ne l h = ne (inv.unique i j live l e h)

    alone_freeing : (val : ℕ) → w ≡ val → r i ≡ freeing val → Alone
    alone_freeing val e f j ne l h =
        let d : dead (holder val) ≡ true = inv.doubted i val f in
        let q : holder val ≡ pid j =
          ap holder (sym e ∙ inv.held j l h) ∙ holder-lock_value (pid j) (fits j) in
        let d' : dead (pid j) ≡ true = rw q at d in cc

    module _ {w' : ℕ} (r' : Role) where
      -- The other threads are outside, and this one is not inside unless the word is its.
      changed :
          Alone
          → (r' ≡ inside → w' ≡ lock_value (pid i))
          → ((val : ℕ) → r' ≡ freeing val → dead (holder val) ≡ true)
          → Inv pid w' dead (put r i r')
      changed none mine doubts = record {
        held = λ j l h. elim (ℕ_discrete i j) [
          | yes e ↦ rw (← e) (mine (ground (arith, e)))
          | no ne ↦ absurd (none j ne l (ground (arith, ne)))
        ];
        unique = λ j k l l' h h'. elim (ℕ_discrete i j) [
          | no ne ↦ absurd (none j ne l (ground (arith, ne)))
          | yes e ↦ elim (ℕ_discrete i k) [
            | no ne ↦ absurd (none k ne l' (ground (arith, ne)))
            | yes e' ↦ sym e ∙ e'
          ]
        ];
        doubted = λ j val h. elim (ℕ_discrete i j) [
          | yes e ↦ doubts val (ground (arith, e))
          | no ne ↦ inv.doubted j val (ground (arith, ne))
        ];
      }

      -- The word stays, and this thread is not inside before or after.
      same :
          w' ≡ w
          → r' ≢ inside
          → ((val : ℕ) → r' ≡ freeing val → dead (holder val) ≡ true)
          → Inv pid w' dead (put r i r')
      same e out doubts = record {
        held = λ j l h. elim (ℕ_discrete i j) [
          | yes q ↦ absurd (out (ground (arith, q)))
          | no ne ↦ e ∙ inv.held j l (ground (arith, ne))
        ];
        unique = λ j k l l' h h'. elim (ℕ_discrete i j) [
          | yes q ↦ absurd (out (ground (arith, q)))
          | no ne ↦ elim (ℕ_discrete i k) [
            | yes q ↦ absurd (out (ground (arith, q)))
            | no ne' ↦ inv.unique j k l l' (ground (arith, ne)) (ground (arith, ne'))
          ]
        ];
        doubted = λ j val h. elim (ℕ_discrete i j) [
          | yes q ↦ doubts val (ground (arith, q))
          | no ne ↦ inv.doubted j val (ground (arith, ne))
        ];
      }

      Change-Inv : Change dead (pid i) w w' (r i) r' → Inv pid w' dead (put r i r')
      Change-Inv (enters e e' q q') = changed (alone_free e) (λ h. e') (λ val h. cc)
      Change-Inv (exits e q q') = changed (alone_inside q) (λ h. cc) (λ val h. cc)
      Change-Inv (suspects val e d q q') =
          same e (λ h. cc)
            (λ v h.
              let z : freeing val ≡ freeing v = sym q' ∙ h in let y : val ≡ v = cc in rw y at d)
      Change-Inv (keeps e q q') = same e (λ h. q (q' ∙ h)) (λ v h. inv.doubted i v (q' ∙ h))
      Change-Inv (frees val e e' q q') = changed (alone_freeing val e q) (λ h. cc) (λ v h. cc)
      Change-Inv (stays e q q') = same e (λ h. cc) (λ v h. cc)

  SystemInv : System → Type 0
  SystemInv s = Inv pid s.lock.word s.dead (λ i. role (s.thread i))

  roles-put :
      (f : ℕ → Thread) (i : ℕ) (t : Thread)
      → put (λ j. role (f j)) i (role t) ≡ (λ j. role (put f i t j))
  roles-put f i t =
      fun_ext
        (λ j. elim (ℕ_discrete i j) [ yes e ↦ ground (arith, e) | no ne ↦ ground (arith, ne) ])

  Step-Inv : {s t : System} → Step pid s t → SystemInv s → SystemInv t
  unfolding SystemInv
  Step-Inv {s} (go_step i {p} {p'} {m} live at mv) inv =
      rw (← roles-put s.thread i (go p'))
        (Change-Inv i live inv (role (go p')) (rw at (go-Change mv)))
  Step-Inv {s} (peer_step i {p} {p'} {m} live at mv) inv =
      rw (← roles-put s.thread i (peer p'))
        (Change-Inv i live inv (role (peer p')) (rw at (peer-Change mv)))
  Step-Inv {s} (death p) inv = record {
    held = λ i l h. inv.held i (still p (pid i) l) h;
    unique = λ i j l l' h h'. inv.unique i j (still p (pid i) l) (still p (pid j) l') h h';
    doubted = λ i val h. ground (arith, inv.doubted i val h);
  }
    where
      still : (p q : ℕ) → put s.dead p true q ≡ false → s.dead q ≡ false
      still p q h = ground (arith, h)

  Reach-Inv : {s t : System} → IsFresh s → Reach pid s t → SystemInv t
  unfolding SystemInv
  Reach-Inv f here = record {
    held = λ i l h. let o = f.nobody i in cc;
    unique = λ i j l l' h h'. let o = f.nobody i in cc;
    doubted = λ i val h. let o = f.nobody i in cc;
  }
  Reach-Inv f (next r st) = Step-Inv st (Reach-Inv f r)

  -- With process numbers below 2 ^ 31, from a free mutex that no thread has, in any run in which
  -- `kill` denies only processes that are dead, at most one thread of a live process is between its
  -- lock and its unlock, and the word is then the lock value of its process.
  pub mutual_exclusion :
      {s t : System}
      → IsFresh s
      → Reach pid s t
      → (i j : ℕ) → t.dead (pid i) ≡ false
      → t.dead (pid j) ≡ false
      → role (t.thread i) ≡ inside
      → role (t.thread j) ≡ inside
      → (i ≡ j) × (t.lock.word ≡ lock_value (pid i))
  unfolding SystemInv
  mutual_exclusion f r i j l l' h h' =
      let inv = Reach-Inv f r in (inv.unique i j l l' h h', inv.held i l h)
