-- ===== src/Blocking/SendKeeps.antt =====
-- `reqrep_send_wait` and the numbers of waiters.
use go_data_reqrep_shared.Base.{
  ℕ, zero, suc, ◌+◌, ◌%◌, ◌<◌, ◌≡◌, inl, inr, refl, ap, ◌∙◌, subst, Bool, true, false, not, ◌&&◌,
  ◌||◌, ◌==◌, Bool-cases, Option, none, some, List, [], ◌∷◌, Run, ok, fault, ◌>>=◌, arith, add32,
  u32_mod,
}
use go_data_reqrep_shared.Shm.{Queue}
use go_data_reqrep_shared.Slots.{
  Table, KillResult, slot_at, resp_free, resp_acquired, resp_ready, or_else,
}
use go_data_reqrep_shared.Reference.{Handle}
use go_data_reqrep_shared.Reference.Queue.{SendCode, sent, full, too_long, send_locked}
use go_data_reqrep_shared.Reference.Slots.{
  scan_free, scan_stale, slot_acquire, slot_release, wake_slot_waiters, pid_alive,
}
use go_data_reqrep_shared.Reference.Session.{
  File, TrySend, request_id, queue_full, request_too_long, no_slot_free, after_send, send_to,
  try_send, wake_consumers,
}
use go_data_reqrep_shared.Blocking.{Timeout, endless, Round, returned}
use go_data_reqrep_shared.Blocking.Keeps.{AllFair, no_rounds, and_round, Good, blocking_keeps}
use go_data_reqrep_shared.Blocking.Calls.{send_wait, send_up, send_down, send_done, of_run}

-- The table that a scan gives, if any, counts as many waiters.
abbrev Same : ℕ → Option (Table × ℕ) → Type 0
Same n none = Unit
Same n (some (t, i)) = t.slot_waiters ≡ n

module _ (kill : ℕ → KillResult) (pid n : ℕ) where
  scan_free-Same :
      (rounds hint i : ℕ) (t : Table) → Same t.slot_waiters (scan_free kill pid n rounds hint i t)
  unfolding scan_free
  scan_free-Same zero hint i t = tt
  scan_free-Same (suc rounds) hint i t =
      elim (Bool-cases ((slot_at t (add32 hint i % n)).state == resp_free)) [
        | inl e ↦ rw e refl
        | inr e ↦ rw e (scan_free-Same rounds hint (i + 1) t)
      ]

  scan_stale-Same :
      (rounds i : ℕ) (t : Table) → Same t.slot_waiters (scan_stale kill pid n rounds i t)
  unfolding scan_stale
  scan_stale-Same zero i t = tt
  scan_stale-Same (suc rounds) i t =
      let old = slot_at t i in
      elim (Bool-cases (
        ((old.state == resp_acquired) || (old.state == resp_ready))
        && (not (old.owner_pid == 0) && not (pid_alive kill old.owner_pid)))) [
          | inl e ↦ rw e refl
          | inr e ↦ rw e (scan_stale-Same rounds (i + 1) t)
        ]

or_else-Same : (n : ℕ) (a b : Option (Table × ℕ)) → Same n a → Same n b → Same n (or_else a b)
or_else-Same n none b x y = y
or_else-Same n (some r) b x y = x

slot_acquire-Same :
    (kill : ℕ → KillResult) (pid : ℕ) (h : Handle) (t : Table)
    → Same t.slot_waiters (slot_acquire kill pid h t)
unfolding slot_acquire
slot_acquire-Same kill pid h t =
    or_else-Same t.slot_waiters (scan_free kill pid h.resp_slots h.resp_slots t.resp_hint 0 t)
      (scan_stale kill pid h.resp_slots h.resp_slots 0 t)
      (scan_free-Same kill pid h.resp_slots h.resp_slots t.resp_hint 0 t)
      (scan_stale-Same kill pid h.resp_slots h.resp_slots 0 t)

-- `k` threads wait for room in the queue and `l` for a slot.
pub record Counted (k l : ℕ) (f : File) : Type 0 where
  pub senders : f.send_waiters ≡ k
  pub slots : f.table.slot_waiters ≡ l

released_count : (t : Table) (i : ℕ) → (slot_release t i).slot_waiters ≡ t.slot_waiters
unfolding slot_release wake_slot_waiters
released_count t i = ground arith

woken_counts :
    (f : File)
    → ((wake_consumers f).send_waiters ≡ f.send_waiters) × ((wake_consumers f).table ≡ f.table)
unfolding wake_consumers
woken_counts f = (ground arith, ground arith)

module _ (k l : ℕ) where
  after_send-Counted :
      (f : File) (slot gen : ℕ) (q : Queue) (code : SendCode)
      → Counted k l f
      → Counted k l (after_send f slot gen (q, code)).0
  unfolding after_send
  after_send-Counted f slot gen q sent c =
      let (same_count, same_table) = woken_counts (record f { queue = q }) in
      record {
        senders = same_count ∙ c.senders;
        slots = ap (λ (t : Table). t.slot_waiters) same_table ∙ c.slots;
      }
  after_send-Counted f slot gen q full c = record {
    senders = c.senders;
    slots = released_count f.table slot ∙ c.slots;
  }
  after_send-Counted f slot gen q too_long c = record {
    senders = c.senders;
    slots = released_count f.table slot ∙ c.slots;
  }

  abbrev All : Option (File × TrySend) → Type 0
  All none = Unit
  All (some (f, r)) = Counted k l f

  sent_to :
      (f : File) (slot gen : ℕ) (r : Run (Queue × SendCode))
      → Counted k l f
      → All (of_run (r >>= λ x. ok (after_send f slot gen x)))
  sent_to f slot gen fault c = tt
  sent_to f slot gen (ok (q, code)) c = after_send-Counted f slot gen q code c

  send_to-All :
      (h : Handle) (f : File) (str : List ℕ) (utf8 : Bool) (o : Option (Table × ℕ))
      → Counted k l f
      → Same f.table.slot_waiters o
      → All (of_run (send_to h f str utf8 o))
  unfolding send_to
  send_to-All h f str utf8 none c s = c
  send_to-All h f str utf8 (some (t, slot)) c s =
      let gen = (slot_at t slot).generation in
      sent_to (record f { table = t }) slot gen (send_locked h f.queue str utf8 slot gen)
        (record { senders = c.senders; slots = s ∙ c.slots })

  try_send-All :
      (kill : ℕ → KillResult) (pid : ℕ) (h : Handle) (f : File) (str : List ℕ) (utf8 : Bool)
      → Counted k l f
      → All (of_run (try_send kill pid h f str utf8))
  unfolding try_send
  try_send-All kill pid h f str utf8 c =
      send_to-All h f str utf8 (slot_acquire kill pid h f.table) c
        (slot_acquire-Same kill pid h f.table)

-- The other processes count themselves out if they count themselves in; without a deadline no wait
-- times out.
pub record Leaves (limit : Timeout) (o : Round File) : Type 0 where
  pub before_leaves : (k l : ℕ) (f : File) → Counted k l f → Counted k l (o.before f)
  pub meanwhile_leaves : (k l : ℕ) (f : File) → Counted k l f → Counted k l (o.meanwhile f)
  pub asleep_leaves : (k l : ℕ) (f : File) → Counted k l f → Counted k l (o.asleep f)
  pub no_timeout : limit ≡ endless → o.timed_out ≡ false

pub data AllLeave (limit : Timeout) : List (Round File) → Type 0 where
  no_others : AllLeave limit []
  leaving :
      {o : Round File} {os : List (Round File)}
      → Leaves limit o
      → AllLeave limit os
      → AllLeave limit (o ∷ os)

-- How many wait for room and for a slot once the thread is counted after the result.
abbrev more_senders : TrySend → ℕ → ℕ
more_senders no_slot_free k = k
more_senders (request_id id) k = add32 k 1
more_senders queue_full k = add32 k 1
more_senders request_too_long k = add32 k 1

abbrev more_slots : TrySend → ℕ → ℕ
more_slots no_slot_free l = add32 l 1
more_slots (request_id id) l = l
more_slots queue_full l = l
more_slots request_too_long l = l

module _ (k l : ℕ) (few : k < u32_mod) (few_slots : l < u32_mod) where
  count_in :
      (r : TrySend) (f : File)
      → Counted k l f
      → Counted (more_senders r k) (more_slots r l) (send_up r f)
  unfolding send_up
  count_in no_slot_free f c = record { senders = c.senders; slots = ap (λ n. add32 n 1) c.slots }
  count_in (request_id id) f c = record { senders = ap (λ n. add32 n 1) c.senders; slots = c.slots }
  count_in queue_full f c = record { senders = ap (λ n. add32 n 1) c.senders; slots = c.slots }
  count_in request_too_long f c = record {
    senders = ap (λ n. add32 n 1) c.senders;
    slots = c.slots;
  }

  count_out :
      (r : TrySend) (f : File)
      → Counted (more_senders r k) (more_slots r l) f
      → Counted k l (send_down r f)
  unfolding send_down
  count_out no_slot_free f c = record { senders = c.senders; slots = omega (arith, c.slots) }
  count_out (request_id id) f c = record { senders = omega (arith, c.senders); slots = c.slots }
  count_out queue_full f c = record { senders = omega (arith, c.senders); slots = c.slots }
  count_out request_too_long f c = record { senders = omega (arith, c.senders); slots = c.slots }

  module _ (kill : ℕ → KillResult) (pid : ℕ) (h : Handle) (limit : Timeout) (str : List ℕ)
      (utf8 : Bool) where
    abbrev try : File → Option (File × TrySend)
    try f = of_run (try_send kill pid h f str utf8)

    all_fair :
        (os : List (Round File))
        → AllLeave limit os
        → AllFair try send_done send_up send_down limit (Counted k l) os
    all_fair [] p = no_rounds
    all_fair (o ∷ os) (leaving p ps) =
        and_round
          (record {
            before_keeps = p.before_leaves k l;
            early_keeps = λ r f c. count_out r (o.meanwhile (send_up r f)) (
                p.meanwhile_leaves (more_senders r k) (more_slots r l) (send_up r f)
                  (count_in r f c));
            late_keeps = λ r f c. count_out r (o.asleep (o.meanwhile (send_up r f))) (
                p.asleep_leaves (more_senders r k) (more_slots r l) (o.meanwhile (send_up r f)) (
                  p.meanwhile_leaves (more_senders r k) (more_slots r l) (send_up r f)
                    (count_in r f c)));
            no_timeout = p.no_timeout;
          })
          (all_fair os ps)

    tried : (f f' : File) (r : TrySend) → Counted k l f → try f ≡ some (f', r) → Counted k l f'
    tried f f' r c e = subst (All k l) e (try_send-All k l kill pid h f str utf8 c)

    -- When send_wait returns, for any request, timeout and file with fewer than 2 ^ 32 waiters
    -- of each kind, while the other processes leave the numbers of waiters as they find them
    -- and no wait without a deadline times out, as many threads are counted as waiting for
    -- room and for a slot as before, and without a deadline its result is an id or too long.
    pub send_wait_keeps :
        (os : List (Round File)) (f f' : File) (r : TrySend)
        → Counted k l f
        → AllLeave limit os
        → send_wait kill pid h limit str utf8 os f ≡ returned (f', r)
        → Counted k l f' × (limit ≡ endless → send_done r ≡ true)
    unfolding send_wait
    send_wait_keeps os f f' r c ps e =
        subst (Good try send_done send_up send_down limit (Counted k l)) e (
          blocking_keeps try send_done send_up send_down limit (Counted k l) tried os f
            (all_fair os ps) c)
