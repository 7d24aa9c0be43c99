-- ===== src/Reference/SlotAgreement.antt =====
-- The response slots: the C functions and the Go functions, which may differ in the futex word of
-- the waiters for a slot, since Go moves it even when nobody waits.
use mathlib.Core.Option.{map}
use mathlib.Core.Bool.{true≢false}
use native.Mathlib.Nat.{mod-lt}
use go_data_reqrep_shared.Base.{
  Bool, ◌&&◌, if◌then◌else◌, ◌%◌, ℕ, zero, suc, ◌+◌, ◌<◌, ◌≤◌, ◌^◌, ◌≡◌, ◌≢◌, refl, sym, ap, true,
  false, Option, none, some, List, length, slice, arith, ℕ_discrete, Bool-cases, inl, inr, leb, not,
  ◌||◌, ◌==◌, bit_and, dec_lt, Run, ok, add32, u32,
}
use go_data_reqrep_shared.Shm.{RespSlot, id_slot, id_gen}
use go_data_reqrep_shared.Slots
use go_data_reqrep_shared.Slots.{
  Table, KillResult, other_errno, no_error, eperm, esrch, slot_at, resp_free, resp_acquired,
  resp_ready,
}
use go_data_reqrep_shared.Response.{
  Reply, replied, stale_slot, resp_too_long, Poll, response, pending, poll_stale, write_response,
  fill_response, poll_response, read_and_release, cancel_request, wake_state, max_int32,
}
use go_data_reqrep_shared.Response.Board.{IsValid}
use go_data_reqrep_shared.Response.Moves.{fine}
use go_data_reqrep_shared.Reference.{Handle}
use go_data_reqrep_shared.Reference.Agreement.{view}
use go_data_reqrep_shared.Reference.CopyBuf.{ensure_copy_buf}
use go_data_reqrep_shared.Reference.Growth.{Roomy, ensure_copy_buf_room}
use go_data_reqrep_shared.Reference.Slots.{
  wake_slot_waiters, slot_release, pid_alive, is_esrch, claim, scan_free, scan_stale, slot_acquire,
  ReplyCode, reply_ok, reply_bad_slot, reply_too_long, reply_stale, fill_slot, reply, GetResult,
  got_response, not_ready, get_bad_slot, get_out_of_memory, get_stale, copy_response, try_get,
  cancel,
}

abbrev pub SameButFutex : Table → Table → Type 0
SameButFutex t t' = t ≡ record t' { slot_futex = t.slot_futex }

abbrev pub go_reply : ReplyCode → Reply
go_reply reply_ok = replied
go_reply reply_bad_slot = stale_slot
go_reply reply_stale = stale_slot
go_reply reply_too_long = resp_too_long

-- Without the UTF-8 mark, which Go has no use for.
abbrev pub go_poll : GetResult → Poll
go_poll (got_response bytes utf8) = response bytes
go_poll not_ready = pending
go_poll get_bad_slot = poll_stale
go_poll get_out_of_memory = pending
go_poll get_stale = poll_stale

wake-Same : (t : Table) → SameButFutex (wake_slot_waiters t) (Slots.wake_slot_waiters t)
unfolding wake_slot_waiters Slots.wake_slot_waiters
wake-Same t = elim (dec_lt 0 t.slot_waiters) [ yes h ↦ ground arith | no h ↦ ground arith ]

release-Same : (t : Table) (i : ℕ) → SameButFutex (slot_release t i) (Slots.release_resp_slot t i)
unfolding slot_release Slots.release_resp_slot
release-Same t i =
    wake-Same (Slots.put_slot t i (record (slot_at t i) { owner_pid = 0; state = resp_free }))

module _ (h : Handle) (t : Table) (id : ℕ) (w : IsValid (view h) t) where
  abbrev slot : RespSlot
  slot = slot_at t (id_slot id)

  fill_same :
      (str : List ℕ)
      → length str ≤ h.resp_data_max
      → fill_slot t (id_slot id) str false ≡ fill_response t (id_slot id) str
  unfolding fill_slot fill_response
  fill_same str short =
      let e : u32 (length str) ≡ length str = omega (arith, w.data_fits) in rw e refl

  -- On a valid table, for a response without the UTF-8 mark, the C reply and the Go write_response
  -- leave the same table and return the same answer, where Go has one error for an unknown slot
  -- and for a stale id.
  reply_agrees :
      (str : List ℕ)
      → ((reply h t id str false).0, go_reply (reply h t id str false).1)
        ≡ write_response (view h) t id str
  unfolding reply write_response
  reply_agrees str = elim (dec_lt h.resp_data_max (length str)) [
    | yes long ↦ ground arith
    | no short ↦ ground (arith, fill_same str (omega arith))
  ]

  abbrev freed : RespSlot
  freed = record slot { state = resp_free; owner_pid = 0; generation = add32 slot.generation 1 }

  abbrev told : Table
  told = wake_state (Slots.put_slot t (id_slot id) freed) (id_slot id) max_int32

  -- On a valid table the C cancel and the Go cancel_request leave the same table, but for the futex
  -- word of the waiters for a slot.
  cancel_agrees : SameButFutex (cancel h t id) (cancel_request (view h) t id)
  unfolding cancel cancel_request
  cancel_agrees =
      elim (Bool-cases (
        leb h.resp_slots (id_slot id)
        || not (slot.generation == id_gen id)
        || not (slot.state == resp_acquired))) [ inl b ↦ rw b refl | inr b ↦ rw b (wake-Same told) ]

  pub record Got (r : Run (Handle × Table × GetResult)) : Type 0 where
    pub handle : Handle
    pub table : Table
    pub result : GetResult
    pub returns : r ≡ ok (handle, table, result)
    pub same_table : SameButFutex table (poll_response (view h) t id).0
    pub same_answer : go_poll result ≡ (poll_response (view h) t id).1

  module _ (known : id_slot id < h.resp_slots) (buf : h.copy_buf_cap < 2 ^ 32) where
    go_reads :
        slot.generation ≡ id_gen id
        → slot.state ≡ resp_ready
        → (poll_response (view h) t id).0 ≡ Slots.release_resp_slot t (id_slot id)
    unfolding poll_response read_and_release
    go_reads same ready = ground arith

    -- The two ways of reading an answered slot.
    read : slot.generation ≡ id_gen id → slot.state ≡ resp_ready → Got (try_get true h t id)
    unfolding try_get copy_response poll_response read_and_release
    read same ready =
        let needed : ℕ = add32 slot.resp_len 1 in
        let short : slot.resp_len ≤ h.resp_data_max = (fine (view h) t id w known).short in
        let r : Roomy h needed (ensure_copy_buf true h needed) =
          ensure_copy_buf_room h needed buf (omega arith) in
        record {
          handle = r.0;
          table = slot_release t (id_slot id);
          result =
              got_response (slice slot.area 0 slot.resp_len) (not (bit_and slot.resp_flags 1 == 0));
          returns = ground (arith, r.1, short);
          same_table = rw (go_reads same ready) (release-Same t (id_slot id));
          same_answer = ground (arith, short);
        }

    -- On a valid table, for the id of a known slot, when realloc succeeds and the receive buffer's
    -- size fits 32 bits, the C try_get returns, hands out what one look of the Go waitResponse
    -- does, and leaves the same table but for the futex word of the waiters for a slot.
    get_agrees : Got (try_get true h t id)
    unfolding try_get poll_response
    get_agrees = elim (ℕ_discrete slot.generation (id_gen id)) [
      | no other ↦ record {
        handle = h;
        table = t;
        result = get_stale;
        returns = ground arith;
        same_table = ground arith;
        same_answer = ground arith;
      }
      | yes same ↦ elim (ℕ_discrete slot.state resp_ready) [
        | no busy ↦ record {
          handle = h;
          table = t;
          result = not_ready;
          returns = ground arith;
          same_table = ground arith;
          same_answer = ground arith;
        }
        | yes ready ↦ read same ready
      ]
    ]

alive_or_not : (k : KillResult) → k ≢ other_errno → not (is_esrch k) ≡ Slots.reachable k
alive_or_not no_error d = refl
alive_or_not eperm d = refl
alive_or_not esrch d = refl
alive_or_not other_errno d = absurd (d refl)

-- Two conditionals with the same test.
if-map {ℓ κ} :
    {A : Type ℓ} {B : Type κ} (f : A → B) (b c : Bool) {x y : Option B} (x' y' : Option A)
    → b ≡ c
    → x ≡ map f x'
    → y ≡ map f y'
    → (if b then x else y) ≡ map f (if c then x' else y')
if-map f true true x' y' e ex ey = ex
if-map f false false x' y' e ex ey = ey
if-map f true false x' y' e ex ey = absurd (true≢false e)
if-map f false true x' y' e ex ey = absurd (true≢false (sym e))

same_test : (b c d e : Bool) → d ≡ e → (b && (not c && not d)) ≡ (b && not (c || e))
same_test false c d e h = refl
same_test true false d e h = ap not h
same_test true true d e h = refl

-- The generations are not at their end, and `kill` fails as it is documented to.
module _ (kill : ℕ → KillResult) (pid : ℕ) (documented : (p : ℕ) → kill p ≢ other_errno)
    (h : Handle) (t : Table) (w : IsValid (view h) t)
    (far : (i : ℕ) → i < h.resp_slots → (slot_at t i).generation < 0xffff_ffff) where
  abbrev no_gen : Table × ℕ × ℕ → Table × ℕ
  no_gen r = (r.0, r.1)

  same_claim : (i : ℕ) → i < h.resp_slots → claim (slot_at t i) pid ≡ Slots.claim (slot_at t i) pid
  unfolding claim Slots.claim Slots.next_generation
  same_claim i known = ground (arith, far i known)

  same_alive : (p : ℕ) → pid_alive kill p ≡ Slots.pid_alive kill p
  unfolding pid_alive Slots.pid_alive
  same_alive p = ap (λ a. if p == 0 then true else a) (alive_or_not (kill p) (documented p))

  at_round-lt : (i : ℕ) → add32 t.resp_hint i % h.resp_slots < h.resp_slots
  at_round-lt i = mod-lt (add32 t.resp_hint i) {m = h.resp_slots} (omega (arith, w.hint_fits))

  same_free :
      (rounds i : ℕ)
      → scan_free kill pid h.resp_slots rounds t.resp_hint i t
        ≡ map no_gen (Slots.scan_free kill pid h.resp_slots rounds t.resp_hint i t)
  unfolding scan_free Slots.scan_free
  same_free zero i = refl
  same_free (suc rounds) i =
      let idx : ℕ = add32 t.resp_hint i % h.resp_slots in
      if-map no_gen ((slot_at t idx).state == resp_free) ((slot_at t idx).state == resp_free) _ _
        refl
        (ap
          (λ c.
            some (record (Slots.put_slot t idx c) { resp_hint = (idx + 1) % h.resp_slots }, idx))
          (same_claim idx (at_round-lt i)))
        (same_free rounds (i + 1))

  same_stale :
      (rounds i : ℕ)
      → i + rounds ≤ h.resp_slots
      → scan_stale kill pid h.resp_slots rounds i t
        ≡ map no_gen (Slots.scan_stale kill pid h.resp_slots rounds i t)
  unfolding scan_stale Slots.scan_stale
  same_stale zero i b = refl
  same_stale (suc rounds) i b =
      let old : RespSlot = slot_at t i in
      if-map no_gen _ _ _ _
        (same_test ((old.state == resp_acquired) || (old.state == resp_ready)) (old.owner_pid == 0)
          (pid_alive kill old.owner_pid) (Slots.pid_alive kill old.owner_pid)
          (same_alive old.owner_pid))
        (ap
          (λ c.
            some (record (Slots.put_slot t i c) { stat_recoveries = add32 t.stat_recoveries 1 }, i))
          (same_claim i (omega arith)))
        (same_stale rounds (i + 1) (omega arith))

  map-or_else :
      (a b : Option (Table × ℕ × ℕ))
      → Slots.or_else (map no_gen a) (map no_gen b) ≡ map no_gen (Slots.or_else a b)
  map-or_else none b = refl
  map-or_else (some r) b = refl

  -- On a valid table whose generations are below 2 ^ 32 - 1, when kill fails with EPERM and ESRCH
  -- only, the C slot_acquire and the Go acquire_resp_slot take the same slot and leave the same
  -- table, or both find none.
  pub acquire_agrees :
      slot_acquire kill pid h t ≡ map no_gen (Slots.acquire_resp_slot kill pid (view h) t)
  unfolding slot_acquire Slots.acquire_resp_slot
  acquire_agrees =
      rw (same_free h.resp_slots 0, same_stale h.resp_slots 0 (omega arith)) (map-or_else _ _)
