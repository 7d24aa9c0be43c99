-- ===== src/IntMode/Answer.antt =====
-- `reqrep_int_reply` and `reqrep_int_try_get` on one response slot.
use native.Mathlib.Nat.{pow-suc}
use go_data_reqrep_shared.Base.{
  ℕ, zero, suc, ◌/◌, ◌^◌, ◌<◌, ◌≡◌, add64, List, length, slice, set, length-set, copy_at,
  get_or-set_self, slice-copy_at_self, refl, sym, ap, ◌∙◌, arith, true, false, leb, ◌==◌,
}
use go_data_reqrep_shared.Shm.{RespSlot, id_slot, id_gen}
use go_data_reqrep_shared.Slots.{
  Table, slot_at, put_slot, resp_acquired, resp_ready, resp_free, no_resp_slot,
}
use go_data_reqrep_shared.Response.{wake_state}
use go_data_reqrep_shared.Response.Board.{gone, awaiting, board, slot_view, IsValid}
use go_data_reqrep_shared.Reference.{Handle}
use go_data_reqrep_shared.Reference.Agreement.{view}
use go_data_reqrep_shared.Reference.Slots.{slot_release, wake_slot_waiters, ReplyCode, reply_ok}
use go_data_reqrep_shared.IntMode.File.{
  store_bytes, load_bytes, sizeof_int64, int_reply, int_try_get, IntGet, got_int,
}

length-store_bytes : (n v : ℕ) → length (store_bytes n v) ≡ n
unfolding store_bytes
length-store_bytes zero v = refl
length-store_bytes (suc n) v = ap suc (length-store_bytes n (v / 256))

load_bytes-store_bytes : (n v : ℕ) → v < 256 ^ n → load_bytes (store_bytes n v) ≡ v
unfolding store_bytes load_bytes
load_bytes-store_bytes zero v h = omega (arith, h)
load_bytes-store_bytes (suc n) v h =
    let e : load_bytes (store_bytes n (v / 256)) ≡ v / 256 =
      load_bytes-store_bytes n (v / 256) (omega (arith, h, pow-suc 256 n)) in
    omega (arith, e)

awaiting_slot :
    (slot : RespSlot) (gen : ℕ)
    → slot_view slot gen ≡ awaiting
    → (slot.state ≡ resp_acquired) × (slot.generation ≡ gen)
awaiting_slot slot gen e = (ground (arith, e), ground (arith, e))

release_slots :
    (t : Table) (i : ℕ)
    → (slot_release t i).slots
      ≡ set t.slots i (record (slot_at t i) { owner_pid = 0; state = resp_free })
unfolding slot_release wake_slot_waiters
release_slots t i = ground arith

pub release_gone :
    (t : Table) (i gen : ℕ) → i < length t.slots → board (slot_release t i) i gen ≡ gone
release_gone t i gen inside =
    let free : RespSlot = record (slot_at t i) { owner_pid = 0; state = resp_free } in
    let at_i : slot_at (slot_release t i) i ≡ free =
      rw (release_slots t i) (get_or-set_self t.slots i free no_resp_slot inside) in
    let none_there : slot_view free gen ≡ gone = ground arith in rw at_i none_there

module _ (h : Handle) (t : Table) (w : IsValid (view h) t) (eight : h.resp_data_max ≡ 8) (id v : ℕ)
    (known : id_slot id < h.resp_slots) (waits : board t (id_slot id) (id_gen id) ≡ awaiting)
    (fits : v < 2 ^ 64) where
  abbrev i : ℕ
  i = id_slot id

  abbrev filled : RespSlot
  filled = record (slot_at t i) {
    area = copy_at (slot_at t i).area 0 (store_bytes sizeof_int64 v);
    state = resp_ready;
  }

  abbrev replied : Table
  replied = (int_reply h t id v).0

  read_back : load_bytes (slice filled.area 0 sizeof_int64) ≡ v
  read_back =
      let bytes : List ℕ = store_bytes sizeof_int64 v in
      let n : length bytes ≡ 8 = length-store_bytes 8 v in
      let back : slice filled.area 0 (length bytes) ≡ bytes =
        slice-copy_at_self (slot_at t i).area 0 bytes
          (omega (arith, n, eight, (w.sound i known).room)) in
      ap load_bytes (ap (slice filled.area 0) (sym n) ∙ back)
      ∙ load_bytes-store_bytes 8 v (omega (arith, fits))

  in_reach : (leb h.resp_slots i) ≡ false
  in_reach = ground arith

  reply_result : int_reply h t id v ≡ (
    record (wake_state (put_slot t i filled) i 1) { stat_replies = add64 t.stat_replies 1 },
    reply_ok,
  )
  unfolding int_reply
  reply_result =
      let (acquired, same) = awaiting_slot (slot_at t i) (id_gen id) waits in
      let a : ((slot_at t i).state == resp_acquired) ≡ true = ground (arith, acquired) in
      let g : ((slot_at t i).generation == id_gen id) ≡ true = ground (arith, same) in
      rw (in_reach, a, g) refl

  replied_slots : replied.slots ≡ set t.slots i filled
  replied_slots = ap (λ (r : Table × ReplyCode). r.0.slots) reply_result

  replied_slot : slot_at replied i ≡ filled
  replied_slot =
      rw replied_slots (get_or-set_self t.slots i filled no_resp_slot (omega (arith, w.all_slots)))

  taken : int_try_get h replied id ≡ (slot_release replied i, got_int v)
  unfolding int_try_get
  taken =
      let (acquired, same) = awaiting_slot (slot_at t i) (id_gen id) waits in
      let now : slot_at replied i ≡ filled = replied_slot in
      let g : ((slot_at replied i).generation == id_gen id) ≡ true = ground (arith, same, now) in
      let a : ((slot_at replied i).state == resp_ready) ≡ true = ground (arith, now) in
      let back : load_bytes (slice (slot_at replied i).area 0 sizeof_int64) ≡ v =
        ap (λ (r : RespSlot). load_bytes (slice r.area 0 sizeof_int64)) now ∙ read_back in
      rw (in_reach, g, a, back) refl

  freed_board : board (slot_release replied i) i (id_gen id) ≡ gone
  freed_board =
      release_gone replied i (id_gen id)
        (rw (replied_slots, length-set t.slots i filled) (omega (arith, w.all_slots)))

  -- On a valid table with room for 8 bytes in a slot, for the id of a known slot that awaits
  -- its response, and a value below 2 ^ 64, int_reply succeeds, int_try_get then gives that
  -- value back, and afterwards no request of the id is left.
  pub int_answer :
      ((int_reply h t id v).1 ≡ reply_ok)
      × ((int_try_get h (int_reply h t id v).0 id).1 ≡ got_int v)
      × (board (int_try_get h (int_reply h t id v).0 id).0 i (id_gen id) ≡ gone)
  int_answer = (
    ap (λ (r : Table × ReplyCode). r.1) reply_result,
    ap (λ (r : Table × IntGet). r.1) taken,
    ap (λ (r : Table × IntGet). board r.0 i (id_gen id)) taken ∙ freed_board,
  )
