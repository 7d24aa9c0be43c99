-- ===== src/Response/Moves.antt =====
-- What the operations on a response slot do to the board of ids, on all their branches.
use go_data_reqrep_shared.Base.{
  ℕ, ◌<◌, ◌≤◌, ◌≡◌, ◌≢◌, ◌⊎◌, inl, inr, refl, ap, ◌∙◌, List, if◌then◌else◌, ◌==◌, length, slice,
  copy_at, arith, ℕ_discrete, dec_lt, u32, length-copy_at, slice-copy_at_self, get_or_out,
}
use go_data_reqrep_shared.Shm.{Shm, RespSlot, id_slot, id_gen}
use go_data_reqrep_shared.Slots.{
  Table, no_resp_slot, resp_free, resp_acquired, resp_ready, slot_at, wake_slot_waiters,
  release_resp_slot,
}
use go_data_reqrep_shared.Response.{
  Reply, replied, stale_slot, resp_too_long, Poll, response, pending, poll_stale, write_response,
  fill_response, read_and_release, poll_response,
}
use go_data_reqrep_shared.Response.Board.{
  View, gone, awaiting, answered, slot_view, board, update, IsValid, Sound, IsValid-set,
  board-update,
}

-- The id alone has changed its view.
pub record Moves (s : Shm) (t t' : Table) (i gen : ℕ) (v : View) : Type 0 where
  pub boards : (j h : ℕ) → board t' j h ≡ update (board t) i gen v j h
  pub valid : IsValid s t'

-- A slot whose generation or state is another does not await a response.
not_awaiting :
    (slot : RespSlot) (gen : ℕ)
    → (slot.state ≢ resp_acquired) ⊎ (slot.generation ≢ gen)
    → slot_view slot gen ≢ awaiting
not_awaiting slot gen (inl h) e = ground arith
not_awaiting slot gen (inr h) e = ground arith

not_answered :
    (slot : RespSlot) (gen : ℕ)
    → slot.state ≢ resp_ready
    → (bytes : List ℕ) → slot_view slot gen ≢ answered bytes
not_answered slot gen h bytes e = ground arith

is_awaiting :
    (slot : RespSlot) (gen : ℕ)
    → slot.state ≡ resp_acquired
    → slot.generation ≡ gen
    → slot_view slot gen ≡ awaiting
is_awaiting slot gen h e = ground arith

module _ (s : Shm) (t : Table) (id : ℕ) (w : IsValid s t) where
  abbrev view : View
  view = board t (id_slot id) (id_gen id)

  pub data Replied (bytes : List ℕ) : Table × Reply → Type 0 where
    accepted :
        {r : Table × Reply} (t' : Table)
        → r ≡ (t', replied)
        → view ≡ awaiting
        → Moves s t t' (id_slot id) (id_gen id) (answered bytes)
        → Replied bytes r
    too_long :
        {r : Table × Reply}
        → r ≡ (t, resp_too_long)
        → s.resp_data_max < length bytes
        → Replied bytes r
    stale : {r : Table × Reply} → r ≡ (t, stale_slot) → view ≢ awaiting → Replied bytes r

  pub data Polled : Table × Poll → Type 0 where
    delivered :
        {r : Table × Poll} (t' : Table) (bytes : List ℕ)
        → r ≡ (t', response bytes)
        → view ≡ answered bytes
        → Moves s t t' (id_slot id) (id_gen id) gone
        → Polled r
    not_yet :
        {r : Table × Poll}
        → r ≡ (t, pending)
        → ((bytes : List ℕ) → view ≢ answered bytes)
        → Polled r
    outdated : {r : Table × Poll} → r ≡ (t, poll_stale) → view ≡ gone → Polled r

  abbrev pub old : RespSlot
  old = slot_at t (id_slot id)

  module _ (known : id_slot id < s.resp_slots) where
    pub inside : id_slot id < length t.slots
    inside = omega (arith, w.all_slots)

    pub fine : Sound s old
    fine = w.sound (id_slot id) known

    module _ (bytes : List ℕ) (acquired : old.state ≡ resp_acquired)
        (same : old.generation ≡ id_gen id) (short : length bytes ≤ s.resp_data_max) where
      abbrev new : RespSlot
      new = record old {
        area = copy_at old.area 0 bytes;
        resp_len = u32 (length bytes);
        resp_flags = 0;
        state = resp_ready;
      }

      len_fits : new.resp_len ≡ length bytes
      len_fits = omega (arith, w.data_fits)

      read_back : slice new.area 0 new.resp_len ≡ bytes
      read_back = rw len_fits (slice-copy_at_self old.area 0 bytes (omega (arith, fine.room)))

      new-Sound : Sound s new
      new-Sound = record {
        known = omega arith;
        room = length-copy_at old.area 0 bytes ∙ fine.room;
        short = omega (arith, len_fits);
        gen_fits = fine.gen_fits;
      }

      new_view : (h : ℕ) → slot_view new h ≡ (if h == id_gen id then answered bytes else gone)
      new_view h = ground (arith, read_back)

      fill-Moves :
          Moves s t (fill_response t (id_slot id) bytes) (id_slot id) (id_gen id) (answered bytes)
      unfolding fill_response
      fill-Moves = record {
        boards =
            board-update s t (fill_response t (id_slot id) bytes) (id_slot id) new refl inside
              (id_gen id) (answered bytes) same new_view;
        valid =
            IsValid-set s t (fill_response t (id_slot id) bytes) (id_slot id) new refl inside w
              w.hint_fits new-Sound;
      }

  -- No slot, no request.
  pub no_view : s.resp_slots ≤ id_slot id → view ≡ gone
  no_view h =
      ap (λ (r : RespSlot). slot_view r (id_gen id))
        (get_or_out t.slots (id_slot id) no_resp_slot (omega (arith, h, w.all_slots)))
      ∙ ground arith

  out_of_range : s.resp_slots ≤ id_slot id → view ≢ awaiting
  out_of_range h e = let g : view ≡ gone = no_view h in cc

  -- On a valid table write_response makes the id answered with these bytes if it was awaiting, and
  -- changes no other id; otherwise it leaves the table as it is and reports a stale id, or a
  -- response longer than a slot. The table stays valid.
  pub write_response_cases : (bytes : List ℕ) → Replied bytes (write_response s t id bytes)
  unfolding write_response
  write_response_cases bytes = elim (dec_lt (id_slot id) s.resp_slots) [
    | no out ↦ stale (ground arith) (out_of_range (omega arith))
    | yes known ↦ elim (dec_lt s.resp_data_max (length bytes)) [
      | yes long ↦ too_long (ground arith) long
      | no short ↦ elim (ℕ_discrete old.state resp_acquired) [
        | no free ↦ stale (ground arith) (not_awaiting old (id_gen id) (inl free))
        | yes acquired ↦ elim (ℕ_discrete old.generation (id_gen id)) [
          | no other ↦ stale (ground arith) (not_awaiting old (id_gen id) (inr other))
          | yes same ↦
              accepted (fill_response t (id_slot id) bytes) (ground arith)
                (is_awaiting old (id_gen id) acquired same)
                (fill-Moves known bytes acquired same (omega arith))
        ]
      ]
    ]
  ]

  -- A slot given back: no id has a request there.
  -- A slot given back: no id has a request there.
  module _ (known : id_slot id < s.resp_slots) (same : old.generation ≡ id_gen id) where
    abbrev freed : RespSlot
    freed = record old { owner_pid = 0; state = resp_free }

    freed-Sound : Sound s freed
    freed-Sound = record {
      known = omega arith;
      room = (fine known).room;
      short = (fine known).short;
      gen_fits = (fine known).gen_fits;
    }

    pub release-Moves : Moves s t (release_resp_slot t (id_slot id)) (id_slot id) (id_gen id) gone
    unfolding release_resp_slot wake_slot_waiters
    release-Moves = record {
      boards =
          board-update s t (release_resp_slot t (id_slot id)) (id_slot id) freed refl (inside known)
            (id_gen id) gone same (λ h. ground arith);
      valid =
          IsValid-set s t (release_resp_slot t (id_slot id)) (id_slot id) freed refl (inside known)
            w w.hint_fits freed-Sound;
    }

  -- On a valid table, for the id of a known slot, poll_response hands out the bytes of an answered
  -- id, which is gone then while no other id changes; otherwise it leaves the table as it is and
  -- reports that the id is gone or that there is no response. The table stays valid.
  pub poll_response_cases : id_slot id < s.resp_slots → Polled (poll_response s t id)
  unfolding poll_response read_and_release
  poll_response_cases known = elim (ℕ_discrete old.generation (id_gen id)) [
    | no other ↦ outdated (ground arith) (ground arith)
    | yes same ↦ elim (ℕ_discrete old.state resp_ready) [
      | no busy ↦ not_yet (ground arith) (not_answered old (id_gen id) busy)
      | yes ready ↦
          delivered (release_resp_slot t (id_slot id)) (slice old.area 0 old.resp_len)
            (ground (arith, (fine known).short)) (ground arith) (release-Moves known same)
    ]
  ]
