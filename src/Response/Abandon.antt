-- ===== src/Response/Abandon.antt =====
-- `Query` of reqrep.go gives up on a request: it cancels the slot, and drains a response that was
-- written in the meantime.
use go_data_reqrep_shared.Base.{ℕ, ◌<◌, ◌≤◌, ◌≡◌, ◌≢◌, set, add32, arith, ℕ_discrete, dec_lt}
use go_data_reqrep_shared.Shm.{Shm, RespSlot, id_slot, id_gen}
use go_data_reqrep_shared.Slots.{
  Table, resp_free, resp_acquired, resp_ready, slot_at, wake_slot_waiters, release_resp_slot,
}
use go_data_reqrep_shared.Response.{cancel_request, try_drain_response, abandon}
use go_data_reqrep_shared.Response.Board.{
  gone, board, IsValid, Sound, IsValid-set, board-update, slot_at_self,
}
use go_data_reqrep_shared.Response.Moves.{Moves, inside, fine, release-Moves, no_view}

-- An id without a request loses nothing.
stays :
    (s : Shm) (t : Table) (i gen : ℕ) → IsValid s t → board t i gen ≡ gone → Moves s t t i gen gone
stays s t i gen w e = record {
  boards = λ j h. elim (ℕ_discrete j i) [
    | no ne ↦ ground arith
    | yes ej ↦ elim (ℕ_discrete h gen) [
      | no ne ↦ ground arith
      | yes eh ↦ rw (ej, eh) (ground (arith, e))
    ]
  ];
  valid = w;
}

module _ (s : Shm) (t : Table) (id : ℕ) (w : IsValid s t) where
  abbrev slot : RespSlot
  slot = slot_at t (id_slot id)

  -- What `cancel_request` leaves of an acquired slot.
  abbrev cancelled : RespSlot
  cancelled = record slot { state = resp_free; owner_pid = 0; generation = add32 slot.generation 1 }

  module _ (known : id_slot id < s.resp_slots) where
    cancelled-Sound : Sound s cancelled
    cancelled-Sound = record {
      known = omega arith;
      room = (fine s t id w known).room;
      short = (fine s t id w known).short;
      gen_fits = omega arith;
    }

    module _ (same : slot.generation ≡ id_gen id) where
      module _ (acquired : slot.state ≡ resp_acquired) where
        cancel_slots : (cancel_request s t id).slots ≡ set t.slots (id_slot id) cancelled
        unfolding cancel_request wake_slot_waiters
        cancel_slots = ground arith

        cancel_hint : (cancel_request s t id).resp_hint ≡ t.resp_hint
        unfolding cancel_request wake_slot_waiters
        cancel_hint = ground arith

        cancel-Moves : Moves s t (cancel_request s t id) (id_slot id) (id_gen id) gone
        cancel-Moves = record {
          boards =
              board-update s t (cancel_request s t id) (id_slot id) cancelled cancel_slots
                (inside s t id w known) (id_gen id) gone same (λ h. ground arith);
          valid =
              IsValid-set s t (cancel_request s t id) (id_slot id) cancelled cancel_slots
                (inside s t id w known) w (rw cancel_hint w.hint_fits) cancelled-Sound;
        }

        -- The drain finds another generation.
        drain_late : try_drain_response s (cancel_request s t id) id ≡ cancel_request s t id
        unfolding try_drain_response
        drain_late = ground (
          arith,
          slot_at_self s t (cancel_request s t id) (id_slot id) cancelled cancel_slots
              (inside s t id w known),
          (fine s t id w known).gen_fits,
        )

      cancel_idle : slot.state ≢ resp_acquired → cancel_request s t id ≡ t
      unfolding cancel_request
      cancel_idle h = ground arith

      drain_ready :
          slot.state ≡ resp_ready → try_drain_response s t id ≡ release_resp_slot t (id_slot id)
      unfolding try_drain_response
      drain_ready h = ground arith

      drain_idle : slot.state ≢ resp_ready → try_drain_response s t id ≡ t
      unfolding try_drain_response
      drain_idle h = ground arith

    other_id : slot.generation ≢ id_gen id → abandon s t id ≡ t
    unfolding abandon cancel_request try_drain_response
    other_id h = ground arith

  unknown_id : s.resp_slots ≤ id_slot id → abandon s t id ≡ t
  unfolding abandon cancel_request try_drain_response
  unknown_id h = ground arith

  -- On a valid table, whatever the id stood for, it is gone after the cancel and the drain; no
  -- other id changes, and the table stays valid.
  pub abandon_lem : Moves s t (abandon s t id) (id_slot id) (id_gen id) gone
  unfolding abandon
  abandon_lem = elim (dec_lt (id_slot id) s.resp_slots) [
    | no out ↦
        rw (unknown_id (omega arith))
          (stays s t (id_slot id) (id_gen id) w (no_view s t id w (omega arith)))
    | yes known ↦ elim (ℕ_discrete slot.generation (id_gen id)) [
      | no other ↦ rw (other_id known other) (stays s t (id_slot id) (id_gen id) w (ground arith))
      | yes same ↦ elim (ℕ_discrete slot.state resp_acquired) [
        | yes acquired ↦ rw (drain_late known same acquired) (cancel-Moves known same acquired)
        | no not_acquired ↦
            rw (cancel_idle known same not_acquired) (elim (ℕ_discrete slot.state resp_ready) [
              | yes ready ↦ rw (drain_ready known same ready) (release-Moves s t id w known same)
              | no busy ↦
                  rw (drain_idle known same busy)
                    (stays s t (id_slot id) (id_gen id) w (ground arith))
            ])
      ]
    ]
  ]
