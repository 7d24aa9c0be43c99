-- ===== src/Blocking/Abandon.antt =====
-- What `reqrep_int_request` leaves of a request that got no response.
use go_data_reqrep_shared.Base.{
  ℕ, ◌<◌, ◌≡◌, ◌≢◌, ◌⊎◌, inl, inr, refl, ap, ◌∙◌, true, false, ◌==◌, leb, Bool-cases, arith, add32,
  slice, set, length, length-set, get_or-set_self,
}
use go_data_reqrep_shared.Shm.{RespSlot, id_slot, id_gen}
use go_data_reqrep_shared.Slots.{Table, slot_at, resp_free, resp_acquired, resp_ready, no_resp_slot}
use go_data_reqrep_shared.Response.Board.{gone, board, slot_view, IsValid}
use go_data_reqrep_shared.Reference.{Handle}
use go_data_reqrep_shared.Reference.Agreement.{view}
use go_data_reqrep_shared.Reference.Slots.{cancel, slot_release, wake_slot_waiters}
use go_data_reqrep_shared.IntMode.File.{
  int_try_get, IntGet, got_int, int_stale, int_not_ready, load_bytes, sizeof_int64,
}
use go_data_reqrep_shared.IntMode.Answer.{release_gone}
use go_data_reqrep_shared.Blocking.IntCalls.{int_abandon}

-- A slot whose request is not awaiting its response is free of it after a get.
module _ (h : Handle) (id : ℕ) (known : id_slot id < h.resp_slots) (t : Table)
    (inside : id_slot id < length t.slots) where
  abbrev held : RespSlot
  held = slot_at t (id_slot id)

  abbrev left : Table
  left = (int_try_get h t id).0

  reached : leb h.resp_slots (id_slot id) ≡ false
  reached = ground arith

  left_stale : (held.generation == id_gen id) ≡ false → int_try_get h t id ≡ (t, int_stale)
  unfolding int_try_get
  left_stale g = rw (reached, g) refl

  left_ready :
      (held.generation == id_gen id) ≡ true
      → (held.state == resp_ready) ≡ true
      → int_try_get h t id
        ≡ (slot_release t (id_slot id), got_int (load_bytes (slice held.area 0 sizeof_int64)))
  unfolding int_try_get
  left_ready g r = rw (reached, g, r) refl

  left_waiting :
      (held.generation == id_gen id) ≡ true
      → (held.state == resp_ready) ≡ false
      → int_try_get h t id ≡ (t, int_not_ready)
  unfolding int_try_get
  left_waiting g r = rw (reached, g, r) refl

  shown :
      {t' : Table} {r : IntGet}
      → int_try_get h t id ≡ (t', r)
      → board t' (id_slot id) (id_gen id) ≡ gone
      → board left (id_slot id) (id_gen id) ≡ gone
  shown e b = ap (λ (p : Table × IntGet). board p.0 (id_slot id) (id_gen id)) e ∙ b

  drain_gone :
      ((held.generation == id_gen id) ≡ false) ⊎ (held.state ≢ resp_acquired)
      → board left (id_slot id) (id_gen id) ≡ gone
  drain_gone o = elim (Bool-cases (held.generation == id_gen id)) [
    | inr g ↦
        let z : slot_view held (id_gen id) ≡ gone = ground (arith, g) in shown (left_stale g) z
    | inl g ↦ elim (Bool-cases (held.state == resp_ready)) [
      | inl r ↦ shown (left_ready g r) (release_gone t (id_slot id) (id_gen id) inside)
      | inr r ↦ elim o [
        | inl g' ↦ absurd (cc (g, g'))
        | inr a ↦
            let z : slot_view held (id_gen id) ≡ gone = ground (arith, g, r, a) in
            shown (left_waiting g r) z
      ]
    ]
  ]

module _ (h : Handle) (t : Table) (w : IsValid (view h) t) (id : ℕ)
    (known : id_slot id < h.resp_slots) where
  abbrev i : ℕ
  i = id_slot id

  abbrev slot : RespSlot
  slot = slot_at t i

  abbrev freed : RespSlot
  freed = record slot { state = resp_free; owner_pid = 0; generation = add32 slot.generation 1 }

  inside : i < length t.slots
  inside = omega (arith, w.all_slots)

  in_reach : leb h.resp_slots i ≡ false
  in_reach = ground arith

  cancelled_slots :
      (slot.generation == id_gen id) ≡ true
      → (slot.state == resp_acquired) ≡ true
      → (cancel h t id).slots ≡ set t.slots i freed
  unfolding cancel wake_slot_waiters
  cancelled_slots g a = rw (in_reach, g, a) (ground arith)

  cancelled :
      (slot.generation == id_gen id) ≡ true
      → (slot.state == resp_acquired) ≡ true
      → board (int_abandon h id t) i (id_gen id) ≡ gone
  unfolding int_abandon
  cancelled g a =
      let stored = cancelled_slots g a in
      let at_i : slot_at (cancel h t id) i ≡ freed =
        rw stored (get_or-set_self t.slots i freed no_resp_slot inside) in
      let free_now : freed.state ≢ resp_acquired = λ e. omega (arith, e) in
      drain_gone h id known (cancel h t id) (rw (stored, length-set t.slots i freed) inside)
        (inr (rw at_i free_now))

  not_cancelled :
      ((slot.generation == id_gen id) ≡ false) ⊎ ((slot.state == resp_acquired) ≡ false)
      → cancel h t id ≡ t
  unfolding cancel
  not_cancelled (inl g) = rw (in_reach, g) refl
  not_cancelled (inr a) = elim (Bool-cases (slot.generation == id_gen id)) [
    | inl g ↦ rw (in_reach, g, a) refl
    | inr g ↦ rw (in_reach, g) refl
  ]

  kept :
      cancel h t id ≡ t
      → board (int_try_get h t id).0 i (id_gen id) ≡ gone
      → board (int_abandon h id t) i (id_gen id) ≡ gone
  unfolding int_abandon
  kept e b = ap (λ k. board (int_try_get h k id).0 i (id_gen id)) e ∙ b

  -- On a valid table, whatever the id of a known slot stood for, the cancel and the get at the
  -- end of a failed int_request leave no request of that id.
  pub int_abandon_lem : board (int_abandon h id t) (id_slot id) (id_gen id) ≡ gone
  unfolding int_abandon
  int_abandon_lem = elim (Bool-cases (slot.generation == id_gen id)) [
    | inr g ↦ kept (not_cancelled (inl g)) (drain_gone h id known t inside (inl g))
    | inl g ↦ elim (Bool-cases (slot.state == resp_acquired)) [
      | inr a ↦
          kept (not_cancelled (inr a))
            (drain_gone h id known t inside (inr (λ e. ground (arith, a, e))))
      | inl a ↦ cancelled g a
    ]
  ]
