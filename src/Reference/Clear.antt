-- ===== src/Reference/Clear.antt =====
-- `clear` ends every request in flight.
use go_data_reqrep_shared.Base.{
  List, ℕ, zero, suc, ◌+◌, ◌<◌, ◌≤◌, ◌≡◌, ◌⊎◌, inl, inr, refl, sym, ap, ◌∙◌, true, false, arith,
  ℕ_discrete, Bool-cases, set, add32, length,
}
use go_data_reqrep_shared.Shm.{Shm, RespSlot}
use go_data_reqrep_shared.Slots.{Table, resp_free, slot_at}
use go_data_reqrep_shared.Response.Board.{
  gone, board, IsValid, Sound, IsValid-set, slot_at_self, slot_at_other,
}
use go_data_reqrep_shared.Reference.{Handle}
use go_data_reqrep_shared.Reference.Agreement.{view}
use go_data_reqrep_shared.Reference.Slots.{wake_slot_waiters}
use go_data_reqrep_shared.Reference.Session.{
  File, in_flight, clear_slot, clear_from, clear, size, wake_consumers, wake_producers,
}

abbrev IsFree : Table → ℕ → Type 0
IsFree t j = (slot_at t j).state ≡ resp_free

module _ (s : Shm) (t : Table) (w : IsValid s t) (i : ℕ) (known : i < s.resp_slots) where
  abbrev slot : RespSlot
  slot = slot_at t i

  abbrev freed : RespSlot
  freed = record slot { state = resp_free; owner_pid = 0; generation = add32 slot.generation 1 }

  freed-Sound : Sound s freed
  freed-Sound = record {
    known = omega arith;
    room = (w.sound i known).room;
    short = (w.sound i known).short;
    gen_fits = omega arith;
  }

  inside : i < length t.slots
  inside = omega (arith, w.all_slots)

  clear_slot_slots : in_flight slot ≡ true → (clear_slot t i).slots ≡ set t.slots i freed
  unfolding clear_slot
  clear_slot_slots b = ground (arith, b)

  clear_slot_hint : (clear_slot t i).resp_hint ≡ t.resp_hint
  unfolding clear_slot
  clear_slot_hint = ground arith

  clear_slot_idle : in_flight slot ≡ false → clear_slot t i ≡ t
  unfolding clear_slot
  clear_slot_idle b = rw b refl

  clear_slot-IsValid : IsValid s (clear_slot t i)
  clear_slot-IsValid = elim (Bool-cases (in_flight slot)) [
    | inl b ↦
        IsValid-set s t (clear_slot t i) i freed (clear_slot_slots b) inside w
          (rw clear_slot_hint w.hint_fits) freed-Sound
    | inr b ↦ rw (clear_slot_idle b) w
  ]

  clear_slot-IsFree : (j : ℕ) → IsFree t j ⊎ (i ≡ j) → IsFree (clear_slot t i) j
  clear_slot-IsFree j h = elim (Bool-cases (in_flight slot)) [
    | inl b ↦ elim (ℕ_discrete i j) [
      | yes e ↦
          ap (λ (r : RespSlot). r.state)
            (ap (slot_at (clear_slot t i)) (sym e)
              ∙ slot_at_self s t (clear_slot t i) i freed (clear_slot_slots b) inside)
      | no ne ↦ elim h [
        | inl free ↦
            ap (λ (r : RespSlot). r.state)
              (slot_at_other s t (clear_slot t i) i freed (clear_slot_slots b) inside j ne)
            ∙ free
        | inr e ↦ absurd (ne e)
      ]
    ]
    | inr b ↦ rw (clear_slot_idle b) (elim h [
      | inl free ↦ free
      | inr e ↦ rw (sym e) (ground (arith, b, (w.sound i known).known))
    ])
  ]

module _ (s : Shm) where
  clear_from-IsValid :
      (rounds i : ℕ) (t : Table)
      → i + rounds ≤ s.resp_slots
      → IsValid s t
      → IsValid s (clear_from rounds i t)
  unfolding clear_from
  clear_from-IsValid zero i t h w = w
  clear_from-IsValid (suc rounds) i t h w =
      clear_from-IsValid rounds (i + 1) (clear_slot t i) (omega arith)
        (clear_slot-IsValid s t w i (omega arith))

  clear_from-IsFree :
      (rounds i : ℕ) (t : Table) (j : ℕ)
      → i + rounds ≤ s.resp_slots
      → IsValid s t
      → IsFree t j ⊎ ((i ≤ j) × (j < i + rounds))
      → IsFree (clear_from rounds i t) j
  unfolding clear_from
  clear_from-IsFree zero i t j h w (inl free) = free
  clear_from-IsFree zero i t j h w (inr b) = absurd (omega (arith, b))
  clear_from-IsFree (suc rounds) i t j h w o =
      let w' : IsValid s (clear_slot t i) = clear_slot-IsValid s t w i (omega arith) in
      clear_from-IsFree rounds (i + 1) (clear_slot t i) j (omega arith) w' (elim o [
        | inl free ↦ inl (clear_slot-IsFree s t w i (omega arith) j (inl free))
        | inr b ↦ elim (ℕ_discrete i j) [
          | yes e ↦ inl (clear_slot-IsFree s t w i (omega arith) j (inr e))
          | no ne ↦ inr (omega (arith, b), omega (arith, b))
        ]
      ])

-- What is left after `clear`.
pub record Cleared (h : Handle) (f : File) : Type 0 where
  pub valid : IsValid (view h) f.table
  pub no_requests : (j gen : ℕ) → j < h.resp_slots → board f.table j gen ≡ gone
  pub none_waiting : size f ≡ 0

-- The wake calls leave the slots as they are.
clear_table :
    (h : Handle) (f : File)
    → (clear h f).table ≡ wake_slot_waiters (clear_from h.resp_slots 0 f.table)
unfolding clear wake_consumers wake_producers
clear_table h f = ground arith

woken_slots : (t : Table) (j : ℕ) → slot_at (wake_slot_waiters t) j ≡ slot_at t j
unfolding wake_slot_waiters
woken_slots t j = ground arith

woken_rest :
    (t : Table)
    → ((wake_slot_waiters t).slots ≡ t.slots) × ((wake_slot_waiters t).resp_hint ≡ t.resp_hint)
unfolding wake_slot_waiters
woken_rest t = (ground arith, ground arith)

woken-IsValid : (s : Shm) (t : Table) → IsValid s t → IsValid s (wake_slot_waiters t)
woken-IsValid s t w = record {
  all_slots = ap (λ (l : List RespSlot). length l) (woken_rest t).0 ∙ w.all_slots;
  hint_fits = rw (woken_rest t).1 w.hint_fits;
  few_slots = w.few_slots;
  data_fits = w.data_fits;
  sound = λ i h. rw (woken_slots t i) (w.sound i h);
}

size-clear : (h : Handle) (f : File) → size (clear h f) ≡ 0
unfolding clear wake_consumers wake_producers size
size-clear h f = ground arith

-- The table after the loop and the wake call.
pub cleared_table :
    (h : Handle) (t : Table)
    → IsValid (view h) t
    → IsValid (view h) (wake_slot_waiters (clear_from h.resp_slots 0 t))
      × ((j gen : ℕ)
          → j < h.resp_slots
          → board (wake_slot_waiters (clear_from h.resp_slots 0 t)) j gen ≡ gone)
cleared_table h t w =
    let t' : Table = clear_from h.resp_slots 0 t in
    (
      woken-IsValid (view h) t' (clear_from-IsValid (view h) h.resp_slots 0 t (omega arith) w),
      λ j gen known.
          let free : IsFree t' j =
            clear_from-IsFree (view h) h.resp_slots 0 t j (omega arith) w
              (inr (omega arith, omega arith)) in
          rw (woken_slots t' j) (ground (arith, free)),
    )

-- On a valid table clear ends: the table is valid, no id has a request any more, and no request
-- waits in the queue.
pub clear-Cleared : (h : Handle) (f : File) → IsValid (view h) f.table → Cleared h (clear h f)
clear-Cleared h f w =
    let (valid, gone_all) = cleared_table h f.table w in
    record {
      valid = rw (clear_table h f) valid;
      no_requests = λ j gen known. rw (clear_table h f) (gone_all j gen known);
      none_waiting = size-clear h f;
    }
