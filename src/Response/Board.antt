-- ===== src/Response/Board.antt =====
-- What a request id stands for, whatever else the table holds: the abstract view of reqrep.go's
-- response slots.
use go_data_reqrep_shared.Base.{
  ℕ, ◌<◌, ◌≤◌, ◌≡◌, ◌≢◌, sym, List, ◌&&◌, if◌then◌else◌, ◌==◌, length, slice, set, length-set, ◌∙◌,
  get_or-set_self, get_or-set_ne, arith, ℕ_discrete, u32_mod,
}
use go_data_reqrep_shared.Shm.{Shm, RespSlot}
use go_data_reqrep_shared.Slots.{Table, no_resp_slot, resp_acquired, resp_ready, slot_at}

-- No request of this id, one without a response, or one with it.
pub data View : Type 0 where
  gone awaiting : View
  answered : List ℕ → View

abbrev pub status : RespSlot → View
status slot =
    if slot.state == resp_ready
    then answered (slice slot.area 0 slot.resp_len)
    else if slot.state == resp_acquired
    then awaiting
    else gone

abbrev pub slot_view : RespSlot → ℕ → View
slot_view slot gen = if slot.generation == gen then status slot else gone

-- One view for each slot index and generation.
abbrev pub Board : Type 0
Board = ℕ → ℕ → View

abbrev pub board : Table → Board
board t i gen = slot_view (slot_at t i) gen

abbrev pub update : Board → ℕ → ℕ → View → Board
update b i gen v j h = if (j == i) && (h == gen) then v else b j h

-- The slots are those of the descriptor, and hold no more than they have room for.
pub record Sound (s : Shm) (slot : RespSlot) : Type 0 where
  pub known : slot.state < 3
  pub room : length slot.area ≡ s.resp_data_max
  pub short : slot.resp_len ≤ s.resp_data_max
  pub gen_fits : slot.generation < u32_mod

pub record IsValid (s : Shm) (t : Table) : Type 0 where
  pub all_slots : length t.slots ≡ s.resp_slots
  pub hint_fits : t.resp_hint < s.resp_slots
  pub few_slots : s.resp_slots < 0x8000_0000
  pub data_fits : s.resp_data_max < u32_mod
  pub sound : (i : ℕ) → i < s.resp_slots → Sound s (slot_at t i)

-- A table with one slot replaced.
module _ (s : Shm) (t t' : Table) (i : ℕ) (slot : RespSlot) where
  module _ (stored : t'.slots ≡ set t.slots i slot) (inside : i < length t.slots) where
    pub slot_at_self : slot_at t' i ≡ slot
    slot_at_self = rw stored (get_or-set_self t.slots i slot no_resp_slot inside)

    pub slot_at_other : (j : ℕ) → i ≢ j → slot_at t' j ≡ slot_at t j
    slot_at_other j ne = rw stored (get_or-set_ne t.slots i j slot no_resp_slot ne)

    pub board_set : (j h : ℕ) → board t' j h ≡ (if j == i then slot_view slot h else board t j h)
    board_set j h = elim (ℕ_discrete i j) [
      | yes e ↦ ground (arith, slot_at_self)
      | no ne ↦ ground (arith, slot_at_other j ne)
    ]

    pub IsValid-set : IsValid s t → t'.resp_hint < s.resp_slots → Sound s slot → IsValid s t'
    IsValid-set v hint fine = record {
      all_slots = rw stored (length-set t.slots i slot ∙ v.all_slots);
      hint_fits = hint;
      few_slots = v.few_slots;
      data_fits = v.data_fits;
      sound = λ j hj. elim (ℕ_discrete i j) [
        | yes e ↦ rw (sym e, slot_at_self) fine
        | no ne ↦ rw (slot_at_other j ne) (v.sound j hj)
      ];
    }

    -- The slot served the generation `gen`, and serves no other now.
    pub board-update :
        (gen : ℕ) (v : View)
        → (slot_at t i).generation ≡ gen
        → ((h : ℕ) → slot_view slot h ≡ (if h == gen then v else gone))
        → (j h : ℕ) → board t' j h ≡ update (board t) i gen v j h
    board-update gen v old new j h = elim (ℕ_discrete i j) [
      | yes e ↦ ground (arith, board_set j h, new h)
      | no ne ↦ ground (arith, board_set j h)
    ]
