-- ===== src/Response/Acquire.antt =====
-- `acquire_resp_slot`: which slot it takes, and when it finds none.
use native.Mathlib.Nat.{mod-eq_of_lt, add-mod_right, mod-lt}
use go_data_reqrep_shared.Base.{
  ℕ, zero, suc, ◌+◌, ◌-◌, ◌%◌, ◌<◌, ◌≤◌, ◌≡◌, ◌≢◌, ◌⊎◌, inl, inr, refl, ap, ◌∙◌, true, false,
  Option, none, some, ◌==◌, if◌then◌else◌, arith, ℕ_discrete, dec_lt, add32, u32_mod, set,
  Bool-cases, length,
}
use go_data_reqrep_shared.Shm.{Shm, RespSlot}
use go_data_reqrep_shared.Slots.{
  Table, KillResult, pid_alive, next_generation, claim, scan_free, scan_stale, acquire_resp_slot,
  or_else, resp_free, slot_at,
}
use go_data_reqrep_shared.Response.Board.{
  View, gone, awaiting, board, IsValid, Sound, IsValid-set, board_set, slot_at_self,
}

-- A slot in use by a process that the system does not know any more.
pub record IsStale (kill : ℕ → KillResult) (slot : RespSlot) : Type 0 where
  pub in_use : slot.state ≢ resp_free
  pub owned : slot.owner_pid ≢ 0
  pub dead : pid_alive kill slot.owner_pid ≡ false

-- The other slots keep their requests, and this one has the new id only.
abbrev pub taken_over : Table → ℕ → ℕ → ℕ → ℕ → View
taken_over t i gen j h = if j == i then (if h == gen then awaiting else gone) else board t j h

next_generation_lem :
    (g : ℕ)
    → g < u32_mod
    → (0 < next_generation g) × (next_generation g < u32_mod) × (next_generation g ≢ g)
unfolding next_generation
next_generation_lem g h = ground arith

module _ (kill : ℕ → KillResult) (pid : ℕ) (s : Shm) (t : Table) where
  pub data Acquired : Option (Table × ℕ × ℕ) → Type 0 where
    acquired :
        {r : Option (Table × ℕ × ℕ)} (t' : Table) (i gen : ℕ)
        → r ≡ some (t', i, gen)
        → i < s.resp_slots
        → 0 < gen
        → gen < u32_mod
        → ((slot_at t i).state ≡ resp_free) ⊎ IsStale kill (slot_at t i)
        → (slot_at t' i).owner_pid ≡ pid
        → ((j h : ℕ) → board t' j h ≡ taken_over t i gen j h)
        → IsValid s t'
        → Acquired r
    exhausted :
        {r : Option (Table × ℕ × ℕ)}
        → r ≡ none
        → ((i : ℕ) → i < s.resp_slots → (slot_at t i).state ≢ resp_free)
        → ((i : ℕ) → i < s.resp_slots → ¬ IsStale kill (slot_at t i))
        → Acquired r

  module _ (w : IsValid s t) where
    -- The slot `i` claimed, in a table that is otherwise the same.
    module _ (i : ℕ) (known : i < s.resp_slots) (t' : Table) (hint : t'.resp_hint < s.resp_slots)
        (stored : t'.slots ≡ set t.slots i (claim (slot_at t i) pid)) where
      abbrev new : RespSlot
      new = claim (slot_at t i) pid

      room : i < length t.slots
      room = omega (arith, w.all_slots)

      new-Sound : Sound s new
      unfolding claim
      new-Sound = record {
        known = omega arith;
        room = (w.sound i known).room;
        short = (w.sound i known).short;
        gen_fits = (next_generation_lem (slot_at t i).generation (w.sound i known).gen_fits).1;
      }

      claimed :
          ((slot_at t i).state ≡ resp_free) ⊎ IsStale kill (slot_at t i)
          → Acquired (some (t', i, next_generation (slot_at t i).generation))
      unfolding claim
      claimed why =
          let g = next_generation_lem (slot_at t i).generation (w.sound i known).gen_fits in
          acquired t' i (next_generation (slot_at t i).generation) refl known g.0 g.1 why
            (ap (λ (r : RespSlot). r.owner_pid) (slot_at_self s t t' i new stored room))
            (λ j h. board_set s t t' i new stored room j h ∙ ground arith)
            (IsValid-set s t t' i new stored room w hint new-Sound)

    -- The slot of a round, and the table with it taken.
    abbrev at_round : ℕ → ℕ
    at_round i = add32 t.resp_hint i % s.resp_slots

    abbrev take_free : ℕ → Table
    take_free i = record t {
      slots = set t.slots i (claim (slot_at t i) pid);
      resp_hint = (i + 1) % s.resp_slots;
    }

    abbrev take_stale : ℕ → Table
    take_stale i = record t {
      slots = set t.slots i (claim (slot_at t i) pid);
      stat_recoveries = add32 t.stat_recoveries 1;
    }

    abbrev pass1 : ℕ → ℕ → Option (Table × ℕ × ℕ)
    pass1 rounds i = scan_free kill pid s.resp_slots rounds t.resp_hint i t

    abbrev pass2 : ℕ → ℕ → Option (Table × ℕ × ℕ)
    pass2 rounds i = scan_stale kill pid s.resp_slots rounds i t

    free_now :
        (rounds i : ℕ)
        → (slot_at t (at_round i)).state ≡ resp_free
        → pass1 (suc rounds) i
          ≡ some (
            take_free (at_round i),
            at_round i,
            next_generation (slot_at t (at_round i)).generation,
          )
    unfolding scan_free claim
    free_now rounds i h = ground arith

    free_later :
        (rounds i : ℕ)
        → (slot_at t (at_round i)).state ≢ resp_free
        → pass1 (suc rounds) i ≡ pass1 rounds (i + 1)
    unfolding scan_free
    free_later rounds i h = ground arith

    some_slots : 0 < s.resp_slots
    some_slots = omega (arith, w.hint_fits)

    at_round-lt : (i : ℕ) → at_round i < s.resp_slots
    at_round-lt i = mod-lt (add32 t.resp_hint i) {m = s.resp_slots} some_slots

    NoneFree : ℕ → ℕ → Type 0
    NoneFree rounds i = (k : ℕ) → k < rounds → (slot_at t (at_round (i + k))).state ≢ resp_free

    none_more :
        (rounds i : ℕ)
        → (slot_at t (at_round i)).state ≢ resp_free
        → NoneFree rounds (i + 1)
        → NoneFree (suc rounds) i
    unfolding NoneFree
    none_more rounds i busy rest zero h = let e : i + 0 ≡ i = omega arith in rw e busy
    none_more rounds i busy rest (suc k) h =
        let e : i + suc k ≡ i + 1 + k = omega arith in rw e (rest k (omega arith))

    -- The first pass takes a free slot, or has seen none.
    scan_free_cases :
        (rounds i : ℕ) → Acquired (pass1 rounds i) ⊎ ((pass1 rounds i ≡ none) × NoneFree rounds i)
    unfolding scan_free NoneFree
    scan_free_cases zero i = inr (refl, λ k h. absurd (omega arith))
    scan_free_cases (suc rounds) i = elim (ℕ_discrete (slot_at t (at_round i)).state resp_free) [
      | yes free ↦ inl (
          rw (free_now rounds i free) (
            claimed (at_round i) (at_round-lt i) (take_free (at_round i))
              (mod-lt (at_round i + 1) {m = s.resp_slots} some_slots) refl (inl free)))
      | no busy ↦ rw (free_later rounds i busy) (elim (scan_free_cases rounds (i + 1)) [
        | inl a ↦ inl a
        | inr b ↦ inr (b.0, none_more rounds i busy b.1)
      ])
    ]

    -- From the hint on, every slot has its round.
    NoneFree-all :
        NoneFree s.resp_slots 0 → (j : ℕ) → j < s.resp_slots → (slot_at t j).state ≢ resp_free
    unfolding NoneFree
    NoneFree-all none_free j hj = elim (dec_lt j t.resp_hint) [
      | no later ↦
          let e : at_round (0 + (j - t.resp_hint)) ≡ j =
            let sum : add32 t.resp_hint (0 + (j - t.resp_hint)) ≡ j = omega (arith, w.few_slots) in
            rw sum (mod-eq_of_lt hj) in
          let f : (slot_at t (at_round (0 + (j - t.resp_hint)))).state ≢ resp_free =
            none_free (j - t.resp_hint) (omega arith) in
          rw e at f
      | yes earlier ↦
          let e : at_round (0 + (j + s.resp_slots - t.resp_hint)) ≡ j =
            let sum : add32 t.resp_hint (0 + (j + s.resp_slots - t.resp_hint)) ≡ j + s.resp_slots =
              omega (arith, w.few_slots, w.hint_fits) in
            rw sum (add-mod_right j s.resp_slots ∙ mod-eq_of_lt hj) in
          let f : (slot_at t (at_round (0 + (j + s.resp_slots - t.resp_hint)))).state ≢ resp_free =
            none_free (j + s.resp_slots - t.resp_hint) (omega arith) in
          rw e at f
    ]

    stale_now :
        (rounds i : ℕ)
        → i < s.resp_slots
        → IsStale kill (slot_at t i)
        → pass2 (suc rounds) i ≡ some (take_stale i, i, next_generation (slot_at t i).generation)
    unfolding scan_stale claim
    stale_now rounds i known d = ground (arith, (w.sound i known).known, d.in_use, d.owned, d.dead)

    NotStale : RespSlot → Type 0
    NotStale slot =
        (slot.state ≡ resp_free) ⊎ ((slot.owner_pid ≡ 0) ⊎ (pid_alive kill slot.owner_pid ≡ true))

    stale_later :
        (rounds i : ℕ) → NotStale (slot_at t i) → pass2 (suc rounds) i ≡ pass2 rounds (i + 1)
    unfolding scan_stale NotStale
    stale_later rounds i (inl h) = ground arith
    stale_later rounds i (inr (inl h)) = ground arith
    stale_later rounds i (inr (inr h)) = ground (arith, h)

    NotStale-not : (slot : RespSlot) → NotStale slot → ¬ IsStale kill slot
    unfolding NotStale
    NotStale-not slot (inl h) d = d.in_use h
    NotStale-not slot (inr (inl h)) d = d.owned h
    NotStale-not slot (inr (inr h)) d = ground (arith, h, d.dead)

    IsStale-cases : (slot : RespSlot) → IsStale kill slot ⊎ NotStale slot
    unfolding NotStale
    IsStale-cases slot = elim (ℕ_discrete slot.state resp_free) [
      | yes free ↦ inr (inl free)
      | no busy ↦ elim (ℕ_discrete slot.owner_pid 0) [
        | yes none_owns ↦ inr (inr (inl none_owns))
        | no owner ↦ elim (Bool-cases (pid_alive kill slot.owner_pid)) [
          | inl alive ↦ inr (inr (inr alive))
          | inr died ↦ inl (record { in_use = busy; owned = owner; dead = died })
        ]
      ]
    ]

    NoneStale : ℕ → ℕ → Type 0
    NoneStale rounds i = (k : ℕ) → k < rounds → ¬ IsStale kill (slot_at t (i + k))

    none_more_stale :
        (rounds i : ℕ)
        → ¬ IsStale kill (slot_at t i)
        → NoneStale rounds (i + 1)
        → NoneStale (suc rounds) i
    unfolding NoneStale
    none_more_stale rounds i busy rest zero h = let e : i + 0 ≡ i = omega arith in rw e busy
    none_more_stale rounds i busy rest (suc k) h =
        let e : i + suc k ≡ i + 1 + k = omega arith in rw e (rest k (omega arith))

    scan_stale_cases :
        (rounds i : ℕ)
        → i + rounds ≤ s.resp_slots
        → Acquired (pass2 rounds i) ⊎ ((pass2 rounds i ≡ none) × NoneStale rounds i)
    unfolding scan_stale NoneStale
    scan_stale_cases zero i h = inr (refl, λ k h. absurd (omega arith))
    scan_stale_cases (suc rounds) i h = elim (IsStale-cases (slot_at t i)) [
      | inl d ↦ inl (
          rw (stale_now rounds i (omega arith) d)
            (claimed i (omega arith) (take_stale i) w.hint_fits refl (inr d)))
      | inr d ↦ rw (stale_later rounds i d) (elim (scan_stale_cases rounds (i + 1) (omega arith)) [
        | inl a ↦ inl a
        | inr b ↦ inr (b.0, none_more_stale rounds i (NotStale-not (slot_at t i) d) b.1)
      ])
    ]

    second :
        ((i : ℕ) → i < s.resp_slots → (slot_at t i).state ≢ resp_free)
        → Acquired (pass2 s.resp_slots 0)
    unfolding NoneStale
    second none_free = elim (scan_stale_cases s.resp_slots 0 (omega arith)) [
      | inl a ↦ a
      | inr b ↦ exhausted b.0 none_free (λ i h.
          let e : 0 + i ≡ i = omega arith in
          let f : ¬ IsStale kill (slot_at t (0 + i)) = b.1 i h in rw e at f)
    ]

    -- On a valid table acquire_resp_slot takes a slot that is free or whose owner is dead, makes the
    -- caller its owner, gives it an id with a generation that is not 0 and fits 32 bits, ends what
    -- stood there before and nothing else, and keeps the table valid; it finds none only when no
    -- slot is free and no owner is dead.
    pub acquire_resp_slot_cases : Acquired (acquire_resp_slot kill pid s t)
    unfolding acquire_resp_slot
    acquire_resp_slot_cases = elim (scan_free_cases s.resp_slots 0) [
      | inl (acquired t' i gen e k p g why o b v) ↦
          acquired t' i gen (ap (λ r. or_else r (pass2 s.resp_slots 0)) e) k p g why o b v
      | inl (exhausted e none_free none_stale) ↦ rw e (second none_free)
      | inr b ↦ rw (b.0) (second (NoneFree-all b.1))
    ]
