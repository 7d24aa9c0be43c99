-- ===== src/Arena/Write.antt =====
-- What `write_arena_locked` does on each branch, with no word of its arithmetic left.
use go_data_reqrep_shared.Base.{
  ℕ, ◌+◌, ◌-◌, ◌%◌, ◌^◌, ◌≤◌, ◌<◌, ◌≡◌, refl, ◌∙◌, ◌≢◌, ◌⊎◌, inl, inr, List, Option, none, some,
  arith, dec_lt, add64, and_not_seven, length, slice_all, copy_at, Run, ok,
}
use go_data_reqrep_shared.Shm.{Shm, Queue}
use go_data_reqrep_shared.Arena.{alloc_size, commit, place, write_arena_locked}

-- The longest request: `layoutStrLenMask`.
abbrev pub max_len : ℕ
max_len = 0x7fff_ffff

pub alloc_size_bounds :
    (n : ℕ) → n ≤ max_len → (n ≤ alloc_size n) × (8 ≤ alloc_size n) × (alloc_size n ≤ n + 8)
unfolding alloc_size
alloc_size_bounds n h = ground (arith, and_not_seven ((n + 7) % 4294967296))

-- The state behind a copy of `bytes` to offset `off`.
abbrev pub stored : Queue → List ℕ → ℕ → ℕ → ℕ → Queue
stored q bytes off wpos used = record q {
  arena = copy_at q.arena off bytes;
  arena_wpos = wpos;
  arena_used = used;
}

module _ (s : Shm) (q : Queue) (bytes : List ℕ) where
  abbrev alloc : ℕ
  alloc = alloc_size (length bytes)

  -- Where the block may go.
  pub data Spot (off skip wpos used : ℕ) : Type 0 where
    behind :
        off ≡ q.arena_wpos
        → skip ≡ alloc
        → wpos ≡ off + alloc
        → used ≡ q.arena_used + skip
        → wpos ≤ s.req_arena_cap
        → used ≤ s.req_arena_cap
        → Spot off skip wpos used
    front :
        off ≡ 0
        → skip + q.arena_wpos ≡ alloc + s.req_arena_cap
        → wpos ≡ alloc
        → used ≡ q.arena_used + skip
        → used ≤ s.req_arena_cap
        → q.arena_wpos ≤ s.req_arena_cap
        → Spot off skip wpos used
    reset :
        off ≡ 0
        → skip ≡ alloc
        → wpos ≡ alloc
        → used ≡ alloc
        → q.req_tail ≡ q.req_head
        → Spot off skip wpos used

  -- The bytes lie inside the arena.
  pub Spot-inside :
      {off skip wpos used : ℕ}
      → length bytes ≤ max_len
      → length bytes ≤ s.req_arena_cap
      → Spot off skip wpos used
      → off + length bytes ≤ s.req_arena_cap
  Spot-inside short fits (behind o k we ue wr ur) =
      omega (arith, alloc_size_bounds (length bytes) short)
  Spot-inside short fits (front o k we ue ur wr) = omega arith
  Spot-inside short fits (reset o k we ue h) = omega arith

  -- The block does not fit, behind the write position or at the front behind an unused rest.
  pub data NoRoom : Type 0 where
    none_behind :
        q.arena_wpos + alloc ≤ s.req_arena_cap → s.req_arena_cap < q.arena_used + alloc → NoRoom
    none_in_front :
        s.req_arena_cap < q.arena_wpos + alloc
        → s.req_arena_cap < q.arena_used + alloc + (s.req_arena_cap - q.arena_wpos)
        → NoRoom

  pub data Written (r : Run (Queue × Option (ℕ × ℕ))) : Type 0 where
    too_long : s.req_arena_cap < length bytes → r ≡ ok (q, none) → Written r
    full :
        q.req_tail ≢ q.req_head
        → NoRoom
        → r ≡ ok (record q { stat_send_full = add64 q.stat_send_full 1 }, none)
        → Written r
    placed :
        (off skip wpos used : ℕ)
        → length bytes ≤ s.req_arena_cap
        → Spot off skip wpos used
        → r ≡ ok (stored q bytes off wpos used, some (off, skip))
        → Written r

  -- Where the write position may stand: inside the arena, or behind the end after a block that
  -- rounding up made larger than the arena.
  abbrev pub Standing : Type 0
  Standing =
      ((q.arena_wpos ≤ s.req_arena_cap) × (q.arena_used ≤ s.req_arena_cap))
      ⊎ ((s.req_arena_cap < q.arena_wpos)
          × (q.arena_wpos ≤ s.req_arena_cap + 8)
          × (q.arena_used ≡ q.arena_wpos)
          × (q.req_tail ≢ q.req_head))

  -- With every bound in range the copy is made.
  commit_lem :
      (p : Queue) (off skip : ℕ)
      → off + length bytes ≤ s.req_arena_cap
      → s.req_arena_cap < 2 ^ 32
      → length bytes ≤ max_len
      → skip < 2 ^ 32
      → p.arena_used + skip < 2 ^ 32
      → off + alloc < 2 ^ 32
      → commit s p bytes (length bytes) alloc off skip
        ≡ ok (stored p bytes off (off + alloc) (p.arena_used + skip), some (off, skip))
  unfolding commit
  commit_lem p off skip h small short hk hu ha = ground (arith, slice_all bytes)

  pub write_behind :
      length bytes ≤ max_len
      → length bytes ≤ s.req_arena_cap
      → s.req_arena_cap < 2 ^ 32
      → q.arena_wpos + alloc ≤ s.req_arena_cap
      → write_arena_locked s q bytes ≡ place s q bytes (length bytes) alloc q.arena_wpos alloc
  unfolding write_arena_locked
  write_behind short fits small inside = ground arith

  pub write_front :
      length bytes ≤ max_len
      → length bytes ≤ s.req_arena_cap
      → s.req_arena_cap < 2 ^ 32
      → s.req_arena_cap < q.arena_wpos + alloc
      → q.arena_wpos ≤ s.req_arena_cap + 8
      → write_arena_locked s q bytes
        ≡ place s q bytes (length bytes) alloc 0 (alloc + s.req_arena_cap - q.arena_wpos)
  unfolding write_arena_locked
  write_front short fits small over near = ground (arith, alloc_size_bounds (length bytes) short)

  -- The tests of `place`, for a block at `off` that takes up `skip` bytes.
  place_cases :
      (off skip : ℕ)
      → length bytes ≤ s.req_arena_cap
      → s.req_arena_cap < 2 ^ 32
      → length bytes ≤ max_len
      → skip + q.arena_used < 2 ^ 64
      → off + alloc ≤ s.req_arena_cap ⊎ (s.req_arena_cap < q.arena_used + skip)
      → ((q.arena_used + skip ≤ s.req_arena_cap)
          × (place s q bytes (length bytes) alloc off skip
              ≡ ok (stored q bytes off (off + alloc) (q.arena_used + skip), some (off, skip))))
        ⊎ ((s.req_arena_cap < q.arena_used + skip)
            × (q.req_tail ≡ q.req_head)
            × (place s q bytes (length bytes) alloc off skip
                ≡ ok (stored q bytes 0 alloc alloc, some (0, alloc))))
        ⊎ ((s.req_arena_cap < q.arena_used + skip)
            × (q.req_tail ≢ q.req_head)
            × (place s q bytes (length bytes) alloc off skip
                ≡ ok (record q { stat_send_full = add64 q.stat_send_full 1 }, none)))
  unfolding place
  place_cases off skip fits small short wide room = ground (
    arith,
    alloc_size_bounds (length bytes) short,
    commit_lem q off skip,
    commit_lem (record q { arena_wpos = 0; arena_used = 0 }) 0 alloc,
  )

  module _ (small : s.req_arena_cap < 2 ^ 32) (short : length bytes ≤ max_len) (st : Standing)
      (fits : length bytes ≤ s.req_arena_cap) where
    cases_behind : q.arena_wpos + alloc ≤ s.req_arena_cap → Written (write_arena_locked s q bytes)
    cases_behind inside =
        elim (place_cases q.arena_wpos alloc fits small short (omega arith) (inl inside)) [
          | inl (room, e) ↦
              placed q.arena_wpos alloc _ _ fits (behind refl refl refl refl inside room)
                (write_behind short fits small inside ∙ e)
          | inr (inl (room, h, e)) ↦
              placed 0 alloc alloc alloc fits (reset refl refl refl refl h)
                (write_behind short fits small inside ∙ e)
          | inr (inr (room, h, e)) ↦
              full h (none_behind inside room) (write_behind short fits small inside ∙ e)
        ]

    front_room :
        (alloc ≤ s.req_arena_cap)
        ⊎ (s.req_arena_cap < q.arena_used + (alloc + s.req_arena_cap - q.arena_wpos))
    front_room = elim (dec_lt s.req_arena_cap alloc) [
      | yes large ↦ elim st [ inl h ↦ inr (omega arith) | inr h ↦ inr (omega arith) ]
      | no h ↦ inl (omega arith)
    ]

    near : q.arena_wpos ≤ s.req_arena_cap + 8
    near = elim st [ inl h ↦ omega arith | inr h ↦ omega arith ]

    -- Behind the end of the arena everything counts as full.
    front_inside :
        q.arena_used + (alloc + s.req_arena_cap - q.arena_wpos) ≤ s.req_arena_cap
        → q.arena_wpos ≤ s.req_arena_cap
    front_inside room = elim st [ inl h ↦ omega arith | inr h ↦ absurd (omega arith) ]

    front_full :
        s.req_arena_cap < q.arena_used + (alloc + s.req_arena_cap - q.arena_wpos)
        → s.req_arena_cap < q.arena_used + alloc + (s.req_arena_cap - q.arena_wpos)
    front_full room = elim st [ inl h ↦ omega arith | inr h ↦ omega arith ]

    cases_front : s.req_arena_cap < q.arena_wpos + alloc → Written (write_arena_locked s q bytes)
    cases_front over =
        elim (place_cases 0 (alloc + s.req_arena_cap - q.arena_wpos) fits small short
          (elim st [ inl h ↦ bound (omega arith) | inr h ↦ bound (omega arith) ])
          (elim front_room [ inl h ↦ inl (omega arith) | inr h ↦ inr h ])) [
            | inl (room, e) ↦
                placed 0 (alloc + s.req_arena_cap - q.arena_wpos) (0 + alloc) _ fits
                  (front refl (omega (arith, front_inside room)) (omega arith) refl room
                    (front_inside room))
                  (write_front short fits small over near ∙ e)
            | inr (inl (room, h, e)) ↦
                placed 0 alloc alloc alloc fits (reset refl refl refl refl h)
                  (write_front short fits small over near ∙ e)
            | inr (inr (room, h, e)) ↦
                full h (none_in_front over (front_full room))
                  (write_front short fits small over near ∙ e)
          ]
      where
        bound :
            q.arena_used ≤ s.req_arena_cap + 8
            → alloc + s.req_arena_cap - q.arena_wpos + q.arena_used < 2 ^ 64
        bound h = omega (arith, alloc_size_bounds (length bytes) short)

  pub write_arena_locked_cases :
      s.req_arena_cap < 2 ^ 32
      → length bytes ≤ max_len
      → Standing
      → Written (write_arena_locked s q bytes)
  unfolding write_arena_locked
  write_arena_locked_cases small short st = elim (dec_lt s.req_arena_cap (length bytes)) [
    | yes long ↦ too_long long (ground arith)
    | no fits ↦ elim (dec_lt s.req_arena_cap (q.arena_wpos + alloc)) [
      | yes over ↦ cases_front small short st (omega arith) over
      | no inside ↦ cases_behind small short st (omega arith) (omega arith)
    ]
  ]
