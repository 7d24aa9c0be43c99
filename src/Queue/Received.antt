-- ===== src/Queue/Received.antt =====
-- What `recv_locked` does to the waiting requests, on both branches.
use go_data_reqrep_shared.Base.{
  ℕ, suc, ◌+◌, ◌-◌, ◌≤◌, ◌<◌, ◌≡◌, ◌≢◌, refl, sym, ap, ◌∙◌, inl, inr, List, [], ◌∷◌, map, arith,
  add64, add32, bit_and, get_or, none, some, Option, Run, ok, ℕ_discrete, leb, if◌then◌else◌, ◌==◌,
}
use go_data_reqrep_shared.Shm.{Shm, Queue, ReqSlot, make_id}
use go_data_reqrep_shared.Arena.{read_arena, release_arena_locked}
use go_data_reqrep_shared.Queue.{recv_locked, no_slot}
use go_data_reqrep_shared.Queue.Blocks.{
  len_of, alloc_of, len_of_bound, total, Placed, Chain, alloc_pos,
}
use go_data_reqrep_shared.Arena.Write.{alloc_size_bounds}
use go_data_reqrep_shared.Queue.Invariant.{
  count, entries, Held, chained, oversized, IsValid, Message, message, messages,
}
use go_data_reqrep_shared.Queue.Send.{empty-entries}
use go_data_reqrep_shared.Queue.Window.{IsSetUp, window, window_cong, wrap_index, slot_index}

-- What is left in use, and where the next write goes.
abbrev left : ℕ → ReqSlot → ℕ
left used e = if leb e.arena_skip used then used - e.arena_skip else 0

abbrev next_wpos : ℕ → ℕ → ℕ
next_wpos wpos used = if used == 0 then 0 else wpos

skip_pos : (cap p : ℕ) (e : ReqSlot) → Placed cap p e → 0 < e.arena_skip
skip_pos cap p e (inl h) = omega (arith, alloc_pos e)
skip_pos cap p e (inr h) = omega (arith, alloc_pos e)

total_pos :
    (cap p : ℕ) (e : ReqSlot) (es : List ReqSlot) (w : ℕ)
    → Chain cap p (e ∷ es) w
    → 0 < total (e ∷ es)
total_pos cap p e es w c = omega (arith, skip_pos cap p e c.0)

-- The oldest block lies inside the arena.
Held-inside :
    (cap : ℕ) (e : ReqSlot) (es : List ReqSlot) (w u : ℕ)
    → Held cap (e ∷ es) w u
    → e.arena_off + len_of e ≤ cap
Held-inside cap e es w u (chained p (inl h, c) t r) =
    omega (arith, alloc_size_bounds (len_of e) (len_of_bound e))
Held-inside cap e es w u (chained p (inr h, c) t r) =
    omega (arith, alloc_size_bounds (len_of e) (len_of_bound e))
Held-inside cap e es w u (oversized x q o k wp us large len) =
    let z : e ≡ x = cc in rw z (omega arith)

-- Without it the rest is held.
Held-rest :
    (cap : ℕ) (e : ReqSlot) (es : List ReqSlot) (w u : ℕ)
    → Held cap (e ∷ es) w u
    → Held cap es (next_wpos w (left u e)) (left u e)
Held-rest cap e [] w u (chained p (pl, c) t r) =
    let z : left u e ≡ 0 = ground arith in rw z (chained 0 (refl, omega arith) refl (omega arith))
Held-rest cap e (x ∷ es) w u (chained p (pl, c) t r) =
    let rest : left u e ≡ total (x ∷ es) = ground arith in
    let same : next_wpos w (left u e) ≡ w =
      ground (arith, rest, total_pos cap (e.arena_off + alloc_of e) x es w c) in
    rw (same, rest) (chained (e.arena_off + alloc_of e) c refl (omega arith))
Held-rest cap e es w u (oversized x q o k wp us large len) =
    let z : e ≡ x = cc in
    let zs : es ≡ [] = cc in
    let none_used : left u e ≡ 0 = rw z (ground arith) in
    rw (zs, none_used) (chained 0 (refl, omega arith) refl (omega arith))

-- One request less: its bytes and id are handed out.
pub data Received (s : Shm) (q : Queue) : Run (Queue × Option (List ℕ × ℕ)) → Type 0 where
  nothing :
      {r : Run (Queue × Option (List ℕ × ℕ))} (q' : Queue)
      → r ≡ ok (q', none)
      → IsValid s q'
      → messages s q ≡ []
      → messages s q' ≡ []
      → Received s q r
  taken :
      {r : Run (Queue × Option (List ℕ × ℕ))} (q' : Queue) (m : Message)
      → r ≡ ok (q', some (m.bytes, make_id m.resp_slot m.resp_gen))
      → IsValid s q'
      → messages s q ≡ m ∷ messages s q'
      → Received s q r

module _ {s : Shm} {q : Queue} (v : IsSetUp s) (w : IsValid s q) where
  abbrev pub first : ReqSlot
  first = get_or q.slots (bit_and q.req_head s.req_cap_mask) no_slot

  abbrev rest : List ReqSlot
  rest = window s.req_cap q.slots (q.req_head + 1) (count q - 1)

  abbrev pub shorter : Queue
  shorter = record (release_arena_locked q first.arena_skip) { req_head = add64 q.req_head 1 }

  module _ (waiting : q.req_tail ≢ q.req_head) where
    count-eq-suc : count q ≡ suc (count q - 1)
    count-eq-suc = omega (arith, w.head_fits, w.tail_fits)

    entries-first : entries s q ≡ first ∷ rest
    entries-first =
        ap (λ n. window s.req_cap q.slots q.req_head n) count-eq-suc
        ∙ ap (λ i. get_or q.slots i no_slot ∷ rest) (sym (slot_index v q.req_head))

    count-shorter : count shorter ≡ count q - 1
    unfolding release_arena_locked
    count-shorter = omega (arith, w.head_fits, w.tail_fits)

    slots-shorter : shorter.slots ≡ q.slots
    unfolding release_arena_locked
    slots-shorter = refl

    entries-shorter : entries s shorter ≡ rest
    entries-shorter =
        rw (count-shorter, slots-shorter)
          (window_cong s.req_cap q.slots (add64 q.req_head 1) (q.req_head + 1) (count q - 1)
            (wrap_index v (q.req_head + 1)))

    Held-first : Held s.req_arena_cap (first ∷ rest) q.arena_wpos q.arena_used
    Held-first = rw entries-first at w.held

    pub first-inside : first.arena_off + len_of first ≤ s.req_arena_cap
    first-inside = Held-inside s.req_arena_cap first rest q.arena_wpos q.arena_used Held-first

    shorter-IsValid : IsValid s shorter
    unfolding release_arena_locked
    shorter-IsValid = record {
      head_fits = omega arith;
      tail_fits = w.tail_fits;
      counted = omega (arith, count-shorter, w.counted);
      slot_room = w.slot_room;
      arena_room = w.arena_room;
      held =
          rw entries-shorter
            (Held-rest s.req_arena_cap first rest q.arena_wpos q.arena_used Held-first);
    }

    messages-shorter : messages s q ≡ message q.arena first ∷ messages s shorter
    unfolding release_arena_locked
    messages-shorter = rw (entries-first, entries-shorter)

    pub recv_taken :
        recv_locked s q
        ≡ ok (shorter, some ((message q.arena first).bytes, make_id first.resp_slot first.resp_gen))
    unfolding recv_locked read_arena
    recv_taken = ground (arith, first-inside, v.arena_fits)

  abbrev pub polled : Queue
  polled = record q { stat_recv_empty = add32 q.stat_recv_empty 1 }

  polled-IsValid : IsValid s polled
  polled-IsValid = record {
    head_fits = w.head_fits;
    tail_fits = w.tail_fits;
    counted = w.counted;
    slot_room = w.slot_room;
    arena_room = w.arena_room;
    held = w.held;
  }

  pub polled_lem : q.req_tail ≡ q.req_head → recv_locked s q ≡ ok (polled, none)
  unfolding recv_locked
  polled_lem idle = ground arith

  none_waiting : q.req_tail ≡ q.req_head → messages s q ≡ []
  none_waiting idle = ap (map (message q.arena)) (empty-entries w idle)

  -- On a valid queue recv_locked returns without a panic: it hands out the bytes and id of the
  -- oldest waiting request and leaves the others, or finds none when none waits; the invariant
  -- holds again.
  pub recv_locked_cases : Received s q (recv_locked s q)
  recv_locked_cases = elim (ℕ_discrete q.req_tail q.req_head) [
    | yes idle ↦
        nothing polled (polled_lem idle) polled-IsValid (none_waiting idle) (none_waiting idle)
    | no waiting ↦
        taken shorter (message q.arena first) (recv_taken waiting) (shorter-IsValid waiting)
          (messages-shorter waiting)
  ]
