-- ===== src/IntMode/Fifo.antt =====
-- Sequences of sends and receives that run alone, against a bounded first-in first-out list.
use go_data_reqrep_shared.Base.{
  ℕ, suc, ◌+◌, ◌^◌, ◌≤◌, ◌<◌, ◌≡◌, Bool, true, false, Option, none, some, List, [], ◌∷◌, ◌++◌, refl,
  ap, ◌∙◌, arith, dec_lt, add64, add32, length, ltb, if◌then◌else◌,
}
use go_data_reqrep_shared.Shm.{Shm}
use go_data_reqrep_shared.Queue.Window.{IsSetUp}
use go_data_reqrep_shared.IntMode.{Item, IntQueue, SendPc, RecvPc}
use go_data_reqrep_shared.IntMode.Alone.{
  send_loop, recv_loop, steps, Resting, contents, after_sent, after_received, send_room, send_full,
  recv_some, recv_none,
}
use go_data_reqrep_shared.IntMode.Contents.{
  length-contents, contents-after_sent, contents-after_received, contents_none, after_sent-Resting,
  after_received-Resting,
}

-- An operation, with how often its weak compare-and-swap fails although the queue is as expected.
pub data Op : Type 0 where
  push : (x : Item) (fails : ℕ) → Op
  pop : (fails : ℕ) → Op

pub data Answer : Type 0 where
  pushed : Bool → Answer
  popped : Option Item → Answer

abbrev pub and_then : {A B : Type 0} → Option A → (A → Option B) → Option B
and_then none f = none
and_then (some a) f = f a

abbrev pub push_answer : Option (IntQueue × Bool) → Option (IntQueue × Answer)
push_answer none = none
push_answer (some (q, b)) = some (q, pushed b)

abbrev pub pop_answer : Option (IntQueue × Option Item) → Option (IntQueue × Answer)
pop_answer none = none
pop_answer (some (q, o)) = some (q, popped o)

module _ (cap mask : ℕ) where
  -- An operation, with seven steps for its loop, and two for each compare-and-swap that fails.
  unfoldable pub op_alone : Op → IntQueue → Option (IntQueue × Answer)
  unfolding send_loop recv_loop
  op_alone (push x fails) q =
      push_answer (send_loop (steps fails 0) fails mask x q SendPc.load_tail)
  op_alone (pop fails) q = pop_answer (recv_loop (steps fails 0) fails cap mask q RecvPc.load_head)

  unfoldable pub run_alone : List Op → IntQueue → Option (IntQueue × List Answer)
  unfolding op_alone contents
  run_alone [] q = some (q, [])
  run_alone (op ∷ ops) q =
      and_then (op_alone op q) (λ r. and_then (run_alone ops r.0) (λ t. some (t.0, r.1 ∷ t.1)))

-- The list, of at most `cap` requests.
abbrev pub list_op : ℕ → Op → List Item → List Item × Answer
list_op cap (push x fails) xs =
    if ltb (length xs) cap then (xs ++ x ∷ [], pushed true) else (xs, pushed false)
list_op cap (pop fails) [] = ([], popped none)
list_op cap (pop fails) (x ∷ xs) = (xs, popped (some x))

abbrev pub list_run : ℕ → List Op → List Item → List Item × List Answer
list_run cap [] xs = (xs, [])
list_run cap (op ∷ ops) xs =
    let r = list_op cap op xs in let r' = list_run cap ops r.0 in (r'.0, r.1 ∷ r'.1)

-- How far the counters are from where the 64-bit difference changes its sign.
abbrev pub Far : ℕ → IntQueue → ℕ → Type 0
Far cap q n = q.req_tail + n + cap < 2 ^ 63

module _ (m : Shm) (v : IsSetUp m) (two : 2 ≤ m.req_cap) where
  abbrev cap : ℕ
  cap = m.req_cap

  -- One operation against the list.
  op_lem :
      (op : Op) (q : IntQueue) (n : ℕ)
      → Resting cap q
      → Far cap q (suc n)
      → (q' : IntQueue) × (op_alone cap m.req_cap_mask op q
          ≡ some (q', (list_op cap op (contents cap q)).1))
        × Resting cap q'
        × Far cap q' n
        × (contents cap q' ≡ (list_op cap op (contents cap q)).0)
  unfolding op_alone contents
  op_lem (push x fails) q n rest far = elim (dec_lt q.req_tail (q.req_head + cap)) [
    | yes room ↦
        let z : ltb (length (contents cap q)) cap ≡ true =
          rw (length-contents q rest) (ground (arith, room, rest.ordered)) in
        rw z (
          after_sent cap x q,
          ap push_answer (send_room m v two q rest (omega arith) fails 0 x room),
          after_sent-Resting q rest x room,
          omega arith,
          contents-after_sent q rest x room,
        )
    | no no_room ↦
        let at_end : q.req_tail ≡ q.req_head + cap = omega (arith, rest.bounded) in
        let z : ltb (length (contents cap q)) cap ≡ false =
          rw (length-contents q rest) (ground (arith, at_end)) in
        rw z (
          record q { stat_send_full = add64 q.stat_send_full 1 },
          ap push_answer (send_full m v two q rest (omega arith) fails 0 x at_end),
          record {
            ordered = rest.ordered;
            bounded = rest.bounded;
            holds = rest.holds;
            vacant = rest.vacant;
          },
          omega arith,
          refl,
        )
  ]
  op_lem (pop fails) q n rest far = elim (dec_lt q.req_head q.req_tail) [
    | yes more ↦ rw (contents-after_received q rest more) (
      after_received cap q,
      ap pop_answer (recv_some m v two q rest (omega arith) fails 0 more),
      after_received-Resting q rest more,
      omega arith,
      refl,
    )
    | no no_more ↦
        let same : q.req_head ≡ q.req_tail = omega (arith, rest.ordered) in
        rw (contents_none q rest same) (
          record q { stat_recv_empty = add32 q.stat_recv_empty 1 },
          ap pop_answer (recv_none m v two q rest (omega arith) fails 0 same),
          record {
            ordered = rest.ordered;
            bounded = rest.bounded;
            holds = rest.holds;
            vacant = rest.vacant;
          },
          omega arith,
          contents_none q rest same,
        )
  ]

  -- On a set-up queue of at least two slots with no thread inside an operation, whose tail
  -- with the number of operations and of slots comes to less than 2 ^ 63, any sequence of sends
  -- and receives, each alone and with any number of spurious failures of its weak
  -- compare-and-swap, returns, in seven steps an operation and two more for each such failure,
  -- with the answers of a first-in first-out list of at most as many requests as slots, and
  -- leaves the requests of that list.
  pub run_alone_lem :
      (ops : List Op) (q : IntQueue)
      → Resting cap q
      → Far cap q (length ops)
      → (q' : IntQueue) × (run_alone cap m.req_cap_mask ops q
          ≡ some (q', (list_run cap ops (contents cap q)).1))
        × Resting cap q'
        × (contents cap q' ≡ (list_run cap ops (contents cap q)).0)
  unfolding run_alone
  run_alone_lem [] q rest far = (q, refl, rest, refl)
  run_alone_lem (op ∷ ops) q rest far =
      let (q1, e1, rest1, far1, c1) = op_lem op q (length ops) rest far in
      let (q2, e2, rest2, c2) = run_alone_lem ops q1 rest1 far1 in
      (q2, rw (e1, e2, c1) refl, rest2, c2 ∙ ap (λ xs. (list_run cap ops xs).0) c1)
