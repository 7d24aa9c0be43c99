-- ===== src/IntMode/Alone.antt =====
-- The two loops of the integer queue when no other thread is at work.
use go_data_reqrep_shared.Base.{
  ℕ, zero, suc, ◌+◌, ◌-◌, ◌%◌, ◌^◌, ◌≤◌, ◌<◌, ◌≡◌, Bool, true, false, Option, none, some, List, [],
  ◌∷◌, refl, ap, ◌∙◌, put, put-put, put_self, arith, add64, add32, sub64, leb, ◌==◌,
}
use native.Mathlib.Nat.{add-mod_right}
use go_data_reqrep_shared.Shm.{Shm}
use go_data_reqrep_shared.Queue.Window.{IsSetUp, slot_index}
use go_data_reqrep_shared.IntMode.{
  Item, ReqIntSlot, IntQueue, SendPc, send_step, RecvPc, recv_step, sign_bit,
}

-- `reqrep_int_try_send` from the load of the tail on, for a number of steps, of which the first `fails`
-- weak compare-and-swaps fail although the tail is as expected; `none` if it has not returned by then.
unfoldable pub send_loop : ℕ → ℕ → ℕ → Item → IntQueue → SendPc → Option (IntQueue × Bool)
send_loop zero fails mask x q p = none
send_loop (suc n) fails mask x q SendPc.sent = some (q, true)
send_loop (suc n) fails mask x q SendPc.full = some (q, false)
send_loop (suc n) (suc fails) mask x q (SendPc.claim pos) =
    let r = send_step mask x false q (SendPc.claim pos) in send_loop n fails mask x r.0 r.1
send_loop (suc n) fails mask x q p =
    let r = send_step mask x true q p in send_loop n fails mask x r.0 r.1

-- `reqrep_int_try_recv`, likewise.
unfoldable pub recv_loop : ℕ → ℕ → ℕ → ℕ → IntQueue → RecvPc → Option (IntQueue × Option Item)
recv_loop zero fails cap mask q p = none
recv_loop (suc n) fails cap mask q (RecvPc.got x) = some (q, some x)
recv_loop (suc n) fails cap mask q RecvPc.empty = some (q, none)
recv_loop (suc n) (suc fails) cap mask q (RecvPc.claim pos) =
    let r = recv_step cap mask false q (RecvPc.claim pos) in recv_loop n fails cap mask r.0 r.1
recv_loop (suc n) fails cap mask q p =
    let r = recv_step cap mask true q p in recv_loop n fails cap mask r.0 r.1

abbrev pub at_pos : ℕ → IntQueue → ℕ → ReqIntSlot
at_pos cap q k = q.slot (k % cap)

-- Six steps, and `n` more.
abbrev pub six : ℕ → ℕ
six n = suc (suc (suc (suc (suc (suc n)))))

-- Two steps for each compare-and-swap that fails, and `n` more.
abbrev pub more : ℕ → ℕ → ℕ
more zero n = n
more (suc fails) n = suc (suc (more fails n))

more-three : (f n : ℕ) → more f (suc (suc (suc n))) ≡ suc (suc (suc (more f n)))
more-three zero n = refl
more-three (suc f) n = ap (λ k. suc (suc k)) (more-three f n)

-- The steps of an operation: seven, and two for each compare-and-swap that fails.
abbrev pub steps : ℕ → ℕ → ℕ
steps fails n = suc (more fails (six n))

-- No thread is inside an operation.
pub record Resting (cap : ℕ) (q : IntQueue) : Type 0 where
  pub ordered : q.req_head ≤ q.req_tail
  pub bounded : q.req_tail ≤ q.req_head + cap
  pub holds : (k : ℕ) → q.req_head ≤ k → k < q.req_tail → (at_pos cap q k).sequence ≡ k + 1
  pub vacant : (k : ℕ) → q.req_tail ≤ k → k < q.req_head + cap → (at_pos cap q k).sequence ≡ k

-- The requests from position `k` on.
unfoldable pub items : ℕ → IntQueue → ℕ → ℕ → List Item
items cap q zero k = []
items cap q (suc n) k = (at_pos cap q k).item ∷ items cap q n (k + 1)

unfoldable pub contents : ℕ → IntQueue → List Item
unfolding items
contents cap q = items cap q (q.req_tail - q.req_head) q.req_head

-- What a send leaves if the queue has room.
abbrev pub after_sent : ℕ → Item → IntQueue → IntQueue
after_sent cap x q = record q {
  req_tail = q.req_tail + 1;
  stat_requests = add64 q.stat_requests 1;
  slot = put q.slot (q.req_tail % cap) (record { sequence = q.req_tail + 1; item = x });
}

-- What a receive leaves if the queue holds a request.
abbrev pub after_received : ℕ → IntQueue → IntQueue
after_received cap q = record q {
  req_head = q.req_head + 1;
  slot =
      put q.slot (q.req_head % cap)
        (record (at_pos cap q q.req_head) { sequence = q.req_head + cap });
}

module _ (m : Shm) (v : IsSetUp m) (two : 2 ≤ m.req_cap) (q : IntQueue) (rest : Resting m.req_cap q)
    (small : q.req_tail + m.req_cap < 2 ^ 63) where
  abbrev cap : ℕ
  cap = m.req_cap

  abbrev mask : ℕ
  mask = m.req_cap_mask

  send_load_seq :
      (n f : ℕ) (x : Item)
      → (at_pos cap q q.req_tail).sequence ≡ q.req_tail
      → send_loop (suc n) f mask x q (SendPc.load_seq q.req_tail)
        ≡ send_loop n f mask x q (SendPc.claim q.req_tail)
  unfolding send_loop send_step
  send_load_seq n f x e =
      let z : (sub64 (at_pos cap q q.req_tail).sequence q.req_tail == 0) ≡ true =
        ground (arith, e) in
      rw (slot_index v q.req_tail, z) refl

  send_claim :
      (n : ℕ) (x : Item)
      → send_loop (suc n) 0 mask x q (SendPc.claim q.req_tail)
        ≡ send_loop n 0 mask x (record q { req_tail = q.req_tail + 1 }) (SendPc.store q.req_tail)
  unfolding send_loop send_step
  send_claim n x =
      let z : (q.req_tail == q.req_tail) ≡ true = ground arith in
      let one : add64 q.req_tail 1 ≡ q.req_tail + 1 = omega arith in rw (z, one) refl

  send_store :
      (n : ℕ) (x : Item)
      → send_loop
          (suc (suc (suc (suc n))))
          0
          mask
          x
          (record q { req_tail = q.req_tail + 1 })
          (SendPc.store q.req_tail)
        ≡ some (after_sent cap x q, true)
  unfolding send_loop send_step
  send_store n x =
      let one : add64 q.req_tail 1 ≡ q.req_tail + 1 = omega arith in
      let c = q.req_tail % cap in
      rw
        (
          slot_index v q.req_tail,
          put_self q.slot c (record (q.slot c) { item = x }),
          one,
          put-put q.slot c (record (q.slot c) { item = x })
              (record { sequence = q.req_tail + 1; item = x }),
        )
        refl

  send_retry :
      (f n : ℕ) (x : Item)
      → (at_pos cap q q.req_tail).sequence ≡ q.req_tail
      → send_loop (more f n) f mask x q (SendPc.load_seq q.req_tail)
        ≡ send_loop n 0 mask x q (SendPc.load_seq q.req_tail)
  unfolding send_loop send_step
  send_retry zero n x e = refl
  send_retry (suc f) n x e = send_load_seq (suc (more f n)) (suc f) x e ∙ send_retry f n x e

  pub send_room :
      (f n : ℕ) (x : Item)
      → q.req_tail < q.req_head + cap
      → send_loop (steps f n) f mask x q SendPc.load_tail ≡ some (after_sent cap x q, true)
  unfolding send_loop send_step
  send_room f n x room =
      let e = rest.vacant q.req_tail (omega arith) room in
      send_retry f (six n) x e
      ∙ send_load_seq (suc (suc (suc (suc (suc n))))) 0 x e
      ∙ send_claim (suc (suc (suc (suc n)))) x
      ∙ send_store n x

  send_behind :
      (n f : ℕ) (x : Item)
      → (at_pos cap q q.req_tail).sequence ≡ q.req_head + 1
      → q.req_tail ≡ q.req_head + cap
      → send_loop (suc n) f mask x q (SendPc.load_seq q.req_tail)
        ≡ send_loop n f mask x q SendPc.count_full
  unfolding send_loop send_step
  send_behind n f x seq no_room =
      let z : (sub64 (at_pos cap q q.req_tail).sequence q.req_tail == 0) ≡ false =
        ground (arith, seq) in
      let y : leb sign_bit (sub64 (at_pos cap q q.req_tail).sequence q.req_tail) ≡ true =
        ground (arith, seq) in
      rw (slot_index v q.req_tail, z, y) refl

  pub send_full :
      (f n : ℕ) (x : Item)
      → q.req_tail ≡ q.req_head + cap
      → send_loop (steps f n) f mask x q SendPc.load_tail
        ≡ some (record q { stat_send_full = add64 q.stat_send_full 1 }, false)
  unfolding send_loop send_step
  send_full f n x no_room =
      let same : q.req_tail % cap ≡ q.req_head % cap =
        ap (λ k. k % cap) no_room ∙ add-mod_right q.req_head cap in
      ap (λ k. send_loop k f mask x q (SendPc.load_seq q.req_tail))
        (more-three f (suc (suc (suc n))))
      ∙ send_behind (suc (suc (more f (suc (suc (suc n)))))) f x
          (rw (same, at_pos) (rest.holds q.req_head (omega arith) (omega arith))) no_room

  recv_load_seq :
      (n f : ℕ)
      → (at_pos cap q q.req_head).sequence ≡ q.req_head + 1
      → recv_loop (suc n) f cap mask q (RecvPc.load_seq q.req_head)
        ≡ recv_loop n f cap mask q (RecvPc.claim q.req_head)
  unfolding recv_loop recv_step
  recv_load_seq n f seq =
      let one : add64 q.req_head 1 ≡ q.req_head + 1 = omega (arith, rest.ordered) in
      let z : (sub64 (at_pos cap q q.req_head).sequence (q.req_head + 1) == 0) ≡ true =
        ground (arith, seq) in
      rw (slot_index v q.req_head, one, z) refl

  recv_claim :
      (n : ℕ)
      → recv_loop (suc n) 0 cap mask q (RecvPc.claim q.req_head)
        ≡ recv_loop n 0 cap mask (record q { req_head = q.req_head + 1 }) (RecvPc.read q.req_head)
  unfolding recv_loop recv_step
  recv_claim n =
      let z : (q.req_head == q.req_head) ≡ true = ground arith in
      let one : add64 q.req_head 1 ≡ q.req_head + 1 = omega (arith, rest.ordered) in
      rw (z, one) refl

  recv_read :
      (n : ℕ)
      → recv_loop
          (suc (suc (suc n)))
          0
          cap
          mask
          (record q { req_head = q.req_head + 1 })
          (RecvPc.read q.req_head)
        ≡ some (after_received cap q, some (at_pos cap q q.req_head).item)
  unfolding recv_loop recv_step
  recv_read n =
      let turn : add64 q.req_head cap ≡ q.req_head + cap = omega (arith, rest.ordered) in
      rw (slot_index v q.req_head, turn) refl

  recv_retry :
      (f n : ℕ)
      → (at_pos cap q q.req_head).sequence ≡ q.req_head + 1
      → recv_loop (more f n) f cap mask q (RecvPc.load_seq q.req_head)
        ≡ recv_loop n 0 cap mask q (RecvPc.load_seq q.req_head)
  unfolding recv_loop recv_step
  recv_retry zero n e = refl
  recv_retry (suc f) n e = recv_load_seq (suc (more f n)) (suc f) e ∙ recv_retry f n e

  recv_behind :
      (n f : ℕ)
      → (at_pos cap q q.req_head).sequence ≡ q.req_head
      → recv_loop (suc n) f cap mask q (RecvPc.load_seq q.req_head)
        ≡ recv_loop n f cap mask q RecvPc.count_empty
  unfolding recv_loop recv_step
  recv_behind n f seq =
      let one : add64 q.req_head 1 ≡ q.req_head + 1 = omega (arith, rest.ordered) in
      let z : (sub64 (at_pos cap q q.req_head).sequence (q.req_head + 1) == 0) ≡ false =
        ground (arith, seq, rest.ordered) in
      let y : leb sign_bit (sub64 (at_pos cap q q.req_head).sequence (q.req_head + 1)) ≡ true =
        ground (arith, seq, rest.ordered) in
      rw (slot_index v q.req_head, one, z, y) refl

  pub recv_some :
      (f n : ℕ)
      → q.req_head < q.req_tail
      → recv_loop (steps f n) f cap mask q RecvPc.load_head
        ≡ some (after_received cap q, some (at_pos cap q q.req_head).item)
  unfolding recv_loop recv_step
  recv_some f n waiting =
      let e = rest.holds q.req_head (omega arith) waiting in
      recv_retry f (six n) e
      ∙ recv_load_seq (suc (suc (suc (suc (suc n))))) 0 e
      ∙ recv_claim (suc (suc (suc (suc n))))
      ∙ recv_read (suc n)

  pub recv_none :
      (f n : ℕ)
      → q.req_head ≡ q.req_tail
      → recv_loop (steps f n) f cap mask q RecvPc.load_head
        ≡ some (record q { stat_recv_empty = add32 q.stat_recv_empty 1 }, none)
  unfolding recv_loop recv_step
  recv_none f n same =
      ap (λ k. recv_loop k f cap mask q (RecvPc.load_seq q.req_head))
        (more-three f (suc (suc (suc n))))
      ∙ recv_behind (suc (suc (more f (suc (suc (suc n)))))) f
          (rest.vacant q.req_head (omega arith) (omega arith))
