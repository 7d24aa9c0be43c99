-- ===== src/IntMode/Contents.antt =====
-- The requests between head and tail, and what an operation that runs alone does to them.
use go_data_reqrep_shared.Base.{
  ℕ, zero, suc, ◌+◌, ◌-◌, ◌%◌, ◌≤◌, ◌<◌, ◌≡◌, ◌≢◌, [], ◌∷◌, ◌++◌, refl, sym, ap, ap₂, ◌∙◌, put,
  put_self, put_ne, arith, ℕ_discrete, length,
}
use native.Mathlib.Nat.{add-mod_right}
use go_data_reqrep_shared.Queue.Window.{add-mod-ne}
use go_data_reqrep_shared.IntMode.{Item, ReqIntSlot, IntQueue}
use go_data_reqrep_shared.IntMode.Alone.{
  at_pos, Resting, items, contents, after_sent, after_received,
}

-- Positions less than a lap apart have different slots.
apart : (cap j k : ℕ) → j < k → k < j + cap → k % cap ≢ j % cap
apart cap j k lt near e =
    let sum : j + (k - j) ≡ k = omega arith in
    add-mod-ne {cap = cap} j (k - j) (omega arith) (omega arith) (ap (λ n. n % cap) sum ∙ e)

module _ {cap : ℕ} (q : IntQueue) (rest : Resting cap q) where
  abbrev seq_at : ℕ → ℕ
  seq_at k = (at_pos cap q k).sequence

  -- What a store at position `p` does not change.
  other_seq :
      (p k : ℕ) (l : ReqIntSlot)
      → k % cap ≢ p % cap
      → (put q.slot (p % cap) l (k % cap)).sequence ≡ seq_at k
  other_seq p k l ne = ap (λ (t : ReqIntSlot). t.sequence) (put_ne q.slot (p % cap) l (k % cap) ne)

  own_seq :
      (p k n : ℕ) (x : Item)
      → k % cap ≡ p % cap
      → (put q.slot (p % cap) (record { sequence = n; item = x }) (k % cap)).sequence ≡ n
  own_seq p k n x e = rw (e, put_self q.slot (p % cap) (record { sequence = n; item = x })) refl

  pub after_sent-Resting :
      (x : Item) → q.req_tail < q.req_head + cap → Resting cap (after_sent cap x q)
  after_sent-Resting x room =
      let tail = q.req_tail in
      let l : ReqIntSlot = record { sequence = tail + 1; item = x } in
      record {
        ordered = omega (arith, rest.ordered);
        bounded = omega arith;
        holds = λ k le lt. elim (ℕ_discrete k tail) [
          | yes e ↦ own_seq tail k (tail + 1) x (ap (λ n. n % cap) e) ∙ ap (λ n. n + 1) (sym e)
          | no ne ↦
              other_seq tail k l (λ z. apart cap k tail (omega arith) (omega arith) (sym z))
              ∙ rest.holds k le (omega arith)
        ];
        vacant = λ k le lt.
            other_seq tail k l (apart cap tail k (omega arith) (omega (arith, rest.ordered)))
            ∙ rest.vacant k (omega arith) lt;
      }

  pub after_received-Resting : q.req_head < q.req_tail → Resting cap (after_received cap q)
  after_received-Resting more =
      let head = q.req_head in
      let l : ReqIntSlot = record (at_pos cap q head) { sequence = head + cap } in
      record {
        ordered = omega arith;
        bounded = omega (arith, rest.bounded);
        holds = λ k le lt.
            other_seq head k l (apart cap head k (omega arith) (omega (arith, rest.bounded)))
            ∙ rest.holds k (omega arith) lt;
        vacant = λ k le lt. elim (ℕ_discrete k (head + cap)) [
          | yes e ↦
              own_seq head k (head + cap) (at_pos cap q head).item
                (ap (λ n. n % cap) e ∙ add-mod_right head cap)
              ∙ sym e
          | no ne ↦
              other_seq head k l (apart cap head k (omega arith) (omega arith))
              ∙ rest.vacant k le (omega arith)
        ];
      }

-- A store at a slot that none of the positions has.
items-put :
    (cap : ℕ) (q q' : IntQueue) (n k : ℕ)
    → ((j : ℕ) → k ≤ j → j < k + n → (at_pos cap q' j).item ≡ (at_pos cap q j).item)
    → items cap q' n k ≡ items cap q n k
unfolding items
items-put cap q q' zero k same = refl
items-put cap q q' (suc n) k same =
    ap₂ ◌∷◌ (same k (omega arith) (omega arith))
      (items-put cap q q' n (k + 1) (λ j le lt. same j (omega arith) (omega arith)))

items_snoc :
    (cap : ℕ) (q : IntQueue) (n k : ℕ)
    → items cap q (suc n) k ≡ items cap q n k ++ (at_pos cap q (k + n)).item ∷ []
unfolding items
items_snoc cap q zero k = ap (λ j. (at_pos cap q j).item ∷ []) (omega arith)
items_snoc cap q (suc n) k =
    ap (λ xs. (at_pos cap q k).item ∷ xs)
      (items_snoc cap q n (k + 1)
        ∙ ap (λ j. items cap q n (k + 1) ++ (at_pos cap q j).item ∷ []) (omega arith))

pub length-items : (cap : ℕ) (q : IntQueue) (n k : ℕ) → length (items cap q n k) ≡ n
unfolding items
length-items cap q zero k = refl
length-items cap q (suc n) k = ap suc (length-items cap q n (k + 1))

module _ {cap : ℕ} (q : IntQueue) (rest : Resting cap q) where
  pub length-contents : length (contents cap q) ≡ q.req_tail - q.req_head
  unfolding contents
  length-contents = length-items cap q (q.req_tail - q.req_head) q.req_head

  pub contents-after_sent :
      (x : Item)
      → q.req_tail < q.req_head + cap
      → contents cap (after_sent cap x q) ≡ contents cap q ++ x ∷ []
  unfolding contents
  contents-after_sent x room =
      let tail = q.req_tail in
      let head = q.req_head in
      let n = tail - head in
      let q' = after_sent cap x q in
      let l : ReqIntSlot = record { sequence = tail + 1; item = x } in
      let one : tail + 1 - head ≡ suc n = omega (arith, rest.ordered) in
      let last : head + n ≡ tail = omega (arith, rest.ordered) in
      ap (λ c. items cap q' c head) one
      ∙ items_snoc cap q' n head
      ∙ ap₂ (λ xs y. xs ++ y ∷ [])
          (items-put cap q q' n head (λ j le lt.
            ap (λ (t : ReqIntSlot). t.item)
              (put_ne q.slot (tail % cap) l (j % cap)
                (λ z. apart cap j tail (omega (arith, last)) (omega arith) (sym z)))))
          (ap (λ j. (at_pos cap q' j).item) last
            ∙ ap (λ (t : ReqIntSlot). t.item) (put_self q.slot (tail % cap) l))

  pub contents-after_received :
      q.req_head < q.req_tail
      → contents cap q ≡ (at_pos cap q q.req_head).item ∷ contents cap (after_received cap q)
  unfolding contents items
  contents-after_received more =
      let tail = q.req_tail in
      let head = q.req_head in
      let q' = after_received cap q in
      let l : ReqIntSlot = record (at_pos cap q head) { sequence = head + cap } in
      let one : tail - head ≡ suc (tail - (head + 1)) = omega arith in
      ap (λ c. items cap q c head) one
      ∙ ap (λ xs. (at_pos cap q head).item ∷ xs)
          (sym (
            items-put cap q q' (tail - (head + 1)) (head + 1) (λ j le lt.
              ap (λ (t : ReqIntSlot). t.item)
                (put_ne q.slot (head % cap) l (j % cap)
                  (apart cap head j (omega arith) (omega (arith, rest.bounded)))))))

  pub contents_none : q.req_head ≡ q.req_tail → contents cap q ≡ []
  unfolding contents items
  contents_none e = let z : q.req_tail - q.req_head ≡ 0 = omega arith in rw z refl
