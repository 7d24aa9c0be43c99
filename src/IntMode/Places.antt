-- ===== src/IntMode/Places.antt =====
-- A slot by itself: which stage its sequence shows, and what it is when head or tail move on.
use native.Mathlib.Nat.{add-mod_right}
use go_data_reqrep_shared.Base.{ℕ, ◌+◌, ◌%◌, ◌≤◌, ◌≡◌, ◌≢◌, refl, sym, ◌∙◌, put, put_ne, arith}
use go_data_reqrep_shared.Queue.Window.{add-mod-ne}
use go_data_reqrep_shared.IntMode.{Item, ReqIntSlot}
use go_data_reqrep_shared.IntMode.Inv.{
  Stage, vacant, filling, filled, emptying, Place, Holds, SlotInv,
}

module _ {cap : ℕ} (two : 2 ≤ cap) (c : ℕ) where
  -- No neighbour of a position has the same slot.
  neighbour : (a : ℕ) → a % cap ≡ c → (a + 1) % cap ≢ c
  neighbour a e e' = add-mod-ne {cap = cap} a 1 (omega arith) (omega arith) (e' ∙ sym e)

module _ {cap : ℕ} (two : 2 ≤ cap) {head tail : ℕ} {history : ℕ → Item} (c : ℕ)
    (s : ReqIntSlot) where
  -- A slot whose sequence is the tail is vacant there.
  pub tail_slot :
      (a : ℕ) (g : Stage)
      → SlotInv cap head tail history c s a g
      → tail % cap ≡ c
      → s.sequence ≡ tail
      → (g ≡ vacant) × (a ≡ tail)
  tail_slot a vacant o at_c e = (refl, omega (arith, o.seq, e))
  tail_slot a (filling j) o at_c e = absurd (omega (arith, o.seq, o.place, e))
  tail_slot a filled o at_c e =
      let z : tail ≡ a + 1 = omega (arith, o.seq, e) in
      absurd (neighbour two c a o.own (rw z at at_c))
  tail_slot a (emptying j) o at_c e =
      let z : tail ≡ a + 1 = omega (arith, o.seq, e) in
      absurd (neighbour two c a o.own (rw z at at_c))

  -- A slot whose sequence is one ahead of the head is filled there.
  pub head_slot :
      (a : ℕ) (g : Stage)
      → SlotInv cap head tail history c s a g
      → head % cap ≡ c
      → s.sequence ≡ head + 1
      → (g ≡ filled) × (a ≡ head)
  head_slot a filled o at_c e = (refl, omega (arith, o.seq, e))
  head_slot a (emptying j) o at_c e = absurd (omega (arith, o.seq, o.place, e))
  head_slot a vacant o at_c e =
      let z : a ≡ head + 1 = omega (arith, o.seq, e) in
      absurd (neighbour two c head at_c (rw z at o.own))
  head_slot a (filling j) o at_c e =
      let z : a ≡ head + 1 = omega (arith, o.seq, e) in
      absurd (neighbour two c head at_c (rw z at o.own))

module _ (cap head tail : ℕ) (history : ℕ → Item) (c : ℕ) (s : ReqIntSlot) (a : ℕ) where
  tail-Place :
      (g : Stage)
      → a ≢ tail
      → a + cap ≢ tail
      → Place cap head tail a g
      → Place cap head (tail + 1) a g
  tail-Place vacant n n' h = omega (arith, h)
  tail-Place (filling j) n n' h = omega (arith, h)
  tail-Place filled n n' h = omega (arith, h)
  tail-Place (emptying j) n n' h = omega (arith, h)

  tail-Holds :
      (g : Stage) (x : Item)
      → a ≢ tail
      → Holds s.item (history a) g
      → Holds s.item (put history tail x a) g
  tail-Holds vacant x n k = tt
  tail-Holds (filling j) x n k = tt
  tail-Holds filled x n k = k ∙ sym (put_ne history tail x a n)
  tail-Holds (emptying j) x n k = k ∙ sym (put_ne history tail x a n)

  -- Another slot, when the tail moves on.
  pub tail_on :
      (g : Stage) (x : Item)
      → SlotInv cap head tail history c s a g
      → tail % cap ≢ c
      → SlotInv cap head (tail + 1) (put history tail x) c s a g
  tail_on g x o ne =
      let n : a ≢ tail = λ e. ne (rw (← e) o.own) in
      let n' : a + cap ≢ tail = λ e. ne (rw (← e) (add-mod_right a cap ∙ o.own)) in
      record {
        own = o.own;
        seq = o.seq;
        place = tail-Place g n n' o.place;
        holds = tail-Holds g x n o.holds;
      }

  head-Place : (g : Stage) → a ≢ head → Place cap head tail a g → Place cap (head + 1) tail a g
  head-Place vacant n h = omega (arith, h)
  head-Place (filling j) n h = omega (arith, h)
  head-Place filled n h = omega (arith, h)
  head-Place (emptying j) n h = omega (arith, h)

  -- Another slot, when the head moves on.
  pub head_on :
      (g : Stage)
      → SlotInv cap head tail history c s a g
      → head % cap ≢ c
      → SlotInv cap (head + 1) tail history c s a g
  head_on g o ne = record {
    own = o.own;
    seq = o.seq;
    place = head-Place g (λ e. ne (rw (← e) o.own)) o.place;
    holds = o.holds;
  }
