-- ===== src/Queue/Blocks.antt =====
-- Where the queued requests lie in the arena: one block behind the other, going round at its end.
use go_data_reqrep_shared.Base.{
  ℕ, ◌+◌, ◌≤◌, ◌<◌, ◌≡◌, ◌⊎◌, inl, inr, List, [], ◌∷◌, ◌++◌, arith, bit_and, bit_and_mask,
}
use go_data_reqrep_shared.Shm.{ReqSlot}
use go_data_reqrep_shared.Arena.{alloc_size}
use go_data_reqrep_shared.Arena.Write.{alloc_size_bounds}
use go_data_reqrep_shared.Queue.{str_len_mask}

-- The length that a slot records, and the bytes set aside for it.
abbrev pub len_of : ReqSlot → ℕ
len_of e = bit_and e.packed_len str_len_mask

abbrev pub alloc_of : ReqSlot → ℕ
alloc_of e = alloc_size (len_of e)

pub len_of_bound : (e : ReqSlot) → len_of e ≤ str_len_mask
len_of_bound e = omega (arith, bit_and_mask 31 e.packed_len)

pub alloc_pos : (e : ReqSlot) → 0 < alloc_of e
alloc_pos e = omega (arith, alloc_size_bounds (len_of e) (len_of_bound e))

abbrev pub All {ℓ κ} : {A : Type ℓ} → (A → Type κ) → List A → Type κ
All P [] = Unit
All P (x ∷ xs) = P x × All P xs

pub All-mono {ℓ κ μ} :
    {A : Type ℓ} {P : A → Type κ} {Q : A → Type μ} (xs : List A)
    → ((x : A) → P x → Q x)
    → All P xs
    → All Q xs
All-mono [] f h = tt
All-mono (x ∷ xs) f h = (f x h.0, All-mono xs f h.1)

-- The bytes of the arena that the requests take up.
abbrev pub total : List ReqSlot → ℕ
total [] = 0
total (e ∷ es) = e.arena_skip + total es

pub total-snoc : (es : List ReqSlot) (e : ReqSlot) → total (es ++ e ∷ []) ≡ total es + e.arena_skip
total-snoc [] e = omega arith
total-snoc (x ∷ es) e = omega (arith, total-snoc es e)

-- A block keeps clear of the `n` bytes at `pos`.
abbrev pub Clear : ℕ → ℕ → ReqSlot → Type 0
Clear pos n e = (e.arena_off + len_of e ≤ pos) ⊎ (pos + n ≤ e.arena_off)

module _ (cap : ℕ) where
  -- A block lies right behind position `p`, or at the front if it does not fit there.
  abbrev pub Placed : ℕ → ReqSlot → Type 0
  Placed p e =
      ((e.arena_off ≡ p) × (e.arena_skip ≡ alloc_of e) × (p + alloc_of e ≤ cap))
      ⊎ ((e.arena_off ≡ 0) × (e.arena_skip + p ≡ alloc_of e + cap) × (p ≤ cap) × (alloc_of e ≤ cap))

  -- The blocks of `es`, oldest first, lead from position `p` to position `w`.
  abbrev pub Chain : ℕ → List ReqSlot → ℕ → Type 0
  Chain p [] w = (p ≡ w) × (w ≤ cap)
  Chain p (e ∷ es) w = Placed p e × Chain (e.arena_off + alloc_of e) es w

  pub Chain-end : (p : ℕ) (es : List ReqSlot) (w : ℕ) → Chain p es w → w ≤ cap
  Chain-end p [] w c = c.1
  Chain-end p (e ∷ es) w c = Chain-end (e.arena_off + alloc_of e) es w c.1

  pub Chain-snoc :
      (p : ℕ) (es : List ReqSlot) (w : ℕ) (e : ReqSlot)
      → Chain p es w
      → Placed w e
      → Chain p (es ++ e ∷ []) (e.arena_off + alloc_of e)
  Chain-snoc p [] w e c h = ground arith
  Chain-snoc p (x ∷ es) w e c h = (c.0, Chain-snoc (x.arena_off + alloc_of x) es w e c.1 h)

  abbrev Straight : ℕ → ℕ → List ReqSlot → Type 0
  Straight p w = All (λ e. (p ≤ e.arena_off) × (e.arena_off + alloc_of e ≤ w))

  abbrev Folded : ℕ → ℕ → List ReqSlot → Type 0
  Folded p w = All (λ e. (p ≤ e.arena_off) ⊎ (e.arena_off + alloc_of e ≤ w))

  -- Blocks of at most `cap` bytes go round the end of the arena once at most.
  abbrev Spread : ℕ → List ReqSlot → ℕ → Type 0
  Spread p es w =
      ((w ≡ p + total es) × Straight p w es) ⊎ ((w + cap ≡ p + total es) × (0 < w) × Folded p w es)

  Spread-cons :
      (p : ℕ) (e : ReqSlot) (es : List ReqSlot) (w : ℕ)
      → Placed p e
      → 0 < alloc_of e
      → e.arena_skip + total es ≤ cap
      → Spread (e.arena_off + alloc_of e) es w
      → Spread p (e ∷ es) w
  Spread-cons p e es w (inl (o, k, b)) pos room (inl (q, s)) =
      inl (omega arith, ((omega arith, omega arith), All-mono es (λ x h. omega arith) s))
  Spread-cons p e es w (inl (o, k, b)) pos room (inr (q, z, s)) =
      inr (omega arith, z, (inl (omega arith), All-mono es (λ x h. ground arith) s))
  Spread-cons p e es w (inr (o, k, b, f)) pos room (inl (q, s)) =
      inr (omega arith, omega arith, (inr (omega arith), All-mono es (λ x h. inr (h.1)) s))
  Spread-cons p e es w (inr (o, k, b, f)) pos room (inr (q, z, s)) = absurd (omega arith)

  Chain-Spread : (p : ℕ) (es : List ReqSlot) (w : ℕ) → Chain p es w → total es ≤ cap → Spread p es w
  Chain-Spread p [] w c h = inl (omega arith, tt)
  Chain-Spread p (e ∷ es) w c h =
      Spread-cons p e es w c.0 (alloc_pos e) h
        (Chain-Spread (e.arena_off + alloc_of e) es w c.1 (omega arith))

  Chain-start : (p : ℕ) (es : List ReqSlot) (w : ℕ) → Chain p es w → p ≤ cap
  Chain-start p [] w c = omega arith
  Chain-start p (e ∷ es) w (inl h, c) = omega arith
  Chain-start p (e ∷ es) w (inr h, c) = omega arith

  Spread-Clear :
      (p : ℕ) (es : List ReqSlot) (w : ℕ) (e : ReqSlot)
      → p ≤ cap
      → 0 < alloc_of e
      → Spread p es w
      → Placed w e
      → total es + e.arena_skip ≤ cap
      → All (Clear e.arena_off (alloc_of e)) es
  Spread-Clear p es w e st pos (inl (q, s)) (inl h) room =
      All-mono es
        (λ x k. let b = alloc_size_bounds (len_of x) (len_of_bound x) in inl (omega arith)) s
  Spread-Clear p es w e st pos (inl (q, s)) (inr h) room = All-mono es (λ x k. inr (omega arith)) s
  Spread-Clear p es w e st pos (inr (q, z, s)) (inl h) room =
      All-mono es (λ x k. let b = alloc_size_bounds (len_of x) (len_of_bound x) in ground arith) s
  Spread-Clear p es w e st pos (inr (q, z, s)) (inr h) room = absurd (omega arith)

  -- A new block that the arena has room for keeps clear of all the others.
  pub Chain-Clear :
      (p : ℕ) (es : List ReqSlot) (w : ℕ) (e : ReqSlot)
      → Chain p es w
      → Placed w e
      → total es + e.arena_skip ≤ cap
      → All (Clear e.arena_off (alloc_of e)) es
  Chain-Clear p es w e c h room =
      Spread-Clear p es w e (Chain-start p es w c) (alloc_pos e)
        (Chain-Spread p es w c (omega arith)) h room
