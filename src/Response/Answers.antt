-- ===== src/Response/Answers.antt =====
-- Where the responses that clients get come from.
use mathlib.Core.List.{Memᴰ}
use go_data_reqrep_shared.Base.{
  ℕ, ◌≡◌, ◌≢◌, ◌⊎◌, inl, inr, refl, sym, ◌∙◌, List, [], ◌∷◌, ◌++◌, arith, ℕ_discrete,
}
use go_data_reqrep_shared.Shm.{Shm}
use go_data_reqrep_shared.Slots.{Table, KillResult}
use go_data_reqrep_shared.Response.Board.{answered, Board, board, IsValid}
use go_data_reqrep_shared.Response.Exchange.{
  Op, Event, wrote, got, Step, takes, writes, gets, drops, stands, Follows, more, run, AllKnown,
  run_refines,
}

answered_inj : (xs ys : List ℕ) → answered xs ≡ answered ys → xs ≡ ys
answered_inj xs ys e = cc

module _ (i gen : ℕ) (bytes : List ℕ) where
  -- A response in the table was there before, or has just been written.
  Step-origin :
      {b c : Board} {e : Event}
      → Step b c e
      → c i gen ≡ answered bytes
      → (b i gen ≡ answered bytes) ⊎ (wrote i gen bytes ≡ e)
  Step-origin {b} {c} (takes j h f) a = elim (ℕ_discrete i j) [
    | no ne ↦ inl (ground (arith, f i gen))
    | yes e ↦ absurd (elim (ℕ_discrete gen h) [
      | no nh ↦ ground (arith, f i gen)
      | yes eh ↦ ground (arith, f i gen)
    ])
  ]
  Step-origin {b} {c} (writes j h bs p f) a = elim (ℕ_discrete i j) [
    | no ne ↦ inl (ground (arith, f i gen))
    | yes e ↦ elim (ℕ_discrete gen h) [
      | no nh ↦ inl (ground (arith, f i gen))
      | yes eh ↦
          let same : answered bs ≡ answered bytes = ground (arith, f i gen) in
          let es : bs ≡ bytes = answered_inj bs bytes same in inr (rw (e, eh, es) refl)
    ]
  ]
  Step-origin {b} {c} (gets j h bs p f) a = inl (ground (arith, f i gen))
  Step-origin {b} {c} (drops j h f) a = inl (ground (arith, f i gen))
  Step-origin {b} {c} (stands f) a = inl (sym (f i gen) ∙ a)

  got_answered : {b c : Board} → Step b c (got i gen bytes) → b i gen ≡ answered bytes
  got_answered (gets j h bs p f) = p

  -- What was got had been written.
  origin_got :
      (xs ys : List Event) {b d : Board}
      → Follows b (xs ++ got i gen bytes ∷ ys) d
      → (b i gen ≡ answered bytes) ⊎ Memᴰ (wrote i gen bytes) xs
  origin_got [] ys (more p q) = inl (got_answered p)
  origin_got (x ∷ xs) ys (more p q) = elim (origin_got xs ys q) [
    | inr m ↦ inr (Memᴰ.tail m)
    | inl a ↦ elim (Step-origin p a) [ inl a' ↦ inl a' | inr e ↦ inr (Memᴰ.head e) ]
  ]

module _ (kill : ℕ → KillResult) (s : Shm) (t : Table) (ops : List Op) (w : IsValid s t)
    (k : AllKnown s ops) where
  -- On a valid table, in any sequence of takes, replies, polls of known slots and give-ups, a
  -- response that a client gets under an id has been written under that id with these bytes before,
  -- unless it stood there at the start.
  pub answer_was_written :
      (i gen : ℕ) (bytes : List ℕ) (before after : List Event)
      → (run kill s t ops).1 ≡ before ++ got i gen bytes ∷ after
      → board t i gen ≢ answered bytes
      → Memᴰ (wrote i gen bytes) before
  answer_was_written i gen bytes before after e fresh =
      let r : Follows (board t) (before ++ got i gen bytes ∷ after) (board (run kill s t ops).0) =
        rw e at (run_refines kill s t ops w k).0 in
      elim (origin_got i gen bytes before after r) [ inl a ↦ absurd (fresh a) | inr m ↦ m ]
