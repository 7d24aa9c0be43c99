-- ===== src/Response/RoundTrip.antt =====
-- A request answered: the slot is taken, the response written under its id, and read.
use go_data_reqrep_shared.Base.{ℕ, ◌<◌, ◌≤◌, ◌≡◌, sym, ap₂, ◌∙◌, List, some, length, arith}
use go_data_reqrep_shared.Shm.{Shm, make_id, id_slot, id_gen, id_fields}
use go_data_reqrep_shared.Slots.{Table, KillResult, acquire_resp_slot, resp_free, slot_at}
use go_data_reqrep_shared.Response.{replied, response, write_response, poll_response}
use go_data_reqrep_shared.Response.Board.{gone, awaiting, answered, board, IsValid}
use go_data_reqrep_shared.Response.Moves.{
  Replied, accepted, too_long, stale, Polled, delivered, not_yet, outdated, write_response_cases,
  poll_response_cases,
}
use go_data_reqrep_shared.Response.Acquire.{acquired, exhausted, acquire_resp_slot_cases}

-- The three tables that follow each other, and the new request's slot and generation.
pub record Served (kill : ℕ → KillResult) (pid : ℕ) (s : Shm) (t : Table) (bytes : List ℕ)
    : Type 0 where
  pub taken : Table
  pub filled : Table
  pub emptied : Table
  pub slot : ℕ
  pub gen : ℕ
  pub takes : acquire_resp_slot kill pid s t ≡ some (taken, slot, gen)
  pub writes : write_response s taken (make_id slot gen) bytes ≡ (filled, replied)
  pub reads : poll_response s filled (make_id slot gen) ≡ (emptied, response bytes)
  pub valid : IsValid s emptied

module _ (kill : ℕ → KillResult) (pid : ℕ) (s : Shm) (t : Table) (bytes : List ℕ) (w : IsValid s t)
    (short : length bytes ≤ s.resp_data_max) where
  module _ (t1 : Table) (i gen : ℕ) (e1 : acquire_resp_slot kill pid s t ≡ some (t1, i, gen))
      (w1 : IsValid s t1) (inside : i < s.resp_slots) (fits : gen < 4294967296) where
    abbrev id : ℕ
    id = make_id i gen

    slot_of : id_slot id ≡ i
    slot_of = (id_fields i gen (omega (arith, w.few_slots)) fits).0

    gen_of : id_gen id ≡ gen
    gen_of = (id_fields i gen (omega (arith, w.few_slots)) fits).1

    view_of : (t' : Table) → board t' (id_slot id) (id_gen id) ≡ board t' i gen
    view_of t' = ap₂ (board t') slot_of gen_of

    polled :
        (t2 : Table) (w2 : IsValid s t2)
        → write_response s t1 id bytes ≡ (t2, replied)
        → board t2 (id_slot id) (id_gen id) ≡ answered bytes
        → Polled s t2 id w2 (poll_response s t2 id)
        → Served kill pid s t bytes
    polled t2 w2 e2 a2 (delivered t3 bs e3 a3 m3) =
        let same : answered bs ≡ answered bytes = sym a3 ∙ a2 in
        let bs_eq : bs ≡ bytes = cc in
        record {
          taken = t1;
          filled = t2;
          emptied = t3;
          slot = i;
          gen = gen;
          takes = e1;
          writes = e2;
          reads = rw bs_eq at e3;
          valid = m3.valid;
        }
    polled t2 w2 e2 a2 (not_yet e3 n) = absurd (n bytes a2)
    polled t2 w2 e2 a2 (outdated e3 g) = let x : gone ≡ answered bytes = sym g ∙ a2 in cc

    written :
        board t1 i gen ≡ awaiting
        → Replied s t1 id w1 bytes (write_response s t1 id bytes)
        → Served kill pid s t bytes
    written a (accepted t2 e2 p m) =
        polled t2 m.valid e2 (m.boards (id_slot id) (id_gen id) ∙ ground arith)
          (poll_response_cases s t2 id m.valid (rw slot_of inside))
    written a (too_long e2 l) = absurd (omega arith)
    written a (stale e2 n) = absurd (n (view_of t1 ∙ a))

  -- On a valid table with a free slot, a client takes a slot, a response that is no longer than a
  -- slot is accepted under the id made of its slot and generation, the next poll with that id
  -- returns these bytes, and the table is valid at the end.
  pub served_in_order :
      (j : ℕ) → j < s.resp_slots → (slot_at t j).state ≡ resp_free → Served kill pid s t bytes
  served_in_order j known free = elim (acquire_resp_slot_cases kill pid s t w) [
    | acquired t1 i gen e inside p g why o b v ↦
        written t1 i gen e v inside g (b i gen ∙ ground arith)
          (write_response_cases s t1 (make_id i gen) v bytes)
    | exhausted e none_free none_stale ↦ absurd (none_free j known free)
  ]
