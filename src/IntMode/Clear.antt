-- ===== src/IntMode/Clear.antt =====
-- What the header's initialisation and `reqrep_int_clear` leave.
use go_data_reqrep_shared.Base.{
  ℕ, zero, suc, ◌+◌, ◌≤◌, ◌<◌, ◌≡◌, List, [], none, refl, sym, ap, ◌∙◌, put, put_self, put_ne,
  arith, ℕ_discrete,
}
use native.Mathlib.Nat.{mod-eq_of_lt}
use go_data_reqrep_shared.Layout.{MmapLayout}
use go_data_reqrep_shared.Response.Board.{gone, board, IsValid}
use go_data_reqrep_shared.Reference.{Handle}
use go_data_reqrep_shared.Reference.Agreement.{view}
use go_data_reqrep_shared.Reference.Slots.{wake_slot_waiters}
use go_data_reqrep_shared.Reference.Session.{clear_from, wake_consumers, wake_producers}
use go_data_reqrep_shared.Reference.Clear.{cleared_table}
use go_data_reqrep_shared.IntMode.{Item, ReqIntSlot, IntQueue}
use go_data_reqrep_shared.IntMode.System.{resting}
use go_data_reqrep_shared.IntMode.Inv.{IsFresh}
use go_data_reqrep_shared.IntMode.Alone.{Resting, contents, items, at_pos}
use go_data_reqrep_shared.IntMode.File.{IntFile, number_from, int_init_header, int_clear, int_size}

numbered_before :
    (n i : ℕ) (slot : ℕ → ReqIntSlot) (c : ℕ) → c < i → number_from n i slot c ≡ slot c
unfolding number_from
numbered_before zero i slot c h = refl
numbered_before (suc n) i slot c h =
    numbered_before n (i + 1) (put slot i (record (slot i) { sequence = i })) c (omega arith)
    ∙ put_ne slot i (record (slot i) { sequence = i }) c (omega arith)

numbered :
    (n i : ℕ) (slot : ℕ → ReqIntSlot) (c : ℕ)
    → i ≤ c
    → c < i + n
    → (number_from n i slot c).sequence ≡ c
unfolding number_from
numbered zero i slot c le lt = absurd (omega arith)
numbered (suc n) i slot c le lt = elim (ℕ_discrete c i) [
  | yes e ↦
      let l : ReqIntSlot = record (slot i) { sequence = i } in
      ap (λ (t : ReqIntSlot). t.sequence)
        (numbered_before n (i + 1) (put slot i l) c (omega arith)
          ∙ ap (put slot i l) e
          ∙ put_self slot i l)
      ∙ sym e
  | no ne ↦
      numbered n (i + 1) (put slot i (record (slot i) { sequence = i })) c (omega arith)
        (omega arith)
]

-- Head and tail at 0 over numbered slots.
numbered-Resting :
    (req_cap : ℕ) (q : IntQueue) (slot : ℕ → ReqIntSlot)
    → Resting req_cap (record q { req_head = 0; req_tail = 0; slot = number_from req_cap 0 slot })
numbered-Resting req_cap q slot = record {
  ordered = omega arith;
  bounded = omega arith;
  holds = λ k le lt. absurd (omega arith);
  vacant = λ k le lt.
      rw (mod-eq_of_lt {n = k} {m = req_cap} (omega arith), at_pos)
        (numbered req_cap 0 slot k le lt);
}

-- A fresh header has a queue at rest and without requests.
pub int_init_header-Resting :
    (req_cap resp_slots : ℕ) (l : MmapLayout) (slot : ℕ → ReqIntSlot) (area : List ℕ)
    → Resting req_cap (int_init_header req_cap resp_slots l slot area).1
unfolding int_init_header
int_init_header-Resting req_cap resp_slots l slot area =
    numbered-Resting req_cap (int_init_header req_cap resp_slots l slot area).1 slot

-- It is also where the runs of IntMode.System start.
pub int_init_header-IsFresh :
    (req_cap resp_slots : ℕ) (l : MmapLayout) (slot : ℕ → ReqIntSlot) (area : List ℕ)
    (history : ℕ → Item)
    → IsFresh req_cap (record {
      queue = (int_init_header req_cap resp_slots l slot area).1;
      thread = λ i. resting;
      history = history;
      received = λ k. none;
    })
unfolding int_init_header
int_init_header-IsFresh req_cap resp_slots l slot area history = record {
  no_head = refl;
  no_tail = refl;
  numbered = λ c lt. numbered req_cap 0 slot c (omega arith) (omega arith);
  all_rest = λ i. refl;
  none_received = λ k. refl;
}

woken_queue : (f : IntFile) → (wake_consumers (wake_producers f)).queue ≡ f.queue
unfolding wake_consumers wake_producers
woken_queue f = ground arith

woken_table : (f : IntFile) → (wake_consumers (wake_producers f)).table ≡ f.table
unfolding wake_consumers wake_producers
woken_table f = ground arith

-- On a valid table int_clear leaves a queue at rest without requests, of size 0, and a valid
-- table in which no id of a known slot has a request.
pub int_clear_lem :
    (h : Handle) (f : IntFile)
    → IsValid (view h) f.table
    → Resting h.req_cap (int_clear h f).queue
      × (contents h.req_cap (int_clear h f).queue ≡ [])
      × (int_size (int_clear h f) ≡ 0)
      × IsValid (view h) (int_clear h f).table
      × ((j gen : ℕ) → j < h.resp_slots → board (int_clear h f).table j gen ≡ gone)
unfolding int_clear int_size contents items
int_clear_lem h f w =
    let q : IntQueue = record f.queue {
      req_head = 0;
      req_tail = 0;
      slot = number_from h.req_cap 0 f.queue.slot;
    } in
    let f1 : IntFile = record f {
      queue = q;
      table = wake_slot_waiters (clear_from h.resp_slots 0 f.table);
    } in
    let (valid, all_gone) = cleared_table h f.table w in
    rw (woken_queue f1, woken_table f1)
      (numbered-Resting h.req_cap f.queue f.queue.slot, refl, refl, valid, all_gone)
