-- ===== src/IntMode.antt =====
-- The integer mode of gen/reqrep.h: the lock-free request queue of `reqrep_int_try_send` and
-- `reqrep_int_try_recv`, one access to shared memory at a time.
pub mod System
pub mod Inv
pub mod Places
pub mod Slots
pub mod Keep
pub mod KeepSend
pub mod KeepRecv
pub mod Alone
pub mod Contents
pub mod Fifo
pub mod File
pub mod Clear
pub mod Answer
pub mod Run
mod Tests
pub mod Locals
use go_data_reqrep_shared.Base.{
  ℕ, put, ◌^◌, Bool, ◌&&◌, if◌then◌else◌, leb, ◌==◌, add32, add64, sub64, bit_and,
}

-- What a request carries: `value` (the bits of an `int64_t`), `resp_slot` and `resp_gen`.
pub record Item : Type 0 where
  pub value : ℕ
  pub resp_slot : ℕ
  pub resp_gen : ℕ

-- `ReqIntSlot`
pub record ReqIntSlot : Type 0 where
  pub sequence : ℕ
  pub item : Item

-- What `ReqRepHeader` holds of the queue, and its slots by index.
pub record IntQueue : Type 0 where
  pub req_head : ℕ
  pub req_tail : ℕ
  pub stat_requests : ℕ
  pub stat_send_full : ℕ
  pub stat_recv_empty : ℕ
  pub slot : ℕ → ReqIntSlot

abbrev pub sign_bit : ℕ
sign_bit = 2 ^ 63

-- Where a sender stands; `pos` is its local copy of the tail.
pub data SendPc : Type 0 where
  load_tail : SendPc
  load_seq : (pos : ℕ) → SendPc
  claim : (pos : ℕ) → SendPc  -- `diff == 0`: before the compare-and-swap
  store : (pos : ℕ) → SendPc  -- before the stores to the slot
  publish : (pos : ℕ) → SendPc  -- before the store of `sequence`
  count_sent : SendPc
  count_full : SendPc  -- `diff < 0`
  sent : SendPc
  full : SendPc

-- The loop of `reqrep_int_try_send`, in which the three stores to the slot are one step; `swap_ok`
-- is false if the weak compare-and-swap fails for no reason.
unfoldable pub send_step : ℕ → Item → Bool → IntQueue → SendPc → IntQueue × SendPc
send_step mask x swap_ok q load_tail = (q, load_seq q.req_tail)
send_step mask x swap_ok q (load_seq pos) =
    let diff = sub64 (q.slot (bit_and pos mask)).sequence pos in
    (q, if diff == 0 then claim pos else if leb sign_bit diff then count_full else load_tail)
send_step mask x swap_ok q (claim pos) =
    if swap_ok && (q.req_tail == pos)
    then (record q { req_tail = add64 pos 1 }, store pos)
    else (q, load_seq q.req_tail)
send_step mask x swap_ok q (store pos) =
    let i = bit_and pos mask in
    (record q { slot = put q.slot i (record (q.slot i) { item = x }) }, publish pos)
send_step mask x swap_ok q (publish pos) =
    let i = bit_and pos mask in
    (record q { slot = put q.slot i (record (q.slot i) { sequence = add64 pos 1 }) }, count_sent)
send_step mask x swap_ok q count_sent = (record q { stat_requests = add64 q.stat_requests 1 }, sent)
send_step mask x swap_ok q count_full =
    (record q { stat_send_full = add64 q.stat_send_full 1 }, full)
send_step mask x swap_ok q sent = (q, sent)
send_step mask x swap_ok q full = (q, full)

-- Where a receiver stands; `pos` is its local copy of the head.
pub data RecvPc : Type 0 where
  load_head : RecvPc
  load_seq : (pos : ℕ) → RecvPc
  claim : (pos : ℕ) → RecvPc
  read : (pos : ℕ) → RecvPc  -- before the loads from the slot
  release : (pos : ℕ) (x : Item) → RecvPc  -- before the store of `sequence`
  count_empty : RecvPc
  got : (x : Item) → RecvPc
  empty : RecvPc

-- The loop of `reqrep_int_try_recv`, for a queue of `cap` slots.
unfoldable pub recv_step : ℕ → ℕ → Bool → IntQueue → RecvPc → IntQueue × RecvPc
recv_step cap mask swap_ok q load_head = (q, RecvPc.load_seq q.req_head)
recv_step cap mask swap_ok q (RecvPc.load_seq pos) =
    let diff = sub64 (q.slot (bit_and pos mask)).sequence (add64 pos 1) in
    (
      q,
      if diff == 0 then RecvPc.claim pos else if leb sign_bit diff then count_empty else load_head,
    )
recv_step cap mask swap_ok q (RecvPc.claim pos) =
    if swap_ok && (q.req_head == pos)
    then (record q { req_head = add64 pos 1 }, read pos)
    else (q, RecvPc.load_seq q.req_head)
recv_step cap mask swap_ok q (read pos) = (q, release pos (q.slot (bit_and pos mask)).item)
recv_step cap mask swap_ok q (release pos x) =
    let i = bit_and pos mask in
    (record q { slot = put q.slot i (record (q.slot i) { sequence = add64 pos cap }) }, got x)
recv_step cap mask swap_ok q count_empty =
    (record q { stat_recv_empty = add32 q.stat_recv_empty 1 }, empty)
recv_step cap mask swap_ok q (got x) = (q, got x)
recv_step cap mask swap_ok q empty = (q, empty)
