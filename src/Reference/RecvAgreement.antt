-- ===== src/Reference/RecvAgreement.antt =====
-- Receiving: the C function and the Go function.
use go_data_reqrep_shared.Base.{
  ℕ, ◌<◌, ◌^◌, ◌≡◌, refl, ap, sym, ◌∙◌, true, Option, none, some, List, arith, Run, ok, ◌>>=◌,
  ℕ_discrete, ◌≢◌, add32, slice,
}
use go_data_reqrep_shared.Shm.{Queue, ReqSlot, make_id}
use go_data_reqrep_shared.Arena
use go_data_reqrep_shared.Queue
use go_data_reqrep_shared.Queue.Invariant.{IsValid}
use go_data_reqrep_shared.Queue.Received.{
  first, shorter, polled, polled_lem, recv_taken, first-inside,
}
use go_data_reqrep_shared.Queue.Window.{IsSetUp}
use go_data_reqrep_shared.Queue.Blocks.{len_of}
use go_data_reqrep_shared.Reference.{Handle}
use go_data_reqrep_shared.Reference.Agreement.{view}
use go_data_reqrep_shared.Reference.CopyBuf.{ensure_copy_buf}
use go_data_reqrep_shared.Reference.Growth.{Roomy, ensure_copy_buf_room}
use go_data_reqrep_shared.Reference.Queue.{
  RecvResult, received, empty, out_of_memory, copy_out, release, recv_locked,
}

-- What Go hands out: no UTF-8 mark, and no memory of its own to run out of.
abbrev pub handed_out : RecvResult → Option (List ℕ × ℕ)
handed_out (received bytes id utf8) = some (bytes, id)
handed_out empty = none
handed_out out_of_memory = none

abbrev pub forget : Run (Handle × Queue × RecvResult) → Run (Queue × Option (List ℕ × ℕ))
forget r = r >>= λ x. ok (x.1, handed_out x.2)

module _ (h : Handle) (q : Queue) (v : IsSetUp (view h)) (w : IsValid (view h) q)
    (buf : h.copy_buf_cap < 2 ^ 32) where
  abbrev oldest : ReqSlot
  oldest = first v w

  same_release : release q oldest ≡ shorter v w
  unfolding release Arena.release_arena_locked
  same_release = refl

  module _ (waiting : q.req_tail ≢ q.req_head) where
    abbrev handed : Option (List ℕ × ℕ)
    handed =
        some
          (slice q.arena oldest.arena_off (len_of oldest), make_id oldest.resp_slot oldest.resp_gen)

    c_copy : (h' : Handle) → forget (copy_out h q oldest (some h')) ≡ ok (release q oldest, handed)
    unfolding copy_out
    c_copy h' = ground (arith, first-inside v w waiting)

    c_start :
        recv_locked true h q
        ≡ copy_out h q oldest (ensure_copy_buf true h (add32 (len_of oldest) 1))
    unfolding recv_locked
    c_start = ground arith

    -- With memory at hand the bytes are copied out, and the queue released.
    c_taken : forget (recv_locked true h q) ≡ ok (release q oldest, handed)
    c_taken =
        let needed : ℕ = add32 (len_of oldest) 1 in
        let r : Roomy h needed (ensure_copy_buf true h needed) =
          ensure_copy_buf_room h needed buf (omega arith) in
        ap forget (c_start ∙ ap (copy_out h q oldest) r.1) ∙ c_copy r.0

  c_polled : q.req_tail ≡ q.req_head → forget (recv_locked true h q) ≡ ok (polled v w, none)
  unfolding recv_locked
  c_polled idle = ground arith

  -- On any valid queue, when realloc succeeds, the C recv_locked and the Go recv_locked hand out
  -- the same bytes under the same id, or both find nothing, and leave the same queue behind.
  pub recv_agrees : forget (recv_locked true h q) ≡ Queue.recv_locked (view h) q
  recv_agrees = elim (ℕ_discrete q.req_tail q.req_head) [
    | yes idle ↦ c_polled idle ∙ sym (polled_lem v w idle)
    | no waiting ↦
        c_taken waiting
        ∙ ap (λ t. ok (t, handed waiting)) same_release
        ∙ sym (recv_taken v w waiting)
  ]
