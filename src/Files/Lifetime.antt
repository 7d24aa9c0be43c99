-- ===== src/Files/Lifetime.antt =====
-- A handle from its opening to `reqrep_destroy`: what it takes in between is given back.
use go_data_reqrep_shared.Base.{
  ℕ, ◌+◌, ◌≡◌, Option, none, some, List, [], ◌∷◌, leb, arith, true, false, Bool-cases, inl, inr,
  subst,
}
use go_data_reqrep_shared.Files.Uses.{
  Opening, Use, create, create_memfd, create_int, create_int_memfd, by_path, by_fd, eventfd_create,
  notify, consume, reply_eventfd_create, reply_notify, reply_consume, sync, eventfd_set,
  reply_eventfd_set, receive, handed, handed_over, open_with, use_handle, use_all, all_handed_over,
}
use go_data_reqrep_shared.Files.{unmapped, Trace, Kernel, OpenHandle, Outcome}
use go_data_reqrep_shared.Reference.CopyBuf.{ensure_copy_buf}
use go_data_reqrep_shared.Files.Descriptors.{
  close_if_set, free_if_set, close_replaced, increment, drain, keep_or_create, reqrep_destroy,
  reqrep_eventfd_create, reqrep_eventfd_set, reqrep_notify, reqrep_eventfd_consume,
  reqrep_reply_eventfd_create, reqrep_reply_eventfd_set, reqrep_reply_notify,
  reqrep_reply_eventfd_consume, reqrep_sync, grow_copy_buf, keep_buffer, resize_buffer,
}
use go_data_reqrep_shared.Reference.{Handle}
use go_data_reqrep_shared.Files.Ledger.{
  Resource, taken, given, owned_fd, owned_memory, owned, Adds, Settled, Leaks,
}
use go_data_reqrep_shared.Files.OpenBalance.{reqrep_open-Settled, reqrep_open_fd-Settled}
use go_data_reqrep_shared.Files.Leaks.{
  reqrep_create-Settled, reqrep_create_memfd-Settled, reqrep_create_int-Leaks,
  reqrep_create_int_memfd-Leaks,
}

-- From one handle and trace to the next, each resource that is handed over or taken and not given
-- back is the handle's.
abbrev Balances : ℕ → Resource → OpenHandle → Trace → OpenHandle × Trace → Type 0
Balances n r h t (h', t') =
    taken r t' + given r t + owned r h + n ≡ given r t' + taken r t + owned r h'

close_replaced_lem :
    (r : Resource) (fd new : Option ℕ) (t : Trace)
    → taken r (close_replaced fd new t) + given r t + owned_fd r fd + handed r fd new
      ≡ given r (close_replaced fd new t) + taken r t + owned_fd r new
unfolding close_replaced
close_replaced_lem r none new t = omega arith
close_replaced_lem r (some fd) none t = omega arith
close_replaced_lem r (some fd) (some new) t = ground arith

increment_lem :
    (r : Resource) (fd : Option ℕ) (t : Trace)
    → (taken r (increment fd t) ≡ taken r t) × (given r (increment fd t) ≡ given r t)
unfolding increment
increment_lem r none t = ground arith
increment_lem r (some fd) t = ground arith

drain_lem :
    (r : Resource) (fd : Option ℕ) (t : Trace)
    → (taken r (drain fd t) ≡ taken r t) × (given r (drain fd t) ≡ given r t)
unfolding drain
drain_lem r none t = ground arith
drain_lem r (some fd) t = ground arith

close_if_set_lem :
    (r : Resource) (fd : Option ℕ) (t : Trace)
    → (taken r (close_if_set fd t) ≡ taken r t)
      × (given r (close_if_set fd t) ≡ owned_fd r fd + given r t)
unfolding close_if_set
close_if_set_lem r none t = ground arith
close_if_set_lem r (some fd) t = ground arith

free_if_set_lem :
    (r : Resource) (a : Option ℕ) (t : Trace)
    → (taken r (free_if_set a t) ≡ taken r t)
      × (given r (free_if_set a t) ≡ owned_memory r a + given r t)
unfolding free_if_set
free_if_set_lem r none t = ground arith
free_if_set_lem r (some a) t = ground arith

-- reqrep_destroy gives back each of what the handle owns once, and nothing else.
destroy-Adds :
    (h : OpenHandle) (t : Trace) (r : Resource)
    → (taken r (reqrep_destroy h t) ≡ taken r t)
      × (given r (reqrep_destroy h t) ≡ owned r h + given r t)
unfolding reqrep_destroy
destroy-Adds h t r =
    let t₁ = close_if_set h.notify_fd t in
    let t₂ = close_if_set h.reply_fd t₁ in
    let t₃ = close_if_set h.backing_fd t₂ in
    let t₄ = unmapped h.hdr h.mmap_size ∷ t₃ in
    let t₅ = free_if_set h.copy_buf t₄ in
    omega (
      arith,
      close_if_set_lem r h.notify_fd t,
      close_if_set_lem r h.reply_fd t₁,
      close_if_set_lem r h.backing_fd t₂,
      free_if_set_lem r h.copy_buf t₄,
      free_if_set_lem r h.path t₅,
    )

-- How the six ways to a handle end.
abbrev pub Ends : Opening → Trace → Outcome × Trace → Type 0
Ends (create path c n d a) t = Settled t
Ends (create_memfd name c n d a) t = Settled t
Ends (create_int path c n) t = Leaks false t
Ends (create_int_memfd name c n) t = Leaks true t
Ends (by_path path mode) t = Settled t
Ends (by_fd fd mode) t = Settled t

-- Whatever the system answers, each of the six ways to a handle ends so: if it returns a handle, it
-- has taken what the handle owns, of descriptors, locks, mappings and memory, and given back the
-- rest; if it returns an error, it has given back all that it took, but where calloc fails in
-- reqrep_create_int a mapping is left, and in reqrep_create_int_memfd a mapping and a descriptor.
pub open_with-Ends : (k : Kernel) (o : Opening) (t : Trace) → Ends o t (open_with k o t)
unfolding open_with
open_with-Ends k (create path c n d a) t = reqrep_create-Settled k path c n d a t
open_with-Ends k (create_memfd name c n d a) t = reqrep_create_memfd-Settled k name c n d a t
open_with-Ends k (create_int path c n) t = reqrep_create_int-Leaks k path c n t
open_with-Ends k (create_int_memfd name c n) t = reqrep_create_int_memfd-Leaks k name c n t
open_with-Ends k (by_path path mode) t = reqrep_open-Settled k path mode t
open_with-Ends k (by_fd fd mode) t = reqrep_open_fd-Settled k fd mode t

kept-handle :
    (o : Opening) (t : Trace) (h : OpenHandle) (t' : Trace)
    → Ends o t (Outcome.handle h, t')
    → Adds t t' (λ r. owned r h)
kept-handle (create path c n d a) t h t' e = e
kept-handle (create_memfd name c n d a) t h t' e = e
kept-handle (create_int path c n) t h t' e = e
kept-handle (create_int_memfd name c n) t h t' e = e
kept-handle (by_path path mode) t h t' e = e
kept-handle (by_fd fd mode) t h t' e = e

module _ (k : Kernel) (r : Resource) where
  keep_or_create_lem :
      (fd : Option ℕ) (t : Trace)
      → let (fd', t') = keep_or_create k fd t in
        taken r t' + given r t + owned_fd r fd ≡ given r t' + taken r t + owned_fd r fd'
  unfolding keep_or_create
  keep_or_create_lem (some fd) t = omega arith
  keep_or_create_lem none t = ground arith

  keep_buffer_lem :
      (h : OpenHandle) (sizes : Handle) (buf : Option ℕ) (t : Trace)
      → Balances 0 r h t (keep_buffer h sizes buf t)
  unfolding keep_buffer
  keep_buffer_lem h sizes none t = omega arith
  keep_buffer_lem h sizes (some buf) t = omega (arith, free_if_set_lem r h.copy_buf t)

  resize_buffer_lem :
      (h : OpenHandle) (sizes : Option Handle) (t : Trace)
      → Balances 0 r h t (resize_buffer k h sizes t)
  unfolding resize_buffer
  resize_buffer_lem h none t = omega arith
  resize_buffer_lem h (some sizes) t =
      keep_buffer_lem h sizes (k.realloc t h.copy_buf sizes.copy_buf_cap) t

  grow_copy_buf_lem :
      (needed : ℕ) (h : OpenHandle) (t : Trace) → Balances 0 r h t (grow_copy_buf k needed h t)
  unfolding grow_copy_buf
  grow_copy_buf_lem needed h t = elim (Bool-cases (leb needed h.sizes.copy_buf_cap)) [
    | inl e ↦ rw (e, grow_copy_buf) (omega arith)
    | inr e ↦ rw (e, grow_copy_buf) (resize_buffer_lem h (ensure_copy_buf true h.sizes needed) t)
  ]

  use_handle-Balances :
      (u : Use) (h : OpenHandle) (t : Trace)
      → Balances (handed_over r u h) r h t (use_handle k u h t)
  unfolding use_handle reqrep_eventfd_create reqrep_eventfd_set reqrep_notify reqrep_eventfd_consume
      reqrep_reply_eventfd_create reqrep_reply_eventfd_set reqrep_reply_notify
      reqrep_reply_eventfd_consume reqrep_sync
  use_handle-Balances eventfd_create h t = omega (arith, keep_or_create_lem h.notify_fd t)
  use_handle-Balances notify h t = omega (arith, increment_lem r h.notify_fd t)
  use_handle-Balances consume h t = omega (arith, drain_lem r h.notify_fd t)
  use_handle-Balances reply_eventfd_create h t = omega (arith, keep_or_create_lem h.reply_fd t)
  use_handle-Balances reply_notify h t = omega (arith, increment_lem r h.reply_fd t)
  use_handle-Balances reply_consume h t = omega (arith, drain_lem r h.reply_fd t)
  use_handle-Balances sync h t = omega arith
  use_handle-Balances (eventfd_set fd) h t = omega (arith, close_replaced_lem r h.notify_fd fd t)
  use_handle-Balances (reply_eventfd_set fd) h t =
      omega (arith, close_replaced_lem r h.reply_fd fd t)
  use_handle-Balances (receive needed) h t = grow_copy_buf_lem needed h t

  use_all-Balances :
      (us : List Use) (h : OpenHandle) (t : Trace)
      → Balances (all_handed_over k r us h t) r h t (use_all k us h t)
  unfolding use_all all_handed_over
  use_all-Balances [] h t = omega arith
  use_all-Balances (u ∷ us) h t =
      let (h', t') = use_handle k u h t in
      omega (arith, use_handle-Balances u h t, use_all-Balances us h' t')

  open_with-Adds :
      (o : Opening) (t : Trace) (h : OpenHandle) (t' : Trace)
      → open_with k o t ≡ (Outcome.handle h, t')
      → taken r t' + given r t ≡ given r t' + taken r t + owned r h
  open_with-Adds o t h t' e = kept-handle o t h t' (subst (Ends o t) e (open_with-Ends k o t)) r

  -- Whatever the system answers, a handle that was opened in any of the six ways, went through any
  -- operations on its descriptors and its receive buffer, and was destroyed, has given back each
  -- descriptor, lock, mapping and piece of memory as often as it took it or was handed it.
  pub lifetime :
      (o : Opening) (us : List Use) (t : Trace) (h : OpenHandle) (t' : Trace)
      → open_with k o t ≡ (Outcome.handle h, t')
      → let (h'', t'') = use_all k us h t' in
        let end = reqrep_destroy h'' t'' in
        taken r end + given r t + all_handed_over k r us h t' ≡ given r end + taken r t
  lifetime o us t h t' e =
      let (h'', t'') = use_all k us h t' in
      omega (arith, open_with-Adds o t h t' e, use_all-Balances us h t', destroy-Adds h'' t'' r)
