-- ===== src/Files/Ledger.antt =====
-- The resources that a trace has taken and given back, and what a handle owns of them.
use go_data_reqrep_shared.Base.{
  ℕ, ◌+◌, ◌≡◌, Bool, false, ◌&&◌, Option, none, some, [], ◌∷◌, if◌then◌else◌, ◌==◌,
}
use go_data_reqrep_shared.Files.{FileEvent, Trace, OpenHandle, Outcome}

pub data Resource : Type 0 where
  descriptor lock memory : ℕ → Resource
  mapping : ℕ → ℕ → Resource

same : Resource → Resource → Bool
same (descriptor a) (descriptor b) = a == b
same (lock a) (lock b) = a == b
same (memory a) (memory b) = a == b
same (mapping a m) (mapping b n) = (a == b) && (m == n)
same _ _ = false

-- One if the two are the same.
unfoldable pub one : Resource → Resource → ℕ
unfolding same
one r s = if same r s then 1 else 0

module _ (r : Resource) where
  -- How many of `r` an event takes, and how many it gives back.
  abbrev taken_by : FileEvent → ℕ
  taken_by (FileEvent.opened fd) = one r (descriptor fd)
  taken_by (FileEvent.locked fd) = one r (lock fd)
  taken_by (FileEvent.mapped base size) = one r (mapping base size)
  taken_by (FileEvent.allocated a) = one r (memory a)
  taken_by _ = 0

  abbrev given_by : FileEvent → ℕ
  given_by (FileEvent.closed fd) = one r (descriptor fd)
  given_by (FileEvent.unlocked fd) = one r (lock fd)
  given_by (FileEvent.unmapped base size) = one r (mapping base size)
  given_by (FileEvent.freed a) = one r (memory a)
  given_by _ = 0

  abbrev pub taken : Trace → ℕ
  taken [] = 0
  taken (e ∷ t) = taken_by e + taken t

  abbrev pub given : Trace → ℕ
  given [] = 0
  given (e ∷ t) = given_by e + given t

  abbrev pub owned_fd : Option ℕ → ℕ
  owned_fd none = 0
  owned_fd (some fd) = one r (descriptor fd)

  abbrev pub owned_memory : Option ℕ → ℕ
  owned_memory none = 0
  owned_memory (some a) = one r (memory a)

  -- How many of `r` a handle owns.
  abbrev pub owned : OpenHandle → ℕ
  owned h =
      one r (mapping h.hdr h.mmap_size)
      + one r (memory h.address)
      + owned_memory h.path
      + owned_memory h.copy_buf
      + owned_fd h.notify_fd
      + owned_fd h.reply_fd
      + owned_fd h.backing_fd

  -- A mapping, and a descriptor if there is one.
  abbrev pub mapped_file : ℕ → ℕ → Option ℕ → ℕ
  mapped_file base size fd = one r (mapping base size) + owned_fd fd

-- From one trace to the next, of each resource so many are taken that are not given back.
abbrev pub Adds : Trace → Trace → (Resource → ℕ) → Type 0
Adds t t' f = (r : Resource) → taken r t' + given r t ≡ given r t' + taken r t + f r

-- A call that began at `t` has ended: its handle owns what it has taken, and an error has given
-- everything back.
abbrev pub Settled : Trace → Outcome × Trace → Type 0
Settled t (Outcome.handle h, t') = Adds t t' (λ r. owned r h)
Settled t (Outcome.refused e, t') = Adds t t' (λ r. 0)
Settled t (Outcome.no_memory, t') = Adds t t' (λ r. 0)

-- The same, but without memory for a handle a mapping stays, with a descriptor if `keeps_fd`.
abbrev pub Leaks : Bool → Trace → Outcome × Trace → Type 0
Leaks keeps_fd t (Outcome.handle h, t') = Adds t t' (λ r. owned r h)
Leaks keeps_fd t (Outcome.refused e, t') = Adds t t' (λ r. 0)
Leaks keeps_fd t (Outcome.no_memory, t') =
    (base : ℕ) × (size : ℕ) × (fd : ℕ) × Adds t t'
      (λ r. mapped_file r base size (if keeps_fd then some fd else none))

-- The same for `reqrep_setup_handle`, which is given a mapping and perhaps a descriptor: the handle
-- owns them, or they are still there.
abbrev pub SetUp : Trace → ℕ → ℕ → Option ℕ → Option OpenHandle × Trace → Type 0
SetUp t base size fd (some h, t') = Adds t t' (λ r. owned r h)
SetUp t base size fd (none, t') = Adds t t' (λ r. mapped_file r base size fd)
