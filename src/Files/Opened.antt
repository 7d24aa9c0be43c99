-- ===== src/Files/Opened.antt =====
-- What the six ways to a handle promise together: the handle's areas lie in its mapping, in a file that
-- was new and in one that was found.
use go_data_reqrep_shared.Base.{
  [], ℕ, ◌+◌, ◌*◌, ◌%◌, ◌<◌, ◌≡◌, ◌≢◌, refl, subst, Option, some, if◌then◌else◌, ◌==◌, Bool-cases,
  Option-cases, inl, inr, arith, u32_mod, u64_mod, true,
}
use go_data_reqrep_shared.Layout.{MmapLayout}
use go_data_reqrep_shared.Reference.Layout.{next_pow2, reqrep_compute_layout, reqrep_init_header}
use go_data_reqrep_shared.IntMode.File.{int_compute_layout, int_init_header}
use go_data_reqrep_shared.Files.{Trace, Kernel, OpenHandle, Outcome}
use go_data_reqrep_shared.Files.Open.{mode_str, mode_int, or_unmap, or_unmap_close}
use go_data_reqrep_shared.Files.Create.{
  string_plan, memfd_plan, int_plan, with_layout, with_int_layout, create_file, memfd_made,
  reqrep_create, reqrep_create_memfd, reqrep_create_int, reqrep_create_int_memfd,
}
use go_data_reqrep_shared.Files.Uses.{
  Opening, create, create_memfd, create_int, create_int_memfd, by_path, by_fd, open_with,
}
use go_data_reqrep_shared.Files.Valid.{
  IsSane, Made, Accepted, or_unmap-Accepted, or_unmap_close-Accepted, or_null-Accepted,
}
use go_data_reqrep_shared.Files.OpenValid.{reqrep_open-Accepted, reqrep_open_fd-Accepted}
use go_data_reqrep_shared.Files.CreateValid.{IsFit, create_file-Accepted, memfd_made-Accepted}
use go_data_reqrep_shared.Files.Fresh.{next_pow2-bad_cap, string_header, string_header-IsWords}
use go_data_reqrep_shared.Files.IntFresh.{int_header, int_header-IsWords}
use go_data_reqrep_shared.Files.Bounds.{InBounds, Stands-InBounds}

abbrev pub mode_of : Opening → ℕ
mode_of (create path c n d a) = mode_str
mode_of (create_memfd name c n d a) = mode_str
mode_of (create_int path c n) = mode_int
mode_of (create_int_memfd name c n) = mode_int
mode_of (by_path path mode) = mode
mode_of (by_fd fd mode) = mode

-- The numbers of slots are words, and a response slot's stride too.
abbrev pub IsTyped : Opening → Type 0
IsTyped (create path c n d a) = (c < u32_mod) × (n < u32_mod) × (d + 95 < u32_mod)
IsTyped (create_memfd name c n d a) = (c < u32_mod) × (n < u32_mod) × (d + 95 < u32_mod)
IsTyped (create_int path c n) = (c < u32_mod) × (n < u32_mod)
IsTyped (create_int_memfd name c n) = (c < u32_mod) × (n < u32_mod)
IsTyped (by_path path mode) = Unit {0}
IsTyped (by_fd fd mode) = Unit {0}

with_layout-Accepted :
    (mode c n d a : ℕ) (rest : MmapLayout → Trace → Outcome × Trace) (t : Trace)
    → ((l : MmapLayout) (hint : ℕ)
        → c ≢ 0
        → 0 < n
        → reqrep_compute_layout c n d hint ≡ some l
        → Accepted mode (rest l t))
    → Accepted mode (with_layout c n d a rest t)
unfolding with_layout
with_layout-Accepted mode c n d a rest t step = elim (Bool-cases (c == 0)) [
  | inl e ↦ rw (e, with_layout) tt
  | inr e₁ ↦ elim (Bool-cases (n == 0)) [
    | inl e₂ ↦ rw (e₁, e₂, with_layout) tt
    | inr e₂ ↦
        let hint : ℕ = if a == 0 then c * 256 % u64_mod else a in
        elim (Option-cases (reqrep_compute_layout c n d hint)) [
          | inl e₃ ↦ rw (e₁, e₂, e₃, with_layout) tt
          | inr (l, e₃) ↦
              rw (e₁, e₂, e₃, with_layout)
                (step l hint (ground (arith, e₁)) (ground (arith, e₂)) e₃)
        ]
  ]
]

with_int_layout-Accepted :
    (mode c n : ℕ) (rest : MmapLayout → Trace → Outcome × Trace) (t : Trace)
    → ((l : MmapLayout)
        → c ≢ 0
        → 0 < n
        → int_compute_layout c n ≡ some l
        → Accepted mode (rest l t))
    → Accepted mode (with_int_layout c n rest t)
unfolding with_int_layout
with_int_layout-Accepted mode c n rest t step = elim (Bool-cases (c == 0)) [
  | inl e ↦ rw (e, with_int_layout) tt
  | inr e₁ ↦ elim (Bool-cases (n == 0)) [
    | inl e₂ ↦ rw (e₁, e₂, with_int_layout) tt
    | inr e₂ ↦ elim (Option-cases (int_compute_layout c n)) [
      | inl e₃ ↦ rw (e₁, e₂, e₃, with_int_layout) tt
      | inr (l, e₃) ↦
          rw (e₁, e₂, e₃, with_int_layout) (step l (ground (arith, e₁)) (ground (arith, e₂)) e₃)
    ]
  ]
]

module _ (k : Kernel) (c n : ℕ) (cap_fits : c < u32_mod) (few : n < u32_mod) where
  string_plan-IsFit :
      (d hint : ℕ) (l : MmapLayout) (finish : ℕ → ℕ → Option OpenHandle × Trace → Outcome × Trace)
      → d + 95 < u32_mod
      → next_pow2 c ≢ 0
      → 0 < n
      → reqrep_compute_layout (next_pow2 c) n d hint ≡ some l
      → ((base size : ℕ) (x : Option OpenHandle × Trace)
          → Made mode_str x
          → Accepted mode_str (finish base size x))
      → IsFit k (string_plan k (next_pow2 c) n d l finish)
  unfolding string_plan reqrep_init_header
  string_plan-IsFit d hint l finish room ne pos made ends =
      let cap = next_pow2-bad_cap c cap_fits ne in
      record {
        writes = λ t base. let same : (base == base) ≡ true = ground arith in rw same refl;
        words = string_header-IsWords (next_pow2 c) n d hint l cap.0 few made;
        accepted = λ small.
            string_header (next_pow2 c) n d hint l cap.0 cap.1 pos few room made
              (omega (arith, small));
        finishes = ends;
      }

  int_plan-IsFit :
      (l : MmapLayout)
      → next_pow2 c ≢ 0
      → 0 < n
      → int_compute_layout (next_pow2 c) n ≡ some l
      → IsFit k (int_plan k (next_pow2 c) n l)
  unfolding int_plan int_init_header
  int_plan-IsFit l ne pos made =
      let cap = next_pow2-bad_cap c cap_fits ne in
      record {
        writes = λ t base. let same : (base == base) ≡ true = ground arith in rw same refl;
        words = int_header-IsWords (next_pow2 c) n l (k.int_slots [] 0) cap.0 few made;
        accepted =
            λ small. int_header (next_pow2 c) n l (k.int_slots [] 0) cap.0 cap.1 pos few made;
        finishes = λ base size x. or_null-Accepted k mode_int x;
      }

module _ (k : Kernel) (sane : IsSane k) where
  open_with-Accepted :
      (o : Opening) (t : Trace) → IsTyped o → Accepted (mode_of o) (open_with k o t)
  unfolding open_with reqrep_create reqrep_create_memfd reqrep_create_int reqrep_create_int_memfd
      string_plan int_plan
  open_with-Accepted (create path c n d a) t (cf, nf, room) =
      with_layout-Accepted mode_str (next_pow2 c) n d a
        (λ l. create_file k (string_plan k (next_pow2 c) n d l or_unmap) path) t
        λ l hint ne pos made.
          create_file-Accepted k sane (string_plan k (next_pow2 c) n d l or_unmap)
            (string_plan-IsFit k c n cf nf d hint l or_unmap room ne pos made
              (or_unmap-Accepted k mode_str))
            path t
  open_with-Accepted (create_memfd name c n d a) t (cf, nf, room) =
      with_layout-Accepted mode_str (next_pow2 c) n d a
        (λ l t'. memfd_made k (memfd_plan k (next_pow2 c) n d l) (k.memfd_create t' name) t') t
        λ l hint ne pos made.
          memfd_made-Accepted k sane mode_str (memfd_plan k (next_pow2 c) n d l)
            (k.memfd_create t name) t
            λ own. (
              string_plan-IsFit k c n cf nf d hint l (λ base size. or_unmap_close base size own)
                  room ne pos made (λ base size. or_unmap_close-Accepted k mode_str base size own),
              refl,
            )
  open_with-Accepted (create_int path c n) t (cf, nf) =
      with_int_layout-Accepted mode_int (next_pow2 c) n
        (λ l. create_file k (int_plan k (next_pow2 c) n l) path) t
        λ l ne pos made.
          create_file-Accepted k sane (int_plan k (next_pow2 c) n l)
            (int_plan-IsFit k c n cf nf l ne pos made) path t
  open_with-Accepted (create_int_memfd name c n) t (cf, nf) =
      with_int_layout-Accepted mode_int (next_pow2 c) n
        (λ l t'. memfd_made k (λ fd. int_plan k (next_pow2 c) n l) (k.memfd_create t' name) t') t
        λ l ne pos made.
          memfd_made-Accepted k sane mode_int (λ fd. int_plan k (next_pow2 c) n l)
            (k.memfd_create t name) t λ own. (int_plan-IsFit k c n cf nf l ne pos made, refl)
  open_with-Accepted (by_path path mode) t typed = reqrep_open-Accepted k sane mode path t
  open_with-Accepted (by_fd fd mode) t typed = reqrep_open_fd-Accepted k sane mode fd t

-- On a system whose mappings lie below 2 ^ 63 and whose headers hold 32-bit fields, and for 32-bit
-- numbers of slots and responses of at most 2 ^ 32 - 96 bytes, a handle that any of the six ways
-- returns has a power-of-two number of request slots by the bit test with its mask, and its request
-- slots, arena and response slots, at least one and each with room for its header, lie in this order
-- behind the header and within the mapping, at addresses that do not wrap around.
pub opened-InBounds :
    (k : Kernel)
    → IsSane k
    → (o : Opening) → IsTyped o
    → (t : Trace) (h : OpenHandle) (t' : Trace) → open_with k o t ≡ (Outcome.handle h, t')
    → InBounds (mode_of o) h
opened-InBounds k sane o typed t h t' e =
    let (hd, s) = subst (Accepted (mode_of o)) e (open_with-Accepted k sane o t typed) in
    Stands-InBounds (mode_of o) hd h s
