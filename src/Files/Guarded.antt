-- ===== src/Files/Guarded.antt =====
-- The creations of gen/reqrep.h write to a named file only under its lock, and to none that has bytes.
use go_data_reqrep_shared.Base.{
  ℕ, ◌+◌, ◌*◌, ◌%◌, ◌≡◌, ◌≢◌, refl, some, [], ◌∷◌, ◌==◌, false, if◌then◌else◌, u64_mod, Bool-cases,
  Option-cases, inl, inr, arith,
}
use go_data_reqrep_shared.Layout.{MmapLayout}
use go_data_reqrep_shared.Reference.Layout.{next_pow2, reqrep_compute_layout}
use go_data_reqrep_shared.IntMode.File.{int_compute_layout}
use go_data_reqrep_shared.Files.{
  PathName, FileEvent, Trace, Kernel, Outcome, truncated, mapped, initialised, int_initialised,
  header_written,
}
use go_data_reqrep_shared.Files.Open.{or_unmap}
use go_data_reqrep_shared.Files.Create.{
  Plan, string_plan, int_plan, with_layout, with_int_layout, create_file, reqrep_create,
  reqrep_create_int,
}
use go_data_reqrep_shared.Files.Writes.{
  is_write, Holds, KeepsNew, or_unmap-Quiet, or_null-Quiet, create_file-Quiet,
}

-- The last event is that the system mapped the file behind a descriptor to `base`, just after the
-- process has extended that file, whose lock it holds.
pub record MapsLocked (k : Kernel) (base : ℕ) (t : Trace) : Type 0 where
  pub fd : ℕ
  pub size : ℕ
  pub before : Trace
  pub latest : t ≡ mapped base size ∷ truncated fd size ∷ before
  pub of_file : k.mmap (truncated fd size ∷ before) (some fd) size ≡ some base
  pub under_lock : Holds fd before

-- What an event that writes needs.
abbrev Guard : Kernel → FileEvent → Trace → Type 0
Guard k (truncated fd size) t = Holds fd t × (k.fstat t fd ≡ some 0)
Guard k (initialised base x) t = MapsLocked k base t
Guard k (int_initialised base x) t = MapsLocked k base t
Guard k (header_written base h) t = MapsLocked k base t
Guard k e t = Unit {0}

-- Each write in the trace was made to an empty file under the lock of that file.
abbrev pub WritesLocked : Kernel → Trace → Type 0
WritesLocked k [] = Unit {0}
WritesLocked k (e ∷ t) = Guard k e t × WritesLocked k t

silent-Guard : (k : Kernel) (e : FileEvent) (t : Trace) → is_write e ≡ false → Guard k e t
silent-Guard k (truncated fd size) t silent = absurd (cc silent)
silent-Guard k (initialised base x) t silent = absurd (cc silent)
silent-Guard k (int_initialised base x) t silent = absurd (cc silent)
silent-Guard k (header_written base h) t silent = absurd (cc silent)
silent-Guard k e t silent = tt

-- An event that initialises the mapping at `base`.
abbrev Initialises : ℕ → FileEvent → Type 0
Initialises base (initialised b x) = b ≡ base
Initialises base (int_initialised b x) = b ≡ base
Initialises base e = ⊥

Initialises-Guard :
    (k : Kernel) (e : FileEvent) (base : ℕ) (t : Trace)
    → Initialises base e
    → MapsLocked k base t
    → Guard k e t
Initialises-Guard k (initialised b x) base t same maps = rw same maps
Initialises-Guard k (int_initialised b x) base t same maps = rw same maps
Initialises-Guard k e base t i maps = absurd i

-- How many writes the trace has.
abbrev pub written : Trace → ℕ
written [] = 0
written (e ∷ t) = (if is_write e then 1 else 0) + written t

module _ (W : Trace → Type 0) (t : Trace) (w : W t) where
  with_layout-Quiet :
      (c n d a : ℕ) (rest : MmapLayout → Trace → Outcome × Trace)
      → ((l : MmapLayout) → W (rest l t).1)
      → W (with_layout c n d a rest t).1
  unfolding with_layout
  with_layout-Quiet c n d a rest step = elim (Bool-cases (c == 0)) [
    | inl e ↦ rw (e, with_layout) w
    | inr e₁ ↦ elim (Bool-cases (n == 0)) [
      | inl e₂ ↦ rw (e₁, e₂, with_layout) w
      | inr e₂ ↦
          elim (Option-cases
            (reqrep_compute_layout c n d (if a == 0 then c * 256 % u64_mod else a))) [
              | inl e₃ ↦ rw (e₁, e₂, e₃, with_layout) w
              | inr (l, e₃) ↦ rw (e₁, e₂, e₃, with_layout) (step l)
            ]
    ]
  ]

  with_int_layout-Quiet :
      (c n : ℕ) (rest : MmapLayout → Trace → Outcome × Trace)
      → ((l : MmapLayout) → W (rest l t).1)
      → W (with_int_layout c n rest t).1
  unfolding with_int_layout
  with_int_layout-Quiet c n rest step = elim (Bool-cases (c == 0)) [
    | inl e ↦ rw (e, with_int_layout) w
    | inr e₁ ↦ elim (Bool-cases (n == 0)) [
      | inl e₂ ↦ rw (e₁, e₂, with_int_layout) w
      | inr e₂ ↦ elim (Option-cases (int_compute_layout c n)) [
        | inl e₃ ↦ rw (e₁, e₂, e₃, with_int_layout) w
        | inr (l, e₃) ↦ rw (e₁, e₂, e₃, with_int_layout) (step l)
      ]
    ]
  ]

-- What a creation of either mode keeps of a property that only writes can break.
module _ (W : Trace → Type 0)
    (quiet : (e : FileEvent) (t : Trace) → is_write e ≡ false → W t → W (e ∷ t)) (k : Kernel)
    (path : PathName)
    (new : (p : Plan) (fd : ℕ) (t : Trace)
      → ((t' : Trace) (base : ℕ) → Initialises base (p.initialise t' base))
      → W t
      → Holds fd t
      → k.fstat t fd ≡ some 0
      → KeepsNew k W p fd t) where
  reqrep_create-Quiet :
      (c n d a : ℕ) (t : Trace) → W t → W (reqrep_create k (some path) c n d a t).1
  unfolding reqrep_create string_plan
  reqrep_create-Quiet c n d a t w =
      let plan : MmapLayout → Plan = λ l. string_plan k (next_pow2 c) n d l or_unmap in
      with_layout-Quiet W t w (next_pow2 c) n d a (λ l. create_file k (plan l) (some path))
        λ l.
          create_file-Quiet W quiet k (plan l) (or_unmap-Quiet W quiet k) path t w
            λ fd t'. new (plan l) fd t' (λ _ _. refl)

  reqrep_create_int-Quiet :
      (c n : ℕ) (t : Trace) → W t → W (reqrep_create_int k (some path) c n t).1
  unfolding reqrep_create_int int_plan
  reqrep_create_int-Quiet c n t w =
      let plan : MmapLayout → Plan = int_plan k (next_pow2 c) n in
      with_int_layout-Quiet W t w (next_pow2 c) n (λ l. create_file k (plan l) (some path))
        λ l.
          create_file-Quiet W quiet k (plan l) (λ base size. or_null-Quiet W quiet k) path t w
            λ fd t'. new (plan l) fd t' (λ _ _. refl)

-- On a trace in which each earlier write was made so, reqrep_create and reqrep_create_int on a path
-- extend a file only while they hold its lock and fstat gives it the size 0, and initialise a mapping
-- only just after they have extended a file under its lock and mmap has mapped that file there.
pub created-WritesLocked :
    (k : Kernel) (path : PathName) (req_cap resp_slots resp_data_max arena_hint : ℕ) (t : Trace)
    → WritesLocked k t
    → WritesLocked k (reqrep_create k (some path) req_cap resp_slots resp_data_max arena_hint t).1
      × WritesLocked k (reqrep_create_int k (some path) req_cap resp_slots t).1
created-WritesLocked k path c n d a t w = (
  reqrep_create-Quiet (WritesLocked k) quiet k path new c n d a t w,
  reqrep_create_int-Quiet (WritesLocked k) quiet k path new c n t w,
)
  where
    quiet :
        (e : FileEvent) (t : Trace) → is_write e ≡ false → WritesLocked k t → WritesLocked k (e ∷ t)
    quiet e t silent w = (silent-Guard k e t silent, w)

    new :
        (p : Plan) (fd : ℕ) (t : Trace)
        → ((t' : Trace) (base : ℕ) → Initialises base (p.initialise t' base))
        → WritesLocked k t
        → Holds fd t
        → k.fstat t fd ≡ some 0
        → KeepsNew k (WritesLocked k) p fd t
    new p fd t init w held size =
        let grown : WritesLocked k (truncated fd p.total_size ∷ t) = ((held, size), w) in
        (grown, λ base e. (Initialises-Guard k _ base _ (init _ base) (maps base e), (tt, grown)))
      where
        maps :
            (base : ℕ)
            → k.mmap (truncated fd p.total_size ∷ t) (some fd) p.total_size ≡ some base
            → MapsLocked k base (mapped base p.total_size ∷ truncated fd p.total_size ∷ t)
        maps base e = record {
          fd = fd;
          size = p.total_size;
          before = t;
          latest = refl;
          of_file = e;
          under_lock = held;
        }

-- On a system where no file is empty, reqrep_create and reqrep_create_int on a path write to no file.
pub existing_untouched :
    (k : Kernel)
    → ((t : Trace) (fd : ℕ) → k.fstat t fd ≢ some 0)
    → (path : PathName) (req_cap resp_slots resp_data_max arena_hint : ℕ) (t : Trace)
    → (written (reqrep_create k (some path) req_cap resp_slots resp_data_max arena_hint t).1
        ≡ written t)
      × (written (reqrep_create_int k (some path) req_cap resp_slots t).1 ≡ written t)
existing_untouched k full path c n d a t = (
  reqrep_create-Quiet (λ s. written s ≡ written t) quiet k path new c n d a t refl,
  reqrep_create_int-Quiet (λ s. written s ≡ written t) quiet k path new c n t refl,
)
  where
    quiet :
        (e : FileEvent) (s : Trace)
        → is_write e ≡ false
        → written s ≡ written t
        → written (e ∷ s) ≡ written t
    quiet e s silent w = rw silent (omega (arith, w))

    new :
        (p : Plan) (fd : ℕ) (s : Trace)
        → ((t' : Trace) (base : ℕ) → Initialises base (p.initialise t' base))
        → written s ≡ written t
        → Holds fd s
        → k.fstat s fd ≡ some 0
        → KeepsNew k (λ s'. written s' ≡ written t) p fd s
    new p fd s init w held size = absurd (full s fd size)
