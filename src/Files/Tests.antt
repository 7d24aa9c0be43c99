-- ===== src/Files/Tests.antt =====
-- Runs over small systems, and the properties at them.
use go_data_reqrep_shared.Base.{
  ℕ, ◌+◌, ◌≡◌, ◌≢◌, refl, some, none, List, [], ◌∷◌, Bool, true, false, if◌then◌else◌, ltb, arith,
  and_not,
}
use go_data_reqrep_shared.Layout.{MmapLayout, Header}
use go_data_reqrep_shared.Reference.Layout.{next_pow2, reqrep_compute_layout, reqrep_init_header}
use go_data_reqrep_shared.IntMode.File.{int_compute_layout}
use go_data_reqrep_shared.Files.{
  PathName, Trace, Kernel, OpenHandle, Outcome, opened, closed, locked, unlocked, mapped, allocated,
  truncated, initialised,
}
use go_data_reqrep_shared.Files.GoOpen.{Options, open_or_create, open_existing}
use go_data_reqrep_shared.Files.GoEnds.{GoEnds}
use go_data_reqrep_shared.Files.GoOpened.{go_opened-GoEnds}
use go_data_reqrep_shared.Files.Open.{
  handle_at, reqrep_open, with_opened, or_unmap, reqrep_setup_handle,
}
use go_data_reqrep_shared.Files.Create.{or_null, reqrep_create, reqrep_create_int}
use go_data_reqrep_shared.Files.Descriptors.{reqrep_destroy}
use go_data_reqrep_shared.Files.Ledger.{one, descriptor, taken, given, mapping}
use go_data_reqrep_shared.Files.Uses.{
  Opening, create, create_int, Use, eventfd_create, notify, receive, eventfd_set, open_with,
  use_all, all_handed_over,
}
use go_data_reqrep_shared.Files.Lifetime.{lifetime, Ends, open_with-Ends}
use go_data_reqrep_shared.Files.Valid.{IsSane}
use go_data_reqrep_shared.Files.Bounds.{InBounds}
use go_data_reqrep_shared.Files.Opened.{opened-InBounds}
use go_data_reqrep_shared.Files.Guarded.{
  WritesLocked, written, created-WritesLocked, existing_untouched,
}
use go_data_reqrep_shared.Files.Reopen.{Serves, Opens, created_header, created-Opens}
use go_data_reqrep_shared.Files.Open.{mode_str}

abbrev name : PathName
name = 47 ∷ 114 ∷ []

abbrev layout : MmapLayout
layout = record {
  req_slots_off = 256;
  req_arena_off = 304;
  req_arena_cap = 4096;
  resp_stride = 128;
  resp_off = 4416;
  total_size = 4544;
}

abbrev file_header : Header
file_header = (reqrep_init_header 2 1 64 layout []).0

-- A system that refuses only a mapping of 2 ^ 62 bytes or more, with a file of `size` bytes, and
-- memory if `has_memory`.
abbrev kernel : ℕ → Bool → Kernel
kernel size has_memory = record {
  open_file = λ t path may_create. some 5;
  memfd_create = λ t path. some 6;
  flock = λ t fd. true;
  fstat = λ t fd. some size;
  ftruncate = λ t fd n. true;
  mmap = λ t fd n. if ltb n 0x4000_0000_0000_0000 then some 65536 else none;
  dup = λ t fd. some 7;
  eventfd = λ t. some 8;
  calloc = λ t. if has_memory then some 100 else none;
  realloc = λ t old n. some 300;
  strdup = λ t path. some 200;
  header = λ t base. file_header;
  header_bytes = λ t base. 1 ∷ [];
  int_slots =
      λ t base i. record { sequence = 0; item = record { value = 0; resp_slot = 0; resp_gen = 0 } };
  area = λ t base. [];
}

abbrev file_handle : OpenHandle
file_handle = handle_at 65536 4544 none file_header 100 (some 200)

abbrev uses : List Use
uses = eventfd_create ∷ notify ∷ receive 10 ∷ eventfd_set (some 9) ∷ []

abbrev opening : Opening
opening = create (some name) 2 1 64 100

-- What the creation of a new file has done, the last event first.
abbrev creation : Trace
creation =
    allocated 200
    ∷ allocated 100
    ∷ closed 5
    ∷ unlocked 5
    ∷ initialised 65536 (reqrep_init_header 2 1 64 layout [])
    ∷ mapped 65536 4544
    ∷ truncated 5 4544
    ∷ locked 5
    ∷ opened 5
    ∷ []

creation_run : open_with (kernel 0 true) opening [] ≡ (Outcome.handle file_handle, creation)
unfolding open_with reqrep_create next_pow2 reqrep_compute_layout and_not with_opened or_unmap
    reqrep_setup_handle
creation_run = refl

-- Without memory for the handle, the int mode's mapping stays.
int_mapping_left :
    let (r, t) = reqrep_create_int (kernel 0 false) none 2 1 [] in
    (r ≡ Outcome.no_memory) × (taken (mapping 65536 384) t ≡ 1) × (given (mapping 65536 384) t ≡ 0)
unfolding reqrep_create_int one next_pow2 int_compute_layout and_not reqrep_setup_handle or_null
int_mapping_left = (refl, refl, refl)

-- In the string mode it is given back.
string_mapping_returned :
    let (r, t) = reqrep_create (kernel 0 false) none 2 1 64 100 [] in
    (r ≡ Outcome.no_memory)
    × (taken (mapping 65536 4544) t ≡ 1)
    × (given (mapping 65536 4544) t ≡ 1)
unfolding reqrep_create one next_pow2 reqrep_compute_layout and_not reqrep_setup_handle or_unmap
string_mapping_returned = (refl, refl, refl)

lifetime_example :
    let (h, t) = use_all (kernel 0 true) uses file_handle creation in
    let end = reqrep_destroy h t in
    taken (descriptor 9) end
      + given (descriptor 9) []
      + all_handed_over (kernel 0 true) (descriptor 9) uses file_handle creation
    ≡ given (descriptor 9) end + taken (descriptor 9) []
lifetime_example =
    lifetime (kernel 0 true) (descriptor 9) opening uses [] file_handle creation creation_run

open_with-Ends_example :
    Ends (create_int none 2 1) [] (open_with (kernel 0 false) (create_int none 2 1) [])
open_with-Ends_example = open_with-Ends (kernel 0 false) (create_int none 2 1) []

kernel-IsSane : (size : ℕ) → IsSane (kernel size true)
unfolding reqrep_init_header
kernel-IsSane size = record {
  in_space = λ t fd n base e. ground (arith, e);
  words = λ t base. record {
    req_cap_fits = omega arith;
    req_arena_off_fits = omega arith;
    req_arena_cap_fits = omega arith;
    resp_slots_fits = omega arith;
    resp_off_fits = omega arith;
    resp_stride_fits = omega arith;
  };
}

opened-InBounds_example : InBounds mode_str file_handle
opened-InBounds_example =
    opened-InBounds (kernel 0 true) (kernel-IsSane 0) opening
      (omega arith, omega arith, omega arith) [] file_handle creation creation_run

created-WritesLocked_example :
    WritesLocked (kernel 0 true) (reqrep_create (kernel 0 true) (some name) 2 1 64 100 []).1
    × WritesLocked (kernel 0 true) (reqrep_create_int (kernel 0 true) (some name) 2 1 []).1
created-WritesLocked_example = created-WritesLocked (kernel 0 true) name 2 1 64 100 [] tt

kernel_full : (t : Trace) (fd : ℕ) → (kernel 4544 true).fstat t fd ≢ some 0
kernel_full t fd e = ground arith

existing_untouched_example :
    (written (reqrep_create (kernel 4544 true) (some name) 2 1 64 100 []).1 ≡ written [])
    × (written (reqrep_create_int (kernel 4544 true) (some name) 2 1 []).1 ≡ written [])
existing_untouched_example = existing_untouched (kernel 4544 true) kernel_full name 2 1 64 100 []

layout_made : reqrep_compute_layout (next_pow2 2) 1 64 100 ≡ some layout
unfolding reqrep_compute_layout next_pow2 and_not
layout_made = refl

two_kept : next_pow2 2 ≢ 0
unfolding next_pow2
two_kept e = omega (arith, e)

kernel-Serves : Serves (kernel 4544 true) name 4544 (created_header 2 1 64 layout)
unfolding next_pow2
kernel-Serves = record {
  fd = 5;
  base = 65536;
  address = 100;
  opens = λ t. refl;
  locks = λ t. refl;
  sizes = λ t. refl;
  maps = λ t. refl;
  holds = λ t. refl;
  allocates = λ t. refl;
}

created-Opens_example :
    Opens (created_header 2 1 64 layout) (reqrep_open (kernel 4544 true) (some name) mode_str [])
created-Opens_example =
    created-Opens 2 1 64 100 layout (omega arith) two_kept (omega arith) (omega arith) (omega arith)
      layout_made (omega arith) (kernel 4544 true) name [] kernel-Serves

-- All the options at their defaults, but for the number of response slots.
abbrev options : Options
options = record { req_cap = 0; req_arena_cap = 0; resp_slots = 3; resp_data_max = 0 }

go_opened-GoEnds_example :
    GoEnds [] (open_or_create (kernel 0 true) name options [])
    × GoEnds [] (open_existing (kernel 0 true) name [])
go_opened-GoEnds_example =
    go_opened-GoEnds (kernel 0 true) (kernel-IsSane 0).words name options (omega arith) []
