-- ===== src/Layout/Tests.antt =====
-- A file of eight request slots and two response slots.
use go_data_reqrep_shared.Base.{◌≡◌, refl, true, false, some, arith, and_not}
use go_data_reqrep_shared.Layout.{
  MmapLayout, Header, arena_off_of, arena_cap_of, resp_off_of, resp_stride_of, compute_layout,
  init_header, validate_header, reqrep_validate_header,
}
use go_data_reqrep_shared.Layout.Fresh.{
  Apart, compute_layout-Apart, fresh_header_accepted, validation_diverges,
}

abbrev layout : MmapLayout
layout = record {
  req_slots_off = 256;
  req_arena_off = 448;
  req_arena_cap = 4096;
  resp_stride = 192;
  resp_off = 4544;
  total_size = 4928;
}

computed : compute_layout 8 2 100 2048 ≡ some layout
unfolding compute_layout arena_off_of arena_cap_of resp_off_of resp_stride_of and_not
computed = refl

abbrev header : Header
header = init_header 8 2 100 layout

-- Responses of up to 2 ^ 32 - 1 bytes: the stride has wrapped to 64.
abbrev wrapped : MmapLayout
wrapped = record layout { resp_stride = 64; total_size = 4672 }

computed_wrapped : compute_layout 8 2 0xffff_ffff 2048 ≡ some wrapped
unfolding compute_layout arena_off_of arena_cap_of resp_off_of resp_stride_of and_not
computed_wrapped = refl

compute_layout-Apart_example : Apart 8 2 100 layout
compute_layout-Apart_example =
    compute_layout-Apart 8 2 100 2048 (omega arith) (omega arith) (omega arith) layout computed

fresh_header_accepted_example :
    (validate_header (init_header 8 2 100 layout) 4928 ≡ true)
    × (reqrep_validate_header (init_header 8 2 100 layout) 4928 ≡ true)
fresh_header_accepted_example =
    fresh_header_accepted 8 2 100 2048 (omega arith) (omega arith) (omega arith) layout computed
      (omega arith)

c_ok : reqrep_validate_header header 4928 ≡ true
unfolding reqrep_validate_header init_header
c_ok = refl

go_ok : validate_header header 4928 ≡ true
unfolding validate_header init_header
go_ok = refl

validation_diverges_example :
    (validate_header (record header { resp_off = 8000 }) 4928 ≡ true)
    × (reqrep_validate_header (record header { resp_off = 8000 }) 4928 ≡ false)
unfolding init_header
validation_diverges_example =
    validation_diverges header 4928 8000 go_ok (omega arith) (omega arith) (omega arith)
      (omega arith)
