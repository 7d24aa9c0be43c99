-- ===== src/Reference/CopyBuf.antt =====
-- The receive buffer of a handle: `reqrep_ensure_copy_buf`.
use go_data_reqrep_shared.Base.{
  ℕ, zero, suc, ◌*◌, ◌%◌, Bool, Option, none, some, if◌then◌else◌, ltb, leb, ◌==◌, u32_mod,
}
use go_data_reqrep_shared.Reference.{Handle}

-- `while (ns < needed) { n2 = ns * 2; if (n2 <= ns) { ns = needed; break; } ns = n2; }`, with fuel;
-- `none` means that the fuel ran out.
unfoldable pub grow : ℕ → ℕ → ℕ → Option ℕ
grow zero ns needed = none
grow (suc fuel) ns needed =
    let n2 = ns * 2 % u32_mod in
    let rest = grow fuel n2 needed in
    if ltb ns needed then (if leb n2 ns then some needed else rest) else some ns

abbrev pub grow_fuel : ℕ
grow_fuel = 33

-- A failed `realloc` leaves the buffer as it is.
unfoldable pub resize : Bool → Handle → Option ℕ → Option Handle
resize realloc_ok h none = none
resize realloc_ok h (some ns) = if realloc_ok then some (record h { copy_buf_cap = ns }) else none

-- `realloc_ok` is what `realloc` answers; `none` is the return value 0.
unfoldable pub ensure_copy_buf : Bool → Handle → ℕ → Option Handle
unfolding grow resize
ensure_copy_buf realloc_ok h needed =
    if leb needed h.copy_buf_cap
    then some h
    else resize realloc_ok h
        (grow grow_fuel (if h.copy_buf_cap == 0 then 64 else h.copy_buf_cap) needed)
