-- ===== src/Arena.antt =====
-- reqrep_arena.go: the circular arena that holds the bytes of the queued requests. The functions run
-- under the arena mutex. `fault` is a Go panic: a slice bound that is out of range.
pub mod Write
use go_data_reqrep_shared.Base.{
  ℕ, ◌-◌, Bool, ◌||◌, Option, none, some, List, if◌then◌else◌, ltb, leb, ◌==◌, u32, add32, add64,
  sub64, and_not, length, slice, copy_at, Run, ok, fault,
}
use go_data_reqrep_shared.Shm.{Shm, Queue}

-- `length` rounded up to 8 bytes, at least 8.
unfoldable pub alloc_size : ℕ → ℕ
alloc_size len = let alloc = and_not (add32 len 7) 7 in if alloc == 0 then 8 else alloc

-- The position of a block of `alloc` bytes and the bytes that it takes up: at the end of the arena
-- it goes to the front, and the tail that it leaves out counts too.
unfoldable pub wrap_around : ℕ → ℕ → ℕ → ℕ × ℕ
wrap_around cap wpos alloc =
    if ltb cap (add64 wpos alloc) then (0, add64 alloc (sub64 cap wpos)) else (wpos, alloc)

-- `arena[lo:hi]` panics unless `lo <= hi <= len(arena)`.
abbrev pub out_of_range : ℕ → ℕ → ℕ → Bool
out_of_range cap lo hi = ltb hi lo || ltb cap hi

-- The copy into the arena, and the two stores behind it.
unfoldable pub commit : Shm → Queue → List ℕ → ℕ → ℕ → ℕ → ℕ → Run (Queue × Option (ℕ × ℕ))
commit s q bytes len alloc wpos skip =
    if out_of_range s.req_arena_cap wpos (add32 wpos len)
    then fault
    else ok (
      record q {
        arena = copy_at q.arena wpos (slice bytes 0 len);
        arena_wpos = add32 wpos alloc;
        arena_used = add32 q.arena_used (u32 skip);
      },
      some (wpos, u32 skip),
    )

-- A full arena is reset if the queue is empty, and refuses the request if not.
unfoldable pub place : Shm → Queue → List ℕ → ℕ → ℕ → ℕ → ℕ → Run (Queue × Option (ℕ × ℕ))
place s q bytes len alloc wpos skip =
    if ltb s.req_arena_cap (add64 q.arena_used skip)
    then (if q.req_tail == q.req_head
        then commit s (record q { arena_wpos = 0; arena_used = 0 }) bytes len alloc 0 alloc
        else ok (record q { stat_send_full = add64 q.stat_send_full 1 }, none))
    else commit s q bytes len alloc wpos skip

-- `writeArenaLocked`: the offset and the skip, or `none` for its `ok == false`.
unfoldable pub write_arena_locked : Shm → Queue → List ℕ → Run (Queue × Option (ℕ × ℕ))
unfolding wrap_around
write_arena_locked s q bytes =
    let len = u32 (length bytes) in
    let alloc = alloc_size len in
    let (wpos, skip) = wrap_around s.req_arena_cap q.arena_wpos alloc in
    if ltb s.req_arena_cap len then ok (q, none) else place s q bytes len alloc wpos skip

-- `readArena`, with the copy that its caller makes.
unfoldable pub read_arena : Shm → Queue → ℕ → ℕ → Run (List ℕ)
read_arena s q off len =
    if out_of_range s.req_arena_cap off (add32 off len) then fault else ok (slice q.arena off len)

-- `releaseArenaLocked`
unfoldable pub release_arena_locked : Queue → ℕ → Queue
release_arena_locked q skip =
    let used = if leb skip q.arena_used then q.arena_used - skip else 0 in
    record q { arena_used = used; arena_wpos = if used == 0 then 0 else q.arena_wpos }
