-- ===== src/Lib.antt =====
-- go-data-reqrep-shared: request/reply between processes over one mapped file.
--
-- A file holds a header, a ring of request slots, an arena for the bytes of the requests, and a table
-- of response slots. Clients put requests into the ring under a mutex; servers take them out, and
-- answer through the response slot that the client acquired, which a generation number guards against
-- reuse. The Go package (the .go files at the root of the repository) ports the C functions of
-- gen/reqrep.h, which the Perl peers run over the same file; both are modelled, and compared.
--
-- Base: shared names; Base.Words has `uint32` and `uint64` arithmetic with its wrap-around, Base.Bits
--   the laws of `&` with a mask and of the power-of-two test.
-- Shm: the structs of gen/reqrep.h as records, the descriptor `shm` of reqrep.go, and request ids.
--   Areas of the file are lists; the accessors of reqrep_layout.go are not modelled.
-- Arena: reqrep_arena.go. Arena.Write says what `writeArenaLocked` does on each branch.
-- Queue: `sendLocked` and `recvLocked` of reqrep_queue.go, over the state between two operations of
--   the arena mutex. Queue.Window reads the slots between head and tail as a list, Queue.Blocks places
--   the blocks in the arena, Queue.Invariant joins them, Queue.Fifo runs sequences of operations.
-- Layout: `computeLayout`, `initHeader`, `validateHeader` and `setupShm` of reqrep.go, and
--   `reqrep_validate_header`; the errors of the first and third are `none` and `false`.
--   Layout.Generated has the structs as lists of members, from which gen/gen_layout.c prints the
--   offsets by the rules of the x86-64 ABI, and reqrep_layout_gen.go; Layout.Offsets compares them.
-- Slots: reqrep_slots.go, the table of response slots. Response: the operations of reqrep.go on one
--   slot: `writeResponse`, `readAndRelease`, `cancelRequest`, `tryDrainResponse`, one look of
--   `waitResponse`, and the failure path of `Query`. Response.Board says what a request id stands for;
--   Response.Acquire, Response.Moves and Response.Abandon what each operation does to the ids,
--   Response.Exchange and Response.Answers what sequences of them do. Each operation runs alone.
-- Mutex: the arena mutex, in Go (Mutex.Go: reqrep_mutex.go) and in C (Mutex.Peer: the functions
--   `reqrep_mutex_*` of gen/reqrep.h) as relations between the states before and after one access to
--   shared memory. Mutex.Role says what a thread makes of the lock, Mutex.System lets threads of any
--   number of processes run in any order and processes die; Mutex.Exclusion, Mutex.Takeover
--   and Mutex.Patience.
-- IntMode: the lock-free queue of gen/reqrep.h (the loops of `reqrep_int_try_send` and
--   `reqrep_int_try_recv`), one access to shared memory a step. IntMode.System runs any number of
--   senders and receivers in any order, and notes what was sent and received at each position; a
--   thread may give up an operation at any point and start another, as after the death of its process.
--   IntMode.Inv has the invariant, IntMode.Slots what the changes of the queue do to it,
--   IntMode.Locals what they leave of the other threads, IntMode.KeepSend and IntMode.KeepRecv each
--   step, IntMode.Run the whole run. IntMode.Alone runs a loop without other threads, in at most
--   seven steps and two for each spurious failure of its weak compare-and-swap, IntMode.Fifo sequences
--   of them; IntMode.File has the operations of the integer mode over the whole file,
--   IntMode.Clear and IntMode.Answer what they leave.
-- Wakeup: the wait of `recvWait` of reqrep_queue.go, in its loop, with `wakeConsumers` of reqrep.go or
--   `reqrep_wake_consumers` of gen/reqrep.h, for one receiver and any number of senders, one access to
--   shared memory a step; Wakeup.Asleep for Go senders, Wakeup.Lost for C senders.
-- Blocking: `reqrep_send_wait`, `reqrep_recv_wait`, `reqrep_get_wait` and `reqrep_request` of
--   gen/reqrep.h (Blocking.Calls) and those of the integer mode (Blocking.IntCalls), over one loop for
--   sends and receives (Blocking) and one for responses (Blocking.Get). A list of rounds says what the
--   other processes do, and what the clock and the futex call answer; a call that is still in its loop
--   after them is `waiting`. Others step at three points of a round only. Blocking.Ends,
--   Blocking.Keeps and Blocking.GetEnds are about any operation, Blocking.SendKeeps about the string
--   mode's send, Blocking.IntEnds and Blocking.Abandon about the integer mode's. Blocking.Clock has
--   `reqrep_make_deadline` and `reqrep_remaining_time`; its times are not negative.
-- Reference: the C functions. Reference.Agreement and Reference.RecvAgreement compare them with the Go
--   functions, Reference.Overflow shows where they differ; Reference.Slots has the response slots, and
--   Reference.SlotAgreement compares them; Reference.Layout has the layout functions, Reference.Power
--   is about `reqrep_next_pow2` and `nextPow2`, Reference.Session
--   the operations over the whole file, and Reference.Clear `reqrep_clear`.
-- Files: how gen/reqrep.h opens, creates and closes the file of a handle, and the event descriptors.
--   The system and the allocator are a `Kernel`, a parameter that answers each call from the calls
--   before it; a trace lists the calls that succeeded or whose answer is ignored, the last first. The
--   fields that ReqRepHeader calls immutable after the creation read as the process wrote them, or as
--   they were when the mapping was made; a size of fstat is an unsigned 64-bit word. Files.Open has
--   `reqrep_validate_header` for both modes, `reqrep_setup_handle`, `reqrep_open` and `reqrep_open_fd`,
--   Files.Create the four creations, Files.Descriptors `reqrep_destroy`, the functions on event
--   descriptors, and what `reqrep_ensure_copy_buf` allocates. Files.Ledger counts what a trace takes
--   and gives back; Files.Balance, Files.OpenBalance, Files.CreateBalance and Files.Leaks count each
--   way to a handle, Files.Uses and Files.Lifetime a whole life. Files.Valid, Files.OpenValid and
--   Files.CreateValid follow the header that a handle stands over, which Files.Fresh and
--   Files.IntFresh compute for new files; Files.Bounds and Files.Opened are about its areas.
--   Files.Writes and Files.Guarded say when a file is written, Files.Reopen that it can be opened.
--   Files.GoOpen has `openOrCreate` and `openExisting` of reqrep.go over the same system, with the
--   bytes that `isHeaderZero` tests; Files.GoEnds and Files.GoOpened say how they end.
--
-- A panic of Go and a `memcpy` of C outside its object are the outcome `fault`. `realloc` is a
-- Boolean argument in Reference. The loop of `reqrep_ensure_copy_buf` has 33 rounds of fuel: it
-- doubles a positive 32-bit number. Memory is sequentially consistent in Mutex, Wakeup and IntMode.
-- The operations of Queue, Slots, Response and Reference run without another process in between. Not
-- modelled: the blocking loops of reqrep_queue.go and of `waitResponse` beyond Wakeup, with their
-- contexts and timers; the answers of msync, munmap, close, of the unlocking flock, of the fcntl that
-- seals, and of read and write on an event descriptor, which the code passes on or ignores;
-- descriptors below 0 other than -1; the goroutines of `Serve`.
pub mod Base
pub mod Shm
pub mod Arena
pub mod Queue
pub mod Slots
pub mod Response
pub mod Layout
pub mod Mutex
pub mod Wakeup
pub mod Blocking
pub mod IntMode
pub mod Reference
pub mod Files
