-- ===== src/Lib.antt =====
-- Plinth, an exokernel: the capability core of its kernel, the message passing and the scheduling on
-- top of it, and the free-space map and directory of its filesystem.
--
-- A process names what it may use by slots of its capability table. Messages may carry a capability,
-- which moves it from the sender's table to the receiver's; a lent one remembers where it goes home
-- to. The scheduler decides which process runs on which core, and whom a message wakes.
--
-- Base is notation and lemmas: Boolean tests over the numbers, and arrays as lists.
-- Capability models the types and the policy of kernel/src/capability.rs: what a capability names
-- (`CapObject`), where a lent one goes home to (`Origin`, `lent_to`), and what its release does
-- (`release_action`, `reclaim_target`). CapTable models the table of one process (`CapTable` and its
-- methods), with a method as a function from the table to the new table and its result.
-- Process models the part of kernel/src/process.rs that takes a capability's mappings away with it
-- (`revoke_and_unmap`, `unmap_fb_for_slot`). The address space is the list of its mapped pages.
-- Kernel models the process table of kernel/src/scheduler.rs as the message layer sees it
-- (`wake_with`, `install_into_blocked`, `block_current`), and Scheduler the queues of the cores
-- (`pick_next`, `try_steal`). An `expect` that fails is `none`.
-- Ipc models kernel/src/ipc.rs: WaitQueue and Endpoint their types, Calls the four operations and the
-- transfer of a capability, Death the wake of those whose peer died.
-- Reclaim models how a loan ends in kernel/src/scheduler.rs: `reclaim_cap_home`, and the sweep
-- `clear_origins_naming` for a lender that exits.
-- Release models `sys_cap_release` of kernel/src/syscall.rs, on top of the table, the loans, the
-- endpoints and the rings.
-- Blk models the requests in flight of kernel/src/virtio_blk.rs (`Inflights`, `drain_completions`):
-- what the device reports is an argument. Rings models kernel/src/rings.rs, with the memory that the
-- kernel shares with a process as a function from addresses to words: Submit the submission queue
-- (`ring_submit`), Subs the table of event subscriptions, Wait `ring_wait` and the delivery of
-- events. Reactor is the reader at the other end, `reap` and `take` of libos/src/ring.rs, and Input
-- the events of kernel/src/input.rs with the shims of libplinth/src/lib.rs that take them apart.
-- Frames models kernel/src/frame_alloc.rs: `alloc` and `dealloc` on the words of the bitmap,
-- and Boot `new`, which builds it from the memory map.
-- Elf models kernel/src/elf.rs: `parse`, with the file as a list of bytes.
-- Rwfs models librwfs: Bitmap its bitmap.rs on bytes, with the masks of the source, and Directory its
-- directory.rs, whose bytes are taken apart into records of three fields, and Mount its format.rs on
-- top of the two, with the device as a parameter.
-- UserHeap models the memory policies of libos/src/lib.rs, with the calls that map a frame as a
-- parameter.
-- Tests holds runs at concrete inputs.
--
-- Everything of the kernel runs under one lock with interrupts off, so that a call is one step from
-- state to state; `core` names the core that it runs on. Machine integers are natural numbers: the
-- `u32` counts of an endpoint wrap at 2 ^ 32, and `checked_add` is tested against 2 ^ 64.
-- `wake_all_stranded` loops until its queue is empty. The model gives it one round more than there
-- are processes, which is enough since a queue holds each process once at most. `next_home_core` has
-- a round for each core, which is enough as long as one is up. `carve` has a
-- round for each page that is missing. `ring_submit`, `reap` and
-- `drain_completions` run from one free-running index to another; the model gives them the distance of
-- the two, modulo the width of the index, which is how many rounds there are.
--
-- Not modelled: page tables, context switches and trap frames but for the three registers that a
-- call writes, the registers and descriptors of devices and their firmware tables, and
-- the programs on top.
pub mod Base
pub mod Blk
pub mod Capability
pub mod CapTable
pub mod Elf
pub mod Frames
pub mod Input
pub mod Ipc
pub mod Kernel
pub mod Process
pub mod Reactor
pub mod Reclaim
pub mod Release
pub mod Rings
pub mod Rwfs
pub mod Scheduler
pub mod Tests
pub mod UserHeap
