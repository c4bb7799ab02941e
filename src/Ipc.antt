-- ===== src/Ipc.antt =====
-- kernel/src/ipc.rs: synchronous IPC over capability-named endpoints.
pub mod Calls
pub mod Death
pub mod Dying
pub mod Endpoint
pub mod Exchange
pub mod Liveness
pub mod Sizes
pub mod Stranded
pub mod Reply
pub mod Transfer
pub mod Waits
pub mod WaitQueue
