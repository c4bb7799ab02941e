-- ===== src/Ipc/Exchange.antt =====
-- `send` and `recv` on every branch: who is served, who waits and behind whom, and who is turned away.
use plinth_os.Base.{ℕ, ◌≡◌, false}
use plinth_os.Kernel.{Kernel, State, slot_of, current_slot, take_pending, take_pending_call}
use plinth_os.Ipc.Calls.{ipc_ok}
use plinth_os.Ipc.Waits.{Waits}

-- Process `x` may run again: its call returns success, with the message in its register.
pub record Served (k' : Kernel) (x msg : ℕ) : Type 0 where
  pub runnable : (slot_of k' x).state ≡ State.ready
  pub told : (slot_of k' x).rax ≡ ipc_ok
  pub message : (slot_of k' x).rsi ≡ msg

-- What a receiver that finds sender `x` gets. A sender that only sends may run again; one that called
-- awaits its reply.
pub record Received (k k' : Kernel) (x : ℕ) : Type 0 where
  pub message : (slot_of k' (current_slot k)).rsi ≡ take_pending k x
  pub runnable : take_pending_call k x ≡ false → (slot_of k' x).state ≡ State.ready
  pub told : take_pending_call k x ≡ false → (slot_of k' x).rax ≡ ipc_ok
