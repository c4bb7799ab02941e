-- ===== src/Kernel.antt =====
-- kernel/src/scheduler.rs, the state of the process table and what the IPC layer asks of it. All of
-- it runs under the big kernel lock, so one call is one step of the state.
--
-- The trap frame of a suspended process is the three registers that IPC writes; which core runs what
-- is `current_slot` and `current`, one entry a core, and `core` is the core that the call runs on.
pub mod Slots
use plinth_os.Base.{
  ℕ, zero, suc, ◌+◌, ◌-◌, ◌^◌, ◌<◌, ◌≡◌, ◌&&◌, not, Bool, true, false, Option, none, some, List, [],
  ◌∷◌, get_or, get_elem?, set, replicate, ◌==◌, if◌then◌else◌,
}
use plinth_os.Capability.{Capability, Origin}
use plinth_os.CapTable
use plinth_os.CapTable.{CapTable, to_option}
use plinth_os.Process.{Process, revoke_and_unmap_for_lend}
use plinth_os.Ipc.WaitQueue.{Links}
use plinth_os.Ipc.Endpoint.{Endpoints}

abbrev pub max_processes : ℕ
max_processes = 4

-- `u64::MAX`, the sentinel of a slot number that names none.
abbrev pub no_cap : ℕ
no_cap = 2 ^ 64 - 1

pub data State : Type 0 where
  empty ready running blocked : State

abbrev pub is_blocked_state : State → Bool
is_blocked_state State.blocked = true
is_blocked_state _ = false

pub record Slot : Type 0 where
  pub state : State
  pub process : Option Process
  pub pending_msg : ℕ
  pub pending_cap : ℕ
  pub pending_call : Bool
  pub pending_landing : ℕ
  pub rax : ℕ
  pub rsi : ℕ
  pub rdx : ℕ

abbrev pub empty_slot : Slot
empty_slot = record {
  state = State.empty;
  process = none;
  pending_msg = 0;
  pending_cap = no_cap;
  pending_call = false;
  pending_landing = no_cap;
  rax = 0;
  rsi = 0;
  rdx = 0;
}

pub record Kernel : Type 0 where
  pub table : List Slot
  pub links : Links
  pub endpoints : Endpoints
  pub current_slot : List ℕ
  pub current : List (Option Process)
  pub core : ℕ

abbrev pub slot_of : Kernel → ℕ → Slot
slot_of k i = get_or k.table i empty_slot

abbrev pub put_slot : Kernel → ℕ → Slot → Kernel
put_slot k i s = record k { table = set k.table i s }

abbrev pub current_slot : Kernel → ℕ
current_slot k = get_or k.current_slot k.core 0

-- `process::current()`
abbrev pub current : Kernel → Option Process
current k = get_or k.current k.core none

abbrev pub put_current : Kernel → Option Process → Kernel
put_current k p = record k { current = set k.current k.core p }

unfoldable pub set_pending : Kernel → ℕ → ℕ → ℕ → Bool → Kernel
set_pending k slot msg c is_call =
    put_slot k slot
      (record (slot_of k slot) { pending_msg = msg; pending_cap = c; pending_call = is_call })

abbrev pub take_pending : Kernel → ℕ → ℕ
take_pending k slot = (slot_of k slot).pending_msg

abbrev pub take_pending_cap : Kernel → ℕ → ℕ
take_pending_cap k slot = (slot_of k slot).pending_cap

abbrev pub take_pending_call : Kernel → ℕ → Bool
take_pending_call k slot = (slot_of k slot).pending_call

unfoldable pub set_reclaim_landing : Kernel → ℕ → ℕ → Kernel
set_reclaim_landing k slot landing =
    if (slot_of k slot).pending_landing == no_cap
    then put_slot k slot (record (slot_of k slot) { pending_landing = landing })
    else k

unfoldable pub take_reclaim_landing : Kernel → ℕ → Kernel × ℕ
take_reclaim_landing k slot = (
  put_slot k slot (record (slot_of k slot) { pending_landing = no_cap }),
  (slot_of k slot).pending_landing,
)

abbrev pub is_blocked : Kernel → ℕ → Bool
is_blocked k slot = is_blocked_state (slot_of k slot).state

unfoldable pub wake_with : Kernel → ℕ → ℕ → ℕ → ℕ → Kernel
wake_with k slot status payload landing =
    put_slot k slot
      (record (slot_of k slot) { rax = status; rsi = payload; rdx = landing; state = State.ready })

-- What a change of the table of `slot`'s process leaves.
abbrev pub put_caps : Kernel → ℕ → Process → CapTable × Option ℕ → Kernel × Option ℕ
put_caps k slot p (t, r) =
    (put_slot k slot (record (slot_of k slot) { process = some (record p { caps = t }) }), r)

unfoldable pub install_into_blocked_home :
    Kernel → ℕ → Capability → Option Origin → Kernel × Option ℕ
install_into_blocked_home k slot c prior = elim ((slot_of k slot).process) [
  | none ↦ (k, none)
  | some p ↦ put_caps k slot p (CapTable.install_home p.caps c prior slot)
]

unfoldable pub install_into_blocked : Kernel → ℕ → Capability → Kernel × Option ℕ
install_into_blocked k slot c = elim ((slot_of k slot).process) [
  | none ↦ (k, none)
  | some p ↦ put_caps k slot p (to_option (CapTable.install p.caps c))
]

abbrev pub put_process : Kernel → ℕ → Process × Option Capability → Kernel × Option Capability
put_process k slot (p, r) = (put_slot k slot (record (slot_of k slot) { process = some p }), r)

unfoldable pub revoke_from_blocked : Kernel → ℕ → ℕ → Kernel × Option Capability
revoke_from_blocked k slot cap_slot = elim ((slot_of k slot).process) [
  | none ↦ (k, none)
  | some p ↦ put_process k slot (revoke_and_unmap_for_lend p cap_slot)
]

-- `block_current` up to the switch: the process that was running is parked in its slot.
unfoldable pub block_current : Kernel → Kernel
block_current k =
    put_current
      (put_slot k (current_slot k)
        (record (slot_of k (current_slot k)) { process = current k; state = State.blocked }))
      none
