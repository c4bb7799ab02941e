-- ===== src/Ipc/Calls.antt =====
-- kernel/src/ipc.rs, the four operations of the gate: `send`, `recv`, `call` and `reply`, and the
-- capability transfers under them. An operation returns its status, or blocks the caller.
use plinth_os.Base.{ℕ, ◌&&◌, Bool, true, false, Option, none, some, set, ◌==◌, ltb, if◌then◌else◌}
use plinth_os.Capability.{
  Capability, CapObject, endpoint, reply, Origin, new_origin, lent_to, right_send, right_recv,
}
use plinth_os.CapTable
use plinth_os.CapTable.{CapTable, Result, ok, err, to_option}
use plinth_os.Process.{Process, revoke_and_unmap_for_lend}
use plinth_os.Kernel.{
  Kernel, slot_of, put_slot, current_slot, current, put_current, set_pending, take_pending,
  take_pending_cap, take_pending_call, take_reclaim_landing, is_blocked, wake_with,
  install_into_blocked_home, install_into_blocked, revoke_from_blocked, block_current, no_cap,
}
use plinth_os.Ipc.WaitQueue
use plinth_os.Ipc.WaitQueue.{WaitQueue, Links}
use plinth_os.Ipc.Endpoint.{ep_at, max_endpoints, note_cap_added, note_cap_removed}

abbrev pub ipc_ok : ℕ
ipc_ok = 0

abbrev pub ipc_err : ℕ
ipc_err = 1

abbrev pub ipc_peer_died : ℕ
ipc_peer_died = 2

pub data Outcome : Type 0 where
  returns : (status : ℕ) → Outcome
  blocks : Outcome

-- The object of the slot that `lookup` found, if it names a live endpoint.
abbrev pub live_endpoint : Kernel → CapObject → Option ℕ
live_endpoint k (endpoint id) =
    if ltb id max_endpoints && (ep_at k.endpoints id).in_use then some id else none
live_endpoint k _ = none

unfoldable pub endpoint_id_for : Kernel → ℕ → ℕ → Option ℕ
endpoint_id_for k slot right = elim (current k) [
  | none ↦ none
  | some p ↦ elim (CapTable.lookup p.caps slot right) [
    | err e ↦ none
    | ok c ↦ live_endpoint k c.object
  ]
]

abbrev pub endpoint_senders : Kernel → ℕ → ℕ
endpoint_senders k id = (ep_at k.endpoints id).senders

abbrev pub endpoint_receivers : Kernel → ℕ → ℕ
endpoint_receivers k id = (ep_at k.endpoints id).receivers

abbrev pub put_queue : Kernel → ℕ → WaitQueue → Kernel
put_queue k id q = record k {
  endpoints = set k.endpoints id (record (ep_at k.endpoints id) { queue = q });
}

unfoldable pub take_waiting : Kernel → ℕ → Bool → Kernel × Option ℕ
take_waiting k id want_senders =
    let (q, r) = WaitQueue.take_if (ep_at k.endpoints id).queue want_senders k.links in
    (put_queue k id q, r)

unfoldable pub enqueue_waiter : Kernel → ℕ → ℕ → Bool → Kernel
enqueue_waiter k id slot are_senders =
    let (q, links) = WaitQueue.enqueue (ep_at k.endpoints id).queue slot are_senders k.links in
    record (put_queue k id q) { links = links }

-- `landing.map(|l| l as u64).unwrap_or(NO_CAP)`
abbrev pub or_no_cap : Option ℕ → ℕ
or_no_cap none = no_cap
or_no_cap (some l) = l

abbrev pub reply_cap : ℕ → Capability
reply_cap caller = record { object = reply caller; rights = 0; origin = none }

abbrev pub put_current_caps : Kernel → Process → CapTable × Option ℕ → Kernel × Option ℕ
put_current_caps k p (t, r) = (put_current k (some (record p { caps = t })), r)

-- `install(..).ok()` into the current process; with no current process nothing happens.
unfoldable pub install_into_current : Kernel → Capability → Kernel × Option ℕ
install_into_current k c = elim (current k) [
  | none ↦ (k, none)
  | some p ↦ put_current_caps k p (to_option (CapTable.install p.caps c))
]

unfoldable pub install_home_into_current :
    Kernel → Capability → Option Origin → ℕ → Kernel × Option ℕ
install_home_into_current k c prior dest = elim (current k) [
  | none ↦ (k, none)
  | some p ↦ put_current_caps k p (CapTable.install_home p.caps c prior dest)
]

unfoldable pub mint_reply_cap_into_current : Kernel → ℕ → Kernel × ℕ
mint_reply_cap_into_current k caller =
    let (k', r) = install_into_current k (reply_cap caller) in (k', or_no_cap r)

unfoldable pub mint_reply_cap_into_blocked : Kernel → ℕ → ℕ → Kernel × ℕ
mint_reply_cap_into_blocked k server caller =
    let (k', r) = install_into_blocked k server (reply_cap caller) in (k', or_no_cap r)

abbrev pub note_added_in : Kernel → Capability → Kernel
note_added_in k c = record k { endpoints = note_cap_added k.endpoints c }

abbrev pub note_moved_out : Kernel → Capability → Kernel
note_moved_out k c = record k { endpoints = note_cap_removed k.endpoints c false }

-- The last `match` of `transfer_current_to_blocked`: the receiver's table took it, or was full.
abbrev pub arrived_or_back : Capability → Kernel × Option ℕ → Kernel × ℕ
arrived_or_back c (k, some landing) = (note_added_in k c, landing)
arrived_or_back c (k, none) = (note_added_in (install_into_current k c).0 c, no_cap)

unfoldable pub give_to_blocked : Kernel → ℕ → ℕ → Option Capability → Kernel × ℕ
give_to_blocked k receiver cap_slot none = (k, no_cap)
give_to_blocked k receiver cap_slot (some c) = arrived_or_back c (
    install_into_blocked_home (note_moved_out k c) receiver
      (lent_to c (new_origin (current_slot k) cap_slot) receiver) c.origin)

unfoldable pub transfer_current_to_blocked : Kernel → ℕ → ℕ → Kernel × ℕ
transfer_current_to_blocked k receiver cap_slot = elim (current k) [
  | none ↦ (k, no_cap)
  | some p ↦
      let (p', taken) = revoke_and_unmap_for_lend p cap_slot in
      give_to_blocked (put_current k (some p')) receiver cap_slot taken
]

abbrev pub arrived_or_restored : ℕ → Capability → Kernel × Option ℕ → Kernel × ℕ
arrived_or_restored sender c (k, some l) = (note_added_in k c, l)
arrived_or_restored sender c (k, none) =
    (note_added_in (install_into_blocked k sender c).0 c, no_cap)

abbrev pub give_to_current : Kernel → ℕ → ℕ → Option Capability → Kernel × ℕ
give_to_current k sender cap_slot none = (k, no_cap)
give_to_current k sender cap_slot (some c) = arrived_or_restored sender c (
    install_home_into_current (note_moved_out k c)
      (lent_to c (new_origin sender cap_slot) (current_slot k)) c.origin (current_slot k))

unfoldable pub transfer_blocked_to_current : Kernel → ℕ → ℕ → Kernel × ℕ
transfer_blocked_to_current k sender cap_slot =
    let (k', taken) = revoke_from_blocked k sender cap_slot in
    give_to_current k' sender cap_slot taken

-- The trap frame of the caller: it lies on the stack of the slot that is running.
abbrev pub write_rsi : Kernel → ℕ → Kernel
write_rsi k v = put_slot k (current_slot k) (record (slot_of k (current_slot k)) { rsi = v })

abbrev pub write_rdx : Kernel → ℕ → Kernel
write_rdx k v = put_slot k (current_slot k) (record (slot_of k (current_slot k)) { rdx = v })

-- `send` once its endpoint is known: what `take_waiting` found decides.
unfoldable pub send_on : Kernel → ℕ → ℕ → ℕ → Option ℕ → Kernel × Outcome
send_on k id msg cap_slot (some receiver) =
    let (k', landing) =
      if cap_slot == no_cap then (k, no_cap) else transfer_current_to_blocked k receiver cap_slot in
    (wake_with k' receiver ipc_ok msg landing, returns ipc_ok)
send_on k id msg cap_slot none =
    if endpoint_receivers k id == 0 then (k, returns ipc_peer_died) else (
      block_current (
          enqueue_waiter (set_pending k (current_slot k) msg cap_slot false) id (current_slot k)
            true),
      blocks,
    )

unfoldable pub ipc_send : Kernel → ℕ → ℕ → ℕ → Kernel × Outcome
ipc_send k ep_slot msg cap_slot = elim (endpoint_id_for k ep_slot right_send) [
  | none ↦ (k, returns ipc_err)
  | some id ↦ let (k', r) = take_waiting k id false in send_on k' id msg cap_slot r
]

-- A waiting sender that called awaits its reply: the server gets a reply capability for it.
unfoldable pub recv_call : Kernel → ℕ → ℕ → Kernel × Outcome
recv_call k sender msg =
    let (k', reply_slot) = mint_reply_cap_into_current k sender in
    (write_rdx (write_rsi k' msg) reply_slot, returns ipc_ok)

unfoldable pub recv_plain : Kernel → ℕ → ℕ → Kernel × Outcome
recv_plain k sender msg =
    let (k', landing) =
      if take_pending_cap k sender == no_cap
      then (k, no_cap)
      else transfer_blocked_to_current k sender (take_pending_cap k sender) in
    (write_rdx (write_rsi (wake_with k' sender ipc_ok 0 no_cap) msg) landing, returns ipc_ok)

unfoldable pub recv_on : Kernel → ℕ → Option ℕ → Kernel × Outcome
recv_on k id (some sender) =
    if take_pending_call k sender
    then recv_call k sender (take_pending k sender)
    else recv_plain k sender (take_pending k sender)
recv_on k id none =
    if endpoint_senders k id == 0
    then (let (k', landing) = take_reclaim_landing k (current_slot k) in
        (write_rdx k' landing, returns ipc_peer_died))
    else (block_current (enqueue_waiter k id (current_slot k) false), blocks)

unfoldable pub ipc_recv : Kernel → ℕ → Kernel × Outcome
ipc_recv k ep_slot = elim (endpoint_id_for k ep_slot right_recv) [
  | none ↦ (write_rdx k no_cap, returns ipc_err)
  | some id ↦ let (k', r) = take_waiting k id true in recv_on k' id r
]

unfoldable pub call_on : Kernel → ℕ → ℕ → Option ℕ → Kernel × Outcome
call_on k id req (some server) =
    let (k', reply_slot) = mint_reply_cap_into_blocked k server (current_slot k) in
    (block_current (wake_with k' server ipc_ok req reply_slot), blocks)
call_on k id req none = if endpoint_receivers k id == 0 then (k, returns ipc_peer_died) else (
  block_current
      (enqueue_waiter (set_pending k (current_slot k) req no_cap true) id (current_slot k) true),
  blocks,
)

unfoldable pub ipc_call : Kernel → ℕ → ℕ → Kernel × Outcome
ipc_call k ep_slot req = elim (endpoint_id_for k ep_slot right_send) [
  | none ↦ (k, returns ipc_err)
  | some id ↦ let (k', r) = take_waiting k id false in call_on k' id req r
]

-- The caller that the capability at `reply_slot` names, if it is a reply capability.
abbrev pub reply_caller : CapObject → Option ℕ
reply_caller (reply caller) = some caller
reply_caller _ = none

abbrev pub found_caller : Result Capability → Option ℕ
found_caller (ok c) = reply_caller c.object
found_caller (err e) = none

abbrev pub revoke_current : Kernel → ℕ → Kernel
revoke_current k slot = elim (current k) [
  | none ↦ k
  | some p ↦ put_current k (some (record p { caps = (CapTable.revoke p.caps slot).0 }))
]

unfoldable pub reply_to : Kernel → ℕ → ℕ → Option ℕ → Kernel × Outcome
reply_to k reply_slot msg none = (k, returns ipc_err)
reply_to k reply_slot msg (some caller) =
    if is_blocked k caller
    then (revoke_current (wake_with k caller ipc_ok msg no_cap) reply_slot, returns ipc_ok)
    else (k, returns ipc_err)

unfoldable pub ipc_reply : Kernel → ℕ → ℕ → Kernel × Outcome
ipc_reply k reply_slot msg = elim (current k) [
  | none ↦ (k, returns ipc_err)
  | some p ↦ reply_to k reply_slot msg (found_caller (CapTable.lookup p.caps reply_slot 0))
]
