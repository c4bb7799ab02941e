-- ===== src/Ipc/Death.antt =====
-- kernel/src/ipc.rs, what a death does to the peers that depended on the process that dies.
use plinth_os.Base.{
  ℕ, zero, suc, ◌+◌, ◌&&◌, Bool, none, some, List, [], ◌∷◌, get_or, set, replicate, ltb,
  if◌then◌else◌,
}
use plinth_os.Capability.{Capability, CapObject, endpoint, reply, right_send, right_recv}
use plinth_os.CapTable
use plinth_os.CapTable.{CapTable}
use plinth_os.Kernel.{Kernel, is_blocked, wake_with, take_reclaim_landing, no_cap, max_processes}
use plinth_os.Ipc.WaitQueue
use plinth_os.Ipc.Endpoint.{ep_at, max_endpoints, grants, death_strands_peers}
use plinth_os.Ipc.Calls.{put_queue, ipc_peer_died}

-- `wake_all_stranded`: each round takes one waiter off the queue, so a process table's length of
-- rounds empties it.
unfoldable pub wake_loop : ℕ → Kernel → ℕ → Kernel
wake_loop zero k id = k
wake_loop (suc fuel) k id =
    let (q, r) = WaitQueue.dequeue (ep_at k.endpoints id).queue k.links in
    let k' = put_queue k id q in
    elim r [
      | none ↦ k'
      | some slot ↦
          let (k'', landing) = take_reclaim_landing k' slot in
          wake_loop fuel (wake_with k'' slot ipc_peer_died 0 landing) id
    ]

abbrev pub wake_all_stranded : Kernel → ℕ → Kernel
wake_all_stranded k id = wake_loop (suc max_processes) k id

-- `dying_senders` and `dying_receivers`.
pub record Tally : Type 0 where
  pub senders : List ℕ
  pub receivers : List ℕ

abbrev pub no_tally : Tally
no_tally = record { senders = replicate max_endpoints 0; receivers = replicate max_endpoints 0 }

abbrev pub bump : List ℕ → ℕ → Bool → List ℕ
bump ns id b = if b then set ns id (get_or ns id 0 + 1) else ns

-- One round of the first loop of `reap_dying`, by the kind of the capability.
abbrev pub reap_one : Kernel × Tally → CapObject → ℕ → Kernel × Tally
reap_one (k, t) (reply caller) rights =
    if is_blocked k caller
    then (wake_with (take_reclaim_landing k caller).0 caller ipc_peer_died 0 no_cap, t)
    else (k, t)
reap_one (k, t) (endpoint id) rights =
    if ltb id max_endpoints
    then (
      k,
      record {
        senders = bump t.senders id (grants rights right_send);
        receivers = bump t.receivers id (grants rights right_recv);
      },
    )
    else (k, t)
reap_one (k, t) _ rights = (k, t)

unfoldable pub reap_caps : Kernel × Tally → List Capability → Kernel × Tally
reap_caps kt [] = kt
reap_caps kt (c ∷ cs) = reap_caps (reap_one kt c.object c.rights) cs

abbrev pub reap_endpoint : Tally → Kernel → ℕ → Kernel
reap_endpoint t k id =
    if (ep_at k.endpoints id).in_use
      && death_strands_peers (ep_at k.endpoints id) (get_or t.senders id 0)
          (get_or t.receivers id 0)
    then wake_all_stranded k id
    else k

-- `for id in 0..MAX_ENDPOINTS`, from `id` on.
unfoldable pub reap_endpoints : Tally → Kernel → ℕ → ℕ → Kernel
reap_endpoints t k id zero = k
reap_endpoints t k id (suc n) = reap_endpoints t (reap_endpoint t k id) (id + 1) n

unfoldable pub reap_dying : Kernel → CapTable → Kernel
reap_dying k caps =
    let (k', t) = reap_caps (k, no_tally) (CapTable.iter caps) in
    reap_endpoints t k' 0 max_endpoints
