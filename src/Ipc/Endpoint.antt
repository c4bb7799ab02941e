-- ===== src/Ipc/Endpoint.antt =====
-- kernel/src/ipc.rs, `Endpoint` and the endpoint table: how many live capabilities can reach an
-- endpoint on each side, and when its slot is freed.
pub mod Counts
use Prim.Native.Nat.{bit_and}
use plinth_os.Base.{
  ℕ, ◌+◌, ◌-◌, ◌%◌, ◌^◌, ◌&&◌, ◌||◌, not, Bool, true, false, Option, none, some, List, [], ◌∷◌,
  get_or, set, ◌==◌, ltb, if◌then◌else◌,
}
use plinth_os.Capability.{Capability, CapObject, endpoint, right_send, right_recv}
use plinth_os.Ipc.WaitQueue
use plinth_os.Ipc.WaitQueue.{WaitQueue, is_empty}

abbrev pub max_endpoints : ℕ
max_endpoints = 8

pub record Endpoint : Type 0 where
  pub in_use : Bool
  pub queue : WaitQueue
  pub senders : ℕ
  pub receivers : ℕ

abbrev pub empty : Endpoint
empty = record { in_use = false; queue = WaitQueue.empty; senders = 0; receivers = 0 }

-- `rights & right != 0`
abbrev pub grants : ℕ → ℕ → Bool
grants rights right = not (bit_and rights right == 0)

-- `+= 1` on a `u32`.
abbrev pub incr : ℕ → ℕ
incr n = (n + 1) % 2 ^ 32

unfoldable pub add_cap : Endpoint → ℕ → Endpoint
add_cap ep rights = record ep {
  senders = if grants rights right_send then incr ep.senders else ep.senders;
  receivers = if grants rights right_recv then incr ep.receivers else ep.receivers;
}

-- `saturating_sub(1)`: the subtraction of numbers stops at zero too.
unfoldable pub remove_cap : Endpoint → ℕ → Endpoint
remove_cap ep rights = record ep {
  senders = if grants rights right_send then ep.senders - 1 else ep.senders;
  receivers = if grants rights right_recv then ep.receivers - 1 else ep.receivers;
}

unfoldable pub is_unreferenced : Endpoint → Bool
unfolding is_empty
is_unreferenced ep = ep.senders == 0 && ep.receivers == 0 && is_empty ep.queue

unfoldable pub death_strands_peers : Endpoint → ℕ → ℕ → Bool
death_strands_peers ep dying_senders dying_receivers =
    (ltb 0 dying_senders && ep.senders - dying_senders == 0)
    || (ltb 0 dying_receivers && ep.receivers - dying_receivers == 0)

-- `ENDPOINTS`; an index past the table panics in the source, and no caller passes one.
abbrev pub Endpoints : Type 0
Endpoints = List Endpoint

abbrev pub ep_at : Endpoints → ℕ → Endpoint
ep_at eps id = get_or eps id empty

-- The first endpoint not in use, counted from `i`.
unfoldable pub first_unused : Endpoints → ℕ → Option ℕ
first_unused [] i = none
first_unused (ep ∷ eps) i =
    let rest = first_unused eps (i + 1) in if ep.in_use then rest else some i

abbrev pub take_unused : Endpoints → Option ℕ → Endpoints × Option ℕ
take_unused eps none = (eps, none)
take_unused eps (some i) = (set eps i (record empty { in_use = true }), some i)

unfoldable pub create_endpoint : Endpoints → Endpoints × Option ℕ
create_endpoint eps = take_unused eps (first_unused eps 0)

abbrev pub note_added : Endpoints → CapObject → ℕ → Endpoints
note_added eps (endpoint id) rights = set eps id (add_cap (ep_at eps id) rights)
note_added eps _ rights = eps

unfoldable pub note_cap_added : Endpoints → Capability → Endpoints
note_cap_added eps cap = note_added eps cap.object cap.rights

abbrev pub note_removed : Endpoints → CapObject → ℕ → Bool → Endpoints
note_removed eps (endpoint id) rights free =
    let ep = remove_cap (ep_at eps id) rights in
    set eps id (if free && is_unreferenced ep then empty else ep)
note_removed eps _ rights free = eps

unfoldable pub note_cap_removed : Endpoints → Capability → Bool → Endpoints
note_cap_removed eps cap free_if_unreferenced =
    note_removed eps cap.object cap.rights free_if_unreferenced

unfoldable pub release_endpoint : Endpoints → ℕ → Endpoints
release_endpoint eps id =
    if ltb id max_endpoints && is_unreferenced (ep_at eps id) then set eps id empty else eps

unfoldable pub free_endpoint_count : Endpoints → ℕ
free_endpoint_count [] = 0
free_endpoint_count (ep ∷ eps) = (if ep.in_use then 0 else 1) + free_endpoint_count eps
