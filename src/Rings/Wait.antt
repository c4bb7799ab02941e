-- ===== src/Rings/Wait.antt =====
-- kernel/src/rings.rs, the waiting side: `ring_wait`, the delivery of events to the rings that
-- subscribe to them, and the release of a ring.
pub mod Wakes
use plinth_os.Base.{
  ℕ, ◌+◌, ◌-◌, ◌^◌, ◌≡◌, not, Bool, true, false, Option, none, some, List, [], ◌∷◌, ◌++◌, ◌==◌, ltb,
  if◌then◌else◌,
}
use plinth_os.Kernel.{Kernel, no_cap, wake_with, block_current}
use plinth_os.Input.{Event, pack}
use plinth_os.Rings.{
  Rings, ring_at, put_ring, va, empty, max_rings, hdr_head, ring_err, ring_id_for, post_event,
}
use plinth_os.Rings.Subs
use plinth_os.Rings.Subs.{Subscriptions}

-- `none` is a process that is parked: it has no result before it is woken.
abbrev pub wait_on : Kernel → Rings → ℕ → Kernel × Rings × Option ℕ
wait_on k s id =
    if not ((ring_at s id).cq_tail == s.mem (va s (ring_at s id).cq_phys + hdr_head))
    then (k, s, some 0)
    else (block_current k, put_ring s id (record (ring_at s id) { waiting = true }), none)

unfoldable pub ring_wait : Kernel → Rings → ℕ → Kernel × Rings × Option ℕ
ring_wait k s ring_slot = elim (ring_id_for k s ring_slot) [
  | none ↦ (k, s, some ring_err)
  | some id ↦ wait_on k s id
]

unfoldable pub release : Rings → Subscriptions → ℕ → Rings × Subscriptions
release s subs id = (if ltb id max_rings then put_ring s id empty else s, Subs.release_ring subs id)

abbrev pub wake_list : Option ℕ → List ℕ
wake_list none = []
wake_list (some w) = w ∷ []

-- The closure of `deliver_event`, with the wakes that it collects.
abbrev pub post_and_note : Rings × List ℕ → ℕ → ℕ → ℕ → (Rings × List ℕ) × Bool
post_and_note (s, wakes) ring_id user_data status =
    let (s', admitted, wake) = post_event s ring_id user_data status in
    ((s', wakes ++ wake_list wake), admitted)

unfoldable pub wake_all : Kernel → List ℕ → Kernel
wake_all k [] = k
wake_all k (w ∷ ws) = wake_all (wake_with k w 0 0 no_cap) ws

unfoldable pub deliver_event :
    Kernel → Rings → Subscriptions → ℕ → ℕ → Kernel × Rings × Subscriptions
deliver_event k s subs source event =
    let (subs', noted) = Subs.deliver post_and_note subs source event (s, []) in
    (wake_all k noted.1, noted.0, subs')

-- `record` of kernel/src/input.rs.
abbrev pub record_event :
    Kernel → Rings → Subscriptions → ℕ → Event → Kernel × Rings × Subscriptions
record_event k s subs source e = deliver_event k s subs source (pack e)

abbrev pub any_event_sub : Subscriptions → Bool
any_event_sub subs = Subs.any subs

abbrev pub dropped_result : Option ℕ → ℕ
dropped_result none = ring_err
dropped_result (some n) = n

unfoldable pub dropped_for : Kernel → Rings → Subscriptions → ℕ → ℕ → ℕ
dropped_for k s subs ring_slot user_data = elim (ring_id_for k s ring_slot) [
  | none ↦ ring_err
  | some id ↦ dropped_result (Subs.dropped subs id user_data)
]
