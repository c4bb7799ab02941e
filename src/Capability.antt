-- ===== src/Capability.antt =====
-- kernel/src/capability.rs, the types and the policy: what a capability names, what its `origin`
-- records, and what the kernel does when one is handed over or leaves a table for good.
-- A `u8`, `u64` or `usize` is a number; the casts to `u8` of `Origin::new` are written out.
pub mod Loan
use plinth_os.Base.{ℕ, ◌%◌, ◌≡◌, ◌&&◌, Bool, true, false, Option, none, some, ◌==◌, if◌then◌else◌}

abbrev pub right_read : ℕ
right_read = 1

abbrev pub right_write : ℕ
right_write = 2

abbrev pub right_map : ℕ
right_map = 4

abbrev pub right_consume : ℕ
right_consume = 8

abbrev pub right_send : ℕ
right_send = 16

abbrev pub right_recv : ℕ
right_recv = 32

abbrev pub max_caps : ℕ
max_caps = 16

-- `CapObject`, with the source's variants and fields.
pub data CapObject : Type 0 where
  frame : (addr : ℕ) → CapObject
  cpu_time : (budget : ℕ) → CapObject
  endpoint : (id : ℕ) → CapObject
  reply : (caller : ℕ) → CapObject
  block_range : (dev start count : ℕ) → CapObject
  event_source : (id : ℕ) → CapObject
  ring : (id : ℕ) → CapObject
  framebuffer : (phys_base width height stride bytes_per_pixel format : ℕ) → CapObject
  bound_device : (dev : ℕ) → CapObject

-- The lender's process slot, and the slot of its table that the loan left from.
pub record Origin : Type 0 where
  pub proc_slot : ℕ
  pub cap_slot : ℕ

pub record Capability : Type 0 where
  pub object : CapObject
  pub rights : ℕ
  pub origin : Option Origin

-- `Origin::new`: both slots are cast to `u8`.
abbrev pub new_origin : ℕ → ℕ → Origin
new_origin proc_slot cap_slot = record { proc_slot = proc_slot % 256; cap_slot = cap_slot % 256 }

abbrev pub lender : Origin → ℕ
lender o = o.proc_slot

abbrev pub home : Origin → ℕ
home o = o.cap_slot

-- The origin that a capability has once `source` has handed it to process `dest`.
abbrev pub next_origin : Option Origin → Origin → ℕ → Option Origin
next_origin none source dest = some source
next_origin (some o) source dest = if lender o == dest then none else some o

unfoldable pub lent_to : Capability → Origin → ℕ → Capability
lent_to cap source dest = record cap { origin = next_origin cap.origin source dest }

pub data ReleaseAction : Type 0 where
  free_frame : (addr : ℕ) → ReleaseAction
  release_ring : (id : ℕ) → ReleaseAction
  drop_endpoint : ReleaseAction
  unmap_framebuffer : ReleaseAction
  reclaim_to : (origin : Origin) → ReleaseAction
  drop_slot : ReleaseAction
  unbind_device : (dev : ℕ) → ReleaseAction
  refuse : ReleaseAction

abbrev pub is_reclaimable_kind : CapObject → Bool
is_reclaimable_kind (framebuffer _ _ _ _ _ _) = true
is_reclaimable_kind (block_range _ _ _) = true
is_reclaimable_kind (event_source _) = true
is_reclaimable_kind _ = false

abbrev pub is_none {ℓ} : {A : Type ℓ} → Option A → Bool
is_none none = true
is_none (some _) = false

unfoldable pub lend_reserves_home : Capability → Bool
lend_reserves_home cap = is_none cap.origin && is_reclaimable_kind cap.object

-- The final `match` of `release_action`, by the kind alone.
abbrev pub kind_action : CapObject → ReleaseAction
kind_action (frame addr) = free_frame addr
kind_action (ring id) = release_ring id
kind_action (endpoint _) = drop_endpoint
kind_action (reply _) = refuse
kind_action (framebuffer _ _ _ _ _ _) = unmap_framebuffer
kind_action (cpu_time _) = drop_slot
kind_action (block_range _ _ _) = drop_slot
kind_action (event_source _) = drop_slot
kind_action (bound_device dev) = unbind_device dev

-- `if let Some(origin) = cap.origin { return ReclaimTo }`, or what follows it.
abbrev pub reclaim_or : Option Origin → ReleaseAction → ReleaseAction
reclaim_or (some o) other = reclaim_to o
reclaim_or none other = other

unfoldable pub release_action : Capability → ReleaseAction
release_action cap =
    if is_reclaimable_kind cap.object
    then reclaim_or cap.origin (kind_action cap.object)
    else kind_action cap.object

-- The capability goes home by `lent_to` itself: `dying_slot` hands it to the origin's lender.
abbrev pub send_home : Capability → ℕ → ReleaseAction → Option (Origin × Capability)
send_home cap dying_slot (reclaim_to o) =
    some (o, lent_to cap (new_origin dying_slot (home o)) (lender o))
send_home cap dying_slot _ = none

unfoldable pub reclaim_target : Capability → ℕ → Option (Origin × Capability)
reclaim_target cap dying_slot = send_home cap dying_slot (release_action cap)
