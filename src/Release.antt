-- ===== src/Release.antt =====
-- kernel/src/syscall.rs, `sys_cap_release`: a capability is given back, and with it what it stood for.
--
-- `freed` and `unbound` are what the frame allocator and the driver of bound devices were told, the
-- latest first; `allocator_ready` is whether the frame allocator is installed.
pub mod Home
use plinth_os.Base.{
  ℕ, ◌-◌, ◌^◌, ◌≡◌, Bool, true, false, Option, none, some, List, [], ◌∷◌, ◌==◌, if◌then◌else◌,
}
use plinth_os.Capability.{
  Capability, Origin, ReleaseAction, free_frame, release_ring, drop_endpoint, unmap_framebuffer,
  reclaim_to, drop_slot, unbind_device, refuse, release_action, reclaim_target,
}
use plinth_os.CapTable
use plinth_os.CapTable.{CapTable, Result, ok, err}
use plinth_os.Process.{Process, unmap_frame, unmap_fb_for_slot}
use plinth_os.Kernel.{Kernel, current, current_slot, put_current}
use plinth_os.Ipc.Endpoint.{note_cap_removed}
use plinth_os.Reclaim.{reclaim_cap_home}
use plinth_os.Rings.{Rings}
use plinth_os.Rings.Subs.{Subscriptions}
use plinth_os.Rings.Wait

abbrev pub sys_err : ℕ
sys_err = 2 ^ 64 - 1

pub record System : Type 0 where
  pub kernel : Kernel
  pub rings : Rings
  pub subs : Subscriptions
  pub allocator_ready : Bool
  pub freed : List ℕ
  pub unbound : List ℕ

abbrev pub with_process : System → Process → System
with_process s p = record s { kernel = put_current s.kernel (some p) }

-- The capability that goes home.
abbrev pub home_or : Capability → Option (Origin × Capability) → Capability
home_or cap none = cap
home_or cap (some (origin, came_home)) = came_home

abbrev pub send_back : System → Capability → Origin → System
send_back s cap origin = record s {
  kernel =
      (reclaim_cap_home s.kernel cap origin
        (home_or cap (reclaim_target cap (current_slot s.kernel)))).0;
}

-- The final `match`, for a process `p` whose slot was revoked.
abbrev pub perform : System → Process → ℕ → Capability → ReleaseAction → System × ℕ
perform s p slot cap (free_frame addr) =
    if s.allocator_ready
    then (record (with_process s (unmap_frame p slot)) { freed = addr ∷ s.freed }, 0)
    else (with_process s p, sys_err)
perform s p slot cap (release_ring id) =
    let (rings, subs) = Wait.release s.rings s.subs id in
    (record (with_process s p) { rings = rings; subs = subs }, 0)
perform s p slot cap drop_endpoint = (
  record s {
    kernel = record (put_current s.kernel (some p)) {
      endpoints = note_cap_removed s.kernel.endpoints cap true;
    };
  },
  0,
)
perform s p slot cap unmap_framebuffer = (with_process s (unmap_fb_for_slot p slot), 0)
perform s p slot cap (reclaim_to origin) =
    (send_back (with_process s (unmap_fb_for_slot p slot)) cap origin, 0)
perform s p slot cap (unbind_device dev) =
    (record (with_process s p) { unbound = dev ∷ s.unbound }, 0)
perform s p slot cap drop_slot = (with_process s p, 0)
perform s p slot cap refuse = (with_process s p, 0)

abbrev pub is_refuse : ReleaseAction → Bool
is_refuse refuse = true
is_refuse _ = false

abbrev pub revoked : System → Process → ℕ → Capability → CapTable × Result Capability → System × ℕ
revoked s p slot cap (t, err e) = (with_process s (record p { caps = t }), sys_err)
revoked s p slot cap (t, ok c) = perform s (record p { caps = t }) slot cap (release_action cap)

abbrev pub release_found : System → Process → ℕ → Result Capability → System × ℕ
release_found s p slot (err e) = (s, sys_err)
release_found s p slot (ok cap) =
    if is_refuse (release_action cap)
    then (s, sys_err)
    else revoked s p slot cap (CapTable.revoke p.caps slot)

unfoldable pub cap_release : System → ℕ → System × ℕ
cap_release s slot = elim (current s.kernel) [
  | none ↦ (s, sys_err)
  | some p ↦ release_found s p slot (CapTable.lookup p.caps slot 0)
]
