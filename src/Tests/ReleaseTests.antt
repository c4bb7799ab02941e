-- ===== src/Tests/ReleaseTests.antt =====
-- A process on core 0 gives back the screen that the process on core 2 lent to it. Core 1 is idle, and
-- still names the slot of the lender.
use plinth_os.Base.{ℕ, zero, suc, ◌≡◌, refl, true, false, none, some, [], ◌∷◌, arith, replicate}
use plinth_os.Capability.{Capability, Origin, framebuffer, reply}
use plinth_os.CapTable
use plinth_os.CapTable.{slot_at}
use plinth_os.Process.{Process}
use plinth_os.Kernel.{empty_slot}
use plinth_os.Ipc.Endpoint
use plinth_os.Reclaim.{on_core, process_at}
use plinth_os.Reclaim.Reach.{LivesAt, Runs}
use plinth_os.Rings
use plinth_os.Rings.Subs
use plinth_os.Release.{System, cap_release, sys_err}
use plinth_os.Release.Home.{cap_release-Home}

abbrev loan : Origin
loan = record { proc_slot = 2; cap_slot = 0 }

abbrev borrowed : Capability
borrowed = record { object = framebuffer 0x1000 64 48 64 4 1; rights = 6; origin = some loan }

abbrev lending : Process
lending = record {
  caps = record { slots = replicate 16 none; reserved = true ∷ replicate 15 false };
  maps = [];
  fb_maps = [];
  pages = [];
}

abbrev drawing : Process
drawing = record lending {
  caps = record {
    slots =
        some borrowed
        ∷ some (record { object = reply 3; rights = 0; origin = none })
        ∷ replicate 14 none;
    reserved = replicate 16 false;
  };
}

abbrev system : System
system = record {
  kernel = record {
    table = replicate 4 empty_slot;
    links = replicate 4 none;
    endpoints = replicate 8 Endpoint.empty;
    current_slot = 1 ∷ 2 ∷ 2 ∷ [];
    current = some drawing ∷ none ∷ some lending ∷ [];
    core = 0;
  };
  rings = record { rings = replicate 8 Rings.empty; mem = λ p. 0; phys_offset = 0 };
  subs = Subs.new;
  allocator_ready = true;
  freed = [];
  unbound = [];
}

-- A capability to reply is not given back, and stays where it is.
reply_kept : cap_release system 1 ≡ (system, sys_err)
unfolding cap_release CapTable.lookup plinth_os.Capability.release_action
reply_kept = refl

lending-LivesAt : LivesAt system.kernel 2 (on_core 2) lending
lending-LivesAt = (refl, omega arith, refl, refl, only)
  where
    only : (d : ℕ) → Runs system.kernel 2 d → d ≡ 2
    only zero r = absurd (omega (arith, r.0))
    only (suc zero) r = absurd (cc)
    only (suc (suc zero)) r = refl
    only (suc (suc (suc d))) r = absurd (cc)

cap_release-Home_example :
    let (s', result) = cap_release system 0 in
    (result ≡ 0)
    × (q' : Process) × (process_at s'.kernel (on_core 2) ≡ some q')
    × (slot_at q'.caps 0 ≡ some (record borrowed { origin = none }))
unfolding CapTable.lookup
cap_release-Home_example =
    cap_release-Home system 0 drawing lending borrowed loan (on_core 2) refl refl refl refl
      lending-LivesAt (λ e. absurd (omega (arith, e)))
      (record { in_range = omega arith; flag = refl; empty = refl })
