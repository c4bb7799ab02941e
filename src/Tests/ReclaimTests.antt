-- ===== src/Tests/ReclaimTests.antt =====
-- The lender in table slot 2 runs on core 1, with slot 0 of its table held open. Core 0 is idle, and
-- still names the slot.
use plinth_os.Base.{ℕ, zero, suc, ◌≡◌, refl, true, false, none, some, [], ◌∷◌, arith, replicate}
use plinth_os.Capability.{Capability, Origin, framebuffer}
use plinth_os.CapTable.{slot_at}
use plinth_os.Process.{Process}
use plinth_os.Kernel.{Kernel, slot_of, empty_slot}
use plinth_os.Ipc.Endpoint
use plinth_os.Reclaim.{
  on_core, process_at, process_on, reclaim_cap_home, landed, clear_origins_naming,
}
use plinth_os.Reclaim.Reach.{LivesAt, Runs, reclaim_cap_home-Held}
use plinth_os.Reclaim.Forget.{Forgot, clear_origins_naming_lem}

abbrev loan : Origin
loan = record { proc_slot = 2; cap_slot = 0 }

abbrev screen : Capability
screen = record { object = framebuffer 0x1000 64 48 64 4 1; rights = 6; origin = none }

abbrev borrowed : Capability
borrowed = record screen { origin = some loan }

abbrev holding : Process
holding = record {
  caps = record { slots = replicate 16 none; reserved = true ∷ replicate 15 false };
  maps = [];
  fb_maps = [];
  pages = [];
}

abbrev drawing : Process
drawing = record holding {
  caps = record { slots = some borrowed ∷ replicate 15 none; reserved = replicate 16 false };
}

abbrev kernel : Kernel
kernel = record {
  table = empty_slot ∷ record empty_slot { process = some drawing } ∷ empty_slot ∷ empty_slot ∷ [];
  links = replicate 4 none;
  endpoints = replicate 8 Endpoint.empty;
  current_slot = 2 ∷ 2 ∷ [];
  current = none ∷ some holding ∷ [];
  core = 0;
}

holding-LivesAt : LivesAt kernel 2 (on_core 1) holding
holding-LivesAt = (refl, omega arith, refl, refl, only)
  where
    only : (d : ℕ) → Runs kernel 2 d → d ≡ 1
    only zero r = absurd (cc)
    only (suc zero) r = refl
    only (suc (suc d)) r = absurd (cc)

reclaim_cap_home-Held_example :
    let (k', result) = reclaim_cap_home kernel borrowed loan screen in
    (result ≡ landed 0)
    × (p' : Process) × (process_at k' (on_core 1) ≡ some p')
    × (slot_at p'.caps 0 ≡ some screen)
reclaim_cap_home-Held_example =
    reclaim_cap_home-Held kernel borrowed screen loan (on_core 1) holding holding-LivesAt
      (record { in_range = omega arith; flag = refl; empty = refl })

clear_origins_naming_lem_example :
    ((i : ℕ) → Forgot 2 ((slot_of (clear_origins_naming kernel 2).0 i).process))
    × ((core : ℕ) → Forgot 2 (process_on (clear_origins_naming kernel 2).0 core))
clear_origins_naming_lem_example = clear_origins_naming_lem kernel 2
