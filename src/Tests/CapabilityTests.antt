-- ===== src/Tests/CapabilityTests.antt =====
-- Concrete loans: a framebuffer lent by process 0 from slot 1.
use plinth_os.Base.{◌≡◌, refl, false, none, some, [], ◌∷◌, ◌++◌, arith}
use plinth_os.Capability.{
  Capability, framebuffer, Origin, lent_to, release_action, lend_reserves_home, reclaim_target,
}
use plinth_os.Capability.Loan.{Hop, pass_along, pass_along-root, pass_along-home, relend}

abbrev screen : Capability
screen = record { object = framebuffer 0x1000 64 48 64 4 1; rights = 6; origin = none }

abbrev from_shell : Origin
from_shell = record { proc_slot = 0; cap_slot = 1 }

abbrev first_loan : Hop
first_loan = record { source = from_shell; dest = 1 }

abbrev second_loan : Hop
second_loan = record { source = record { proc_slot = 1; cap_slot = 3 }; dest = 2 }

pass_along-root_example :
    pass_along screen (first_loan ∷ second_loan ∷ []) ≡ record screen { origin = some from_shell }
pass_along-root_example = pass_along-root screen first_loan (second_loan ∷ []) refl (omega arith)

pass_along-home_example :
    pass_along screen (
      (first_loan ∷ second_loan ∷ [])
      ++ (record { source = record { proc_slot = 2; cap_slot = 5 }; dest = 0 } ∷ []))
    ≡ screen
pass_along-home_example =
    pass_along-home screen first_loan (second_loan ∷ []) (record { proc_slot = 2; cap_slot = 5 })
      refl (omega arith)

relend_example :
    (lend_reserves_home (record screen { origin = some from_shell }) ≡ false)
    × (release_action (
          lent_to
            (record screen { origin = some from_shell })
            (record { proc_slot = 1; cap_slot = 3 })
            2)
        ≡ release_action (record screen { origin = some from_shell }))
relend_example =
    relend (record screen { origin = some from_shell }) from_shell
      (record { proc_slot = 1; cap_slot = 3 }) 2 refl (omega arith)

reclaim_runs :
    reclaim_target (record screen { origin = some from_shell }) 2 ≡ some (from_shell, screen)
unfolding reclaim_target release_action lent_to
reclaim_runs = refl
