-- ===== src/Tests/CapTableTests.antt =====
-- A table of three live slots, run through a loan and through charges.
use plinth_os.Base.{◌≡◌, refl, false, none, some, List, [], ◌∷◌, arith, replicate, get_or-replicate}
use plinth_os.Capability.{Capability, framebuffer, cpu_time, frame, right_consume}
use plinth_os.CapTable
use plinth_os.CapTable.{
  CapTable, ok, err, slot_at, is_reserved, new, install, insufficient, table_full, free_at,
  clear_origin, names,
}
use plinth_os.CapTable.Valid.{IsValid, new-IsValid}
use plinth_os.CapTable.Run.{Op, apply, run, run-IsValid}
use plinth_os.CapTable.Home.{homecoming}
use plinth_os.CapTable.Charge.{spend, Spent, spend-Spent}

abbrev budget : Capability
budget = record { object = cpu_time 1024; rights = right_consume; origin = none }

abbrev screen : Capability
screen = record { object = framebuffer 0x1000 64 48 64 4 1; rights = 6; origin = none }

abbrev page : Capability
page = record { object = frame 0x5000; rights = 7; origin = none }

abbrev script : List Op
script =
    Op.mint (cpu_time 1024) right_consume
    ∷ Op.install screen
    ∷ Op.revoke 1
    ∷ Op.reserve 1
    ∷ Op.install page
    ∷ []

abbrev loaded : CapTable
loaded = record {
  slots = some budget ∷ some screen ∷ replicate 14 none;
  reserved = replicate 16 false;
}

-- The page goes to slot 2: slot 1 is held open for the screen.
script_runs : slot_at (run new script) 2 ≡ some page
unfolding run apply new CapTable.mint CapTable.install CapTable.first_free CapTable.revoke
    CapTable.reserve
script_runs = refl

loaded-IsValid : IsValid loaded
loaded-IsValid = record {
  slot_count = refl;
  reserved_count = refl;
  held_empty = λ i h. absurd (ground (arith, get_or-replicate 16 i false));
}

abbrev full : CapTable
full = record { slots = replicate 16 (some page); reserved = replicate 16 false }

run-IsValid_example : IsValid (run new script)
unfolding apply new CapTable.mint CapTable.install CapTable.first_free CapTable.revoke
run-IsValid_example = run-IsValid new script new-IsValid (tt, (tt, (tt, (refl, (tt, tt)))))

-- The screen comes home to slot 1 though the lender installed a page while it was away.
homecoming_example :
    let lent = record loaded { slots = some budget ∷ replicate 15 none } in
    let t = run (CapTable.reserve lent 1) (Op.install page ∷ Op.charge 0 100 right_consume ∷ []) in
    let (u, landing) =
      CapTable.install_home t screen (some (record { proc_slot = 0; cap_slot = 1 })) 0 in
    (landing ≡ some 1) × (slot_at u 1 ≡ some screen) × (is_reserved u 1 ≡ false)
unfolding CapTable.revoke
homecoming_example =
    homecoming loaded _ screen screen (record { proc_slot = 0; cap_slot = 1 })
      (Op.install page ∷ Op.charge 0 100 right_consume ∷ []) loaded-IsValid refl (tt, (tt, tt))

spend-Spent_example :
    Spent loaded
      (spend loaded 0 right_consume (1000 ∷ 100 ∷ 24 ∷ [])).0
      0
      budget
      1024
      (spend loaded 0 right_consume (1000 ∷ 100 ∷ 24 ∷ [])).1
spend-Spent_example =
    spend-Spent loaded 0 right_consume budget 1024 (1000 ∷ 100 ∷ 24 ∷ [])
      (record { in_range = omega arith; held = refl; budget = refl; allowed = refl })

-- 100 is refused with 24 left.
spend_runs : (spend loaded 0 right_consume (1000 ∷ 100 ∷ 24 ∷ [])).1 ≡ 1024
unfolding spend CapTable.charge CapTable.lookup
spend_runs = refl

-- Slot 0 is on loan from process 2, slot 1 from process 3.
abbrev borrowing : CapTable
borrowing = record {
  slots =
      some (record screen { origin = some (record { proc_slot = 2; cap_slot = 5 }) })
      ∷ some (record page { origin = some (record { proc_slot = 3; cap_slot = 0 }) })
      ∷ replicate 14 none;
  reserved = replicate 16 false;
}
