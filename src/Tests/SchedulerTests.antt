-- ===== src/Tests/SchedulerTests.antt =====
-- Sixteen cores: slots 0 and 1 are at home on core 1, and core 1 is running slot 0.
use plinth_os.Base.{
  true, ◌+◌, ℕ, zero, suc, ◌≡◌, ◌≢◌, ◌<◌, ◌⊎◌, refl, false, Option, none, some, List, [], ◌∷◌,
  length, arith, replicate, get_or,
}
use plinth_os.Kernel.{State, max_processes}
use plinth_os.Scheduler.Home.{Found, next_home_core-Found}
use plinth_os.Scheduler.{
  next_home_core, Cores, max_cores, is_ready, pick_next, pick_loop, try_steal, queue_of,
}
use plinth_os.Scheduler.Pick.{Picked, pick_next-cases}
use plinth_os.Scheduler.Homes.{WellHomed}
use plinth_os.Scheduler.Steal.{Stolen, NothingToTake, try_steal-cases}

abbrev slots : List State
slots = State.ready ∷ State.running ∷ State.blocked ∷ State.ready ∷ []

pick_next-cases_example :
    ((i : ℕ) × (pick_next slots 1 ≡ some i) × (i ≢ 1) × Picked slots 1 1 max_processes i)
    ⊎ ((pick_next slots 1 ≡ none)
        × ((i : ℕ) → i < max_processes → i ≢ 1 → is_ready (get_or slots i State.empty) ≡ false))
pick_next-cases_example = pick_next-cases slots 1 (omega arith)

picks_three : pick_next slots 1 ≡ some 3
unfolding pick_next pick_loop
picks_three = refl

abbrev idle : List (Option ℕ)
idle = replicate 4 none

abbrev cores : Cores
cores = record {
  queues = idle ∷ (some 0 ∷ some 1 ∷ none ∷ none ∷ []) ∷ replicate 14 idle;
  current_slot = replicate 16 0;
  states = State.ready ∷ State.ready ∷ State.empty ∷ State.empty ∷ [];
  next_home = 2;
  steals = 0;
}

idle_queue : (n i : ℕ) → i < n → length (get_or (replicate n idle) i []) ≡ 4
idle_queue zero i lt = absurd (omega arith)
idle_queue (suc n) zero lt = refl
idle_queue (suc n) (suc i) lt = idle_queue n i (omega arith)

cores-WellHomed : WellHomed cores
cores-WellHomed = record { cores = refl; room = each_queue; few = omega arith }
  where
    each_queue : (core : ℕ) → core < 16 → length (queue_of cores core) ≡ 4
    each_queue zero lt = refl
    each_queue (suc zero) lt = refl
    each_queue (suc (suc core)) lt = idle_queue 14 core (omega arith)

try_steal-cases_example :
    ((c' : Cores) × (t : ℕ) × (try_steal cores 3 ≡ some (c', some t)) × Stolen cores 3 c' t)
    ⊎ ((try_steal cores 3 ≡ some (cores, none))
        × ((donor : ℕ) → donor < max_cores → donor ≢ 3 → NothingToTake cores donor))
try_steal-cases_example = try_steal-cases cores 3 cores-WellHomed (omega arith)

-- Cores 0 and 1 are up, and the counter stands at 2.
next_home_core-Found_example :
    (h : ℕ) × (next_home_core cores (true ∷ true ∷ [])
      ≡ some (record cores { next_home = h + 1 }, h))
    × Found (true ∷ true ∷ []) 2 h
next_home_core-Found_example = next_home_core-Found cores (true ∷ true ∷ []) 1 (omega arith) refl
