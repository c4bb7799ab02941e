-- ===== src/Reclaim/Forget.antt =====
-- A process that exits is forgotten as a lender by every live process, suspended or running.
use mathlib.Core.Path.{subst}
use plinth_os.Base.{ℕ, zero, suc, ◌≡◌, refl, sym, false, Option, none, some, List, [], ◌∷◌, get_or}
use plinth_os.CapTable.{slot_at, names}
use plinth_os.CapTable.Sweep.{clear_origin_lem}
use plinth_os.Process.{Process}
use plinth_os.Kernel.{Kernel, Slot, slot_of, empty_slot}
use plinth_os.Reclaim.{process_on, clear_process, clear_table, clear_current, clear_origins_naming}

get_or-clear_table :
    (slot : ℕ) (ss : List Slot) (i : ℕ)
    → (get_or (clear_table slot ss).0 i empty_slot).process
      ≡ (clear_process slot ((get_or ss i empty_slot).process)).0
unfolding clear_table
get_or-clear_table slot [] i = refl
get_or-clear_table slot (s ∷ ss) zero = refl
get_or-clear_table slot (s ∷ ss) (suc i) = get_or-clear_table slot ss i

get_or-clear_current :
    (slot : ℕ) (os : List (Option Process)) (i : ℕ)
    → get_or (clear_current slot os).0 i none ≡ (clear_process slot (get_or os i none)).0
unfolding clear_current
get_or-clear_current slot [] i = refl
get_or-clear_current slot (o ∷ os) zero = refl
get_or-clear_current slot (o ∷ os) (suc i) = get_or-clear_current slot os i

-- No capability of the process is on loan from `slot`.
abbrev pub Forgot : ℕ → Option Process → Type 0
Forgot slot none = Unit {0}
Forgot slot (some p) = (j : ℕ) → names slot (slot_at p.caps j) ≡ false

clear_process-Forgot : (slot : ℕ) (o : Option Process) → Forgot slot (clear_process slot o).0
clear_process-Forgot slot none = tt
clear_process-Forgot slot (some p) = λ j. ((clear_origin_lem p.caps slot).1 j).0

-- After the sweep for a process that exits, no live process holds a capability on loan from its
-- slot, neither one that is suspended in the table nor one that is running on some core.
pub clear_origins_naming_lem :
    (k : Kernel) (slot : ℕ)
    → ((i : ℕ) → Forgot slot ((slot_of (clear_origins_naming k slot).0 i).process))
      × ((core : ℕ) → Forgot slot (process_on (clear_origins_naming k slot).0 core))
unfolding clear_origins_naming
clear_origins_naming_lem k slot = (
  λ i.
      subst (Forgot slot) (sym (get_or-clear_table slot k.table i))
        (clear_process-Forgot slot ((slot_of k i).process)),
  λ core.
      subst (Forgot slot) (sym (get_or-clear_current slot k.current core))
        (clear_process-Forgot slot (process_on k core)),
)
