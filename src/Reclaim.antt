-- ===== src/Reclaim.antt =====
-- kernel/src/scheduler.rs, how a lent capability comes home when its borrower gives it back or dies,
-- and how the loans of a lender that dies are forgotten.
pub mod Reach
pub mod Forget
use plinth_os.Base.{
  ℕ, zero, suc, ◌+◌, ◌<◌, ◌≡◌, ◌&&◌, not, Bool, true, false, Option, none, some, List, [], ◌∷◌,
  get_or, set, ◌==◌, if◌then◌else◌,
}
use plinth_os.Capability.{Capability, Origin, lender, home, reclaim_target, is_none}
use plinth_os.CapTable
use plinth_os.CapTable.{CapTable, or_install}
use plinth_os.Process.{Process}
use plinth_os.Kernel.{Kernel, Slot, slot_of, put_slot, set_reclaim_landing}
use plinth_os.Ipc.Endpoint.{note_cap_added, note_cap_removed}
use plinth_os.Scheduler.{max_cores}

pub data ReclaimHome : Type 0 where
  landed : (landing : ℕ) → ReclaimHome
  lender_full no_lender : ReclaimHome

-- Where a live process is: parked in its slot of the table, or on a core.
pub data Place : Type 0 where
  in_slot : (slot : ℕ) → Place
  on_core : (core : ℕ) → Place

abbrev pub process_on : Kernel → ℕ → Option Process
process_on k core = get_or k.current core none

-- The loop over the cores, from `core` on.
unfoldable pub core_loop : Kernel → ℕ → ℕ → ℕ → Option ℕ
core_loop k slot core zero = none
core_loop k slot core (suc n) =
    let rest = core_loop k slot (core + 1) n in
    if (get_or k.current_slot core 0 == slot) && not (is_none (process_on k core))
    then some core
    else rest

abbrev pub on_found : Option ℕ → Option Place
on_found none = none
on_found (some core) = some (on_core core)

-- Where `with_lender_caps` finds the process of `slot`.
unfoldable pub place_of : Kernel → ℕ → Option Place
place_of k slot =
    if is_none ((slot_of k slot).process)
    then on_found (core_loop k slot 0 max_cores)
    else some (in_slot slot)

abbrev pub process_at : Kernel → Place → Option Process
process_at k (in_slot slot) = (slot_of k slot).process
process_at k (on_core core) = process_on k core

abbrev pub put_process_at : Kernel → Place → Process → Kernel
put_process_at k (in_slot slot) p = put_slot k slot (record (slot_of k slot) { process = some p })
put_process_at k (on_core core) p = record k { current = set k.current core (some p) }

abbrev pub put_caps_at : Kernel → Place → Process → CapTable × Option ℕ → Kernel × Option (Option ℕ)
put_caps_at k at p (t, r) = (put_process_at k at (record p { caps = t }), some r)

abbrev pub change_at :
    Kernel → (CapTable → CapTable × Option ℕ) → Place → Option Process → Kernel × Option (Option ℕ)
change_at k f at none = (k, none)
change_at k f at (some p) = put_caps_at k at p (f p.caps)

abbrev pub change_found :
    Kernel → (CapTable → CapTable × Option ℕ) → Option Place → Kernel × Option (Option ℕ)
change_found k f none = (k, none)
change_found k f (some at) = change_at k f at (process_at k at)

unfoldable pub with_lender_caps :
    Kernel → ℕ → (CapTable → CapTable × Option ℕ) → Kernel × Option (Option ℕ)
with_lender_caps k slot f = change_found k f (place_of k slot)

abbrev pub account : Capability → Capability → Kernel × Option (Option ℕ) → Kernel × ReclaimHome
account cap came_home (k, none) = (k, no_lender)
account cap came_home (k, some none) = (k, lender_full)
account cap came_home (k, some (some landing)) = (
  record k { endpoints = note_cap_added (note_cap_removed k.endpoints cap false) came_home },
  landed landing,
)

unfoldable pub reclaim_cap_home : Kernel → Capability → Origin → Capability → Kernel × ReclaimHome
reclaim_cap_home k cap origin came_home = account cap came_home (
    with_lender_caps k (lender origin)
      (λ caps. or_install came_home (CapTable.reclaim_to caps (home origin) came_home)))

-- What the death of the borrower adds: the lender's slot records where its capability landed.
abbrev pub record_landing : ℕ → Kernel × ReclaimHome → Kernel
record_landing slot (k, landed landing) = set_reclaim_landing k slot landing
record_landing slot (k, lender_full) = k
record_landing slot (k, no_lender) = k

abbrev pub reclaim_one : Kernel → Capability → Option (Origin × Capability) → Kernel
reclaim_one k cap none = k
reclaim_one k cap (some (origin, came_home)) =
    record_landing (lender origin) (reclaim_cap_home k cap origin came_home)

unfoldable pub reclaim_caps : Kernel → ℕ → List Capability → Kernel
reclaim_caps k dying_slot [] = k
reclaim_caps k dying_slot (cap ∷ caps) =
    reclaim_caps (reclaim_one k cap (reclaim_target cap dying_slot)) dying_slot caps

unfoldable pub reclaim_lent_caps : Kernel → CapTable → ℕ → Kernel
reclaim_lent_caps k dying dying_slot = reclaim_caps k dying_slot (CapTable.iter dying)

-- `p.caps.clear_origin(slot)`, and its count.
abbrev pub clear_process : ℕ → Option Process → Option Process × ℕ
clear_process slot none = (none, 0)
clear_process slot (some p) =
    let (t, n) = CapTable.clear_origin p.caps slot in (some (record p { caps = t }), n)

unfoldable pub clear_table : ℕ → List Slot → List Slot × ℕ
clear_table slot [] = ([], 0)
clear_table slot (s ∷ ss) =
    let (p, n) = clear_process slot s.process in
    let (ss', m) = clear_table slot ss in (record s { process = p } ∷ ss', n + m)

unfoldable pub clear_current : ℕ → List (Option Process) → List (Option Process) × ℕ
clear_current slot [] = ([], 0)
clear_current slot (o ∷ os) =
    let (p, n) = clear_process slot o in let (os', m) = clear_current slot os in (p ∷ os', n + m)

unfoldable pub clear_origins_naming : Kernel → ℕ → Kernel × ℕ
clear_origins_naming k slot =
    let (table, n) = clear_table slot k.table in
    let (current, m) = clear_current slot k.current in
    (record k { table = table; current = current }, n + m)
