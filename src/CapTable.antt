-- ===== src/CapTable.antt =====
-- kernel/src/capability.rs, `CapTable`: sixteen slots, and which of them are held open for a
-- capability that is out on loan. A method returns the new table beside its result.
pub mod Install
pub mod Charge
pub mod Home
pub mod Lookup
pub mod Run
pub mod Sweep
pub mod Valid
use plinth_os.Base.{
  ℕ, zero, suc, ◌+◌, ◌-◌, ◌≡◌, ◌&&◌, ◌||◌, not, Bool, true, false, Option, none, some, List, [],
  ◌∷◌, get_or, get_elem?, set, replicate, ◌==◌, ltb, if◌then◌else◌, bit_and,
}
use plinth_os.Capability.{Capability, CapObject, cpu_time, Origin, lender, home, max_caps, is_none}

pub data CapError : Type 0 where
  table_full bad_slot empty_slot rights_denied wrong_type insufficient : CapError

pub data Result (A : Type 0) : Type 0 where
  ok : A → Result A
  err : CapError → Result A

pub record CapTable : Type 0 where
  pub slots : List (Option Capability)
  pub reserved : List Bool

unfoldable pub new : CapTable
new = record { slots = replicate max_caps none; reserved = replicate max_caps false }

-- A slot past the end holds nothing and is not reserved.
abbrev pub slot_at : CapTable → ℕ → Option Capability
slot_at t i = get_or t.slots i none

abbrev pub is_reserved : CapTable → ℕ → Bool
is_reserved t i = get_or t.reserved i false

unfoldable pub peek : CapTable → ℕ → Option Capability
peek t slot = slot_at t slot

unfoldable pub reserve : CapTable → ℕ → CapTable
reserve t slot = record t { reserved = set t.reserved slot true }

unfoldable pub clear_reservation : CapTable → ℕ → CapTable
clear_reservation t slot = record t { reserved = set t.reserved slot false }

-- Is slot `i` one that `install` may take?
abbrev pub free_at : List (Option Capability) → List Bool → ℕ → Bool
free_at ss rs i = is_none (get_or ss i none) && not (get_or rs i false)

-- The scan of `install`: the first slot from index `i` on that is empty and not reserved. The two
-- arrays have one length, so the clause where `reserved` is shorter is never reached.
unfoldable pub first_free : List (Option Capability) → List Bool → ℕ → Option ℕ
first_free [] rs i = none
first_free (s ∷ ss) [] i = if is_none s then some i else first_free ss [] (i + 1)
first_free (s ∷ ss) (r ∷ rs) i = if is_none s && not r then some i else first_free ss rs (i + 1)

abbrev pub put_at : CapTable → Capability → Option ℕ → CapTable × Result ℕ
put_at t cap none = (t, err table_full)
put_at t cap (some i) = (record t { slots = set t.slots i (some cap) }, ok i)

unfoldable pub install : CapTable → Capability → CapTable × Result ℕ
install t cap = put_at t cap (first_free t.slots t.reserved 0)

unfoldable pub mint : CapTable → CapObject → ℕ → CapTable × Result ℕ
mint t object rights = install t (record { object = object; rights = rights; origin = none })

-- `.ok()`
abbrev pub to_option : CapTable × Result ℕ → CapTable × Option ℕ
to_option (t, ok i) = (t, some i)
to_option (t, err e) = (t, none)

unfoldable pub reclaim : CapTable → Capability → CapTable × Option ℕ
reclaim t cap = to_option (install t cap)

-- The `?` on `slots.get(slot)` also returns `None`, with the table unchanged.
unfoldable pub reclaim_to : CapTable → ℕ → Capability → CapTable × Option ℕ
reclaim_to t slot cap =
    if is_reserved t slot && (elim (get_elem? t.slots slot) [ none ↦ false | some s ↦ is_none s ])
    then (
      record { slots = set t.slots slot (some cap); reserved = set t.reserved slot false },
      some slot,
    )
    else (t, none)

-- The last line of `install_home`, after what `reclaim_to` returned.
abbrev pub or_install : Capability → CapTable × Option ℕ → CapTable × Option ℕ
or_install cap (t, some slot) = (t, some slot)
or_install cap (t, none) = reclaim t cap

unfoldable pub install_home : CapTable → Capability → Option Origin → ℕ → CapTable × Option ℕ
install_home t cap none dest_proc = reclaim t cap
install_home t cap (some o) dest_proc =
    if lender o == dest_proc then or_install cap (reclaim_to t (home o) cap) else reclaim t cap

-- `cap.origin.map(|o| o.lender()) == Some(slot)`
abbrev pub names : ℕ → Option Capability → Bool
names slot none = false
names slot (some cap) = elim cap.origin [ none ↦ false | some o ↦ lender o == slot ]

abbrev pub forget_origin : ℕ → Option Capability → Option Capability
forget_origin slot none = none
forget_origin slot (some cap) =
    if names slot (some cap) then some (record cap { origin = none }) else some cap

unfoldable pub clear_loop : ℕ → List (Option Capability) → List (Option Capability) × ℕ
clear_loop slot [] = ([], 0)
clear_loop slot (s ∷ ss) =
    let (ss', cleared) = clear_loop slot ss in
    (forget_origin slot s ∷ ss', (if names slot s then 1 else 0) + cleared)

unfoldable pub clear_origin : CapTable → ℕ → CapTable × ℕ
clear_origin t slot =
    let (ss, cleared) = clear_loop slot t.slots in (record t { slots = ss }, cleared)

-- `iter`: the capabilities held, in slot order.
unfoldable pub live : List (Option Capability) → List Capability
live [] = []
live (none ∷ ss) = live ss
live (some c ∷ ss) = c ∷ live ss

unfoldable pub iter : CapTable → List Capability
iter t = live t.slots

-- `slots.get(slot).ok_or(BadSlot)?.ok_or(EmptySlot)?`, which `lookup`, `charge` and `revoke` share.
abbrev pub fetch : CapTable → ℕ → Result Capability
fetch t slot = elim (get_elem? t.slots slot) [
  | none ↦ err bad_slot
  | some s ↦ elim s [ none ↦ err empty_slot | some cap ↦ ok cap ]
]

unfoldable pub lookup : CapTable → ℕ → ℕ → Result Capability
lookup t slot required = elim (fetch t slot) [
  | err e ↦ err e
  | ok cap ↦ if bit_and cap.rights required == required then ok cap else err rights_denied
]

-- The debit of `charge` from a capability that passed the rights check.
abbrev pub debit : CapTable → ℕ → ℕ → Capability → CapObject → CapTable × Result ℕ
debit t slot amount cap (cpu_time budget) = if ltb budget amount then (t, err insufficient) else (
  record t { slots = set t.slots slot (some (record cap { object = cpu_time (budget - amount) })) },
  ok (budget - amount),
)
debit t slot amount cap _ = (t, err wrong_type)

unfoldable pub charge : CapTable → ℕ → ℕ → ℕ → CapTable × Result ℕ
charge t slot amount required = elim (lookup t slot required) [
  | err e ↦ (t, err e)
  | ok cap ↦ debit t slot amount cap cap.object
]

unfoldable pub revoke : CapTable → ℕ → CapTable × Result Capability
revoke t slot = elim (fetch t slot) [
  | err e ↦ (t, err e)
  | ok cap ↦ (record t { slots = set t.slots slot none }, ok cap)
]

-- `drain` hands out what `iter` lists, and leaves every slot empty; `reserved` is not touched.
abbrev pub emptied : List (Option Capability) → List (Option Capability)
emptied [] = []
emptied (s ∷ ss) = none ∷ emptied ss

unfoldable pub drain : CapTable → CapTable × List Capability
drain t = (record t { slots = emptied t.slots }, live t.slots)
