-- ===== src/CapTable/Sweep.antt =====
-- The two passes over a whole table: `clear_origin`, run on every live table when a process exits,
-- and `drain`, which empties the table of the process that exits.
use plinth_os.Base.{
  ℕ, zero, suc, ◌+◌, ◌≡◌, refl, false, Option, none, some, List, [], ◌∷◌, length, get_or, arith, ap,
  if◌then◌else◌,
}
use plinth_os.Capability.{Capability}
use plinth_os.CapTable.{CapTable, slot_at, clear_loop, clear_origin, emptied, names, forget_origin}

pub length-clear_loop :
    (slot : ℕ) (ss : List (Option Capability)) → length (clear_loop slot ss).0 ≡ length ss
unfolding clear_loop
length-clear_loop slot [] = refl
length-clear_loop slot (s ∷ ss) = ap suc (length-clear_loop slot ss)

pub get_or-clear_loop :
    (slot : ℕ) (ss : List (Option Capability)) (k : ℕ)
    → get_or (clear_loop slot ss).0 k none ≡ forget_origin slot (get_or ss k none)
unfolding clear_loop
get_or-clear_loop slot [] k = refl
get_or-clear_loop slot (s ∷ ss) zero = refl
get_or-clear_loop slot (s ∷ ss) (suc k) = get_or-clear_loop slot ss k

pub length-emptied : (ss : List (Option Capability)) → length (emptied ss) ≡ length ss
length-emptied [] = refl
length-emptied (s ∷ ss) = ap suc (length-emptied ss)

pub get_or-emptied : (ss : List (Option Capability)) (k : ℕ) → get_or (emptied ss) k none ≡ none
get_or-emptied [] k = refl
get_or-emptied (s ∷ ss) zero = refl
get_or-emptied (s ∷ ss) (suc k) = get_or-emptied ss k

-- How many slots hold a capability on loan from `slot`.
unfoldable pub count_naming : ℕ → List (Option Capability) → ℕ
count_naming slot [] = 0
count_naming slot (s ∷ ss) = (if names slot s then 1 else 0) + count_naming slot ss

cleared-eq-count :
    (slot : ℕ) (ss : List (Option Capability)) → (clear_loop slot ss).1 ≡ count_naming slot ss
unfolding clear_loop count_naming
cleared-eq-count slot [] = refl
cleared-eq-count slot (s ∷ ss) =
    ap (λ n. (if names slot s then 1 else 0) + n) (cleared-eq-count slot ss)

forget_origin-names : (slot : ℕ) (s : Option Capability) → names slot (forget_origin slot s) ≡ false
forget_origin-names slot none = refl
forget_origin-names slot (some c) = ground arith

-- After the sweep for a departing process no slot is on loan from it, the count returned is the
-- number of slots that were, and a slot changes in its origin alone, and only if it named the
-- process.
pub clear_origin_lem :
    (t : CapTable) (slot : ℕ)
    → ((clear_origin t slot).1 ≡ count_naming slot t.slots)
      × ((k : ℕ)
          → (names slot (slot_at (clear_origin t slot).0 k) ≡ false)
            × (slot_at (clear_origin t slot).0 k ≡ (
                if names slot (slot_at t k)
                then elim (slot_at t k) [ none ↦ none | some c ↦ some (record c { origin = none }) ]
                else slot_at t k)))
unfolding clear_origin
clear_origin_lem t slot = (
  cleared-eq-count slot t.slots,
  λ k. (
    ground (arith, get_or-clear_loop slot t.slots k, forget_origin-names slot (slot_at t k)),
    ground (arith, get_or-clear_loop slot t.slots k),
  ),
)
