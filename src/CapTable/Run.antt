-- ===== src/CapTable/Run.antt =====
-- The calls that reach one process's `CapTable`, as a list of operations, and the invariant over
-- every run of them. The lending path calls `reserve` on the slot that it has just revoked, so
-- `reserve` is only met at an empty slot.
use plinth_os.Base.{ℕ, ◌≡◌, Option, none, List, [], ◌∷◌}
use plinth_os.Capability.{Capability, CapObject, Origin}
use plinth_os.CapTable
use plinth_os.CapTable.{CapTable, new, slot_at, is_reserved}
use plinth_os.CapTable.Valid.{
  IsValid, reserve-IsValid, clear_reservation-IsValid, install-IsValid, reclaim_to-IsValid,
  revoke-IsValid, charge-IsValid, clear_origin-IsValid, drain-IsValid, reclaim-IsValid,
  install_home-IsValid,
}

pub data Op : Type 0 where
  mint : (object : CapObject) (rights : ℕ) → Op
  install : Capability → Op
  install_home : Capability → Option Origin → (dest_proc : ℕ) → Op
  reclaim : Capability → Op
  reclaim_to : (slot : ℕ) → Capability → Op
  reserve : (slot : ℕ) → Op
  clear_reservation : (slot : ℕ) → Op
  charge : (slot amount required : ℕ) → Op
  revoke : (slot : ℕ) → Op
  clear_origin : (proc_slot : ℕ) → Op
  drain : Op

unfoldable pub apply : CapTable → Op → CapTable
apply t (mint object rights) = (CapTable.mint t object rights).0
apply t (install c) = (CapTable.install t c).0
apply t (install_home c prior dest) = (CapTable.install_home t c prior dest).0
apply t (reclaim c) = (CapTable.reclaim t c).0
apply t (reclaim_to slot c) = (CapTable.reclaim_to t slot c).0
apply t (reserve slot) = CapTable.reserve t slot
apply t (clear_reservation slot) = CapTable.clear_reservation t slot
apply t (charge slot amount required) = (CapTable.charge t slot amount required).0
apply t (revoke slot) = (CapTable.revoke t slot).0
apply t (clear_origin proc_slot) = (CapTable.clear_origin t proc_slot).0
apply t drain = (CapTable.drain t).0

unfoldable pub run : CapTable → List Op → CapTable
run t [] = t
run t (op ∷ ops) = run (apply t op) ops

-- The lending path's discipline, as a condition on one call.
abbrev pub IsAllowed : CapTable → Op → Type 0
IsAllowed t (reserve slot) = slot_at t slot ≡ none
IsAllowed t _ = Unit {0}

abbrev pub AllAllowed : CapTable → List Op → Type 0
AllAllowed t [] = Unit {0}
AllAllowed t (op ∷ ops) = IsAllowed t op × AllAllowed (apply t op) ops

pub apply-IsValid : (t : CapTable) (op : Op) → IsValid t → IsAllowed t op → IsValid (apply t op)
unfolding apply CapTable.mint
apply-IsValid t (mint object rights) v a = install-IsValid t v _
apply-IsValid t (install c) v a = install-IsValid t v c
apply-IsValid t (install_home c prior dest) v a = install_home-IsValid t c prior dest v
apply-IsValid t (reclaim c) v a = reclaim-IsValid t c v
apply-IsValid t (reclaim_to slot c) v a = reclaim_to-IsValid t v slot c
apply-IsValid t (reserve slot) v a = reserve-IsValid t v slot a
apply-IsValid t (clear_reservation slot) v a = clear_reservation-IsValid t v slot
apply-IsValid t (charge slot amount required) v a = charge-IsValid t v slot amount required
apply-IsValid t (revoke slot) v a = revoke-IsValid t v slot
apply-IsValid t (clear_origin proc_slot) v a = clear_origin-IsValid t v proc_slot
apply-IsValid t drain v a = drain-IsValid t v

-- A table that holds sixteen slots and sixteen flags, with each slot that is held open empty, stays
-- so over every list of calls whose `reserve`s are at empty slots.
pub run-IsValid :
    (t : CapTable) (ops : List Op) → IsValid t → AllAllowed t ops → IsValid (run t ops)
unfolding run
run-IsValid t [] v a = v
run-IsValid t (op ∷ ops) v a = run-IsValid (apply t op) ops (apply-IsValid t op v a.0) a.1
