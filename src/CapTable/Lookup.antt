-- ===== src/CapTable/Lookup.antt =====
-- What `CapTable::lookup` admits: the rights gate, on every branch.
use Prim.Native.Nat.{bit_and}
use plinth_os.Base.{
  get_or_of_le, ℕ, ◌<◌, ◌≡◌, ◌⊎◌, refl, some, none, length, set, arith, inl, inr, ltb, ◌==◌,
  get_elem?-get_or, if◌then◌else◌,
}
use plinth_os.Capability.{Capability}
use plinth_os.CapTable.{
  CapTable, CapError, Result, ok, err, bad_slot, empty_slot, rights_denied, slot_at, lookup, fetch,
  revoke,
}

-- `lookup` decides in the source's order: a slot past the table, an empty slot, a missing right.
pub lookup_lem :
    (t : CapTable) (slot required : ℕ)
    → lookup t slot required ≡ (
        if ltb slot (length t.slots)
        then elim (slot_at t slot) [
          | none ↦ err empty_slot
          | some cap ↦ if bit_and cap.rights required == required then ok cap else err rights_denied
        ]
        else err bad_slot)
unfolding lookup
lookup_lem t slot required = ground (arith, get_elem?-get_or t.slots slot none)

pub lookup-ok :
    (t : CapTable) (slot required : ℕ) (cap : Capability)
    → lookup t slot required ≡ ok cap
    → (slot < length t.slots)
      × (slot_at t slot ≡ some cap)
      × (bit_and cap.rights required ≡ required)
unfolding lookup
lookup-ok t slot required cap h = ground (arith, get_elem?-get_or t.slots slot none)

pub lookup-cases :
    (t : CapTable) (slot required : ℕ)
    → ((e : CapError) × (lookup t slot required ≡ err e))
      ⊎ ((cap : Capability) × (lookup t slot required ≡ ok cap)
          × (slot_at t slot ≡ some cap)
          × (slot < length t.slots))
lookup-cases t slot required = go (lookup t slot required) refl
  where
    go :
        (r : Result Capability)
        → lookup t slot required ≡ r
        → ((e : CapError) × (lookup t slot required ≡ err e))
          ⊎ ((cap : Capability) × (lookup t slot required ≡ ok cap)
              × (slot_at t slot ≡ some cap)
              × (slot < length t.slots))
    go (err e) h = inl (e, h)
    go (ok cap) h = let l = lookup-ok t slot required cap h in inr (cap, h, l.1, l.0)

pub fetch-ok :
    (t : CapTable) (slot : ℕ) (cap : Capability)
    → fetch t slot ≡ ok cap
    → (slot < length t.slots) × (slot_at t slot ≡ some cap)
fetch-ok t slot cap h = ground (arith, get_elem?-get_or t.slots slot none)

-- A successful `revoke` hands out what the slot held, and empties that slot alone.
pub revoke-ok :
    (t t' : CapTable) (slot : ℕ) (cap : Capability)
    → revoke t slot ≡ (t', ok cap)
    → (slot < length t.slots)
      × (slot_at t slot ≡ some cap)
      × (t' ≡ record t { slots = set t.slots slot none })
unfolding revoke
revoke-ok t t' slot cap h = go (fetch t slot) refl
  where
    go :
        (r : Result Capability)
        → fetch t slot ≡ r
        → (slot < length t.slots)
          × (slot_at t slot ≡ some cap)
          × (t' ≡ record t { slots = set t.slots slot none })
    go (err e) r = absurd (ground arith)
    go (ok c) r = let f = fetch-ok t slot c r in ground arith

fetch-err : (t : CapTable) (slot : ℕ) (e : CapError) → fetch t slot ≡ err e → slot_at t slot ≡ none
fetch-err t slot e h =
    ground (arith, get_elem?-get_or t.slots slot none, get_or_of_le t.slots slot none)

-- `revoke` on both branches.
pub revoke-cases :
    (t : CapTable) (slot : ℕ)
    → ((e : CapError) × (revoke t slot ≡ (t, err e)) × (slot_at t slot ≡ none))
      ⊎ ((cap : Capability) × (slot < length t.slots)
          × (slot_at t slot ≡ some cap)
          × (revoke t slot ≡ (record t { slots = set t.slots slot none }, ok cap)))
unfolding revoke
revoke-cases t slot = go (fetch t slot) refl
  where
    go :
        (r : Result Capability)
        → fetch t slot ≡ r
        → ((e : CapError) × (revoke t slot ≡ (t, err e)) × (slot_at t slot ≡ none))
          ⊎ ((cap : Capability) × (slot < length t.slots)
              × (slot_at t slot ≡ some cap)
              × (revoke t slot ≡ (record t { slots = set t.slots slot none }, ok cap)))
    go (err e) r = inl (e, ground (arith, r), fetch-err t slot e r)
    go (ok c) r = let f = fetch-ok t slot c r in inr (c, f.0, f.1, ground (arith, r))
