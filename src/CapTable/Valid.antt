-- ===== src/CapTable/Valid.antt =====
-- What a table looks like, kept by every operation of `CapTable`.
use plinth_os.Base.{
  ◌==◌, ℕ, ◌≡◌, refl, true, false, Option, none, some, length, set, length-set, get_or-set,
  get_or-replicate, arith, inl, inr, Bool-cases, ltb, ◌∙◌,
}
use plinth_os.Capability.{Capability, CapObject, cpu_time, Origin, lender, home, max_caps}
use plinth_os.CapTable.{
  CapTable, Result, new, slot_at, is_reserved, reserve, clear_reservation, install, ok, reclaim,
  reclaim_to, install_home, clear_origin, charge, debit, revoke, drain, to_option, or_install, err,
}
use plinth_os.CapTable.Sweep.{length-clear_loop, get_or-clear_loop, length-emptied, get_or-emptied}
use plinth_os.CapTable.Lookup.{lookup-cases}
use plinth_os.CapTable.Install.{install-cases}

-- Both arrays have `MAX_CAPS` entries, and a slot that is held open is empty.
pub record IsValid (t : CapTable) : Type 0 where
  pub slot_count : length t.slots ≡ max_caps
  pub reserved_count : length t.reserved ≡ max_caps
  pub held_empty : (i : ℕ) → is_reserved t i ≡ true → slot_at t i ≡ none

pub new-IsValid : IsValid new
unfolding new
new-IsValid = record {
  slot_count = refl;
  reserved_count = refl;
  held_empty = λ i h. get_or-replicate max_caps i none;
}

module _ (t : CapTable) (v : IsValid t) where
  open v use {slot_count, reserved_count, held_empty}

  -- A slot is held open only once it is empty.
  pub reserve-IsValid : (slot : ℕ) → slot_at t slot ≡ none → IsValid (reserve t slot)
  unfolding reserve
  reserve-IsValid slot e = record {
    slot_count = slot_count;
    reserved_count = length-set t.reserved slot true ∙ reserved_count;
    held_empty = λ i h. ground (arith, held_empty i, get_or-set t.reserved slot i true false);
  }

  pub clear_reservation-IsValid : (slot : ℕ) → IsValid (clear_reservation t slot)
  unfolding clear_reservation
  clear_reservation-IsValid slot = record {
    slot_count = slot_count;
    reserved_count = length-set t.reserved slot false ∙ reserved_count;
    held_empty = λ i h. ground (arith, held_empty i, get_or-set t.reserved slot i false false);
  }

  -- A slot that is not held open may be written.
  write-IsValid :
      (slot : ℕ) (s : Option Capability)
      → is_reserved t slot ≡ false
      → IsValid (record t { slots = set t.slots slot s })
  write-IsValid slot s e = record {
    slot_count = length-set t.slots slot s ∙ slot_count;
    reserved_count = reserved_count;
    held_empty = λ i h. ground (arith, held_empty i, get_or-set t.slots slot i s none);
  }

  pub install-IsValid : (cap : Capability) → IsValid (install t cap).0
  install-IsValid cap = elim (install-cases t cap) [
    | inl (n, full) ↦ rw full v
    | inr (i, f, took) ↦ rw took (write-IsValid i (some cap) (ground (arith, f.free)))
  ]

  pub reclaim_to-IsValid : (slot : ℕ) (cap : Capability) → IsValid (reclaim_to t slot cap).0
  unfolding reclaim_to
  reclaim_to-IsValid slot cap = record {
    slot_count = ground (arith, length-set t.slots slot (some cap));
    reserved_count = ground (arith, length-set t.reserved slot false);
    held_empty = λ i h. ground (
      arith,
      held_empty i,
      get_or-set t.slots slot i (some cap) none,
      get_or-set t.reserved slot i false false,
    );
  }

  pub revoke-IsValid : (slot : ℕ) → IsValid (revoke t slot).0
  unfolding revoke
  revoke-IsValid slot = record {
    slot_count = ground (arith, length-set t.slots slot none);
    reserved_count = ground arith;
    held_empty = λ i h. ground (arith, held_empty i, get_or-set t.slots slot i none none);
  }

  debit-IsValid :
      (slot amount : ℕ) (cap : Capability) (object : CapObject)
      → slot_at t slot ≡ some cap
      → IsValid (debit t slot amount cap object).0
  debit-IsValid slot amount cap (cpu_time b) e = elim (Bool-cases (ltb b amount)) [
    | inl over ↦ rw over v
    | inr fits ↦ rw fits (write-IsValid slot _ (ground (arith, held_empty slot)))
  ]
  debit-IsValid slot amount cap _ e = v

  pub charge-IsValid : (slot amount required : ℕ) → IsValid (charge t slot amount required).0
  unfolding charge
  charge-IsValid slot amount required = elim (lookup-cases t slot required) [
    | inl (e, bad) ↦ rw (bad, charge) v
    | inr (c, good, held, _) ↦ rw (good, charge) (debit-IsValid slot amount c c.object held)
  ]

  pub clear_origin-IsValid : (slot : ℕ) → IsValid (clear_origin t slot).0
  unfolding clear_origin
  clear_origin-IsValid slot = record {
    slot_count = length-clear_loop slot t.slots ∙ slot_count;
    reserved_count = reserved_count;
    held_empty = λ i h. ground (arith, held_empty i, get_or-clear_loop slot t.slots i);
  }

  pub drain-IsValid : IsValid (drain t).0
  unfolding drain
  drain-IsValid = record {
    slot_count = length-emptied t.slots ∙ slot_count;
    reserved_count = reserved_count;
    held_empty = λ i h. get_or-emptied t.slots i;
  }

pub table-to_option : (p : CapTable × Result ℕ) → (to_option p).0 ≡ p.0
table-to_option (t, ok i) = refl
table-to_option (t, err e) = refl

pub reclaim-IsValid : (t : CapTable) (cap : Capability) → IsValid t → IsValid (reclaim t cap).0
unfolding reclaim
reclaim-IsValid t cap v = rw table-to_option (install-IsValid t v cap)

or_install-IsValid :
    (cap : Capability) (p : CapTable × Option ℕ) → IsValid p.0 → IsValid (or_install cap p).0
or_install-IsValid cap (t, none) v = reclaim-IsValid t cap v
or_install-IsValid cap (t, some slot) v = v

pub install_home-IsValid :
    (t : CapTable) (cap : Capability) (prior : Option Origin) (dest : ℕ)
    → IsValid t
    → IsValid (install_home t cap prior dest).0
unfolding install_home
install_home-IsValid t cap none dest v = reclaim-IsValid t cap v
install_home-IsValid t cap (some o) dest v = elim (Bool-cases (lender o == dest)) [
  | inl back ↦ rw back (or_install-IsValid cap _ (reclaim_to-IsValid t v (home o) cap))
  | inr away ↦ rw away (reclaim-IsValid t cap v)
]
