-- ===== src/CapTable/Home.antt =====
-- The homecoming reservation: a slot held open at lend time stays empty and held whatever else the
-- lender does, so the capability that comes home always finds its place.
use plinth_os.Base.{
  ℕ, ◌≡◌, ◌≢◌, true, false, Option, none, some, List, [], ◌∷◌, arith, ◌<◌, inl, inr, length,
  length-set, get_or-set, get_or_of_le, get_elem?-get_or, set, Bool-cases, ◌==◌, ltb,
}
use plinth_os.Capability.{Capability, CapObject, cpu_time, Origin, lender, home}
use plinth_os.CapTable
use plinth_os.CapTable.{CapTable, slot_at, is_reserved, ok, or_install, debit}
use plinth_os.CapTable.Install.{install-cases}
use plinth_os.CapTable.Lookup.{lookup-cases, revoke-ok}
use plinth_os.CapTable.Sweep.{length-clear_loop, get_or-clear_loop, length-emptied, get_or-emptied}
use plinth_os.CapTable.Valid.{IsValid, table-to_option}
use plinth_os.CapTable.Run.{
  Op, mint, install, install_home, reclaim, reclaim_to, reserve, clear_reservation, charge, revoke,
  clear_origin, drain, apply, run,
}

pub record IsHeld (h : ℕ) (t : CapTable) : Type 0 where
  pub in_range : h < length t.slots
  pub flag : is_reserved t h ≡ true
  pub empty : slot_at t h ≡ none

-- The calls that give a reservation up, or use it: `clear_reservation`, and the arrival of a
-- capability whose home is that slot.
abbrev pub Spares : ℕ → Op → Type 0
Spares h (clear_reservation slot) = slot ≢ h
Spares h (reclaim_to slot c) = slot ≢ h
Spares h (install_home c (some o) dest) = home o ≢ h
Spares h _ = Unit {0}

abbrev pub AllSpare : ℕ → List Op → Type 0
AllSpare h [] = Unit {0}
AllSpare h (op ∷ ops) = Spares h op × AllSpare h ops

pub install-IsHeld :
    (h : ℕ) (t : CapTable) (c : Capability) → IsHeld h t → IsHeld h (CapTable.install t c).0
install-IsHeld h t c v = elim (install-cases t c) [
  | inl (n, full) ↦ rw full v
  | inr (i, f, took) ↦ rw took (record {
    in_range = rw length-set v.in_range;
    flag = v.flag;
    empty = ground (arith, f.free, v.flag, v.empty, get_or-set t.slots i h (some c) none);
  })
]

reclaim-IsHeld :
    (h : ℕ) (t : CapTable) (c : Capability) → IsHeld h t → IsHeld h (CapTable.reclaim t c).0
unfolding CapTable.reclaim
reclaim-IsHeld h t c v = rw table-to_option (install-IsHeld h t c v)

reclaim_to-IsHeld :
    (h : ℕ) (t : CapTable) (slot : ℕ) (c : Capability)
    → slot ≢ h
    → IsHeld h t
    → IsHeld h (CapTable.reclaim_to t slot c).0
unfolding CapTable.reclaim_to
reclaim_to-IsHeld h t slot c ne v = record {
  in_range = ground (arith, length-set t.slots slot (some c));
  flag = ground (arith, v.flag, get_or-set t.reserved slot h false false);
  empty = ground (arith, v.empty, get_or-set t.slots slot h (some c) none);
}

or_install-IsHeld :
    (h : ℕ) (c : Capability) (p : CapTable × Option ℕ) → IsHeld h p.0 → IsHeld h (or_install c p).0
or_install-IsHeld h c (t, none) v = reclaim-IsHeld h t c v
or_install-IsHeld h c (t, some slot) v = v

install_home-IsHeld :
    (h : ℕ) (t : CapTable) (c : Capability) (o : Origin) (dest : ℕ)
    → home o ≢ h
    → IsHeld h t
    → IsHeld h (CapTable.install_home t c (some o) dest).0
unfolding CapTable.install_home
install_home-IsHeld h t c o dest ne v = elim (Bool-cases (lender o == dest)) [
  | inl back ↦ rw back (or_install-IsHeld h c _ (reclaim_to-IsHeld h t (home o) c ne v))
  | inr away ↦ rw away (reclaim-IsHeld h t c v)
]

-- A slot that holds something is not the one held open.
write-IsHeld :
    (h : ℕ) (t : CapTable) (slot : ℕ) (c : Capability) (s : Option Capability)
    → slot_at t slot ≡ some c
    → IsHeld h t
    → IsHeld h (record t { slots = set t.slots slot s })
write-IsHeld h t slot c s e v = record {
  in_range = rw length-set v.in_range;
  flag = v.flag;
  empty = ground (arith, v.empty, get_or-set t.slots slot h s none);
}

debit-IsHeld :
    (h : ℕ) (t : CapTable) (slot amount : ℕ) (c : Capability) (object : CapObject)
    → slot_at t slot ≡ some c
    → IsHeld h t
    → IsHeld h (debit t slot amount c object).0
debit-IsHeld h t slot amount c (cpu_time b) e v = elim (Bool-cases (ltb b amount)) [
  | inl over ↦ rw over v
  | inr fits ↦ rw fits (write-IsHeld h t slot c _ e v)
]
debit-IsHeld h t slot amount c _ e v = v

charge-IsHeld :
    (h : ℕ) (t : CapTable) (slot amount required : ℕ)
    → IsHeld h t
    → IsHeld h (CapTable.charge t slot amount required).0
unfolding CapTable.charge
charge-IsHeld h t slot amount required v = elim (lookup-cases t slot required) [
  | inl (e, bad) ↦ rw (bad, CapTable.charge) v
  | inr (c, good, held, _) ↦
      rw (good, CapTable.charge) (debit-IsHeld h t slot amount c c.object held v)
]

revoke-IsHeld : (h : ℕ) (t : CapTable) (slot : ℕ) → IsHeld h t → IsHeld h (CapTable.revoke t slot).0
unfolding CapTable.revoke
revoke-IsHeld h t slot v = record {
  in_range = ground (arith, length-set t.slots slot none);
  flag = ground (arith, v.flag);
  empty = ground (arith, v.empty, get_or-set t.slots slot h none none);
}

apply-IsHeld : (h : ℕ) (t : CapTable) (op : Op) → Spares h op → IsHeld h t → IsHeld h (apply t op)
unfolding apply CapTable.mint CapTable.reserve CapTable.clear_reservation CapTable.clear_origin
    CapTable.drain CapTable.install_home
apply-IsHeld h t (mint object rights) s v = install-IsHeld h t _ v
apply-IsHeld h t (install c) s v = install-IsHeld h t c v
apply-IsHeld h t (install_home c none dest) s v = reclaim-IsHeld h t c v
apply-IsHeld h t (install_home c (some o) dest) s v = install_home-IsHeld h t c o dest s v
apply-IsHeld h t (reclaim c) s v = reclaim-IsHeld h t c v
apply-IsHeld h t (reclaim_to slot c) s v = reclaim_to-IsHeld h t slot c s v
apply-IsHeld h t (reserve slot) s v = record {
  in_range = v.in_range;
  flag = ground (arith, v.flag, get_or-set t.reserved slot h true false);
  empty = v.empty;
}
apply-IsHeld h t (clear_reservation slot) s v = record {
  in_range = v.in_range;
  flag = ground (arith, v.flag, get_or-set t.reserved slot h false false);
  empty = v.empty;
}
apply-IsHeld h t (charge slot amount required) s v = charge-IsHeld h t slot amount required v
apply-IsHeld h t (revoke slot) s v = revoke-IsHeld h t slot v
apply-IsHeld h t (clear_origin p) s v = record {
  in_range = rw length-clear_loop v.in_range;
  flag = v.flag;
  empty = ground (arith, v.empty, get_or-clear_loop p t.slots h);
}
apply-IsHeld h t drain s v = record {
  in_range = rw length-emptied v.in_range;
  flag = v.flag;
  empty = get_or-emptied t.slots h;
}

pub run-IsHeld :
    (h : ℕ) (t : CapTable) (ops : List Op) → AllSpare h ops → IsHeld h t → IsHeld h (run t ops)
unfolding run
run-IsHeld h t [] s v = v
run-IsHeld h t (op ∷ ops) s v = run-IsHeld h (apply t op) ops s.1 (apply-IsHeld h t op s.0 v)

-- The lend: the capability leaves its slot, and the slot is held open.
pub lend-IsHeld :
    (t t' : CapTable) (h : ℕ) (c : Capability)
    → IsValid t
    → CapTable.revoke t h ≡ (t', ok c)
    → IsHeld h (CapTable.reserve t' h)
unfolding CapTable.reserve
lend-IsHeld t t' h c v e =
    let (lt, held, left) = revoke-ok t t' h c e in
    record {
      in_range = rw (left, length-set) lt;
      flag =
          rw (left, get_or-set t.reserved h h true false)
            (ground (arith, v.slot_count, v.reserved_count));
      empty = rw (left, get_or-set t.slots h h none none) (ground arith);
    }

arrive-IsHeld :
    (t : CapTable) (h : ℕ) (c : Capability)
    → IsHeld h t
    → CapTable.reclaim_to t h c
      ≡ (record { slots = set t.slots h (some c); reserved = set t.reserved h false }, some h)
unfolding CapTable.reclaim_to
arrive-IsHeld t h c v = ground (arith, v.flag, v.empty, v.in_range, get_elem?-get_or t.slots h none)

install_home-back :
    (t : CapTable) (c : Capability) (o : Origin)
    → IsHeld (home o) t
    → let (u, landing) = CapTable.install_home t c (some o) (lender o) in
      (landing ≡ some (home o)) × (slot_at u (home o) ≡ some c) × (is_reserved u (home o) ≡ false)
unfolding CapTable.install_home
install_home-back t c o v = ground (
  arith,
  arrive-IsHeld t (home o) c v,
  get_or-set t.slots (home o) (home o) (some c) none,
  get_or-set t.reserved (home o) (home o) false false,
  get_or_of_le t.reserved (home o) false,
  v.in_range,
)

-- A lent capability comes home to the very slot it left: once the lender has given it up and held
-- its slot open, then whatever calls its table sees, short of giving that reservation up or of
-- another arrival there, `install_home` puts the returning capability into that slot.
pub homecoming :
    (t t' : CapTable) (c back : Capability) (o : Origin) (ops : List Op)
    → IsValid t
    → CapTable.revoke t (home o) ≡ (t', ok c)
    → AllSpare (home o) ops
    → let t'' = run (CapTable.reserve t' (home o)) ops in
      let (u, landing) = CapTable.install_home t'' back (some o) (lender o) in
      (landing ≡ some (home o))
      × (slot_at u (home o) ≡ some back)
      × (is_reserved u (home o) ≡ false)
homecoming t t' c back o ops v e s =
    install_home-back _ back o
      (run-IsHeld (home o) (CapTable.reserve t' (home o)) ops s (lend-IsHeld t t' (home o) c v e))
