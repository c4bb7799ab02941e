-- ===== src/CapTable/Charge.antt =====
-- `CapTable::charge`: a CPU budget can be spent down to nothing and never past it.
use Prim.Native.Nat.{bit_and}
use native.Mathlib.Nat.{zero-add}
use plinth_os.Base.{
  ℕ, ◌+◌, ◌-◌, ◌≤◌, ◌<◌, ◌≡◌, ◌≢◌, refl, some, none, List, [], ◌∷◌, length, set, arith, ltb,
  get_elem?-get_or, get_or-set, get_or-set_ne, ◌∙◌, sym, ap, if◌then◌else◌, length-set, Bool-cases,
  inl, inr,
}
use plinth_os.Capability.{Capability, cpu_time}
use plinth_os.CapTable.{CapTable, ok, err, insufficient, slot_at, lookup, charge}

-- Slot `slot` holds a budget of `b` ticks that the rights `required` may spend.
pub record Holds (t : CapTable) (slot required : ℕ) (cap : Capability) (b : ℕ) : Type 0 where
  pub in_range : slot < length t.slots
  pub held : slot_at t slot ≡ some cap
  pub budget : cap.object ≡ cpu_time b
  pub allowed : bit_and cap.rights required ≡ required

-- The table with budget `b` in place of the one at `slot`.
abbrev pub with_budget : CapTable → ℕ → Capability → ℕ → CapTable
with_budget t slot cap b = record t {
  slots = set t.slots slot (some (record cap { object = cpu_time b }));
}

-- A charge that the budget covers debits exactly that amount and returns what is left; one that it
-- does not cover is refused and changes nothing.
pub charge_lem :
    (t : CapTable) (slot required amount : ℕ) (cap : Capability) (b : ℕ)
    → Holds t slot required cap b
    → charge t slot amount required ≡ (
        if ltb b amount
        then (t, err insufficient)
        else (with_budget t slot cap (b - amount), ok (b - amount)))
unfolding charge lookup
charge_lem t slot required amount cap b h =
    ground (arith, get_elem?-get_or t.slots slot none, h.in_range, h.held, h.budget, h.allowed)

-- A run of charges: the table at the end, and the total of those that were not refused.
unfoldable pub spend : CapTable → ℕ → ℕ → List ℕ → CapTable × ℕ
spend t slot required [] = (t, 0)
spend t slot required (a ∷ rest) =
    let (t', r) = charge t slot a required in
    let (u, spent) = spend t' slot required rest in (u, (elim r [ ok _ ↦ a | err _ ↦ 0 ]) + spent)

-- What holds after charges that came to `spent` out of a budget `b`.
pub record Spent (t u : CapTable) (slot : ℕ) (cap : Capability) (b spent : ℕ) : Type 0 where
  pub covered : spent ≤ b
  pub left : slot_at u slot ≡ some (record cap { object = cpu_time (b - spent) })
  pub others : (k : ℕ) → k ≢ slot → slot_at u k ≡ slot_at t k
  pub held : u.reserved ≡ t.reserved

Holds-with_budget :
    (t : CapTable) (slot required : ℕ) (cap : Capability) (b c : ℕ)
    → Holds t slot required cap b
    → Holds (with_budget t slot cap c) slot required (record cap { object = cpu_time c }) c
Holds-with_budget t slot required cap b c h = record {
  in_range = rw length-set h.in_range;
  held = ground (
    arith,
    h.in_range,
    get_or-set t.slots slot slot (some (record cap { object = cpu_time c })) none,
  );
  budget = refl;
  allowed = h.allowed;
}

Spent-debit :
    (t u : CapTable) (slot : ℕ) (cap : Capability) (b a spent : ℕ)
    → a ≤ b
    → Spent
        (with_budget t slot cap (b - a))
        u
        slot
        (record cap { object = cpu_time (b - a) })
        (b - a)
        spent
    → Spent t u slot cap b (a + spent)
Spent-debit t u slot cap b a spent le s = record {
  covered = omega (arith, s.covered);
  left = s.left ∙ ap (λ n. some (record cap { object = cpu_time n })) (omega arith);
  others = λ k ne. s.others k ne ∙ get_or-set_ne t.slots slot k _ none (λ e. ne (sym e));
  held = s.held;
}

-- Over any sequence of charges, some of them refused, what was spent and what is left make up the
-- budget that was there, and no other slot changes.
pub spend-Spent :
    (t : CapTable) (slot required : ℕ) (cap : Capability) (b : ℕ) (amounts : List ℕ)
    → Holds t slot required cap b
    → Spent t (spend t slot required amounts).0 slot cap b (spend t slot required amounts).1
unfolding spend
spend-Spent t slot required cap b [] h = record {
  covered = omega arith;
  left = ground (arith, h.held, h.budget);
  others = λ k ne. refl;
  held = refl;
}
spend-Spent t slot required cap b (a ∷ amounts) h = elim (Bool-cases (ltb b a)) [
  | inl over ↦
      rw (charge_lem t slot required a cap b h, over, zero-add)
        (spend-Spent t slot required cap b amounts h)
  | inr fits ↦
      rw (charge_lem t slot required a cap b h, fits)
        (Spent-debit t _ slot cap b a _ (ground arith) (
          spend-Spent (with_budget t slot cap (b - a)) slot required
            (record cap { object = cpu_time (b - a) }) (b - a) amounts
            (Holds-with_budget t slot required cap b (b - a) h)))
]
