-- ===== src/Reclaim/Reach.antt =====
-- A live lender is reached wherever it is, and gets its capability back in the slot held open for it.
use mathlib.Core.Path.{subst}
use plinth_os.Base.{
  ℕ, zero, suc, ◌+◌, ◌<◌, ◌≤◌, ◌≡◌, refl, sym, ◌∙◌, ap, ◌&&◌, not, true, false, Option, none, some,
  List, [], ◌∷◌, length, get_or, set, get_elem?-get_or, get_or-set_self, arith, Bool-cases, inl,
  inr, ◌⊎◌, ◌==◌,
}
use plinth_os.Capability.{Capability, Origin, lender, home, is_none}
use plinth_os.CapTable
use plinth_os.CapTable.{CapTable, slot_at, or_install}
use plinth_os.CapTable.Home.{IsHeld}
use plinth_os.Process.{Process}
use plinth_os.Kernel.{Kernel, Slot, slot_of, empty_slot}
use plinth_os.Scheduler.{max_cores}
use plinth_os.Reclaim.{
  landed, Place, in_slot, on_core, process_on, core_loop, on_found, place_of, process_at,
  put_process_at, put_caps_at, change_at, change_found, with_lender_caps, account, reclaim_cap_home,
}

-- The process of `slot` is at this place.
abbrev pub Hosts : Kernel → ℕ → Place → Type 0
Hosts k slot (in_slot i) = i ≡ slot
Hosts k slot (on_core core) = get_or k.current_slot core 0 ≡ slot

abbrev pub Runs : Kernel → ℕ → ℕ → Type 0
Runs k slot core = (get_or k.current_slot core 0 ≡ slot) × (is_none (process_on k core) ≡ false)

core_loop-found :
    (k : Kernel) (slot core n c : ℕ)
    → core ≤ c
    → c < core + n
    → Runs k slot c
    → (d : ℕ) × (core_loop k slot core n ≡ some d) × Runs k slot d
unfolding core_loop
core_loop-found k slot core zero c le lt r = absurd (omega arith)
core_loop-found k slot core (suc n) c le lt r =
    elim (Bool-cases
      ((get_or k.current_slot core 0 == slot) && not (is_none (process_on k core)))) [
        | inl here ↦ (core, rw here refl, (ground arith, ground arith))
        | inr other ↦ elim (Bool-cases (core == c)) [
          | inl at ↦
              let same : core ≡ c = ground arith in
              let run : Runs k slot core = subst (Runs k slot) (sym same) r in
              absurd (ground (arith, other, run.0, run.1))
          | inr on ↦
              let (d, found, runs) =
                core_loop-found k slot (core + 1) n c (ground arith) (omega arith) r in
              (d, rw other found, runs)
        ]
      ]

some-of : (o : Option Process) → is_none o ≡ false → (p : Process) × (o ≡ some p)
some-of none h = cc
some-of (some p) h = (p, refl)

-- A lender that is alive is found, whether it is suspended in its slot of the table or runs on some
-- core: the place found is its own, and a process is there.
place_of-live :
    (k : Kernel) (slot : ℕ)
    → (is_none ((slot_of k slot).process) ≡ false)
      ⊎ ((core : ℕ) × (core < max_cores) × Runs k slot core)
    → (at : Place) × (p : Process) × (place_of k slot ≡ some at)
      × Hosts k slot at
      × (process_at k at ≡ some p)
unfolding place_of
place_of-live k slot live = elim (Bool-cases (is_none ((slot_of k slot).process))) [
  | inr parked ↦
      let (p, e) = some-of ((slot_of k slot).process) parked in
      (in_slot slot, p, rw parked refl, refl, e)
  | inl away ↦ elim live [
    | inl parked ↦ absurd (cc)
    | inr (core, lt, runs) ↦
        let (d, found, r) =
          core_loop-found k slot 0 max_cores core (omega arith) (omega arith) runs in
        let (p, e) = some-of (process_on k d) r.1 in
        (on_core d, p, rw away (ap on_found found), r.0, e)
  ]
]

reclaim_to-held :
    (t : CapTable) (h : ℕ) (c : Capability)
    → IsHeld h t
    → CapTable.reclaim_to t h c
      ≡ (record { slots = set t.slots h (some c); reserved = set t.reserved h false }, some h)
unfolding CapTable.reclaim_to
reclaim_to-held t h c v = ground (arith, v.flag, v.empty, get_elem?-get_or t.slots h none)

some-lt :
    (xs : List (Option Process)) (i : ℕ) (p : Process) → get_or xs i none ≡ some p → i < length xs
some-lt [] i p e = cc
some-lt (x ∷ xs) zero p e = omega arith
some-lt (x ∷ xs) (suc i) p e = let ih = some-lt xs i p e in omega arith

slot-lt :
    (ss : List Slot) (i : ℕ) (p : Process)
    → (get_or ss i empty_slot).process ≡ some p
    → i < length ss
slot-lt [] i p e = cc
slot-lt (s ∷ ss) zero p e = omega arith
slot-lt (s ∷ ss) (suc i) p e = let ih = slot-lt ss i p e in omega arith

process_at-put :
    (k : Kernel) (at : Place) (p q : Process)
    → process_at k at ≡ some p
    → process_at (put_process_at k at q) at ≡ some q
process_at-put k (in_slot i) p q e =
    ap (λ (s : Slot). s.process) (get_or-set_self k.table i _ empty_slot (slot-lt k.table i p e))
process_at-put k (on_core c) p q e =
    get_or-set_self k.current c (some q) none (some-lt k.current c p e)

process_at-account :
    (cap c : Capability) (at : Place) (r : Kernel × Option (Option ℕ))
    → process_at (account cap c r).0 at ≡ process_at r.0 at
process_at-account cap c (in_slot i) (k, none) = refl
process_at-account cap c (on_core i) (k, none) = refl
process_at-account cap c (in_slot i) (k, some none) = refl
process_at-account cap c (on_core i) (k, some none) = refl
process_at-account cap c (in_slot i) (k, some (some l)) = refl
process_at-account cap c (on_core i) (k, some (some l)) = refl

-- Process `p` of `slot` is alive at this place: suspended in its slot of the table, or running on this
-- core and on no other. A core that runs nothing may still name the slot.
abbrev pub LivesAt : Kernel → ℕ → Place → Process → Type 0
LivesAt k slot (in_slot i) p = (i ≡ slot) × ((slot_of k slot).process ≡ some p)
LivesAt k slot (on_core c) p =
    ((slot_of k slot).process ≡ none)
    × (c < max_cores)
    × (get_or k.current_slot c 0 ≡ slot)
    × (process_on k c ≡ some p)
    × ((d : ℕ) → Runs k slot d → d ≡ c)

-- A live process is found where it is.
pub place_of-LivesAt :
    (k : Kernel) (slot : ℕ) (at : Place) (p : Process)
    → LivesAt k slot at p
    → (place_of k slot ≡ some at) × (process_at k at ≡ some p)
unfolding place_of
place_of-LivesAt k slot (in_slot i) p (same, e) =
    let parked : is_none ((slot_of k slot).process) ≡ false = ap is_none e in
    (rw parked (ap (λ j. some (in_slot j)) (sym same)), ap (λ j. (slot_of k j).process) same ∙ e)
place_of-LivesAt k slot (on_core c) p (away, lt, named, runs, only) =
    let gone : is_none ((slot_of k slot).process) ≡ true = ap is_none away in
    let (d, found, r) =
      core_loop-found k slot 0 max_cores c (omega arith) (omega (arith, lt))
        (named, ap is_none runs) in
    (rw gone (ap on_found found ∙ ap (λ j. some (on_core j)) (only d r)), runs)

-- The lender gets its capability back at the place where `place_of` looks.
pub reclaim_cap_home-placed :
    (k : Kernel) (cap c : Capability) (o : Origin) (at : Place) (p : Process)
    → place_of k (lender o) ≡ some at
    → process_at k at ≡ some p
    → IsHeld (home o) p.caps
    → let (k', result) = reclaim_cap_home k cap o c in
      (result ≡ landed (home o))
      × (p' : Process) × (process_at k' at ≡ some p')
      × (slot_at p'.caps (home o) ≡ some c)
unfolding reclaim_cap_home with_lender_caps
reclaim_cap_home-placed k cap c o at p found here held =
    let lt = held.in_range in
    let t : CapTable = record {
      slots = set p.caps.slots (home o) (some c);
      reserved = set p.caps.reserved (home o) false;
    } in
    let p' : Process = record p { caps = t } in
    let f : CapTable → CapTable × Option ℕ =
      λ (caps : CapTable). or_install c (CapTable.reclaim_to caps (home o) c) in
    let back : f p.caps ≡ (t, some (home o)) =
      ap (or_install c) (reclaim_to-held p.caps (home o) c held) in
    let run : with_lender_caps k (lender o) f ≡ (put_process_at k at p', some (some (home o))) =
      ap (change_found k f) found ∙ ap (change_at k f at) here ∙ ap (put_caps_at k at p) back in
    (
      ap (λ r. (account cap c r).1) run,
      p',
      process_at-account cap c at (with_lender_caps k (lender o) f)
          ∙ ap (λ r. process_at r.0 at) run
          ∙ process_at-put k at p p' here,
      get_or-set_self p.caps.slots (home o) (some c) none lt,
    )

-- A capability goes home to the very slot of its lender that was held open for it, wherever the
-- lender is when it comes back: suspended in the table, or running on any core.
pub reclaim_cap_home-Held :
    (k : Kernel) (cap c : Capability) (o : Origin) (at : Place) (p : Process)
    → LivesAt k (lender o) at p
    → IsHeld (home o) p.caps
    → let (k', result) = reclaim_cap_home k cap o c in
      (result ≡ landed (home o))
      × (p' : Process) × (process_at k' at ≡ some p')
      × (slot_at p'.caps (home o) ≡ some c)
reclaim_cap_home-Held k cap c o at p lives held =
    let (found, here) = place_of-LivesAt k (lender o) at p lives in
    reclaim_cap_home-placed k cap c o at p found here held
