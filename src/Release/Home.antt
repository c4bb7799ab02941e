-- ===== src/Release/Home.antt =====
-- A borrowed capability that its holder gives back goes home to the slot of its lender.
use mathlib.Core.Path.{subst}
use plinth_os.Base.{
  ℕ, zero, suc, ◌+◌, ◌≡◌, ◌≢◌, refl, sym, ap, ◌∙◌, true, none, some, length, set, arith, ◌==◌, ltb,
  ◌&&◌, inl, inr, Bool-cases, get_or-set, get_or-set_ne,
}
use plinth_os.Capability.{
  Capability, Origin, lender, home, is_none, is_reclaimable_kind, release_action, reclaim_target,
  reclaim_to, next_origin, lent_to, new_origin, send_home,
}
use plinth_os.CapTable
use plinth_os.CapTable.{CapTable, Result, ok, err, slot_at}
use plinth_os.CapTable.Home.{IsHeld}
use plinth_os.Process.{Process, unmap_fb_for_slot}
use plinth_os.Kernel.{Kernel, current, current_slot, put_current}
use plinth_os.Reclaim.{
  Place, on_core, in_slot, place_of, process_at, process_on, core_loop, reclaim_cap_home,
}
use plinth_os.Reclaim.Reach.{LivesAt, place_of-LivesAt, reclaim_cap_home-placed}
use plinth_os.Release.{System, home_or, perform, release_found, revoked, cap_release}

-- The cores that run a process are the same after it is replaced by another one.
is_none-put_current :
    (k : Kernel) (p q : Process) (core : ℕ)
    → current k ≡ some p
    → is_none (process_on (put_current k (some q)) core) ≡ is_none (process_on k core)
is_none-put_current k p q core running =
    elim (Bool-cases ((k.core == core) && ltb k.core (length k.current))) [
      | inr other ↦
          let same : process_on (put_current k (some q)) core ≡ process_on k core =
            get_or-set k.current k.core core (some q) none ∙ (rw other refl) in
          ap is_none same
      | inl it ↦
          let at : k.core ≡ core = ground (arith, it) in
          let replaced : process_on (put_current k (some q)) core ≡ some q =
            get_or-set k.current k.core core (some q) none ∙ (rw it refl) in
          ap is_none replaced ∙ sym (ap is_none (subst (λ c. process_on k c ≡ some p) at running))
    ]

core_loop-put_current :
    (k : Kernel) (p q : Process) (slot core n : ℕ)
    → current k ≡ some p
    → core_loop (put_current k (some q)) slot core n ≡ core_loop k slot core n
unfolding core_loop
core_loop-put_current k p q slot core zero running = refl
core_loop-put_current k p q slot core (suc n) running =
    rw
      (
        core_loop-put_current k p q slot (core + 1) n running,
        is_none-put_current k p q core running,
      )
      refl

place_of-put_current :
    (k : Kernel) (p q : Process) (slot : ℕ)
    → current k ≡ some p
    → place_of (put_current k (some q)) slot ≡ place_of k slot
unfolding place_of
place_of-put_current k p q slot running = rw (core_loop-put_current k p q slot 0 _ running) refl

-- The lender's process is not the one that runs here.
abbrev pub Elsewhere : Kernel → Place → Type 0
Elsewhere k (in_slot slot) = Unit {0}
Elsewhere k (on_core core) = k.core ≢ core

process_at-put_current :
    (k : Kernel) (q : Process) (at : Place)
    → Elsewhere k at
    → process_at (put_current k (some q)) at ≡ process_at k at
process_at-put_current k q (in_slot slot) away = refl
process_at-put_current k q (on_core core) away =
    get_or-set_ne k.current k.core core (some q) none away

-- The release of a loan is its return, and the origin is gone when it is back.
reclaim_target-home :
    (cap : Capability) (o : Origin) (dying : ℕ)
    → is_reclaimable_kind cap.object ≡ true
    → cap.origin ≡ some o
    → (release_action cap ≡ reclaim_to o)
      × (reclaim_target cap dying ≡ some (o, record cap { origin = none }))
unfolding release_action reclaim_target lent_to
reclaim_target-home cap o dying kind from =
    let action : release_action cap ≡ reclaim_to o = rw (kind, from) refl in
    let same : lender o == lender o ≡ true = ground arith in
    (
      action,
      ap (send_home cap dying) action
          ∙ ap
              (λ x.
                some
                  (o, record cap { origin = next_origin x (new_origin dying (home o)) (lender o) }))
              from
          ∙ rw same refl,
    )

revoke-found :
    (t : CapTable) (slot : ℕ) (cap : Capability)
    → CapTable.lookup t slot 0 ≡ ok cap
    → CapTable.revoke t slot ≡ (record t { slots = set t.slots slot none }, ok cap)
unfolding CapTable.lookup CapTable.revoke
revoke-found t slot cap h = go (CapTable.fetch t slot) refl
  where
    go :
        (r : Result Capability)
        → CapTable.fetch t slot ≡ r
        → CapTable.revoke t slot ≡ (record t { slots = set t.slots slot none }, ok cap)
    go (err e) r = absurd (ground arith)
    go (ok c) r = ground arith

-- The process of the releaser, with the slot emptied and its pages of the screen gone.
abbrev pub gave_up : Process → ℕ → Process
gave_up p slot =
    unmap_fb_for_slot (record p { caps = record p.caps { slots = set p.caps.slots slot none } })
      slot

cap_release-loan :
    (s : System) (slot : ℕ) (p : Process) (cap : Capability) (o : Origin)
    → current s.kernel ≡ some p
    → CapTable.lookup p.caps slot 0 ≡ ok cap
    → is_reclaimable_kind cap.object ≡ true
    → cap.origin ≡ some o
    → cap_release s slot ≡ (
      record s {
        kernel =
            (reclaim_cap_home
              (put_current s.kernel (some (gave_up p slot)))
              cap
              o
              (record cap { origin = none })).0;
      },
      0,
    )
unfolding cap_release
cap_release-loan s slot p cap o running held kind from =
    let k1 = put_current s.kernel (some (gave_up p slot)) in
    let (action, target) = reclaim_target-home cap o (current_slot k1) kind from in
    let start : cap_release s slot ≡ release_found s p slot (CapTable.lookup p.caps slot 0) =
      rw (running, cap_release) refl in
    start
    ∙ ap (release_found s p slot) held
    ∙ (rw action refl)
    ∙ ap (revoked s p slot cap) (revoke-found p.caps slot cap held)
    ∙ ap
        (perform s (record p { caps = record p.caps { slots = set p.caps.slots slot none } }) slot
          cap)
        action
    ∙ ap (λ t. (record s { kernel = (reclaim_cap_home k1 cap o (home_or cap t)).0 }, 0)) target

-- A process that gives back a loan returns it to its lender, wherever the lender is, suspended in
-- the table or running on another core: the capability lies in the very slot that was held open for
-- it, with the rights that it had and owned outright, and the call succeeds.
pub cap_release-Home :
    (s : System) (slot : ℕ) (p q : Process) (cap : Capability) (o : Origin) (at : Place)
    → current s.kernel ≡ some p
    → CapTable.lookup p.caps slot 0 ≡ ok cap
    → is_reclaimable_kind cap.object ≡ true
    → cap.origin ≡ some o
    → LivesAt s.kernel (lender o) at q
    → Elsewhere s.kernel at
    → IsHeld (home o) q.caps
    → ((cap_release s slot).1 ≡ 0)
      × (q' : Process) × (process_at (cap_release s slot).0.kernel at ≡ some q')
      × (slot_at q'.caps (home o) ≡ some (record cap { origin = none }))
cap_release-Home s slot p q cap o at running found kind from lives away held =
    let (placed, there) = place_of-LivesAt s.kernel (lender o) at q lives in
    let done = cap_release-loan s slot p cap o running found kind from in
    let k1 = put_current s.kernel (some (gave_up p slot)) in
    let (result, q', now, back) =
      reclaim_cap_home-placed k1 cap (record cap { origin = none }) o at q
        (place_of-put_current s.kernel p (gave_up p slot) (lender o) running ∙ placed)
        (process_at-put_current s.kernel (gave_up p slot) at away ∙ there) held in
    (ap (λ r. r.1) done, q', ap (λ r. process_at r.0.kernel at) done ∙ now, back)
