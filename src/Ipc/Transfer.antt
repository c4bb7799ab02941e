-- ===== src/Ipc/Transfer.antt =====
-- The capability transfers of `send` and `recv`: what moves, and what a failed move leaves behind.
use plinth_os.Base.{
  ℕ, ◌<◌, ◌≡◌, refl, ◌∙◌, true, Option, none, some, length, set, arith, get_or-set_self, length-set,
  Option-cases, inl, inr, ap,
}
use plinth_os.Capability.{
  Capability, CapObject, frame, framebuffer, new_origin, lent_to, lend_reserves_home,
}
use plinth_os.CapTable
use plinth_os.CapTable.{CapTable, slot_at, is_reserved, first_free, to_option, ok, err}
use plinth_os.CapTable.Valid.{IsValid, table-to_option}
use plinth_os.CapTable.Home.{IsHeld, install-IsHeld, lend-IsHeld}
use plinth_os.CapTable.Lookup.{revoke-cases}
use plinth_os.Process.{
  Process, unmap_for, revoke_and_unmap_for_lend, unmap_frame, unmap_fb_for_slot,
}
use plinth_os.Process.Unmap.{without, revoke_and_unmap-cases}
use plinth_os.Kernel.{
  Kernel, slot_of, put_slot, current, put_current, current_slot, no_cap, install_into_blocked_home,
}
use plinth_os.Ipc.Calls.{
  give_to_blocked, transfer_current_to_blocked, arrived_or_back, put_current_caps,
  install_into_current, note_moved_out,
}

caps-unmap_for :
    (object : CapObject) (p : Process) (slot : ℕ) → (unmap_for object p slot).caps ≡ p.caps
unfolding unmap_frame unmap_fb_for_slot
caps-unmap_for (frame _) p slot = refl
caps-unmap_for (framebuffer _ _ _ _ _ _) p slot = refl
caps-unmap_for _ p slot = refl

-- The process that has lent the capability `c` out of `slot`, and holds the slot open.
abbrev pub lender_after : Process → ℕ → Capability → Process
lender_after p slot c = record (unmap_for c.object (without p slot) slot) {
  caps = CapTable.reserve (record p.caps { slots = set p.caps.slots slot none }) slot;
}

lend-eq :
    (p : Process) (slot : ℕ) (c : Capability)
    → slot_at p.caps slot ≡ some c
    → lend_reserves_home c ≡ true
    → revoke_and_unmap_for_lend p slot ≡ (lender_after p slot c, some c)
unfolding revoke_and_unmap_for_lend CapTable.peek
lend-eq p slot c e r = elim (revoke_and_unmap-cases p slot) [
  | inl (failed, absent) ↦ absurd (cc)
  | inr (d, lt, held, left) ↦
      let same : d ≡ c = cc in
      ground (arith, left, e, r, same, caps-unmap_for c.object (without p slot) slot)
]

-- Lending out of a slot leaves it empty and held open for the capability that is away.
lender_after-IsHeld :
    (p : Process) (slot : ℕ) (c : Capability)
    → IsValid p.caps
    → slot_at p.caps slot ≡ some c
    → IsHeld slot (lender_after p slot c).caps
lender_after-IsHeld p slot c v e = elim (revoke-cases p.caps slot) [
  | inl (x, failed, absent) ↦ absurd (cc)
  | inr (d, lt, held, left) ↦ lend-IsHeld p.caps _ slot d v left
]

install_home-full :
    (k : Kernel) (receiver : ℕ) (q : Process) (c : Capability)
    → (slot_of k receiver).process ≡ some q
    → first_free q.caps.slots q.caps.reserved 0 ≡ none
    → install_into_blocked_home k receiver c none
      ≡ (put_slot k receiver (record (slot_of k receiver) { process = some q }), none)
unfolding install_into_blocked_home CapTable.install_home CapTable.reclaim CapTable.install
install_home-full k receiver q c e full = ground arith

install_into_current-eq :
    (k : Kernel) (p : Process) (c : Capability)
    → current k ≡ some p
    → install_into_current k c ≡ put_current_caps k p (to_option (CapTable.install p.caps c))
unfolding install_into_current
install_into_current-eq k p c e = ground (arith, e)

current-put_current_caps :
    (k : Kernel) (p : Process) (r : CapTable × Option ℕ)
    → k.core < length k.current
    → current (put_current_caps k p r).0 ≡ some (record p { caps = r.0 })
current-put_current_caps k p (t, o) lt = get_or-set_self k.current k.core _ none lt

-- The process that runs, after `install` into its own table.
current-install :
    (k : Kernel) (p : Process) (c : Capability)
    → k.core < length k.current
    → current k ≡ some p
    → current (install_into_current k c).0
      ≡ some (record p { caps = (CapTable.install p.caps c).0 })
current-install k p c lt e =
    ap (λ (r : Kernel × Option ℕ). current r.0) (install_into_current-eq k p c e)
    ∙ current-put_current_caps k p (to_option (CapTable.install p.caps c)) lt
    ∙ ap (λ t. some (record p { caps = t })) (table-to_option (CapTable.install p.caps c))

-- The state of the kernel after a move that failed, with `p` running again.
give-full :
    (k : Kernel) (receiver slot : ℕ) (p q : Process) (c : Capability)
    → k.core < length k.current
    → current k ≡ some p
    → c.origin ≡ none
    → (slot_of k receiver).process ≡ some q
    → first_free q.caps.slots q.caps.reserved 0 ≡ none
    → ((give_to_blocked k receiver slot (some c)).1 ≡ no_cap)
      × (current (give_to_blocked k receiver slot (some c)).0
          ≡ some (record p { caps = (CapTable.install p.caps c).0 }))
unfolding give_to_blocked
give-full k receiver slot p q c lt e o eq full =
    let k1 = note_moved_out k c in
    let lent = lent_to c (new_origin (current_slot k) slot) receiver in
    let k2 = put_slot k1 receiver (record (slot_of k1 receiver) { process = some q }) in
    let arrive : install_into_blocked_home k1 receiver lent c.origin ≡ (k2, none) =
      ap (install_into_blocked_home k1 receiver lent) o
      ∙ install_home-full k1 receiver q lent eq full in
    (
      ap (λ r. (arrived_or_back c r).1) arrive,
      ap (λ r. current (arrived_or_back c r).0) arrive ∙ current-install k2 p c lt e,
    )

owned-eq : (c : Capability) → lend_reserves_home c ≡ true → c.origin ≡ none
unfolding lend_reserves_home
owned-eq c r = elim (Option-cases c.origin) [ inl o ↦ o | inr (x, o) ↦ ground (arith, o, r) ]

transfer-eq :
    (k : Kernel) (receiver slot : ℕ) (p : Process) (c : Capability)
    → current k ≡ some p
    → slot_at p.caps slot ≡ some c
    → lend_reserves_home c ≡ true
    → transfer_current_to_blocked k receiver slot
      ≡ give_to_blocked (put_current k (some (lender_after p slot c))) receiver slot (some c)
unfolding transfer_current_to_blocked
transfer-eq k receiver slot p c e held r = ground (arith, e, lend-eq p slot c held r)

-- A move that finds the receiver's table full does not hand the sender back what it had: when the
-- capability is one that its owner lends outright, the slot that it left stays empty and held open.
pub failed_transfer :
    (k : Kernel) (receiver slot : ℕ) (p q : Process) (c : Capability)
    → k.core < length k.current
    → current k ≡ some p
    → IsValid p.caps
    → slot_at p.caps slot ≡ some c
    → lend_reserves_home c ≡ true
    → (slot_of k receiver).process ≡ some q
    → first_free q.caps.slots q.caps.reserved 0 ≡ none
    → let (k', landing) = transfer_current_to_blocked k receiver slot in
      (landing ≡ no_cap)
      × (p' : Process) × (current k' ≡ some p')
      × (slot_at p'.caps slot ≡ none)
      × (is_reserved p'.caps slot ≡ true)
failed_transfer k receiver slot p q c lt e v held r eq full =
    let p1 = lender_after p slot c in
    let k1 = put_current k (some p1) in
    let owned : c.origin ≡ none = owned-eq c r in
    let (landed, running) =
      give-full k1 receiver slot p1 q c (rw length-set lt)
        (get_or-set_self k.current k.core (some p1) none lt) owned eq full in
    let same : transfer_current_to_blocked k receiver slot
        ≡ give_to_blocked k1 receiver slot (some c) =
      transfer-eq k receiver slot p c e held r in
    let back = install-IsHeld slot p1.caps c (lender_after-IsHeld p slot c v held) in
    (
      ap (λ x. x.1) same ∙ landed,
      record p1 { caps = (CapTable.install p1.caps c).0 },
      ap (λ x. current x.0) same ∙ running,
      back.empty,
      back.flag,
    )
