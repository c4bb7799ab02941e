-- ===== src/Ipc/Sizes.antt =====
-- The transfers of a capability neither add nor remove slots of the process table, and leave the core
-- to the process that runs on it.
use plinth_os.Base.{
  ℕ, ◌≡◌, refl, ap, ◌∙◌, none, some, Option, length, length-set, Option-cases, inl, inr,
}
use plinth_os.Capability.{Capability, Origin}
use plinth_os.Kernel.{
  Kernel, slot_of, current, current_slot, install_into_blocked_home, install_into_blocked,
  revoke_from_blocked,
}
use plinth_os.Ipc.Calls.{
  install_into_current, install_home_into_current, transfer_current_to_blocked, give_to_blocked,
  arrived_or_back, transfer_blocked_to_current, give_to_current, arrived_or_restored,
  mint_reply_cap_into_current,
}

-- How many slots there are, and which one runs here.
abbrev pub outline : Kernel → ℕ × ℕ
outline k = (length k.table, current_slot k)

abbrev Same : Kernel → Kernel → Type 0
Same k k' = outline k' ≡ outline k

install_into_blocked-Same :
    (k : Kernel) (slot : ℕ) (c : Capability) → Same k (install_into_blocked k slot c).0
unfolding install_into_blocked
install_into_blocked-Same k slot c = elim (Option-cases ((slot_of k slot).process)) [
  | inl gone ↦ rw (gone, install_into_blocked) refl
  | inr (p, e) ↦
      rw (e, install_into_blocked) (ap (λ n. (n, current_slot k)) (length-set k.table slot _))
]

install_into_blocked_home-Same :
    (k : Kernel) (slot : ℕ) (c : Capability) (prior : Option Origin)
    → Same k (install_into_blocked_home k slot c prior).0
unfolding install_into_blocked_home
install_into_blocked_home-Same k slot c prior = elim (Option-cases ((slot_of k slot).process)) [
  | inl gone ↦ rw (gone, install_into_blocked_home) refl
  | inr (p, e) ↦
      rw (e, install_into_blocked_home) (ap (λ n. (n, current_slot k)) (length-set k.table slot _))
]

revoke_from_blocked-Same :
    (k : Kernel) (slot cap_slot : ℕ) → Same k (revoke_from_blocked k slot cap_slot).0
unfolding revoke_from_blocked
revoke_from_blocked-Same k slot cap_slot = elim (Option-cases ((slot_of k slot).process)) [
  | inl gone ↦ rw (gone, revoke_from_blocked) refl
  | inr (p, e) ↦
      rw (e, revoke_from_blocked) (ap (λ n. (n, current_slot k)) (length-set k.table slot _))
]

install_into_current-Same : (k : Kernel) (c : Capability) → Same k (install_into_current k c).0
unfolding install_into_current
install_into_current-Same k c = elim (Option-cases (current k)) [
  | inl gone ↦ rw (gone, install_into_current) refl
  | inr (p, e) ↦ rw (e, install_into_current) refl
]

install_home_into_current-Same :
    (k : Kernel) (c : Capability) (prior : Option Origin) (dest : ℕ)
    → Same k (install_home_into_current k c prior dest).0
unfolding install_home_into_current
install_home_into_current-Same k c prior dest = elim (Option-cases (current k)) [
  | inl gone ↦ rw (gone, install_home_into_current) refl
  | inr (p, e) ↦ rw (e, install_home_into_current) refl
]

arrived_or_back-Same :
    (c : Capability) (k : Kernel) (r : Option ℕ) → Same k (arrived_or_back c (k, r)).0
arrived_or_back-Same c k (some l) = refl
arrived_or_back-Same c k none = install_into_current-Same k c

arrived_or_restored-Same :
    (sender : ℕ) (c : Capability) (k : Kernel) (r : Option ℕ)
    → Same k (arrived_or_restored sender c (k, r)).0
arrived_or_restored-Same sender c k (some l) = refl
arrived_or_restored-Same sender c k none = install_into_blocked-Same k sender c

give_to_blocked-Same :
    (k : Kernel) (receiver cap_slot : ℕ) (o : Option Capability)
    → Same k (give_to_blocked k receiver cap_slot o).0
unfolding give_to_blocked
give_to_blocked-Same k receiver cap_slot none = refl
give_to_blocked-Same k receiver cap_slot (some c) =
    arrived_or_back-Same c _ _ ∙ install_into_blocked_home-Same _ receiver _ c.origin

give_to_current-Same :
    (k : Kernel) (sender cap_slot : ℕ) (o : Option Capability)
    → Same k (give_to_current k sender cap_slot o).0
give_to_current-Same k sender cap_slot none = refl
give_to_current-Same k sender cap_slot (some c) =
    arrived_or_restored-Same sender c _ _ ∙ install_home_into_current-Same _ _ c.origin _

pub transfer_current_to_blocked-Same :
    (k : Kernel) (receiver cap_slot : ℕ)
    → Same k (transfer_current_to_blocked k receiver cap_slot).0
unfolding transfer_current_to_blocked
transfer_current_to_blocked-Same k receiver cap_slot = elim (Option-cases (current k)) [
  | inl gone ↦ rw (gone, transfer_current_to_blocked) refl
  | inr (p, e) ↦ rw (e, transfer_current_to_blocked) (give_to_blocked-Same _ receiver cap_slot _)
]

pub transfer_blocked_to_current-Same :
    (k : Kernel) (sender cap_slot : ℕ) → Same k (transfer_blocked_to_current k sender cap_slot).0
unfolding transfer_blocked_to_current
transfer_blocked_to_current-Same k sender cap_slot =
    give_to_current-Same _ sender cap_slot _ ∙ revoke_from_blocked-Same k sender cap_slot

pub mint_reply_cap_into_current-Same :
    (k : Kernel) (caller : ℕ) → Same k (mint_reply_cap_into_current k caller).0
unfolding mint_reply_cap_into_current
mint_reply_cap_into_current-Same k caller = install_into_current-Same k _
