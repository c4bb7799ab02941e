-- ===== src/Ipc/Reply.antt =====
-- A reply answers one call: it wakes the caller with the answer and uses the reply capability up.
use mathlib.Core.Path.{subst}
use plinth_os.Base.{
  ℕ, ◌<◌, ◌≡◌, refl, sym, ◌∙◌, ap, true, none, some, length, get_or-set_self, arith, inl, inr,
}
use plinth_os.CapTable
use plinth_os.CapTable.{CapTable, slot_at, ok, err}
use plinth_os.CapTable.Lookup.{revoke-cases, lookup_lem}
use plinth_os.Kernel.Slots.{slot_of-wake_with}
use plinth_os.Process.{Process}
use plinth_os.Kernel.{Kernel, State, slot_of, current, put_current, is_blocked, wake_with, no_cap}
use plinth_os.Ipc.Calls.{
  returns, ipc_ok, ipc_err, ipc_reply, reply_to, revoke_current, found_caller,
}

revoke-gone : (t : CapTable) (slot : ℕ) → slot_at (CapTable.revoke t slot).0 slot ≡ none
revoke-gone t slot = elim (revoke-cases t slot) [
  | inl (x, failed, absent) ↦ ap (λ r. slot_at r.0 slot) failed ∙ absent
  | inr (d, lt, held, left) ↦
      ap (λ r. slot_at r.0 slot) left ∙ get_or-set_self t.slots slot none none lt
]

-- What a reply to a blocked caller does.
reply_to-blocked :
    (k : Kernel) (slot msg caller : ℕ)
    → is_blocked k caller ≡ true
    → reply_to k slot msg (some caller)
      ≡ (revoke_current (wake_with k caller ipc_ok msg no_cap) slot, returns ipc_ok)
unfolding reply_to
reply_to-blocked k slot msg caller b = rw b refl

revoke_current-eq :
    (k : Kernel) (p : Process) (slot : ℕ)
    → current k ≡ some p
    → revoke_current k slot
      ≡ put_current k (some (record p { caps = (CapTable.revoke p.caps slot).0 }))
revoke_current-eq k p slot e = ground (arith, e)

ipc_reply-eq :
    (k : Kernel) (p : Process) (slot msg : ℕ)
    → current k ≡ some p
    → ipc_reply k slot msg ≡ reply_to k slot msg (found_caller (CapTable.lookup p.caps slot 0))
unfolding ipc_reply
ipc_reply-eq k p slot msg e = ground (arith, e)

no_caller :
    (t : CapTable) (slot : ℕ)
    → slot_at t slot ≡ none
    → found_caller (CapTable.lookup t slot 0) ≡ none
no_caller t slot absent = ground (arith, lookup_lem t slot 0, absent)

current-wake_with :
    (k : Kernel) (caller msg : ℕ) → current (wake_with k caller ipc_ok msg no_cap) ≡ current k
unfolding wake_with
current-wake_with k caller msg = refl

put_then_current :
    (k : Kernel) (caller msg : ℕ) (p : Process)
    → k.core < length k.current
    → current (put_current (wake_with k caller ipc_ok msg no_cap) (some p)) ≡ some p
unfolding wake_with
put_then_current k caller msg p lt = get_or-set_self k.current k.core (some p) none lt

reply_to-none : (k : Kernel) (slot msg : ℕ) → reply_to k slot msg none ≡ (k, returns ipc_err)
unfolding reply_to
reply_to-none k slot msg = refl

-- What an answered call leaves behind: the capability that was used is gone from its slot.
pub record Answered (k' : Kernel) (caller msg slot : ℕ) : Type 0 where
  pub runnable : (slot_of k' caller).state ≡ State.ready
  pub told : (slot_of k' caller).rax ≡ ipc_ok
  pub answer : (slot_of k' caller).rsi ≡ msg
  pub spent : (q : Process) × (current k' ≡ some q) × (slot_at q.caps slot ≡ none)
  pub once : (msg' : ℕ) → ipc_reply k' slot msg' ≡ (k', returns ipc_err)

-- A reply through a capability that names a blocked caller succeeds: the caller becomes ready with
-- the answer in its registers, the reply capability is gone from its slot, and a second reply through
-- the same slot fails and changes nothing.
pub ipc_reply-Answered :
    (k : Kernel) (p : Process) (slot msg caller : ℕ)
    → current k ≡ some p
    → k.core < length k.current
    → found_caller (CapTable.lookup p.caps slot 0) ≡ some caller
    → is_blocked k caller ≡ true
    → caller < length k.table
    → let (k', outcome) = ipc_reply k slot msg in
      (outcome ≡ returns ipc_ok) × Answered k' caller msg slot
ipc_reply-Answered k p slot msg caller e lt found b room =
    let woken = wake_with k caller ipc_ok msg no_cap in
    let p' : Process = record p { caps = (CapTable.revoke p.caps slot).0 } in
    let running : current woken ≡ some p = current-wake_with k caller msg ∙ e in
    let after = put_current woken (some p') in
    let run : ipc_reply k slot msg ≡ (after, returns ipc_ok) =
      ipc_reply-eq k p slot msg e
      ∙ ap (reply_to k slot msg) found
      ∙ reply_to-blocked k slot msg caller b
      ∙ ap (λ j. (j, returns ipc_ok)) (revoke_current-eq woken p slot running) in
    let done : Answered after caller msg slot = record {
      runnable = ground (arith, slot_of-wake_with k caller caller ipc_ok msg no_cap, room);
      told = ground (arith, slot_of-wake_with k caller caller ipc_ok msg no_cap, room);
      answer = ground (arith, slot_of-wake_with k caller caller ipc_ok msg no_cap, room);
      spent = (p', put_then_current k caller msg p' lt, revoke-gone p.caps slot);
      once = λ msg'.
          ipc_reply-eq after p' slot msg' (put_then_current k caller msg p' lt)
          ∙ ap (reply_to after slot msg') (no_caller p'.caps slot (revoke-gone p.caps slot))
          ∙ reply_to-none after slot msg';
    } in
    (ap (λ r. r.1) run, subst (λ j. Answered j caller msg slot) (sym (ap (λ r. r.0) run)) done)
