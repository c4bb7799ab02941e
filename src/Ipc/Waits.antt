-- ===== src/Ipc/Waits.antt =====
-- `send` and `recv` when nobody waits on the other side: who waits and behind whom, and who is turned
-- away.
use mathlib.Core.Path.{subst}
use plinth_os.Base.{
  ℕ, ◌<◌, ◌≡◌, ◌≢◌, refl, sym, ap, ◌∙◌, not, Bool, true, false, none, some, List, [], ◌∷◌, ◌++◌,
  length, arith, ◌==◌, get_or-set_self, length-set, if◌then◌else◌, ◌⊎◌, inl, inr, Bool-cases,
}
use plinth_os.Kernel.{
  Kernel, Slot, State, slot_of, current, current_slot, set_pending, block_current, empty_slot,
}
use plinth_os.Ipc.WaitQueue
use plinth_os.Ipc.WaitQueue.{WaitQueue, same_side}
use plinth_os.Ipc.WaitQueue.Refine.{Holds, NotIn, first, tail, enqueue-Holds, take_if_lem}
use plinth_os.Ipc.Endpoint.{ep_at}
use plinth_os.Ipc.Calls.{
  Outcome, blocks, returns, ipc_peer_died, enqueue_waiter, take_waiting, send_on, recv_on,
  endpoint_senders, endpoint_receivers,
}
use plinth_os.Ipc.Liveness.{AllBelow, queue-put_queue}

-- Process `me` is parked in its slot, which is `v` otherwise, and is the last in the queue of endpoint
-- `id`, behind `xs` and on the given side.
pub record Waits (k' : Kernel) (me id : ℕ) (xs : List ℕ) (are_senders : Bool) (v : Slot)
    : Type 0 where
  pub in_line : Holds (ep_at k'.endpoints id).queue k'.links (xs ++ me ∷ [])
  pub side : (ep_at k'.endpoints id).queue.are_senders ≡ are_senders
  pub parked : slot_of k' me ≡ record v { state = State.blocked }

-- What both operations need to hold of the queue and of the process that calls.
pub record IsCaller (k : Kernel) (id : ℕ) (xs : List ℕ) : Type 0 where
  pub room : id < length k.endpoints
  pub held : Holds (ep_at k.endpoints id).queue k.links xs
  pub linked : current_slot k < length k.links
  pub listed : current_slot k < length k.table
  pub elsewhere : NotIn (current_slot k) xs
  pub below : AllBelow (length k.table) xs

pub enqueue_waiter-Waits :
    (k : Kernel) (id : ℕ) (xs : List ℕ) (side : Bool)
    → IsCaller k id xs
    → Waits
        (block_current (enqueue_waiter k id (current_slot k) side))
        (current_slot k)
        id
        xs
        side
        (record (slot_of k (current_slot k)) { process = current k })
unfolding enqueue_waiter block_current
enqueue_waiter-Waits k id xs side c =
    let me = current_slot k in
    let (q, links) = WaitQueue.enqueue (ep_at k.endpoints id).queue me side k.links in
    let (line, on) =
      enqueue-Holds (ep_at k.endpoints id).queue k.links me side xs c.held c.linked c.elsewhere in
    let there = queue-put_queue k id q c.room in
    record {
      in_line = subst (λ (w : WaitQueue). Holds w links (xs ++ me ∷ [])) (sym there) line;
      side = ap (λ (w : WaitQueue). w.are_senders) there ∙ on;
      parked = get_or-set_self k.table me _ empty_slot c.listed;
    }

-- What `take_waiting` leaves when it finds nobody.
pub none_waiting :
    (k : Kernel) (id : ℕ) (xs : List ℕ) (want : Bool)
    → IsCaller k id xs
    → (take_waiting k id want).1 ≡ none
    → IsCaller (take_waiting k id want).0 id xs
unfolding take_waiting
none_waiting k id xs want c nobody =
    let (found, rest) = take_if_lem (ep_at k.endpoints id).queue k.links want xs c.held in
    let q = (WaitQueue.take_if (ep_at k.endpoints id).queue want k.links).0 in
    let there = queue-put_queue k id q c.room in
    let room = c.room in
    record {
      room = rw length-set room;
      held = subst (λ (w : WaitQueue). Holds w k.links xs) (sym there) (same_line xs _ found rest);
      linked = c.linked;
      listed = c.listed;
      elsewhere = c.elsewhere;
      below = c.below;
    }
  where
    same_line :
        (ys : List ℕ) (b : Bool)
        → (WaitQueue.take_if (ep_at k.endpoints id).queue want k.links).1
          ≡ (if b then first ys else none)
        → Holds
            (WaitQueue.take_if (ep_at k.endpoints id).queue want k.links).0
            k.links
            (if b then tail ys else ys)
        → Holds (WaitQueue.take_if (ep_at k.endpoints id).queue want k.links).0 k.links ys
    same_line ys false f h = h
    same_line [] true f h = h
    same_line (y ∷ ys) true f h = absurd (cc)

pub served :
    (k : Kernel) (id x : ℕ) (xs : List ℕ) (want : Bool)
    → IsCaller k id xs
    → (take_waiting k id want).1 ≡ some x
    → (first xs ≡ some x) × (same_side (ep_at k.endpoints id).queue.are_senders want ≡ true)
unfolding take_waiting
served k id x xs want c got =
    let (found, rest) = take_if_lem (ep_at k.endpoints id).queue k.links want xs c.held in
    elim (Bool-cases (same_side (ep_at k.endpoints id).queue.are_senders want)) [
      | inl same ↦ (sym (found ∙ (rw same refl)) ∙ got, same)
      | inr other ↦
          let nobody : (WaitQueue.take_if (ep_at k.endpoints id).queue want k.links).1 ≡ none =
            found ∙ (rw other refl) in
          absurd (cc)
    ]

pub side_is : (b want : Bool) → same_side b want ≡ true → b ≡ want
side_is true true e = refl
side_is true false e = absurd (cc)
side_is false true e = absurd (cc)
side_is false false e = refl

side_is_other : (b want : Bool) → same_side b want ≡ false → b ≡ not want
side_is_other true true e = absurd (cc)
side_is_other true false e = refl
side_is_other false true e = refl
side_is_other false false e = absurd (cc)

-- Nobody on the side `want` waits.
pub nobody_on :
    (k : Kernel) (id : ℕ) (xs : List ℕ) (want : Bool)
    → IsCaller k id xs
    → (take_waiting k id want).1 ≡ none
    → (first xs ≡ none) ⊎ ((ep_at k.endpoints id).queue.are_senders ≡ not want)
unfolding take_waiting
nobody_on k id xs want c got =
    let (found, rest) = take_if_lem (ep_at k.endpoints id).queue k.links want xs c.held in
    elim (Bool-cases (same_side (ep_at k.endpoints id).queue.are_senders want)) [
      | inl same ↦ inl (sym (found ∙ (rw same refl)) ∙ got)
      | inr other ↦ inr (side_is_other _ want other)
    ]

set_pending-IsCaller :
    (k : Kernel) (id msg cap_slot : ℕ) (xs : List ℕ)
    → IsCaller k id xs
    → IsCaller (set_pending k (current_slot k) msg cap_slot false) id xs
unfolding set_pending
set_pending-IsCaller k id msg cap_slot xs c =
    let listed = c.listed in
    let below = c.below in
    record {
      room = c.room;
      held = c.held;
      linked = c.linked;
      listed = rw length-set listed;
      elsewhere = c.elsewhere;
      below = rw length-set below;
    }

-- What `send` does with nobody to receive.
abbrev pub SendWaits : Kernel → ℕ → ℕ → ℕ → List ℕ → Kernel × Outcome → Type 0
SendWaits k id msg cap_slot xs (k', outcome) =
    (outcome ≡ blocks)
    × (endpoint_receivers k id ≢ 0)
    × Waits k' (current_slot k) id xs true (record (slot_of k (current_slot k)) {
      process = current k;
      pending_msg = msg;
      pending_cap = cap_slot;
      pending_call = false;
    })

pub send_on-none :
    (k : Kernel) (id msg cap_slot : ℕ) (xs : List ℕ)
    → IsCaller k id xs
    → SendWaits k id msg cap_slot xs (send_on k id msg cap_slot none)
      ⊎ ((send_on k id msg cap_slot none ≡ (k, returns ipc_peer_died))
          × (endpoint_receivers k id ≡ 0))
unfolding send_on set_pending
send_on-none k id msg cap_slot xs c = elim (Bool-cases (endpoint_receivers k id == 0)) [
  | inl gone ↦ inr (rw gone refl, ground (arith, gone))
  | inr alive ↦
      let k1 = set_pending k (current_slot k) msg cap_slot false in
      let c1 = set_pending-IsCaller k id msg cap_slot xs c in
      let w = enqueue_waiter-Waits k1 id xs true c1 in
      let mine : slot_of k1 (current_slot k) ≡ record (slot_of k (current_slot k)) {
        pending_msg = msg;
        pending_cap = cap_slot;
        pending_call = false;
      } =
        get_or-set_self k.table (current_slot k) _ empty_slot c.listed in
      inl (
        rw alive (
          refl,
          ground (arith, alive),
          subst
              (λ (v : Slot).
                Waits (block_current (enqueue_waiter k1 id (current_slot k) true)) (current_slot k)
                  id xs true (record v { process = current k }))
              mine w,
        ))
]

pub recv_on-none :
    (k : Kernel) (id : ℕ) (xs : List ℕ)
    → IsCaller k id xs
    → ((recv_on k id none).1 ≡ blocks)
        × (endpoint_senders k id ≢ 0)
        × Waits
            (recv_on k id none).0
            (current_slot k)
            id
            xs
            false
            (record (slot_of k (current_slot k)) { process = current k })
      ⊎ (((recv_on k id none).1 ≡ returns ipc_peer_died) × (endpoint_senders k id ≡ 0))
unfolding recv_on
recv_on-none k id xs c = elim (Bool-cases (endpoint_senders k id == 0)) [
  | inl gone ↦ inr (rw gone refl, ground (arith, gone))
  | inr alive ↦ inl (rw alive (refl, ground (arith, alive), enqueue_waiter-Waits k id xs false c))
]
