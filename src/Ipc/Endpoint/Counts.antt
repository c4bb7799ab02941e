-- ===== src/Ipc/Endpoint/Counts.antt =====
-- The counts of an endpoint follow the capabilities: a move leaves them as they were, and a new
-- endpoint takes one free slot.
use mathlib.Core.Path.{subst}
use plinth_os.Base.{
  ℕ, zero, suc, ◌+◌, ◌-◌, ◌^◌, ◌<◌, ◌≡◌, ◌≢◌, refl, ◌∙◌, ap, Bool, true, false, none, some, [], ◌∷◌,
  length, set, get_or-set_self, get_or-set_ne, length-set, arith, Bool-cases, inl, inr, ◌⊎◌, ◌==◌,
  if◌then◌else◌,
}
use plinth_os.Capability.{Capability, CapObject, endpoint, right_send, right_recv}
use plinth_os.Ipc.Endpoint.{
  Endpoint, Endpoints, ep_at, empty, grants, incr, add_cap, remove_cap, note_added, note_cap_added,
  note_removed, note_cap_removed, first_unused, take_unused, create_endpoint, free_endpoint_count,
}

-- The capability is counted on each side that it reaches, and no count is at its limit.
pub record Counted (ep : Endpoint) (rights : ℕ) : Type 0 where
  pub sends : grants rights right_send ≡ true → 0 < ep.senders
  pub receives : grants rights right_recv ≡ true → 0 < ep.receivers
  pub few_senders : ep.senders < 2 ^ 32
  pub few_receivers : ep.receivers < 2 ^ 32

back_and_forth :
    (b : Bool) (n : ℕ)
    → (b ≡ true → 0 < n)
    → n < 2 ^ 32
    → (if b then incr (if b then n - 1 else n) else (if b then n - 1 else n)) ≡ n
back_and_forth true n pos lt = let p = pos refl in omega arith
back_and_forth false n pos lt = refl

endpoint-eq :
    (ep : Endpoint) (s r : ℕ)
    → s ≡ ep.senders
    → r ≡ ep.receivers
    → record ep { senders = s; receivers = r } ≡ ep
endpoint-eq ep s r e f = rw (e, f) refl

add_cap-remove_cap :
    (ep : Endpoint) (rights : ℕ) → Counted ep rights → add_cap (remove_cap ep rights) rights ≡ ep
unfolding add_cap remove_cap
add_cap-remove_cap ep rights c =
    endpoint-eq ep _ _ (back_and_forth (grants rights right_send) ep.senders c.sends c.few_senders)
      (back_and_forth (grants rights right_recv) ep.receivers c.receives c.few_receivers)

note-endpoint :
    (eps : Endpoints) (id rights i : ℕ)
    → id < length eps
    → Counted (ep_at eps id) rights
    → ep_at (note_added (note_removed eps (endpoint id) rights false) (endpoint id) rights) i
      ≡ ep_at eps i
note-endpoint eps id rights i lt c =
    let less = set eps id (remove_cap (ep_at eps id) rights) in
    let read : ep_at less id ≡ remove_cap (ep_at eps id) rights =
      get_or-set_self eps id (remove_cap (ep_at eps id) rights) empty lt in
    let fits : id < length less = rw length-set lt in
    elim (Bool-cases (id == i)) [
      | inl at ↦
          let same : id ≡ i = ground arith in
          subst (λ j. ep_at (set less id (add_cap (ep_at less id) rights)) j ≡ ep_at eps j) same
            (get_or-set_self less id (add_cap (ep_at less id) rights) empty fits
              ∙ ap (λ e. add_cap e rights) read
              ∙ add_cap-remove_cap (ep_at eps id) rights c)
      | inr other ↦
          let ne : id ≢ i = ground arith in
          get_or-set_ne less id i (add_cap (ep_at less id) rights) empty ne
          ∙ get_or-set_ne eps id i (remove_cap (ep_at eps id) rights) empty ne
    ]

-- Is the capability one that the endpoint table counts, and is it counted?
abbrev pub IsCounted : Endpoints → CapObject → ℕ → Type 0
IsCounted eps (endpoint id) rights = (id < length eps) × Counted (ep_at eps id) rights
IsCounted eps _ rights = Unit {0}

note-object :
    (eps : Endpoints) (object : CapObject) (rights i : ℕ)
    → IsCounted eps object rights
    → ep_at (note_added (note_removed eps object rights false) object rights) i ≡ ep_at eps i
note-object eps (endpoint id) rights i c = note-endpoint eps id rights i c.0 c.1
note-object eps _ rights i c = refl

-- Accounting a capability as moved, out of one table and into another, leaves every endpoint as it
-- was, for a capability that is counted on each side that it reaches and counts below their limit.
pub note_cap_added-note_cap_removed :
    (eps : Endpoints) (cap : Capability) (i : ℕ)
    → IsCounted eps cap.object cap.rights
    → ep_at (note_cap_added (note_cap_removed eps cap false) cap) i ≡ ep_at eps i
unfolding note_cap_added note_cap_removed
note_cap_added-note_cap_removed eps cap i c = note-object eps cap.object cap.rights i c

abbrev pub InUseBefore : Endpoints → ℕ → Type 0
InUseBefore eps n = (j : ℕ) → j < n → (ep_at eps j).in_use ≡ true

first_unused-cases :
    (eps : Endpoints) (i : ℕ)
    → ((p : ℕ) × (first_unused eps i ≡ some (p + i))
        × (p < length eps)
        × ((ep_at eps p).in_use ≡ false)
        × InUseBefore eps p)
      ⊎ ((first_unused eps i ≡ none) × InUseBefore eps (length eps))
unfolding first_unused
first_unused-cases [] i = inr (refl, λ j lt. absurd (omega arith))
first_unused-cases (ep ∷ eps) i = elim (Bool-cases ep.in_use) [
  | inr free ↦
      inl (0, rw free (ap some (omega arith)), omega arith, free, λ j lt. absurd (omega arith))
  | inl used ↦ elim (first_unused-cases eps (i + 1)) [
    | inl (p, found, lt, free, before) ↦
        inl (
          suc p,
          rw used (found ∙ ap some (omega arith)),
          omega arith,
          free,
          in_front used p before,
        )
    | inr (failed, before) ↦ inr (rw used failed, in_front used (length eps) before)
  ]
]
  where
    in_front : ep.in_use ≡ true → (n : ℕ) → InUseBefore eps n → InUseBefore (ep ∷ eps) (suc n)
    in_front used n before zero lt = used
    in_front used n before (suc j) lt = before j (omega arith)

free_endpoint_count-set :
    (eps : Endpoints) (i : ℕ) (ep : Endpoint)
    → i < length eps
    → free_endpoint_count (set eps i ep) + (if (ep_at eps i).in_use then 0 else 1)
      ≡ free_endpoint_count eps + (if ep.in_use then 0 else 1)
unfolding free_endpoint_count
free_endpoint_count-set [] i ep lt = absurd (omega arith)
free_endpoint_count-set (e ∷ es) zero ep lt = omega arith
free_endpoint_count-set (e ∷ es) (suc i) ep lt =
    let ih = free_endpoint_count-set es i ep (omega arith) in omega arith

none_free : (eps : Endpoints) → InUseBefore eps (length eps) → free_endpoint_count eps ≡ 0
unfolding free_endpoint_count
none_free [] before = refl
none_free (e ∷ es) before =
    let head : e.in_use ≡ true = before 0 (omega arith) in
    let rest = none_free es (λ j lt. before (suc j) (omega arith)) in ground (arith, head, rest)

-- `create_endpoint` takes the first endpoint that is not in use, makes it an empty one in use, and
-- there is one free endpoint less. It fails only if no endpoint is free, and then changes nothing.
create_endpoint-cases :
    (eps : Endpoints)
    → ((id : ℕ) × ((create_endpoint eps).1 ≡ some id)
        × ((ep_at eps id).in_use ≡ false)
        × InUseBefore eps id
        × (ep_at (create_endpoint eps).0 id ≡ record empty { in_use = true })
        × (free_endpoint_count (create_endpoint eps).0 + 1 ≡ free_endpoint_count eps))
      ⊎ ((create_endpoint eps ≡ (eps, none)) × (free_endpoint_count eps ≡ 0))
unfolding create_endpoint
create_endpoint-cases eps = elim (first_unused-cases eps 0) [
  | inl (p, found, lt, free, before) ↦
      let fresh : Endpoint = record empty { in_use = true } in
      let at : first_unused eps 0 ≡ some p = found ∙ ap some (omega arith) in
      let count = free_endpoint_count-set eps p fresh lt in
      let eq : take_unused eps (first_unused eps 0) ≡ (set eps p fresh, some p) =
        ap (take_unused eps) at in
      inl (
        p,
        ap (λ r. r.1) eq,
        free,
        before,
        ap (λ r. ep_at r.0 p) eq ∙ get_or-set_self eps p fresh empty lt,
        ap (λ r. free_endpoint_count r.0 + 1) eq ∙ ground (arith, count, free),
      )
  | inr (failed, before) ↦ inr (ap (take_unused eps) failed, none_free eps before)
]
