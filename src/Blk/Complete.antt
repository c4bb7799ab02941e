-- ===== src/Blk/Complete.antt =====
-- A completion is routed once: an index that the device makes up, or repeats, routes nothing.
use mathlib.Core.Path.{subst}
use plinth_os.Base.{
  ℕ, suc, ◌+◌, ◌*◌, ◌/◌, ◌%◌, ◌<◌, ◌≡◌, refl, ap, ◌∙◌, false, none, some, length, set, arith, ◌==◌,
  ltb, if◌then◌else◌, length-set, get_or-set, get_or-set_self, Bool-cases, Option-cases, inl, inr,
  ◌⊎◌,
}
use plinth_os.Capability.{is_none}
use plinth_os.Blk.{
  Inflights, Completion, route_of, desc_per_req, slot_of, complete, complete_at, release_slot,
}
use plinth_os.Blk.Pool.{IsPool, times, live_count-set, live_count-pos, times-suc, times-set}
use plinth_os.Blk.Submit.{released}

released-IsPool :
    (d : Inflights) (slot : ℕ) (info : Completion)
    → IsPool d
    → slot < d.slots
    → route_of d slot ≡ some info
    → IsPool (released d slot)
released-IsPool d slot info v lt live =
    let here : is_none (route_of d slot) ≡ false = ap is_none live in
    let (some_live, fits) = live_count-pos d.routing slot here in
    let counted = v.counted in
    let few = v.few in
    let stack = v.free_length in
    let room : d.free_len < length d.free = omega arith in
    record {
      routing_length = length-set d.routing slot none ∙ v.routing_length;
      free_length = length-set d.free d.free_len slot ∙ v.free_length;
      few = v.few;
      counted = ground (arith, live_count-set d.routing slot none fits, here);
      once = λ s.
          let pushed = times-suc s (set d.free d.free_len slot) d.free_len (rw length-set room) in
          let kept = times-set s d.free d.free_len d.free_len slot (omega arith) in
          let top = get_or-set_self d.free d.free_len slot 0 room in
          let more : suc d.free_len ≡ d.free_len + 1 = omega arith in
          let grown : times s (set d.free d.free_len slot) (d.free_len + 1)
              ≡ times s d.free d.free_len + (if slot == s then 1 else 0) =
            subst
              (λ n.
                times s (set d.free d.free_len slot) n
                ≡ times s d.free d.free_len + (if slot == s then 1 else 0))
              more (ground (arith, pushed, kept, top)) in
          ground (arith, v.once s, grown, here, fits, get_or-set d.routing slot s none none);
    }

-- The index is the head of no live slot's chain.
abbrev pub NotLive : Inflights → ℕ → Type 0
NotLive d head = (slot : ℕ) → head ≡ slot * desc_per_req → slot < d.slots → route_of d slot ≡ none

-- What the head of a chain decodes to.
slot_of-cases :
    (d : Inflights) (head : ℕ)
    → ((slot_of d head ≡ none) × NotLive d head)
      ⊎ ((slot : ℕ) × (slot_of d head ≡ some slot)
          × (head ≡ slot * desc_per_req)
          × (slot < d.slots))
unfolding slot_of
slot_of-cases d head = elim (Bool-cases (head % desc_per_req == 0)) [
  | inr off ↦ inl (rw off refl, λ slot at lt. absurd (ground (arith, off, at)))
  | inl aligned ↦ elim (Bool-cases (ltb (head / desc_per_req) d.slots)) [
    | inr past ↦ inl (rw (aligned, past) refl, λ slot at lt. absurd (ground (arith, past, at, lt)))
    | inl below ↦
        let exact : head % desc_per_req ≡ 0 = ground arith in
        inr (head / desc_per_req, rw (aligned, below) refl, omega arith, ground arith)
  ]
]

abbrev pub Routed : Inflights → ℕ → Type 0
Routed d head =
    (slot : ℕ) × (info : Completion) × (head ≡ slot * desc_per_req)
    × (slot < d.slots)
    × (route_of d slot ≡ some info)
    × (complete d head ≡ (released d slot, some info))
    × (complete (released d slot) head ≡ (released d slot, none))
    × IsPool (released d slot)

complete-dead :
    (d : Inflights) (slot : ℕ) → route_of d slot ≡ none → complete_at d (some slot) ≡ (d, none)
complete-dead d slot dead = ap (release_slot d slot) dead

-- An index that the device reports completes a request exactly if it is the head of the chain of a
-- live slot. The request is taken off the table, so that the same index reported again completes
-- nothing, and any other index changes nothing. The table is well formed.
pub complete-cases :
    (d : Inflights) (head : ℕ)
    → IsPool d
    → Routed d head ⊎ ((complete d head ≡ (d, none)) × NotLive d head)
unfolding complete slot_of
complete-cases d head v = elim (slot_of-cases d head) [
  | inl (bad, unknown) ↦ inr (ap (complete_at d) bad, unknown)
  | inr (slot, found, at, lt) ↦ elim (Option-cases (route_of d slot)) [
    | inl dead ↦ inr (
      ap (complete_at d) found ∙ complete-dead d slot dead,
      λ other at' lt'.
          let same : slot ≡ other = omega (arith, at, at') in
          subst (λ i. route_of d i ≡ none) same dead,
    )
    | inr (info, live) ↦
        let fits = (live_count-pos d.routing slot (ap is_none live)).1 in
        inl (
          slot,
          info,
          at,
          lt,
          live,
          ap (complete_at d) found ∙ ap (release_slot d slot) live,
          ap (complete_at (released d slot)) found
              ∙ complete-dead (released d slot) slot
                  (get_or-set_self d.routing slot none none fits),
          released-IsPool d slot info v lt live,
        )
  ]
]
