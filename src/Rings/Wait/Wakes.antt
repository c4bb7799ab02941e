-- ===== src/Rings/Wait/Wakes.antt =====
-- A process that waits on its ring is woken by the next completion.
use mathlib.Core.Path.{subst}
use plinth_os.Base.{
  ℕ, ◌+◌, ◌%◌, ◌^◌, ◌<◌, ◌≡◌, ◌≢◌, refl, sym, ap, ◌∙◌, Bool, true, false, Option, none, some, [],
  ◌∷◌, ◌++◌, length, arith, ◌==◌, ltb, ◌&&◌, if◌then◌else◌, ◌⊎◌, inl, inr, Bool-cases, Option-cases,
  get_or-set_self, length-set,
}
use plinth_os.Base.Bits.{IsSize}
use plinth_os.Capability.{
  Capability, CapObject, frame, cpu_time, endpoint, reply, block_range, event_source, ring,
  framebuffer, bound_device,
}
use plinth_os.CapTable
use plinth_os.CapTable.{Result, ok, err}
use plinth_os.Kernel.{Kernel, current, current_slot, block_current}
use plinth_os.Rings.{
  Rings, Ring, ring_at, put_ring, empty, va, max_rings, hdr_head, distance, ring_id_for, owned_ring,
  found_ring, right_rw, post_event, post_completion, cq_post, admit,
}
use plinth_os.Rings.Frames.{entries_from}
use plinth_os.Rings.Completions.{
  IsRing, unread, head_of, waiting_count, cq_post-admit, admit-Posted,
}
use plinth_os.Rings.Wait.{ring_wait, wait_on}

abbrev Owned : Kernel → Rings → Option ℕ → Type 0
Owned k s none = Unit {0}
Owned k s (some id) = (ring_at s id).owner ≡ current_slot k

owned_ring-Owned : (k : Kernel) (s : Rings) (o : CapObject) → Owned k s (owned_ring k s o)
owned_ring-Owned k s (ring id) =
    elim (Bool-cases
      (ltb id max_rings && (ring_at s id).in_use && ((ring_at s id).owner == current_slot k))) [
        | inl mine ↦
            let same : (ring_at s id).owner ≡ current_slot k = ground (arith, mine) in rw mine same
        | inr other ↦ rw other tt
      ]
owned_ring-Owned k s (frame _) = tt
owned_ring-Owned k s (cpu_time _) = tt
owned_ring-Owned k s (endpoint _) = tt
owned_ring-Owned k s (reply _) = tt
owned_ring-Owned k s (block_range _ _ _) = tt
owned_ring-Owned k s (event_source _) = tt
owned_ring-Owned k s (framebuffer _ _ _ _ _ _) = tt
owned_ring-Owned k s (bound_device _) = tt

found_ring-Owned : (k : Kernel) (s : Rings) (r : Result Capability) → Owned k s (found_ring k s r)
found_ring-Owned k s (ok c) = owned_ring-Owned k s c.object
found_ring-Owned k s (err e) = tt

ring_id_for-Owned : (k : Kernel) (s : Rings) (slot : ℕ) → Owned k s (ring_id_for k s slot)
unfolding ring_id_for
ring_id_for-Owned k s slot = elim (Option-cases (current k)) [
  | inl idle ↦ rw (idle, ring_id_for) tt
  | inr (p, running) ↦
      rw (running, ring_id_for) (found_ring-Owned k s (CapTable.lookup p.caps slot right_rw))
]

abbrev pub parked : Rings → ℕ → Rings
parked s id = put_ring s id (record (ring_at s id) { waiting = true })

parked-ring :
    (s : Rings) (id : ℕ)
    → id < length s.rings
    → ring_at (parked s id) id ≡ record (ring_at s id) { waiting = true }
parked-ring s id lt = get_or-set_self s.rings id _ empty lt

parked-IsRing : (s : Rings) (id : ℕ) → IsRing s id → IsRing (parked s id) id
parked-IsRing s id v =
    let same = parked-ring s id v.there in
    record {
      in_range = v.in_range;
      there = rw length-set v.there;
      in_use = ap (λ (q : Ring). q.in_use) same ∙ v.in_use;
      size = subst (λ (q : Ring). IsSize (q.mask + 1)) (sym same) v.size;
      tail_word = subst (λ (q : Ring). q.cq_tail < 2 ^ 32) (sym same) v.tail_word;
      head_word =
          subst (λ (q : Ring). s.mem (s.phys_offset + q.cq_phys + hdr_head) < 2 ^ 32) (sym same)
            v.head_word;
    }

nothing_unread : (s : Rings) (id : ℕ) → waiting_count s id ≡ 0 → unread s id ≡ []
unfolding entries_from
nothing_unread s id e =
    ap (entries_from s.mem (va s (ring_at s id).cq_phys) ((ring_at s id).mask + 1) (head_of s id)) e

-- With nothing to read, the next post is admitted, whoever posts it, wakes the owner, and is all that
-- there is to read.
parked-post :
    (s : Rings) (id user_data status : ℕ)
    → IsRing s id
    → waiting_count s id ≡ 0
    → user_data < 2 ^ 64
    → (s' : Rings) × ((drop : Bool)
        → cq_post (parked s id) id user_data status drop ≡ (s', true, some (ring_at s id).owner))
      × (unread s' id ≡ (user_data, status % 2 ^ 32) ∷ [])
parked-post s id user_data status v nothing lt =
    let p = parked s id in
    let same = parked-ring s id v.there in
    let size : 0 < (ring_at p id).mask + 1 = omega arith in
    let owner : (ring_at p id).owner ≡ (ring_at s id).owner = ap (λ (q : Ring). q.owner) same in
    let waits : (ring_at p id).waiting ≡ true = ap (λ (q : Ring). q.waiting) same in
    let empty_now : waiting_count p id ≡ 0 =
      ap (λ (q : Ring). distance q.cq_tail (s.mem (s.phys_offset + q.cq_phys + hdr_head))) same
      ∙ nothing in
    let valid = parked-IsRing s id v in
    let room : waiting_count p id < (ring_at p id).mask + 1 = omega (arith, empty_now, size) in
    let target : (if (ring_at p id).waiting then some (ring_at p id).owner else none)
        ≡ some (ring_at s id).owner =
      rw (waits, owner) refl in
    let s' = (admit p id (ring_at p id) user_data status).0 in
    let posted = admit-Posted p id user_data status valid room lt in
    (
      s',
      λ drop. cq_post-admit p id user_data status drop valid room ∙ ap (λ w. (s', true, w)) target,
      posted.queue
          ∙ ap (λ es. es ++ (user_data, status % 2 ^ 32) ∷ []) (nothing_unread p id empty_now),
    )

-- No wakeup is lost. A process that waits on its ring returns at once if there is something to read.
-- Otherwise it is parked with an empty queue, and the next completion that is posted, whether of an
-- event or of a request, wakes exactly this process, which then finds that completion and nothing
-- else.
pub ring_wait-cases :
    (k : Kernel) (s : Rings) (ring_slot id user_data status : ℕ)
    → ring_id_for k s ring_slot ≡ some id
    → IsRing s id
    → user_data < 2 ^ 64
    → ((ring_wait k s ring_slot ≡ (k, s, some 0)) × (0 < waiting_count s id))
      ⊎ ((ring_wait k s ring_slot ≡ (block_current k, parked s id, none))
          × ((s' : Rings) × (post_event (parked s id) id user_data status
                ≡ (s', true, some (current_slot k)))
              × (post_completion (parked s id) id user_data status ≡ (s', some (current_slot k)))
              × (unread s' id ≡ (user_data, status % 2 ^ 32) ∷ [])))
unfolding ring_wait
ring_wait-cases k s ring_slot id user_data status known v lt =
    let tail_word = v.tail_word in
    let head_word = v.head_word in
    let mine : (ring_at s id).owner ≡ current_slot k =
      subst (Owned k s) known (ring_id_for-Owned k s ring_slot) in
    let waits : ring_wait k s ring_slot ≡ wait_on k s id = rw (known, ring_wait) refl in
    elim (Bool-cases ((ring_at s id).cq_tail == head_of s id)) [
      | inl same ↦
          let nothing : waiting_count s id ≡ 0 =
            let e : (ring_at s id).cq_tail ≡ head_of s id = ground (arith, same) in
            omega (arith, e) in
          let (s', posted, found) = parked-post s id user_data status v nothing lt in
          inr (
            waits ∙ rw same refl,
            (
              s',
              posted true ∙ ap (λ o. (s', true, some o)) mine,
              ap (λ (r : Rings × Bool × Option ℕ). (r.0, r.2)) (posted false)
                  ∙ ap (λ o. (s', some o)) mine,
              found,
            ),
          )
      | inr more ↦
          let apart : (ring_at s id).cq_tail ≢ head_of s id = ground (arith, more) in
          inl (waits ∙ rw more refl, omega (arith, apart))
    ]
