-- ===== src/Rings/Completions.antt =====
-- The completion queue as a list: what the process has not read yet, oldest first.
use mathlib.Core.Path.{subst}
use plinth_os.Base.{
  ℕ, suc, ◌+◌, ◌-◌, ◌%◌, ◌^◌, ◌<◌, ◌≤◌, ◌≡◌, refl, sym, ap, ◌∙◌, Bool, true, false, none, some,
  List, [], ◌∷◌, ◌++◌, length, arith, ltb, if◌then◌else◌, ◌⊎◌, inl, inr, Bool-cases,
  get_or-set_self, length-set, bit_and,
}
use plinth_os.Base.Bits.{IsSize, bit_and-mask, place-lt, size-pos}
use plinth_os.Rings.{
  Rings, Ring, Mem, ring_at, va, empty, max_rings, next, distance, hdr_head, hdr_tail,
  write_completion, admit, cq_post, post_event,
}
use plinth_os.Rings.Frames.{outside_frame, tail_after, entries_from, entries_grown}

abbrev pub frame_of : Rings → ℕ → ℕ
frame_of s id = va s (ring_at s id).cq_phys

abbrev pub head_of : Rings → ℕ → ℕ
head_of s id = s.mem (frame_of s id + hdr_head)

abbrev pub waiting_count : Rings → ℕ → ℕ
waiting_count s id = distance (ring_at s id).cq_tail (head_of s id)

abbrev unread_from : Mem → ℕ → ℕ → ℕ → ℕ → List (ℕ × ℕ)
unread_from mem base size tail head = entries_from mem base size head (distance tail head)

abbrev unread_by : Mem → ℕ → Ring → List (ℕ × ℕ)
unread_by mem offset r =
    unread_from mem (offset + r.cq_phys) (r.mask + 1) r.cq_tail
      (mem (offset + r.cq_phys + hdr_head))

abbrev pub unread : Rings → ℕ → List (ℕ × ℕ)
unread s id = unread_by s.mem s.phys_offset (ring_at s id)

-- A ring that is registered, as `ring_register` makes it, with an index in range in its frame.
pub record IsRing (s : Rings) (id : ℕ) : Type 0 where
  pub in_range : id < max_rings
  pub there : id < length s.rings
  pub in_use : (ring_at s id).in_use ≡ true
  pub size : IsSize ((ring_at s id).mask + 1)
  pub tail_word : (ring_at s id).cq_tail < 2 ^ 32
  pub head_word : head_of s id < 2 ^ 32

-- The queue of `s'` is that of `s` with one completion behind it, and every word outside the ring's
-- frame, with the index that the process owns, is untouched.
pub record Posted (s s' : Rings) (id user_data status : ℕ) : Type 0 where
  pub queue : unread s' id ≡ unread s id ++ (user_data, status % 2 ^ 32) ∷ []
  pub mirrored : s'.mem (frame_of s id + hdr_tail) ≡ (ring_at s' id).cq_tail
  pub confined : (p : ℕ) → (p < frame_of s id + 4) ⊎ (frame_of s id + 4096 ≤ p) → s'.mem p ≡ s.mem p
  pub IsRing_kept : IsRing s' id

mask-place : {n : ℕ} (m i : ℕ) → n ≡ m + 1 → IsSize n → bit_and i m ≡ i % n
mask-place m i e z =
    let less : m ≡ (m + 1) - 1 = omega arith in
    let z' = subst IsSize e z in
    ap (bit_and i) less ∙ bit_and-mask i z' ∙ ap (λ (k : ℕ). i % k) (sym e)

pub ring-admit :
    (s : Rings) (id user_data status : ℕ)
    → id < length s.rings
    → ring_at (admit s id (ring_at s id) user_data status).0 id
      ≡ record (ring_at s id) { cq_tail = next (ring_at s id).cq_tail; waiting = false }
ring-admit s id user_data status lt = get_or-set_self s.rings id _ empty lt

pub admit-Posted :
    (s : Rings) (id user_data status : ℕ)
    → IsRing s id
    → waiting_count s id < (ring_at s id).mask + 1
    → user_data < 2 ^ 64
    → Posted s (admit s id (ring_at s id) user_data status).0 id user_data status
admit-Posted s id user_data status v room fits =
    let r = ring_at s id in
    let base = frame_of s id in
    let size = r.mask + 1 in
    let tail = r.cq_tail in
    let head = head_of s id in
    let n = waiting_count s id in
    let s' = (admit s id r user_data status).0 in
    let (pos, most) = size-pos v.size in
    let tail_word = v.tail_word in
    let head_word = v.head_word in
    let place : bit_and tail r.mask ≡ tail % size = mask-place r.mask tail refl v.size in
    let reached : tail ≡ (head + n) % 2 ^ 32 = omega arith in
    let slot : bit_and tail r.mask ≡ (head + n) % 2 ^ 32 % size =
      place ∙ ap (λ (i : ℕ). i % size) reached in
    let below : bit_and tail r.mask < 64 = ground (arith, place, place-lt tail v.size, most) in
    let kept = ring-admit s id user_data status v.there in
    let head' : s'.mem (base + 0) ≡ head =
      outside_frame s.mem base (bit_and tail r.mask) (next tail) user_data status (base + 0) below
        (inl (omega arith)) in
    let count : distance (next tail) head ≡ suc n = omega arith in
    let grown : entries_from s'.mem base size head (suc n)
        ≡ entries_from s.mem base size head n ++ (user_data, status % 2 ^ 32) ∷ [] =
      subst
        (λ w.
          entries_from (write_completion s.mem base w (next tail) user_data status) base size head
            (suc n)
          ≡ entries_from s.mem base size head n ++ (user_data, status % 2 ^ 32) ∷ [])
        (sym slot)
        (entries_grown s.mem base head n (next tail) user_data status v.size room fits head_word) in
    record {
      queue =
          ap (unread_by s'.mem s'.phys_offset) kept
          ∙ ap (unread_from s'.mem base size (next tail)) head'
          ∙ ap (entries_from s'.mem base size head) count
          ∙ grown;
      mirrored =
          tail_after s.mem base (bit_and tail r.mask) (next tail) user_data status
          ∙ sym (ap (λ (q : Ring). q.cq_tail) kept);
      confined = λ p away.
          outside_frame s.mem base (bit_and tail r.mask) (next tail) user_data status p below away;
      IsRing_kept = record {
        in_range = v.in_range;
        there = rw length-set v.there;
        in_use = ap (λ (q : Ring). q.in_use) kept ∙ v.in_use;
        size = subst (λ (q : Ring). IsSize (q.mask + 1)) (sym kept) v.size;
        tail_word = subst (λ (q : Ring). q.cq_tail < 2 ^ 32) (sym kept) (omega arith);
        head_word =
            subst (λ (q : Ring). s'.mem (va s' q.cq_phys + hdr_head) < 2 ^ 32) (sym kept)
              (subst (λ i. i < 2 ^ 32) (sym head') head_word);
      };
    }

pub cq_post-admit :
    (s : Rings) (id user_data status : ℕ) (drop : Bool)
    → IsRing s id
    → waiting_count s id < (ring_at s id).mask + 1
    → cq_post s id user_data status drop ≡ admit s id (ring_at s id) user_data status
unfolding cq_post
cq_post-admit s id user_data status drop v room =
    let (pos, most) = size-pos v.size in
    let known : next (ring_at s id).mask ≡ (ring_at s id).mask + 1 = omega arith in
    let in_use = v.in_use in
    let in_range = v.in_range in ground (arith, in_use, in_range, room, known)

cq_post-full :
    (s : Rings) (id user_data status : ℕ)
    → IsRing s id
    → (ring_at s id).mask + 1 ≤ waiting_count s id
    → cq_post s id user_data status true ≡ (s, false, none)
unfolding cq_post
cq_post-full s id user_data status v full =
    let (pos, most) = size-pos v.size in
    let known : next (ring_at s id).mask ≡ (ring_at s id).mask + 1 = omega arith in
    let in_use = v.in_use in
    let in_range = v.in_range in ground (arith, in_use, in_range, full, known)

-- The producer of completions works on a first-in first-out queue. While the process has left room,
-- a post puts its completion behind all that are unread, overwrites none of them, writes nothing
-- outside the frame of the queue, and wakes the owner exactly if it was waiting. When the queue is
-- full, an event is dropped and nothing changes.
pub post_event-cases :
    (s : Rings) (id user_data status : ℕ)
    → IsRing s id
    → user_data < 2 ^ 64
    → ((s' : Rings) × (post_event s id user_data status
          ≡ (s', true, if (ring_at s id).waiting then some (ring_at s id).owner else none))
        × ((ring_at s' id).waiting ≡ false)
        × Posted s s' id user_data status)
      ⊎ ((post_event s id user_data status ≡ (s, false, none))
          × ((ring_at s id).mask + 1 ≤ waiting_count s id))
post_event-cases s id user_data status v fits =
    elim (Bool-cases (ltb (waiting_count s id) ((ring_at s id).mask + 1))) [
      | inl below ↦
          let room : waiting_count s id < (ring_at s id).mask + 1 = ground arith in
          inl (
            (admit s id (ring_at s id) user_data status).0,
            cq_post-admit s id user_data status true v room,
            ap (λ (q : Ring). q.waiting) (ring-admit s id user_data status v.there),
            admit-Posted s id user_data status v room fits,
          )
      | inr past ↦
          let full : (ring_at s id).mask + 1 ≤ waiting_count s id = ground arith in
          inr (cq_post-full s id user_data status v full, full)
    ]
