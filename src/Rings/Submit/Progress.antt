-- ===== src/Rings/Submit/Progress.antt =====
-- The doorbell drains the whole queue, and stops early only for a device that has no room.
use mathlib.Core.Path.{subst}
use plinth_os.Base.{
  ℕ, zero, suc, ◌+◌, ◌%◌, ◌^◌, ◌<◌, ◌≤◌, ◌≡◌, refl, sym, ap, ◌∙◌, Bool, true, false, some, length,
  arith, ◌==◌, Bool-cases, Option-cases, inl, inr, ◌⊎◌, length-set, get_or-set_self, ◌≢◌, ltb, not,
  ◌||◌, ◌&&◌,
}
use plinth_os.Capability.{is_none}
use plinth_os.Kernel.{Kernel}
use plinth_os.Blk
use plinth_os.Blk.{Inflights, Completion, to_ring}
use plinth_os.Rings.{
  Rings, Ring, ring_id_for, next, ring_at, empty, va, distance, hdr_head, hdr_tail, cq_post,
  max_rings,
}
use plinth_os.Rings.Submit.{
  Io, Request, Entry, Outcome, post_request, ring_post, post_entry, submit_loop, ring_submit,
  device, entry_of, is_full, published, ready,
}
use plinth_os.Rings.Submit.Cases.{post_entry-elim}

-- Some device has every slot of its pool in flight.
abbrev pub Busy : Io → Type 0
Busy io = (dev : ℕ) × (d : Inflights) × (device io dev ≡ some d) × (d.free_len ≡ 0)

abbrev pub ring_count : Io → ℕ
ring_count io = length io.rings.rings

-- An entry is consumed, or it stays where it is and nothing changes.
abbrev Drained : Io → Io × Outcome → Type 0
Drained io (io', Outcome.consumed) = ring_count io' ≡ ring_count io
Drained io (io', Outcome.full) = (io' ≡ io) × Busy io

cq_post-count :
    (s : Rings) (id user_data status : ℕ) (drop : Bool)
    → length (cq_post s id user_data status drop).0.rings ≡ length s.rings
unfolding cq_post
cq_post-count s id user_data status drop =
    elim (Bool-cases (not (ltb id max_rings) || not (ring_at s id).in_use)) [
      | inl gone ↦ rw gone refl
      | inr there ↦
          elim (Bool-cases (
            drop
            && not (
                ltb
                  (distance (ring_at s id).cq_tail (s.mem (va s (ring_at s id).cq_phys + hdr_head)))
                  (next (ring_at s id).mask)))) [
                    | inl refuse ↦ rw (there, refuse) refl
                    | inr room ↦ rw (there, room) (length-set s.rings id _)
                  ]
    ]

submit-Drained :
    (io : Io) (r : Request) (d : Inflights) (info : Completion)
    → device io r.dev ≡ some d
    → Drained io (post_request io r (Blk.submit d info))
unfolding Blk.submit
submit-Drained io r d info there = elim (Bool-cases (d.free_len == 0)) [
  | inl empty ↦
      let none_free : d.free_len ≡ 0 = ground (arith, empty) in
      rw (empty, Blk.submit) (refl, (r.dev, d, there, none_free))
  | inr more ↦ rw (more, Blk.submit) refl
]

ring_post-Drained :
    (io : Io) (r : Request) (on user_data : ℕ)
    → ready io r.dev ≡ true
    → Drained io (ring_post io r on user_data)
unfolding ring_post
ring_post-Drained io r on user_data up = elim (Option-cases (device io r.dev)) [
  | inl absent ↦
      let down : ready io r.dev ≡ false = ap (λ d. not (is_none d)) absent in
      absurd (ground (arith, up, down))
  | inr (d, there) ↦ rw (there, ring_post) (submit-Drained io r d (to_ring on user_data) there)
]

post_entry-Drained : (k : Kernel) (io : Io) (id : ℕ) (e : Entry) → Drained io (post_entry k io id e)
post_entry-Drained k io id e =
    post_entry-elim k io id (Drained io)
      (λ user_data status. cq_post-count io.rings id user_data status false) (λ subs. refl)
      (λ r user_data a there. ring_post-Drained io r id user_data there) e

abbrev pub tail_of : Io → ℕ → ℕ
tail_of io id = io.rings.mem (va io.rings (ring_at io.rings id).sq_phys + hdr_tail)

-- The loop consumed `count` entries, and there was nothing more, or the next one waits for a device.
record Ended (k : Kernel) (id base mask tail : ℕ) (io : Io) (head done : ℕ) (out : Io × ℕ × ℕ)
    : Type 0 where
  count : ℕ
  taken : out.2 ≡ done + count
  moved : out.1 ≡ (head + count) % 2 ^ 32
  most : count ≤ distance tail head
  stops : (out.1 ≡ tail) ⊎ Busy out.0
  rings_kept : ring_count out.0 ≡ ring_count io

is_full-cases :
    (io : Io) (r : Io × Outcome)
    → Drained io r
    → ((is_full r.1 ≡ true) × (r.0 ≡ io) × Busy io)
      ⊎ ((is_full r.1 ≡ false) × (ring_count r.0 ≡ ring_count io))
is_full-cases io (io', Outcome.consumed) d = inr (refl, d)
is_full-cases io (io', Outcome.full) (same, busy) = inl (refl, same, busy)

submit_loop-Ended :
    (k : Kernel) (id base mask tail : ℕ) (io : Io) (head done n : ℕ)
    → head < 2 ^ 32
    → tail < 2 ^ 32
    → distance tail head ≤ n
    → Ended k id base mask tail io head done (submit_loop k id base mask tail io head done n)
unfolding submit_loop
submit_loop-Ended k id base mask tail io head done zero h t enough = record {
  count = 0;
  taken = omega arith;
  moved = omega arith;
  most = omega arith;
  stops = inl (omega arith);
  rings_kept = refl;
}
submit_loop-Ended k id base mask tail io head done (suc n) h t enough =
    let r = post_entry k io id (entry_of io base mask head) in
    elim (Bool-cases (head == tail)) [
      | inl over ↦
          let at : head ≡ tail = ground (arith, over) in
          rw over (record {
            count = 0;
            taken = omega arith;
            moved = omega arith;
            most = omega arith;
            stops = inl at;
            rings_kept = refl;
          })
      | inr more ↦
          let apart : head ≢ tail = ground (arith, more) in
          elim (is_full-cases io r (post_entry-Drained k io id (entry_of io base mask head))) [
            | inl (busy, stays, why) ↦
                rw (more, busy)
                  (record {
                    count = 0;
                    taken = omega arith;
                    moved = omega arith;
                    most = omega arith;
                    stops = inr (subst Busy (sym stays) why);
                    rings_kept = ap ring_count stays;
                  })
            | inr (free, kept) ↦
                let rest =
                  submit_loop-Ended k id base mask tail r.0 (next head) (done + 1) n (omega arith) t
                    (omega (arith, apart)) in
                rw (more, free)
                  (record {
                    count = rest.count + 1;
                    taken = rest.taken ∙ omega arith;
                    moved = rest.moved ∙ omega arith;
                    most = let m = rest.most in omega (arith, apart);
                    stops = rest.stops;
                    rings_kept = rest.rings_kept ∙ kept;
                  })
          ]
    ]

-- What a doorbell on ring `id` leaves: the index of the queue is where the consumed entries end, for
-- the kernel and in the frame.
pub record IsDrained (io : Io) (id : ℕ) (after : Io × ℕ) : Type 0 where
  pub moved :
      (ring_at after.0.rings id).sq_head ≡ ((ring_at io.rings id).sq_head + after.1) % 2 ^ 32
  pub mirrored :
      after.0.rings.mem (va io.rings (ring_at io.rings id).sq_phys + hdr_head)
      ≡ (ring_at after.0.rings id).sq_head
  pub most : after.1 ≤ distance (tail_of io id) (ring_at io.rings id).sq_head
  pub stops : ((ring_at after.0.rings id).sq_head ≡ tail_of io id) ⊎ Busy after.0

published-IsDrained :
    (k : Kernel) (io : Io) (id : ℕ) (out : Io × ℕ × ℕ)
    → id < length io.rings.rings
    → Ended k id
        (va io.rings (ring_at io.rings id).sq_phys)
        (ring_at io.rings id).mask
        (tail_of io id)
        io
        (ring_at io.rings id).sq_head
        0
        out
    → IsDrained io id (published id (va io.rings (ring_at io.rings id).sq_phys) out)
published-IsDrained k io id (io', head, done) lt e =
    let there : id < length io'.rings.rings = rw e.rings_kept lt in
    let kept =
      ap (λ (r : Ring). r.sq_head)
        (get_or-set_self io'.rings.rings id (record (ring_at io'.rings id) { sq_head = head }) empty
          there) in
    let count : done ≡ e.count = e.taken ∙ omega arith in
    let most = e.most in
    record {
      moved = kept ∙ e.moved ∙ ap (λ n. ((ring_at io.rings id).sq_head + n) % 2 ^ 32) (sym count);
      mirrored = ground (arith, kept);
      most = omega (arith, count, most);
      stops = elim e.stops [ inl at ↦ inl (kept ∙ at) | inr busy ↦ inr busy ];
    }

-- The doorbell never gets stuck on what it finds in the queue. It consumes as many entries as it
-- says and no more than there are, publishes where it stopped, and it has then reached the tail of
-- the queue unless every slot of some device is in flight. The index that the kernel keeps and the
-- tail in the frame are words of 32 bits.
pub ring_submit-IsDrained :
    (k : Kernel) (io : Io) (ring_slot id : ℕ)
    → ring_id_for k io.rings ring_slot ≡ some id
    → id < length io.rings.rings
    → (ring_at io.rings id).sq_head < 2 ^ 32
    → tail_of io id < 2 ^ 32
    → IsDrained io id (ring_submit k io ring_slot)
unfolding ring_submit
ring_submit-IsDrained k io ring_slot id known lt head tail =
    rw (known, ring_submit)
      (published-IsDrained k io id _ lt (
        submit_loop-Ended k id (va io.rings (ring_at io.rings id).sq_phys)
          (ring_at io.rings id).mask (tail_of io id) io (ring_at io.rings id).sq_head 0 _ head tail
          (omega arith)))
