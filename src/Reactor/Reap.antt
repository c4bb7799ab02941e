-- ===== src/Reactor/Reap.antt =====
-- The process reads exactly what the kernel has posted, in order, and counts what it cannot keep.
use mathlib.Core.Path.{subst}
use plinth_os.Base.{
  ℕ, zero, suc, ◌+◌, ◌-◌, ◌*◌, ◌%◌, ◌^◌, ◌<◌, ◌≡◌, refl, sym, ap, ap₂, ◌∙◌, false, ◌∷◌, arith, ◌==◌,
  bit_and,
}
use plinth_os.Base.Bits.{IsSize, bit_and-mask}
use plinth_os.Rings.{Rings, Mem, ring_at, w32, hdr_head, hdr_tail, hdr_mask, next, distance}
use plinth_os.Rings.Frames.{entry_at, entries_from}
use plinth_os.Rings.Completions.{IsRing, unread, frame_of, head_of, waiting_count}
use plinth_os.Reactor.{Reactor, stage, reap_loop, reap}
use plinth_os.Reactor.Staged.{Staged, stage_all, stage_all-Staged}

entry_at-head :
    (mem : Mem) (base slot v : ℕ)
    → entry_at (w32 mem (base + hdr_head) v) base slot ≡ entry_at mem base slot
entry_at-head mem base slot v =
    let e = base + 16 + slot * 16 in
    let low : w32 mem (base + 0) v e ≡ mem e = ground arith in
    let high : w32 mem (base + 0) v (e + 4) ≡ mem (e + 4) = ground arith in
    let status : w32 mem (base + 0) v (e + 8) ≡ mem (e + 8) = ground arith in
    ap₂ (λ (x y : ℕ). (x, y)) (omega arith) status

entries_from-head :
    (mem : Mem) (base size v h n : ℕ)
    → entries_from (w32 mem (base + hdr_head) v) base size h n ≡ entries_from mem base size h n
unfolding entries_from
entries_from-head mem base size v h zero = refl
entries_from-head mem base size v h (suc n) =
    ap₂ (λ (x : ℕ × ℕ) xs. x ∷ xs) (entry_at-head mem base (h % size) v)
      (entries_from-head mem base size v (next h) n)

mask-place : {size : ℕ} (mask i : ℕ) → IsSize size → mask + 1 ≡ size → bit_and i mask ≡ i % size
mask-place mask i z e =
    let less : mask ≡ (mask + 1) - 1 = omega arith in
    ap (bit_and i) less ∙ bit_and-mask i (subst IsSize (sym e) z) ∙ ap (λ (k : ℕ). i % k) e

reap_step :
    (mem : Mem) (base mask : ℕ) (r : Reactor) (n : ℕ)
    → mem (base + hdr_head) == mem (base + hdr_tail) ≡ false
    → reap_loop mem base mask r (suc n)
      ≡ reap_loop
          (w32 mem (base + hdr_head) (next (mem (base + hdr_head))))
          base
          mask
          (stage r (entry_at mem base (bit_and (mem (base + hdr_head)) mask)))
          n
unfolding reap_loop
reap_step mem base mask r n more = rw more refl

-- The loop over `n` completions, when the head stands at `h`.
reap_loop-entries :
    {size : ℕ} (mem : Mem) (base mask : ℕ) (r : Reactor) (h n : ℕ)
    → IsSize size
    → mask + 1 ≡ size
    → n < 2 ^ 32
    → h < 2 ^ 32
    → mem (base + hdr_head) ≡ h
    → mem (base + hdr_tail) ≡ (h + n) % 2 ^ 32
    → ((reap_loop mem base mask r n).1 ≡ stage_all r (entries_from mem base size h n))
      × ((reap_loop mem base mask r n).0 (base + hdr_head) ≡ (h + n) % 2 ^ 32)
unfolding reap_loop entries_from stage_all
reap_loop-entries mem base mask r h zero z e small range at end = (refl, at ∙ omega arith)
reap_loop-entries {size} mem base mask r h (suc n) z e small range at end =
    let mem' = w32 mem (base + hdr_head) (next h) in
    let slot : bit_and h mask ≡ h % size = mask-place mask h z e in
    let more : mem (base + hdr_head) == mem (base + hdr_tail) ≡ false = ground (arith, at, end) in
    let at' : mem' (base + hdr_head) ≡ next h = ground arith in
    let same : mem' (base + hdr_tail) ≡ mem (base + hdr_tail) = ground arith in
    let end' : mem' (base + hdr_tail) ≡ (next h + n) % 2 ^ 32 = same ∙ end ∙ omega arith in
    let (staged, moved) =
      reap_loop-entries mem' base mask (stage r (entry_at mem base (h % size))) (next h) n z e
        (omega arith) (omega arith) at' end' in
    let step : reap_loop mem base mask r (suc n)
        ≡ reap_loop mem' base mask (stage r (entry_at mem base (h % size))) n =
      reap_step mem base mask r n more
      ∙ ap
          (λ x.
            reap_loop (w32 mem (base + hdr_head) (next x)) base mask
              (stage r (entry_at mem base (bit_and x mask))) n)
          at
      ∙ ap (λ w. reap_loop mem' base mask (stage r (entry_at mem base w)) n) slot in
    (
      ap (λ x. x.1) step
          ∙ staged
          ∙ ap (stage_all (stage r (entry_at mem base (h % size))))
              (entries_from-head mem base size (next h) (next h) n),
      ap (λ x. x.0 (base + hdr_head)) step ∙ moved ∙ omega arith,
    )

-- What the reactor of a process reads is exactly what the kernel has posted and the process had not
-- read, in the order of the posts: the table takes the first of these completions, as many as it has
-- room for, behind those that it held; the others are counted as undelivered, and the completions
-- that report a loss as drops, each count stopping at the top of its 32 bits. The queue is then read
-- up to the kernel's index. The frame's tail and mask are those of the kernel.
pub reap-unread :
    (s : Rings) (id : ℕ) (r : Reactor)
    → IsRing s id
    → s.mem (frame_of s id + hdr_tail) ≡ (ring_at s id).cq_tail
    → s.mem (frame_of s id + hdr_mask) ≡ (ring_at s id).mask
    → r.undelivered < 2 ^ 32
    → r.drops < 2 ^ 32
    → Staged r (reap s.mem (frame_of s id) r).1 (unread s id)
      × ((reap s.mem (frame_of s id) r).0 (frame_of s id + hdr_head) ≡ (ring_at s id).cq_tail)
unfolding reap
reap-unread s id r v tail mask few lost =
    let base = frame_of s id in
    let n = waiting_count s id in
    let head_word = v.head_word in
    let tail_word = v.tail_word in
    let reached : s.mem (base + hdr_tail) ≡ (head_of s id + n) % 2 ^ 32 = tail ∙ omega arith in
    let (staged, moved) =
      reap_loop-entries s.mem base (ring_at s id).mask r (head_of s id) n v.size refl (omega arith)
        head_word refl reached in
    let run : reap_loop s.mem base (s.mem (base + hdr_mask)) r
          (distance (s.mem (base + hdr_tail)) (head_of s id))
        ≡ reap_loop s.mem base (ring_at s id).mask r n =
      ap₂ (λ m t. reap_loop s.mem base m r (distance t (head_of s id))) mask tail in
    (
      subst (λ r'. Staged r r' (unread s id)) (sym (ap (λ x. x.1) run ∙ staged))
          (stage_all-Staged r (unread s id) few lost),
      ap (λ x. x.0 (base + hdr_head)) run ∙ moved ∙ omega arith,
    )
