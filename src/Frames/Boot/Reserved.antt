-- ===== src/Frames/Boot/Reserved.antt =====
-- What the allocator that `new` builds may hand out.
use mathlib.Core.Path.{subst}
use plinth_os.Base.{
  ℕ, zero, suc, ◌+◌, ◌-◌, ◌*◌, ◌/◌, ◌%◌, ◌<◌, ◌≤◌, ◌≡◌, ◌≢◌, refl, sym, ap, ◌∙◌, Option, none, some,
  List, [], ◌∷◌, get_or, replicate, length-replicate, arith, ltb, ◌⊎◌, inl, inr, Bool-cases,
}
use plinth_os.Base.Words.{digit, digit-ones, ones}
use plinth_os.Frames.{FrameAlloc, mark_free, mark_used, full_word, frame_size}
use plinth_os.Frames.Scan.{used, IsFrames}
use plinth_os.Frames.Boot.{
  Region, new, usable, hosted, opened, reserved, mark_each, and_then, unavailable, largest, max_end,
  bitmap_frames, bitmap_words, div_ceil, trampoline_phys,
}
use plinth_os.Frames.Boot.Marks.{
  AreWords-replicate, Spare, Holds, Holds-then, mark_free-Spare, mark_used-Spare,
}

mark_each_free-Spare :
    (P : ℕ → Type 0) (fa : FrameAlloc) (first n : ℕ)
    → Spare P fa
    → ((j : ℕ) → first ≤ j → j < first + n → P j)
    → Holds (Spare P) (mark_each mark_free fa first n)
unfolding mark_each
mark_each_free-Spare P fa first zero v p = v
mark_each_free-Spare P fa first (suc n) v p =
    Holds-then (Spare P) (Spare P) (mark_free fa first)
      (λ fa'. mark_each mark_free fa' (first + 1) n)
      (mark_free-Spare P fa first v (p first (omega arith) (omega arith)))
      (λ fa' v'.
        mark_each_free-Spare P fa' (first + 1) n v'
          (λ j le lt. p j (omega (arith, le)) (omega (arith, lt))))

-- `j` is none of the `n` numbers from `first` on.
abbrev pub Outside : ℕ → ℕ → ℕ → Type 0
Outside first n j = (j < first) ⊎ (first + n ≤ j)

Spare-weaken :
    (P Q : ℕ → Type 0) (o : Option FrameAlloc)
    → ((j : ℕ) → P j → Q j)
    → Holds (Spare P) o
    → Holds (Spare Q) o
Spare-weaken P Q none f v = tt
Spare-weaken P Q (some fa) f v = record {
  frames = v.frames;
  free = λ j lt clear. f j (v.free j lt clear);
}

Outside-suc :
    (P : ℕ → Type 0) (first n j : ℕ)
    → (P j × (j ≢ first)) × Outside (first + 1) n j
    → P j × Outside first (suc n) j
Outside-suc P first n j ((p, ne), inl before) = (p, inl (omega (arith, ne, before)))
Outside-suc P first n j ((p, ne), inr after) = (p, inr (omega (arith, after)))

mark_each_used-Spare :
    (P : ℕ → Type 0) (fa : FrameAlloc) (first n : ℕ)
    → Spare P fa
    → Holds (Spare (λ j. P j × Outside first n j)) (mark_each mark_used fa first n)
unfolding mark_each
mark_each_used-Spare P fa first zero v = record {
  frames = v.frames;
  free = λ j lt clear. (
    v.free j lt clear,
    elim (Bool-cases (ltb j first)) [
      | inl before ↦ inl (ground (arith, before))
      | inr after ↦ inr (ground (arith, after))
    ],
  );
}
mark_each_used-Spare P fa first (suc n) v =
    let P1 : ℕ → Type 0 = λ j. P j × (j ≢ first) in
    Spare-weaken (λ j. P1 j × Outside (first + 1) n j) (λ j. P j × Outside first (suc n) j)
      (mark_each mark_used fa first (suc n)) (Outside-suc P first n)
      (Holds-then (Spare P1) (Spare (λ j. P1 j × Outside (first + 1) n j)) (mark_used fa first)
        (λ fa'. mark_each mark_used fa' (first + 1) n) (mark_used-Spare P fa first v)
        (λ fa' v'. mark_each_used-Spare P1 fa' (first + 1) n v'))

-- Frame `j` lies in region `r`, whole.
abbrev pub Within : Region → ℕ → Type 0
Within r j = (r.start ≤ j * frame_size) × (j * frame_size + frame_size ≤ r.end)

-- Frame `j` lies in one of the regions.
abbrev pub Inside : List Region → ℕ → Type 0
Inside [] j = ⊥
Inside (r ∷ rs) j = Within r j ⊎ Inside rs j

opened-Spare :
    (P : ℕ → Type 0) (fa : FrameAlloc) (us : List Region)
    → Spare P fa
    → ((j : ℕ) → Inside us j → P j)
    → Holds (Spare P) (opened fa us)
unfolding opened
opened-Spare P fa [] v p = v
opened-Spare P fa (r ∷ rs) v p =
    let first = div_ceil r.start frame_size in
    Holds-then (Spare P) (Spare P) (mark_each mark_free fa first (r.end / frame_size - first))
      (λ fa'. opened fa' rs)
      (mark_each_free-Spare P fa first (r.end / frame_size - first) v
        (λ j le lt. p j (inl (omega (arith, le), omega (arith, le, lt)))))
      (λ fa' v'. opened-Spare P fa' rs v' (λ j i. p j (inr i)))

in_range : (n i : ℕ) → i < n → get_or (replicate n full_word) i 0 ≡ full_word
in_range zero i lt = absurd (omega (arith, lt))
in_range (suc n) zero lt = refl
in_range (suc n) (suc i) lt = in_range n i (omega (arith, lt))

unavailable-Spare : (P : ℕ → Type 0) (end : ℕ) → Spare P (unavailable end)
unfolding ones
unavailable-Spare P end =
    let n = bitmap_words end in
    let len = length-replicate n full_word in
    record {
      frames = record { words = AreWords-replicate n; covers = omega (arith, len) };
      free = λ j lt clear.
          let set_bit : used (replicate n full_word) j ≡ 1 =
            ap (λ w. digit w (j % 64)) (in_range n (j / 64) (omega (arith, lt, len)))
            ∙ digit-ones 64 (j % 64) (omega arith) in
          absurd (omega (arith, set_bit, clear));
    }

-- Frame `j` may be handed out: it lies whole in usable memory, and is neither of the bitmap, which
-- starts in frame `first`, nor frame 0, nor the page that the other processors start from.
pub record MayGive (us : List Region) (first n j : ℕ) : Type 0 where
  pub inside : Inside us j
  pub no_bitmap : Outside first n j
  pub no_null : j ≢ 0
  pub no_trampoline : j ≢ trampoline_phys / frame_size

reserved-Spare :
    (us : List Region) (fa : FrameAlloc) (first n : ℕ)
    → Spare (Inside us) fa
    → Holds (Spare (MayGive us first n)) (reserved fa first n)
reserved-Spare us fa first n v =
    let P1 : ℕ → Type 0 = λ j. Inside us j × Outside first n j in
    let P2 : ℕ → Type 0 = λ j. P1 j × (j ≢ 0) in
    let P3 : ℕ → Type 0 = λ j. P2 j × (j ≢ trampoline_phys / frame_size) in
    Spare-weaken P3 (MayGive us first n) (reserved fa first n)
      (λ j p. record {
        inside = p.0.0.0;
        no_bitmap = p.0.0.1;
        no_null = p.0.1;
        no_trampoline = p.1;
      })
      (Holds-then (Spare P1) (Spare P3) (mark_each mark_used fa first n)
        (λ fa1. and_then (mark_used fa1 0) (λ fa2. mark_used fa2 (trampoline_phys / frame_size)))
        (mark_each_used-Spare (Inside us) fa first n v)
        (λ fa1 v1.
          Holds-then (Spare P2) (Spare P3) (mark_used fa1 0)
            (λ fa2. mark_used fa2 (trampoline_phys / frame_size)) (mark_used-Spare P1 fa1 0 v1)
            (λ fa2 v2. mark_used-Spare P2 fa2 (trampoline_phys / frame_size) v2)))

hosted-Spare :
    (us : List Region) (end : ℕ) (host : Region)
    → Holds
        (Spare (MayGive us (div_ceil host.start frame_size) (bitmap_frames end)))
        (hosted us end host)
hosted-Spare us end host =
    let first = div_ceil host.start frame_size in
    let n = bitmap_frames end in
    elim (Bool-cases (ltb host.end (first * frame_size + n * frame_size))) [
      | inl short ↦ rw short tt
      | inr fits ↦ rw fits (
          Holds-then (Spare (Inside us)) (Spare (MayGive us first n)) (opened (unavailable end) us)
            (λ fa. reserved fa first n)
            (opened-Spare (Inside us) (unavailable end) us (unavailable-Spare (Inside us) end)
              (λ j i. i))
            (λ fa v. reserved-Spare us fa first n v))
    ]

-- In the allocator that `new` builds from the memory map, every frame that is free lies whole in usable
-- memory, and is none of those that keep the bitmap, nor frame 0, nor the page that the other
-- processors start from; and the bitmap has a bit for each frame.
pub new-MayGive :
    (regions : List Region) (fa : FrameAlloc) (end : ℕ) (host : Region)
    → max_end (usable regions) ≡ some end
    → largest (usable regions) ≡ some host
    → new regions ≡ some fa
    → IsFrames fa
      × ((idx : ℕ)
          → idx < fa.frames
          → used fa.bitmap idx ≡ 0
          → MayGive (usable regions) (div_ceil host.start frame_size) (bitmap_frames end) idx)
unfolding new
new-MayGive regions fa end host e h made =
    let us = usable regions in
    let first = div_ceil host.start frame_size in
    let found : new regions ≡ hosted us end host = rw (e, h) refl in
    let v : Spare (MayGive us first (bitmap_frames end)) fa =
      subst (Holds (Spare (MayGive us first (bitmap_frames end)))) (sym found ∙ made)
        (hosted-Spare us end host) in
    let valid = v.frames in
    let covers = valid.covers in
    (valid, λ idx lt clear. v.free idx (omega (arith, lt, covers)) clear)
