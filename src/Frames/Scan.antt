-- ===== src/Frames/Scan.antt =====
-- A frame is handed out while it is free, and the lowest one first.
use mathlib.Core.Path.{subst}
use plinth_os.Base.{
  ℕ, suc, ◌+◌, ◌-◌, ◌*◌, ◌/◌, ◌%◌, ◌^◌, ◌<◌, ◌≤◌, ◌≡◌, ◌≢◌, refl, sym, ap, ap₂, ◌∙◌, none, some,
  List, [], ◌∷◌, length, get_or, arith, ◌==◌, ltb, not, ◌⊎◌, inl, inr, Bool-cases,
}
use plinth_os.Base.Words.{digit, digit-or_same, digit-or_other, digit-ones, bit_or-ones, ones}
use plinth_os.Frames.{
  FrameAlloc, ok, err, exhausted, alloc_words, alloc, taken, lowest_clear, with_bit, full_word,
  frame_size,
}
use plinth_os.Frames.Lowest.{lowest_clear-found, BelowSet}

-- 1 if frame `j` is taken.
abbrev pub used : List ℕ → ℕ → ℕ
used ws j = digit (get_or ws (j / 64) 0) (j % 64)

abbrev pub AreWords : List ℕ → Type 0
AreWords [] = Unit {0}
AreWords (w ∷ ws) = (w ≤ full_word) × AreWords ws

used-first : (w : ℕ) (ws : List ℕ) (j : ℕ) → j < 64 → used (w ∷ ws) j ≡ digit w j
used-first w ws j lt =
    let at : j / 64 ≡ 0 = omega arith in
    let bit : j % 64 ≡ j = omega arith in ap₂ (λ q r. digit (get_or (w ∷ ws) q 0) r) at bit

used-rest : (w : ℕ) (ws : List ℕ) (j : ℕ) → used (w ∷ ws) (j + 64) ≡ used ws j
used-rest w ws j =
    let at : (j + 64) / 64 ≡ suc (j / 64) = omega arith in
    let bit : (j + 64) % 64 ≡ j % 64 = omega arith in
    ap₂ (λ q r. digit (get_or (w ∷ ws) q 0) r) at bit

-- An index is of the first word, or comes from the rest.
place-cases : (j : ℕ) → (j < 64) ⊎ ((i : ℕ) × (j ≡ i + 64))
place-cases j = elim (Bool-cases (ltb j 64)) [
  | inl first ↦ inl (ground (arith, first))
  | inr rest ↦ let le : 64 ≤ j = ground (arith, rest) in inr (j - 64, omega (arith, le))
]

-- Index `r` was free and is the lowest such; it is taken now, and nothing else changed.
pub record Handed (ws ws' : List ℕ) (r : ℕ) : Type 0 where
  pub was_free : used ws r ≡ 0
  pub now_used : used ws' r ≡ 1
  pub others : (j : ℕ) → j ≢ r → used ws' j ≡ used ws j
  pub lowest : (j : ℕ) → j < r → used ws j ≡ 1
  pub words : AreWords ws'
  pub same_length : length ws' ≡ length ws

abbrev AllTaken : List ℕ → ℕ → ℕ → Type 0
AllTaken ws wi frames = (j : ℕ) → j < 64 * length ws → wi * 64 + j < frames → used ws j ≡ 1

Handed-rest :
    (w : ℕ) (ws ws' : List ℕ) (r : ℕ)
    → w ≤ full_word
    → BelowSet w 64
    → Handed ws ws' r
    → Handed (w ∷ ws) (w ∷ ws') (r + 64)
Handed-rest w ws ws' r le set h = record {
  was_free = used-rest w ws r ∙ h.was_free;
  now_used = used-rest w ws' r ∙ h.now_used;
  others = λ j ne. elim (place-cases j) [
    | inl first ↦ used-first w ws' j first ∙ sym (used-first w ws j first)
    | inr (i, at) ↦
        subst (λ x. used (w ∷ ws') x ≡ used (w ∷ ws) x) (sym at)
          (used-rest w ws' i ∙ h.others i (λ e. ne (omega (arith, at, e))) ∙ sym (used-rest w ws i))
  ];
  lowest = λ j lt. elim (place-cases j) [
    | inl first ↦ used-first w ws j first ∙ set j first
    | inr (i, at) ↦
        subst (λ x. used (w ∷ ws) x ≡ 1) (sym at)
          (used-rest w ws i ∙ h.lowest i (omega (arith, at, lt)))
  ];
  words = (le, h.words);
  same_length = let same = h.same_length in omega (arith, same);
}

Handed-first :
    (w : ℕ) (ws : List ℕ) (k : ℕ)
    → w ≤ full_word
    → AreWords ws
    → digit w k ≡ 0
    → k < 64
    → BelowSet w k
    → Handed (w ∷ ws) (with_bit w k ∷ ws) k
unfolding ones
Handed-first w ws k le words clear lt below = record {
  was_free = used-first w ws k lt ∙ clear;
  now_used = used-first (with_bit w k) ws k lt ∙ digit-or_same w k;
  others = λ j ne. elim (place-cases j) [
    | inl first ↦
        used-first (with_bit w k) ws j first
        ∙ digit-or_other w k j (λ e. ne (sym e))
        ∙ sym (used-first w ws j first)
    | inr (i, at) ↦
        subst (λ x. used (with_bit w k ∷ ws) x ≡ used (w ∷ ws) x) (sym at)
          (used-rest (with_bit w k) ws i ∙ sym (used-rest w ws i))
  ];
  lowest = λ j less. used-first w ws j (omega (arith, less, lt)) ∙ below j less;
  words = (bit_or-ones 64 w k le lt, words);
  same_length = refl;
}

full-BelowSet : (w : ℕ) → w ≡ full_word → BelowSet w 64
unfolding ones
full-BelowSet w e j lt = ap (λ x. digit x j) e ∙ digit-ones 64 j lt

abbrev Allotted : List ℕ → ℕ → ℕ → Type 0
Allotted ws wi frames =
    (r : ℕ) × (ws' : List ℕ) × (alloc_words ws wi frames ≡ (ws', some (wi * 64 + r)))
    × (wi * 64 + r < frames)
    × Handed ws ws' r

alloc_words-cases :
    (ws : List ℕ) (wi frames : ℕ)
    → AreWords ws
    → Allotted ws wi frames ⊎ ((alloc_words ws wi frames ≡ (ws, none)) × AllTaken ws wi frames)
unfolding alloc_words
alloc_words-cases [] wi frames words = inr (refl, λ j lt below. absurd (omega (arith, lt)))
alloc_words-cases (w ∷ ws) wi frames (le, words) = elim (Bool-cases (w == full_word)) [
  | inl all ↦
      let whole : w ≡ full_word = ground (arith, all) in
      let set = full-BelowSet w whole in
      elim (alloc_words-cases ws (wi + 1) frames words) [
        | inl (r, ws', found, lt, h) ↦ inl (
          r + 64,
          w ∷ ws',
          rw (all, found) (ap (λ n. (w ∷ ws', some n)) (omega arith)),
          omega (arith, lt),
          Handed-rest w ws ws' r le set h,
        )
        | inr (nothing, full) ↦ inr (
          rw (all, nothing) refl,
          λ j lt below. elim (place-cases j) [
            | inl first ↦ used-first w ws j first ∙ set j first
            | inr (i, at) ↦
                subst (λ x. used (w ∷ ws) x ≡ 1) (sym at)
                  (used-rest w ws i ∙ full i (omega (arith, lt, at)) (omega (arith, below, at)))
          ],
        )
      ]
  | inr some_clear ↦
      let ne : w ≢ full_word = ground (arith, some_clear) in
      let (clear, lt, below) = lowest_clear-found w le ne in
      let k = lowest_clear w 0 64 in
      elim (Bool-cases (not (ltb (wi * 64 + k) frames))) [
        | inr inside ↦ inl (
          k,
          with_bit w k ∷ ws,
          rw (some_clear, inside) refl,
          ground (arith, inside),
          Handed-first w ws k le words clear lt below,
        )
        | inl past ↦
            let over : frames ≤ wi * 64 + k = ground (arith, past) in
            inr (
              rw (some_clear, past) refl,
              λ j in_list in_range.
                  let less : j < k = omega (arith, over, in_range) in
                  used-first w ws j (omega (arith, less, lt)) ∙ below j less,
            )
      ]
]

-- The bitmap has a bit for each frame.
pub record IsFrames (fa : FrameAlloc) : Type 0 where
  pub words : AreWords fa.bitmap
  pub covers : fa.frames ≤ 64 * length fa.bitmap

-- `alloc` hands out the lowest frame that is free, by its address, and takes that frame and no other;
-- a frame is never handed out while it is taken. It refuses only when every frame is taken, and then
-- changes nothing.
pub alloc-Handed :
    (fa : FrameAlloc)
    → IsFrames fa
    → ((idx : ℕ) × (fa' : FrameAlloc) × (alloc fa ≡ (fa', ok (idx * frame_size)))
        × (idx < fa.frames)
        × Handed fa.bitmap fa'.bitmap idx
        × IsFrames fa')
      ⊎ ((alloc fa ≡ (fa, err exhausted)) × ((j : ℕ) → j < fa.frames → used fa.bitmap j ≡ 1))
unfolding alloc
alloc-Handed fa v =
    let covers = v.covers in
    elim (alloc_words-cases fa.bitmap 0 fa.frames v.words) [
      | inl (r, ws', found, lt, h) ↦
          let same = h.same_length in
          inl (
            r,
            record fa { bitmap = ws'; free = (fa.free + 2 ^ 64 - 1) % 2 ^ 64 },
            ap (taken fa) found
                ∙ ap
                    (λ n. (
                      record fa { bitmap = ws'; free = (fa.free + 2 ^ 64 - 1) % 2 ^ 64 },
                      ok (n * frame_size),
                    ))
                    (omega arith),
            omega (arith, lt),
            h,
            record { words = h.words; covers = omega (arith, covers, same) },
          )
      | inr (nothing, full) ↦
          inr
            (ap (taken fa) nothing, λ j lt. full j (omega (arith, covers, lt)) (omega (arith, lt)))
    ]
