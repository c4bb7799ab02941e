-- ===== src/Frames/Return.antt =====
-- A frame that is given back is free again, and a frame that is free is not given back.
use plinth_os.Base.{
  ℕ, zero, suc, ◌+◌, ◌-◌, ◌*◌, ◌/◌, ◌%◌, ◌^◌, ◌<◌, ◌≤◌, ◌≡◌, ◌≢◌, refl, sym, ap, ◌∙◌, true, false,
  List, [], ◌∷◌, length, get_or, set, get_or-set, arith, ◌==◌, ltb, not, ◌&&◌, if◌then◌else◌, ◌⊎◌,
  inl, inr, Bool-cases, bit_and,
}
use plinth_os.Base.Words.{digit, digit-clear_same, digit-clear_other, ones_but, ones_but-lem, ones}
use plinth_os.Frames.{
  FrameAlloc, ok, err, out_of_range, not_allocated, dealloc, without_bit, full_word, frame_size,
  word_of, put_word,
}
use plinth_os.Frames.Lowest.{has_bit-cases}
use plinth_os.Frames.Scan.{used, AreWords, IsFrames}

pub word-le : (ws : List ℕ) (q : ℕ) → AreWords ws → get_or ws q 0 ≤ full_word
word-le [] q v = omega arith
word-le (w ∷ ws) zero v = v.0
word-le (w ∷ ws) (suc q) v = word-le ws q v.1

without_bit-ones_but : (w k : ℕ) → k < 64 → without_bit w k ≡ bit_and w (ones_but 64 k)
unfolding ones
without_bit-ones_but w k lt =
    let split = ones_but-lem 64 k lt in
    let same : 2 ^ 64 - 1 - 2 ^ k ≡ ones_but 64 k = omega (arith, split) in ap (bit_and w) same

-- The bitmap of `fa`, with bit `idx` cleared.
pub cleared :
    (ws : List ℕ) (idx j : ℕ)
    → AreWords ws
    → idx < 64 * length ws
    → used (set ws (idx / 64) (without_bit (get_or ws (idx / 64) 0) (idx % 64))) j
      ≡ (if idx == j then 0 else used ws j)
unfolding ones
cleared ws idx j v lt =
    let w = get_or ws (idx / 64) 0 in
    let le = word-le ws (idx / 64) v in
    let small : idx % 64 < 64 = omega arith in
    let there : idx / 64 < length ws = omega (arith, lt) in
    let word = get_or-set ws (idx / 64) (j / 64) (without_bit w (idx % 64)) 0 in
    let mask = without_bit-ones_but w (idx % 64) small in
    elim (Bool-cases (idx / 64 == j / 64)) [
      | inr away ↦
          let ne : idx == j ≡ false = ground (arith, away) in
          let kept : get_or (set ws (idx / 64) (without_bit w (idx % 64))) (j / 64) 0
              ≡ get_or ws (j / 64) 0 =
            word ∙ (rw away refl) in
          rw ne (ap (λ x. digit x (j % 64)) kept)
      | inl here ↦
          let same_word : idx / 64 ≡ j / 64 = ground (arith, here) in
          let hit : (idx / 64 == j / 64) && ltb (idx / 64) (length ws) ≡ true =
            ground (arith, here, there) in
          let changed : get_or (set ws (idx / 64) (without_bit w (idx % 64))) (j / 64) 0
              ≡ bit_and w (ones_but 64 (idx % 64)) =
            word ∙ (rw hit refl) ∙ mask in
          elim (Bool-cases (idx == j)) [
            | inl it ↦
                let e : idx % 64 ≡ j % 64 = ground (arith, it) in
                rw it (
                  ap (λ x. digit x (j % 64)) changed
                  ∙ ap (digit (bit_and w (ones_but 64 (idx % 64)))) (sym e)
                  ∙ digit-clear_same 64 w (idx % 64) le small)
            | inr other ↦
                let differs : idx % 64 ≢ j % 64 =
                  λ e. absurd (ground (arith, other, same_word, e)) in
                rw other (
                  ap (λ x. digit x (j % 64)) changed
                  ∙ digit-clear_other 64 w (idx % 64) (j % 64) le small differs
                  ∙ ap (λ q. digit (get_or ws q 0) (j % 64)) same_word)
          ]
    ]

-- What `dealloc` of the frame `idx` leaves.
abbrev pub given_back : FrameAlloc → ℕ → FrameAlloc
given_back fa idx = record (put_word fa idx (without_bit (word_of fa idx) (idx % 64))) {
  free = (fa.free + 1) % 2 ^ 64;
}

-- `dealloc` accepts exactly the addresses of frames that are taken. It frees that frame and no other,
-- and counts it; a second release of the same frame, an address inside a frame and one past the
-- memory are refused, and change nothing.
pub dealloc-cases :
    (fa : FrameAlloc) (addr : ℕ)
    → IsFrames fa
    → ((idx : ℕ) × (addr ≡ idx * frame_size)
        × (idx < fa.frames)
        × (used fa.bitmap idx ≡ 1)
        × (dealloc fa addr ≡ (given_back fa idx, ok tt))
        × ((j : ℕ) → used (given_back fa idx).bitmap j ≡ (if idx == j then 0 else used fa.bitmap j))
        × (dealloc (given_back fa idx) addr ≡ (given_back fa idx, err not_allocated)))
      ⊎ (((dealloc fa addr ≡ (fa, err out_of_range))
            × ((addr % frame_size ≢ 0) ⊎ (fa.frames ≤ addr / frame_size)))
          ⊎ ((dealloc fa addr ≡ (fa, err not_allocated))
              × (used fa.bitmap (addr / frame_size) ≡ 0)))
unfolding dealloc
dealloc-cases fa addr v =
    let idx = addr / frame_size in
    let covers = v.covers in
    elim (Bool-cases (not (addr % frame_size == 0))) [
      | inl inside_frame ↦ inr (inl (rw inside_frame refl, inl (ground (arith, inside_frame))))
      | inr exact ↦ elim (Bool-cases (not (ltb idx fa.frames))) [
        | inl past ↦ inr (inl (rw (exact, past) refl, inr (ground (arith, past))))
        | inr known ↦ elim (has_bit-cases (word_of fa idx) (idx % 64)) [
          | inr (off, clear) ↦ inr (inr (rw (exact, known, off) refl, clear))
          | inl (on, set_bit) ↦
              let lt : idx < fa.frames = ground (arith, known) in
              let back : (j : ℕ)
                  → used (given_back fa idx).bitmap j ≡ (if idx == j then 0 else used fa.bitmap j) =
                λ j. cleared fa.bitmap idx j v.words (omega (arith, covers, lt)) in
              let gone : used (given_back fa idx).bitmap idx ≡ 0 =
                back idx ∙ (let it : idx == idx ≡ true = ground arith in rw it refl) in
              inl (
                idx,
                (let whole : addr % frame_size ≡ 0 = ground (arith, exact) in omega (arith, whole)),
                lt,
                set_bit,
                rw (exact, known, on) refl,
                back,
                elim (has_bit-cases (word_of (given_back fa idx) idx) (idx % 64)) [
                  | inl (on', still) ↦ absurd (omega (arith, gone, still))
                  | inr (off', clear') ↦ rw (exact, known, off') refl
                ],
              )
        ]
      ]
    ]
