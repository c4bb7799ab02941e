-- ===== src/Frames/Boot/Marks.antt =====
-- Marking one frame: what is known of the frames that are free.
use mathlib.Core.Path.{subst}
use plinth_os.Base.{
  ℕ, zero, suc, ◌-◌, ◌*◌, ◌/◌, ◌%◌, ◌^◌, ◌<◌, ◌≤◌, ◌≡◌, ◌≢◌, refl, sym, ap, ◌∙◌, true, Option, none,
  some, List, [], ◌∷◌, length, get_or, set, replicate, get_or-set, length-set, arith, ◌==◌, ltb,
  not, ◌&&◌, inl, inr, Bool-cases, bit_and,
}
use plinth_os.Base.Bits.{bit_and-halves}
use plinth_os.Base.Words.{digit, digit-or_same, digit-or_other, bit_or-ones, ones}
use plinth_os.Frames.{
  FrameAlloc, mark_free, mark_used, full_word, has_bit, with_bit, without_bit, word_of,
}
use plinth_os.Frames.Lowest.{has_bit-cases}
use plinth_os.Frames.Scan.{used, AreWords, IsFrames}
use plinth_os.Frames.Return.{word-le, cleared}
use plinth_os.Frames.Boot.{and_then}

-- Every frame that is free has the property `P`.
pub record Spare (P : ℕ → Type 0) (fa : FrameAlloc) : Type 0 where
  pub frames : IsFrames fa
  pub free : (j : ℕ) → j < 64 * length fa.bitmap → used fa.bitmap j ≡ 0 → P j

-- The result, where there is one.
abbrev pub Holds : (FrameAlloc → Type 0) → Option FrameAlloc → Type 0
Holds Q none = Unit {0}
Holds Q (some fa) = Q fa

pub Holds-then :
    (Q R : FrameAlloc → Type 0) (o : Option FrameAlloc) (f : FrameAlloc → Option FrameAlloc)
    → Holds Q o
    → ((fa : FrameAlloc) → Q fa → Holds R (f fa))
    → Holds R (and_then o f)
Holds-then Q R none f q step = tt
Holds-then Q R (some fa) f q step = step fa q

zero_bit_and : (n y : ℕ) → y ≤ n → bit_and 0 y ≡ 0
zero_bit_and zero zero h = refl
zero_bit_and zero (suc y) h = absurd (omega arith)
zero_bit_and (suc n) zero h = refl
zero_bit_and (suc n) (suc y) h =
    let ih = zero_bit_and n (suc y / 2) (omega arith) in
    let halves = bit_and-halves 0 (suc y) in
    let none_left : bit_and (0 / 2) (suc y / 2) ≡ 0 = ih in omega (arith, halves, none_left)

bit_and-le : (n x y : ℕ) → x ≤ n → bit_and x y ≤ x
bit_and-le n zero y h = let nothing = zero_bit_and y y (omega arith) in omega (arith, nothing)
bit_and-le zero (suc x) y h = absurd (omega arith)
bit_and-le (suc n) (suc x) y h =
    let ih = bit_and-le n (suc x / 2) (y / 2) (omega arith) in
    let halves = bit_and-halves (suc x) y in omega (arith, ih, halves)

AreWords-set : (ws : List ℕ) (q w : ℕ) → AreWords ws → w ≤ full_word → AreWords (set ws q w)
AreWords-set [] q w v le = tt
AreWords-set (x ∷ ws) zero w v le = (le, v.1)
AreWords-set (x ∷ ws) (suc q) w v le = (v.0, AreWords-set ws q w v.1 le)

pub AreWords-replicate : (n : ℕ) → AreWords (replicate n full_word)
AreWords-replicate zero = tt
AreWords-replicate (suc n) = (omega arith, AreWords-replicate n)

-- The bitmap `ws` with bit `idx` set.
marked :
    (ws : List ℕ) (idx j : ℕ)
    → idx / 64 < length ws
    → used (set ws (idx / 64) (with_bit (get_or ws (idx / 64) 0) (idx % 64))) j ≡ 0
    → (used ws j ≡ 0) × (j ≢ idx)
marked ws idx j there clear =
    let w = get_or ws (idx / 64) 0 in
    let word = get_or-set ws (idx / 64) (j / 64) (with_bit w (idx % 64)) 0 in
    elim (Bool-cases (idx / 64 == j / 64)) [
      | inr away ↦
          let kept : get_or (set ws (idx / 64) (with_bit w (idx % 64))) (j / 64) 0
              ≡ get_or ws (j / 64) 0 =
            word ∙ (rw away refl) in
          (sym (ap (λ x. digit x (j % 64)) kept) ∙ clear, λ e. absurd (ground (arith, away, e)))
      | inl here ↦
          let same_word : idx / 64 ≡ j / 64 = ground (arith, here) in
          let hit : (idx / 64 == j / 64) && ltb (idx / 64) (length ws) ≡ true =
            ground (arith, here, there) in
          let changed : get_or (set ws (idx / 64) (with_bit w (idx % 64))) (j / 64) 0
              ≡ with_bit w (idx % 64) =
            word ∙ (rw hit refl) in
          let off : digit (with_bit w (idx % 64)) (j % 64) ≡ 0 =
            sym (ap (λ x. digit x (j % 64)) changed) ∙ clear in
          elim (Bool-cases (idx % 64 == j % 64)) [
            | inl it ↦
                let e : idx % 64 ≡ j % 64 = ground (arith, it) in
                let on : digit (with_bit w (idx % 64)) (j % 64) ≡ 1 =
                  ap (digit (with_bit w (idx % 64))) (sym e) ∙ digit-or_same w (idx % 64) in
                absurd (omega (arith, on, off))
            | inr other ↦
                let differs : idx % 64 ≢ j % 64 = λ e. absurd (ground (arith, other, e)) in
                (
                  ap (λ q. digit (get_or ws q 0) (j % 64)) (sym same_word)
                      ∙ sym (digit-or_other w (idx % 64) (j % 64) differs)
                      ∙ off,
                  λ e. differs (ap (λ x. x % 64) (sym e)),
                )
          ]
    ]

pub mark_free-Spare :
    (P : ℕ → Type 0) (fa : FrameAlloc) (idx : ℕ)
    → Spare P fa
    → P idx
    → Holds (Spare P) (mark_free fa idx)
unfolding mark_free ones
mark_free-Spare P fa idx v p = elim (Bool-cases (not (ltb (idx / 64) (length fa.bitmap)))) [
  | inl past ↦ rw past tt
  | inr known ↦ elim (Bool-cases (has_bit (word_of fa idx) (idx % 64))) [
    | inr off ↦ rw (known, off) v
    | inl on ↦
        let w = without_bit (word_of fa idx) (idx % 64) in
        let valid = v.frames in
        let words = valid.words in
        let covers = valid.covers in
        let there : idx / 64 < length fa.bitmap = ground (arith, known) in
        let same = length-set fa.bitmap (idx / 64) w in
        let small = word-le fa.bitmap (idx / 64) words in
        let smaller =
          bit_and-le (word_of fa idx) (word_of fa idx) (2 ^ 64 - 1 - 2 ^ (idx % 64))
            (omega arith) in
        rw (known, on)
          (record {
            frames = record {
              words = AreWords-set fa.bitmap (idx / 64) w words (omega (arith, small, smaller));
              covers = omega (arith, covers, same);
            };
            free = λ j lt clear.
                let before = cleared fa.bitmap idx j words (omega (arith, there)) in
                elim (Bool-cases (idx == j)) [
                  | inl it ↦ let e : idx ≡ j = ground (arith, it) in subst P e p
                  | inr other ↦
                      v.free j (omega (arith, lt, same)) (sym (before ∙ (rw other refl)) ∙ clear)
                ];
          })
  ]
]

pub mark_used-Spare :
    (P : ℕ → Type 0) (fa : FrameAlloc) (idx : ℕ)
    → Spare P fa
    → Holds (Spare (λ j. P j × (j ≢ idx))) (mark_used fa idx)
unfolding mark_used ones
mark_used-Spare P fa idx v = elim (Bool-cases (not (ltb (idx / 64) (length fa.bitmap)))) [
  | inl past ↦ rw past tt
  | inr known ↦ elim (has_bit-cases (word_of fa idx) (idx % 64)) [
    | inl (on, set_bit) ↦
        rw (known, on)
          (record {
            frames = v.frames;
            free = λ j lt clear. (
              v.free j lt clear,
              λ e. let it = ap (used fa.bitmap) e in absurd (omega (arith, it, clear, set_bit)),
            );
          })
    | inr (off, was_clear) ↦
        let w = with_bit (word_of fa idx) (idx % 64) in
        let valid = v.frames in
        let words = valid.words in
        let covers = valid.covers in
        let there : idx / 64 < length fa.bitmap = ground (arith, known) in
        let same = length-set fa.bitmap (idx / 64) w in
        let small = word-le fa.bitmap (idx / 64) words in
        rw (known, off)
          (record {
            frames = record {
              words =
                  AreWords-set fa.bitmap (idx / 64) w words
                    (bit_or-ones 64 (word_of fa idx) (idx % 64) small (omega arith));
              covers = omega (arith, covers, same);
            };
            free = λ j lt clear.
                let (before, other) = marked fa.bitmap idx j there clear in
                (v.free j (omega (arith, lt, same)) before, other);
          })
  ]
]
