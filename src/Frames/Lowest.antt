-- ===== src/Frames/Lowest.antt =====
-- The lowest clear bit of a word that is not full.
use plinth_os.Base.{
  ℕ, zero, suc, ◌+◌, ◌-◌, ◌*◌, ◌^◌, ◌<◌, ◌≤◌, ◌≡◌, ◌≢◌, ap, ◌∙◌, true, false, arith, ◌==◌, ◌⊎◌, inl,
  inr, Bool-cases, bit_and,
}
use plinth_os.Base.Words.{digit, digit-lt, bit_and-pow, pow-pos, ones, all_set}
use plinth_os.Frames.{has_bit, lowest_clear, full_word}

pub has_bit-cases :
    (w k : ℕ) → ((has_bit w k ≡ true) × (digit w k ≡ 1)) ⊎ ((has_bit w k ≡ false) × (digit w k ≡ 0))
unfolding has_bit
has_bit-cases w k =
    let pos = pow-pos k in
    let value = bit_and-pow w k in
    let small = digit-lt w k in
    elim (Bool-cases (digit w k == 0)) [
      | inl clear ↦
          let off : digit w k ≡ 0 = ground (arith, clear) in
          let none_there : bit_and w (2 ^ k) ≡ 0 = value ∙ ap (λ d. 2 ^ k * d) off ∙ omega arith in
          inr (ground (arith, none_there), off)
      | inr set ↦
          let on : digit w k ≡ 1 = ground (arith, set, small) in
          let there : bit_and w (2 ^ k) ≡ 2 ^ k = value ∙ ap (λ d. 2 ^ k * d) on ∙ omega arith in
          inl (ground (arith, there, pos), on)
    ]

abbrev pub BelowSet : ℕ → ℕ → Type 0
BelowSet w k = (j : ℕ) → j < k → digit w j ≡ 1

one_more : (w k : ℕ) → BelowSet w k → digit w k ≡ 1 → BelowSet w (k + 1)
one_more w k below on j lt = elim (Bool-cases (j == k)) [
  | inl at ↦ let e : j ≡ k = ground (arith, at) in ap (digit w) e ∙ on
  | inr away ↦ below j (ground (arith, away, lt))
]

lowest_clear-cases :
    (w k n : ℕ)
    → BelowSet w k
    → ((digit w (lowest_clear w k n) ≡ 0)
        × (lowest_clear w k n < k + n)
        × BelowSet w (lowest_clear w k n))
      ⊎ BelowSet w (k + n)
unfolding lowest_clear
lowest_clear-cases w k zero below = inr (λ j lt. below j (omega (arith, lt)))
lowest_clear-cases w k (suc n) below = elim (has_bit-cases w k) [
  | inr (off, clear) ↦ rw off (inl (clear, omega arith, below))
  | inl (on, set) ↦ elim (lowest_clear-cases w (k + 1) n (one_more w k below set)) [
    | inl (clear, lt, less) ↦ rw on (inl (clear, omega (arith, lt), less))
    | inr all ↦ rw on (inr (λ j lt. all j (omega (arith, lt))))
  ]
]

-- A word that is not full has a clear bit, and the lowest is found.
pub lowest_clear-found :
    (w : ℕ)
    → w ≤ full_word
    → w ≢ full_word
    → (digit w (lowest_clear w 0 64) ≡ 0)
      × (lowest_clear w 0 64 < 64)
      × BelowSet w (lowest_clear w 0 64)
unfolding ones
lowest_clear-found w le ne = elim (lowest_clear-cases w 0 64 (λ j lt. absurd (omega (arith, lt)))) [
  | inl (clear, lt, below) ↦ (clear, omega (arith, lt), below)
  | inr all ↦ let most : 2 ^ 64 - 1 ≤ w = all_set 64 w all in absurd (ne (omega (arith, most, le)))
]
