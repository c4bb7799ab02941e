-- ===== src/Base/Words.antt =====
-- Single bits of a word, under `|` and `&` with a power of two.
use Prim.Native.Nat.{max, digits, bit_or, bit_or-bitwise}
use Prim.Native.Nat.{ℕ, zero, suc, ◌+◌, ◌*◌, ◌/◌, ◌%◌, ◌^◌, ◌≤◌, ◌<◌, bit_and}
use mathlib.Core.Path.{◌≡◌, refl, sym, ap, ◌∙◌}
use mathlib.Core.Logic.{◌≢◌}
use native.Mathlib.Omega.{arith}
use native.Mathlib.Numerals.{unary_clauses}
use native.Mathlib.Nat.{mul_assoc}
use plinth_os.Base.Bits.{bit_and-halves}

abbrev ors : ℕ → ℕ → ℕ → ℕ
ors = digits (λ y. y) max

spare_fuel : (m n x y : ℕ) → x ≤ m → x ≤ n → ors m x y ≡ ors n x y
spare_fuel zero zero x y h k = refl
spare_fuel zero (suc n) zero y h k = refl
spare_fuel zero (suc n) (suc x) y h k = absurd (omega arith)
spare_fuel (suc m) zero zero y h k = refl
spare_fuel (suc m) zero (suc x) y h k = absurd (omega arith)
spare_fuel (suc m) (suc n) zero y h k = refl
spare_fuel (suc m) (suc n) (suc x) y h k =
    let deeper = spare_fuel m n (suc x / 2) (y / 2) (omega arith) (omega arith) in omega arith

pub bit_or-halves : (x y : ℕ) → bit_or x y ≡ 2 * bit_or (x / 2) (y / 2) + max (x % 2) (y % 2)
bit_or-halves zero y =
    let whole = bit_or-bitwise 0 y in
    let half = bit_or-bitwise 0 (y / 2) in omega (arith, whole, half)
bit_or-halves (suc x) y =
    let whole = bit_or-bitwise (suc x) y in
    let half = bit_or-bitwise (suc x / 2) (y / 2) in
    let same = spare_fuel x (suc x / 2) (suc x / 2) (y / 2) (omega arith) (omega arith) in
    omega (arith, whole, half, same)

-- Bit `k` of `x`.
unfoldable pub digit : ℕ → ℕ → ℕ
digit x zero = x % 2
digit x (suc k) = digit (x / 2) k

pow-suc : (k : ℕ) → 2 ^ suc k ≡ 2 * 2 ^ k
pow-suc k = simp unary_clauses (omega arith)

pub pow-pos : (k : ℕ) → 0 < 2 ^ k
pow-pos zero = omega arith
pow-pos (suc k) = let double = pow-suc k in let ih = pow-pos k in omega arith

pub digit-lt : (x k : ℕ) → digit x k < 2
unfolding digit
digit-lt x zero = omega arith
digit-lt x (suc k) = digit-lt (x / 2) k

bit_or_zero : (n x : ℕ) → x ≤ n → bit_or x 0 ≡ x
bit_or_zero zero zero h = refl
bit_or_zero zero (suc x) h = absurd (omega arith)
bit_or_zero (suc n) zero h = refl
bit_or_zero (suc n) (suc x) h =
    let deeper = bit_or_zero n (suc x / 2) (omega arith) in
    let halves = bit_or-halves (suc x) 0 in omega arith

bit_and_zero : (n x : ℕ) → x ≤ n → bit_and x 0 ≡ 0
bit_and_zero zero zero h = refl
bit_and_zero zero (suc x) h = absurd (omega arith)
bit_and_zero (suc n) zero h = refl
bit_and_zero (suc n) (suc x) h =
    let deeper = bit_and_zero n (suc x / 2) (omega arith) in
    let halves = bit_and-halves (suc x) 0 in omega arith

pub bit_and-pow : (x k : ℕ) → bit_and x (2 ^ k) ≡ 2 ^ k * digit x k
unfolding digit
bit_and-pow x zero =
    let halves = bit_and-halves x 1 in
    let none_left = bit_and_zero (x / 2) (x / 2) (omega arith) in omega arith
bit_and-pow x (suc k) =
    let halves = bit_and-halves x (2 ^ suc k) in
    let double = pow-suc k in
    let half : 2 ^ suc k / 2 ≡ 2 ^ k = omega (arith, double) in
    let even : 2 ^ suc k % 2 ≡ 0 = omega (arith, double) in
    let ih = ap (bit_and (x / 2)) half ∙ bit_and-pow (x / 2) k in
    let whole : bit_and x (2 ^ suc k) ≡ 2 * (2 ^ k * digit (x / 2) k) =
      omega (arith, halves, even, ih) in
    whole ∙ sym (mul_assoc 2 (2 ^ k) (digit (x / 2) k)) ∙ ap (λ n. n * digit (x / 2) k) (sym double)

bit_or-double :
    (x k : ℕ)
    → (bit_or x (2 ^ suc k) / 2 ≡ bit_or (x / 2) (2 ^ k)) × (bit_or x (2 ^ suc k) % 2 ≡ x % 2)
bit_or-double x k =
    let halves = bit_or-halves x (2 ^ suc k) in
    let double = pow-suc k in
    let half : 2 ^ suc k / 2 ≡ 2 ^ k = omega (arith, double) in
    let even : 2 ^ suc k % 2 ≡ 0 = omega (arith, double) in
    let same = ap (bit_or (x / 2)) half in
    (omega (arith, halves, even, same), omega (arith, halves, even))

-- `x | 1 << k` has bit `k`, and the others of `x`.
pub digit-or_same : (x k : ℕ) → digit (bit_or x (2 ^ k)) k ≡ 1
unfolding digit
digit-or_same x zero = let halves = bit_or-halves x 1 in omega arith
digit-or_same x (suc k) = ap (λ y. digit y k) (bit_or-double x k).0 ∙ digit-or_same (x / 2) k

pub digit-or_other : (x k j : ℕ) → k ≢ j → digit (bit_or x (2 ^ k)) j ≡ digit x j
unfolding digit
digit-or_other x zero zero ne = absurd (ne refl)
digit-or_other x zero (suc j) ne =
    let halves = bit_or-halves x 1 in
    let kept = bit_or_zero (x / 2) (x / 2) (omega arith) in
    let half : bit_or x 1 / 2 ≡ x / 2 = omega arith in ap (λ y. digit y j) half
digit-or_other x (suc k) zero ne = (bit_or-double x k).1
digit-or_other x (suc k) (suc j) ne =
    ap (λ y. digit y j) (bit_or-double x k).0 ∙ digit-or_other (x / 2) k j (λ e. ne (ap suc e))

-- The word of `n` ones, and that word without bit `k`.
unfoldable pub ones : ℕ → ℕ
ones zero = 0
ones (suc n) = 1 + 2 * ones n

unfoldable pub ones_but : ℕ → ℕ → ℕ
ones_but zero k = 0
ones_but (suc n) zero = 2 * ones n
ones_but (suc n) (suc k) = 1 + 2 * ones_but n k

pub ones_but-lem : (n k : ℕ) → k < n → ones_but n k + 2 ^ k ≡ ones n
unfolding ones ones_but
ones_but-lem zero k lt = absurd (omega arith)
ones_but-lem (suc n) zero lt = omega arith
ones_but-lem (suc n) (suc k) lt =
    let ih = ones_but-lem n k (omega arith) in let double = pow-suc k in omega arith

bit_and-ones : (n x : ℕ) → x ≤ ones n → bit_and x (ones n) ≡ x
unfolding ones
bit_and-ones zero x le = let none_left = bit_and_zero x x (omega arith) in omega arith
bit_and-ones (suc n) x le =
    let halves = bit_and-halves x (1 + 2 * ones n) in
    let ih = bit_and-ones n (x / 2) (omega arith) in
    let half : (1 + 2 * ones n) / 2 ≡ ones n = omega arith in
    let same = ap (bit_and (x / 2)) half in omega (arith, halves, ih, same)

clear-first : (n x : ℕ) → x ≤ ones (suc n) → bit_and x (2 * ones n) ≡ 2 * (x / 2)
unfolding ones
clear-first n x le =
    let halves = bit_and-halves x (2 * ones n) in
    let half : 2 * ones n / 2 ≡ ones n = omega arith in
    let same = ap (bit_and (x / 2)) half in
    let ih = bit_and-ones n (x / 2) (omega arith) in omega (arith, halves, same, ih)

clear-rest :
    (x w : ℕ)
    → (bit_and x (1 + 2 * w) / 2 ≡ bit_and (x / 2) w) × (bit_and x (1 + 2 * w) % 2 ≡ x % 2)
clear-rest x w =
    let halves = bit_and-halves x (1 + 2 * w) in
    let half : (1 + 2 * w) / 2 ≡ w = omega arith in
    let same = ap (bit_and (x / 2)) half in
    (omega (arith, halves, same), omega (arith, halves, same))

-- `x & !(1 << k)` lacks bit `k`, and has the others of `x`.
pub digit-clear_same : (n x k : ℕ) → x ≤ ones n → k < n → digit (bit_and x (ones_but n k)) k ≡ 0
unfolding digit ones_but ones
digit-clear_same zero x k le lt = absurd (omega arith)
digit-clear_same (suc n) x zero le lt = let first = clear-first n x le in omega arith
digit-clear_same (suc n) x (suc k) le lt =
    ap (λ y. digit y k) (clear-rest x (ones_but n k)).0
    ∙ digit-clear_same n (x / 2) k (omega arith) (omega arith)

pub digit-clear_other :
    (n x k j : ℕ) → x ≤ ones n → k < n → k ≢ j → digit (bit_and x (ones_but n k)) j ≡ digit x j
unfolding digit ones_but ones
digit-clear_other zero x k j le lt ne = absurd (omega arith)
digit-clear_other (suc n) x zero zero le lt ne = absurd (ne refl)
digit-clear_other (suc n) x zero (suc j) le lt ne =
    let first = clear-first n x le in
    let half : bit_and x (2 * ones n) / 2 ≡ x / 2 = omega arith in ap (λ y. digit y j) half
digit-clear_other (suc n) x (suc k) zero le lt ne = (clear-rest x (ones_but n k)).1
digit-clear_other (suc n) x (suc k) (suc j) le lt ne =
    ap (λ y. digit y j) (clear-rest x (ones_but n k)).0
    ∙ digit-clear_other n (x / 2) k j (omega arith) (omega arith) (λ e. ne (ap suc e))

-- A word whose first `n` bits are set is at least the word of `n` ones.
pub all_set : (n x : ℕ) → ((j : ℕ) → j < n → digit x j ≡ 1) → ones n ≤ x
unfolding ones digit
all_set zero x h = omega arith
all_set (suc n) x h =
    let rest = all_set n (x / 2) (λ j lt. h (suc j) (omega arith)) in
    let low = h 0 (omega arith) in omega arith

pub digit-ones : (n j : ℕ) → j < n → digit (ones n) j ≡ 1
unfolding ones digit
digit-ones zero j lt = absurd (omega arith)
digit-ones (suc n) zero lt = omega arith
digit-ones (suc n) (suc j) lt =
    let half : (1 + 2 * ones n) / 2 ≡ ones n = omega arith in
    ap (λ y. digit y j) half ∙ digit-ones n j (omega arith)

pub bit_or-ones : (n x k : ℕ) → x ≤ ones n → k < n → bit_or x (2 ^ k) ≤ ones n
unfolding ones
bit_or-ones zero x k le lt = absurd (omega arith)
bit_or-ones (suc n) x zero le lt =
    let halves = bit_or-halves x 1 in
    let kept = bit_or_zero (x / 2) (x / 2) (omega arith) in omega arith
bit_or-ones (suc n) x (suc k) le lt =
    let (half, low) = bit_or-double x k in
    let ih = bit_or-ones n (x / 2) k (omega arith) (omega arith) in omega (arith, half, low, ih)
