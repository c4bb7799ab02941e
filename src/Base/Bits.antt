-- ===== src/Base/Bits.antt =====
-- `& mask` for the masks of small tables, as a remainder.
use Prim.Native.Nat.{min, digits, bit_and-bitwise}
use Prim.Native.Nat.{ℕ, zero, suc, ◌+◌, ◌-◌, ◌*◌, ◌/◌, ◌%◌, ◌^◌, ◌≤◌, ◌<◌, bit_and}
use mathlib.Core.Path.{◌≡◌, refl}
use mathlib.Core.Logic.{◌≢◌}
use native.Mathlib.Omega.{arith}

abbrev lows : ℕ → ℕ → ℕ → ℕ
lows = digits (λ y. 0) min

-- More fuel than the number has digits changes nothing.
spare_fuel : (m n x y : ℕ) → x ≤ m → x ≤ n → lows m x y ≡ lows n x y
spare_fuel zero zero x y h k = refl
spare_fuel zero (suc n) zero y h k = refl
spare_fuel zero (suc n) (suc x) y h k = absurd (omega arith)
spare_fuel (suc m) zero zero y h k = refl
spare_fuel (suc m) zero (suc x) y h k = absurd (omega arith)
spare_fuel (suc m) (suc n) zero y h k = refl
spare_fuel (suc m) (suc n) (suc x) y h k =
    let deeper = spare_fuel m n (suc x / 2) (y / 2) (omega arith) (omega arith) in omega arith

pub bit_and-halves : (x y : ℕ) → bit_and x y ≡ 2 * bit_and (x / 2) (y / 2) + min (x % 2) (y % 2)
bit_and-halves zero y =
    let whole = bit_and-bitwise 0 y in
    let half = bit_and-bitwise 0 (y / 2) in omega (arith, whole, half)
bit_and-halves (suc x) y =
    let whole = bit_and-bitwise (suc x) y in
    let half = bit_and-bitwise (suc x / 2) (y / 2) in
    let same = spare_fuel x (suc x / 2) (suc x / 2) (y / 2) (omega arith) (omega arith) in
    omega (arith, whole, half, same)

bit_and_none : (n x : ℕ) → x ≤ n → bit_and x 0 ≡ 0
bit_and_none zero zero h = refl
bit_and_none zero (suc x) h = absurd (omega arith)
bit_and_none (suc n) x h =
    let deeper = bit_and_none n (x / 2) in
    let halves = bit_and-halves x 0 in below x h deeper halves
  where
    below :
        (x : ℕ)
        → x ≤ suc n
        → (x / 2 ≤ n → bit_and (x / 2) 0 ≡ 0)
        → bit_and x 0 ≡ 2 * bit_and (x / 2) 0 + min (x % 2) 0
        → bit_and x 0 ≡ 0
    below zero h deeper halves = refl
    below (suc x) h deeper halves = let z = deeper (omega arith) in omega arith

-- The sizes of a ring: a power of two of at most 64.
pub data IsSize : ℕ → Type 0 where
  size1 : IsSize 1
  size2 : IsSize 2
  size4 : IsSize 4
  size8 : IsSize 8
  size16 : IsSize 16
  size32 : IsSize 32
  size64 : IsSize 64

mask1 : (x : ℕ) → bit_and x 1 ≡ x % 2
mask1 x =
    let halves = bit_and-halves x 1 in
    let rest = bit_and_none (x / 2) (x / 2) (omega arith) in omega arith

mask3 : (x : ℕ) → bit_and x 3 ≡ x % 4
mask3 x = let halves = bit_and-halves x 3 in let rest = mask1 (x / 2) in omega arith

mask7 : (x : ℕ) → bit_and x 7 ≡ x % 8
mask7 x = let halves = bit_and-halves x 7 in let rest = mask3 (x / 2) in omega arith

mask15 : (x : ℕ) → bit_and x 15 ≡ x % 16
mask15 x = let halves = bit_and-halves x 15 in let rest = mask7 (x / 2) in omega arith

mask31 : (x : ℕ) → bit_and x 31 ≡ x % 32
mask31 x = let halves = bit_and-halves x 31 in let rest = mask15 (x / 2) in omega arith

-- A mask is a remainder.
pub bit_and-mask : {n : ℕ} (x : ℕ) → IsSize n → bit_and x (n - 1) ≡ x % n
bit_and-mask x size1 = let zeros = bit_and_none x x (omega arith) in omega arith
bit_and-mask x size2 = mask1 x
bit_and-mask x size4 = mask3 x
bit_and-mask x size8 = mask7 x
bit_and-mask x size16 = mask15 x
bit_and-mask x size32 = mask31 x
bit_and-mask x size64 = let halves = bit_and-halves x 63 in let rest = mask31 (x / 2) in omega arith

-- Indices that run through 32 bits, less than a size apart, name different places.
pub places_apart : {n : ℕ} (i d : ℕ) → IsSize n → 0 < d → d < n → i % n ≢ (i + d) % 2 ^ 32 % n
places_apart i d size1 pos lt e = omega arith
places_apart i d size2 pos lt e = omega arith
places_apart i d size4 pos lt e = omega arith
places_apart i d size8 pos lt e = omega arith
places_apart i d size16 pos lt e = omega arith
places_apart i d size32 pos lt e = omega arith
places_apart i d size64 pos lt e = omega arith

pub size-pos : {n : ℕ} → IsSize n → (0 < n) × (n ≤ 64)
size-pos size1 = (omega arith, omega arith)
size-pos size2 = (omega arith, omega arith)
size-pos size4 = (omega arith, omega arith)
size-pos size8 = (omega arith, omega arith)
size-pos size16 = (omega arith, omega arith)
size-pos size32 = (omega arith, omega arith)
size-pos size64 = (omega arith, omega arith)

pub place-lt : {n : ℕ} (i : ℕ) → IsSize n → i % n < n
place-lt i size1 = omega arith
place-lt i size2 = omega arith
place-lt i size4 = omega arith
place-lt i size8 = omega arith
place-lt i size16 = omega arith
place-lt i size32 = omega arith
place-lt i size64 = omega arith
