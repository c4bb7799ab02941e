-- ===== src/Rwfs/Bitmap.antt =====
-- librwfs/src/bitmap.rs: first-fit allocation of runs of sectors in a bitmap of bytes.
--
-- A byte is a number below 256. `1 << (i % 8)` is a power of two, and its complement on a byte is
-- taken from 255.
pub mod Bits
pub mod Alloc
use Prim.Native.Nat.{bit_and, bit_or}
use plinth_os.Base.{
  ℕ, zero, suc, ◌+◌, ◌-◌, ◌*◌, ◌/◌, ◌%◌, ◌^◌, ◌<◌, ◌≡◌, ◌&&◌, ◌||◌, not, Bool, true, false, Option,
  none, some, List, [], ◌∷◌, length, get_or, set, ◌==◌, ltb, if◌then◌else◌,
}

pub data BitmapError : Type 0 where
  out_of_space out_of_range : BitmapError

pub data Result {ℓ} (A : Type ℓ) : Type ℓ where
  ok : (a : A) → Result A
  err : (e : BitmapError) → Result A

abbrev pub Bytes : Type 0
Bytes = List ℕ

abbrev pub capacity : ℕ → ℕ
capacity bytes = bytes * 8

abbrev pub byte_at : Bytes → ℕ → ℕ
byte_at bitmap i = get_or bitmap i 0

unfoldable pub test_bit : ℕ → ℕ → Bool
test_bit x k = not (bit_and x (2 ^ k) == 0)

unfoldable pub put_bit : ℕ → ℕ → Bool → ℕ
put_bit x k true = bit_or x (2 ^ k)
put_bit x k false = bit_and x (255 - 2 ^ k)

abbrev pub bit : Bytes → ℕ → Bool
bit bitmap i = test_bit (byte_at bitmap (i / 8)) (i % 8)

abbrev pub set_bit : Bytes → ℕ → Bool → Bytes
set_bit bitmap i used = set bitmap (i / 8) (put_bit (byte_at bitmap (i / 8)) (i % 8) used)

-- `for j in i..i + n`
unfoldable pub set_run : Bytes → ℕ → ℕ → Bool → Bytes
set_run bitmap i zero used = bitmap
set_run bitmap i (suc n) used = set_run (set_bit bitmap i used) (i + 1) n used

-- The scan of `alloc` at bit `i` with `left` bits to go.
unfoldable pub scan : Bytes → ℕ → ℕ → ℕ → ℕ → ℕ → Option ℕ
scan bitmap n run_start run_len i zero = none
scan bitmap n run_start run_len i (suc left) =
    let used = bit bitmap i in
    let rest =
      scan bitmap n (if used then i + 1 else run_start) (if used then 0 else run_len + 1) (i + 1)
        left in
    if not used && run_len + 1 == n then some run_start else rest

abbrev pub claim : Bytes → ℕ → Option ℕ → Bytes × Result ℕ
claim bitmap n none = (bitmap, err out_of_space)
claim bitmap n (some start) = (set_run bitmap start n true, ok start)

unfoldable pub alloc : Bytes → ℕ → ℕ → Bytes × Result ℕ
alloc bitmap total n =
    if n == 0 || ltb total n || ltb (capacity (length bitmap)) total
    then (bitmap, err out_of_range)
    else claim bitmap n (scan bitmap n 0 0 0 total)

-- `start.checked_add(n)` on a `usize` of 64 bits.
unfoldable pub free : Bytes → ℕ → ℕ → ℕ → Bytes × Result (Unit {0})
free bitmap total start n =
    if ltb (capacity (length bitmap)) total
    then (bitmap, err out_of_range)
    else if not (ltb (start + n) (2 ^ 64))
    then (bitmap, err out_of_range)
    else if ltb total (start + n)
    then (bitmap, err out_of_range)
    else (set_run bitmap start n false, ok tt)
