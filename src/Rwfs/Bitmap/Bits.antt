-- ===== src/Rwfs/Bitmap/Bits.antt =====
-- A write to one bit changes that bit alone. On one byte this is a finite table.
use mathlib.Core.Path.{subst}
use plinth_os.Base.{
  ℕ, zero, suc, ◌+◌, ◌*◌, ◌/◌, ◌%◌, ◌<◌, ◌≤◌, leb, ◌≡◌, refl, ◌∙◌, ◌&&◌, not, Bool, true, false,
  length, arith, Bool-cases, inl, inr, ◌==◌, ltb, if◌then◌else◌, get_or-set, length-set,
}
use plinth_os.Rwfs.Bitmap.{Bytes, byte_at, test_bit, put_bit, bit, set_bit, set_run}

abbrev same : Bool → Bool → Bool
same true b = b
same false b = not b

abbrev all_below : ℕ → (ℕ → Bool) → Bool
all_below zero p = true
all_below (suc n) p = p n && all_below n p

all_below-at : (n : ℕ) (p : ℕ → Bool) (k : ℕ) → all_below n p ≡ true → k < n → p k ≡ true
all_below-at zero p k h lt = absurd (omega arith)
all_below-at (suc n) p k h lt = elim (Bool-cases (k == n)) [
  | inl at ↦ let e : n ≡ k = ground arith in subst (λ j. p j ≡ true) e (ground arith)
  | inr other ↦ all_below-at n p k (ground arith) (ground arith)
]

abbrev right_bit : ℕ → ℕ → ℕ → Bool → Bool
right_bit x k j b =
    same (test_bit (put_bit x k b) j) (if k == j then b else test_bit x j)
    && ltb (put_bit x k b) 256

abbrev both_right : ℕ → ℕ → ℕ → Bool
both_right x k j = right_bit x k j true && right_bit x k j false

abbrev place_right : ℕ → ℕ → Bool
place_right x k = all_below 8 (both_right x k)

abbrev byte_right : ℕ → Bool
byte_right x = all_below 8 (place_right x)

abbrev table : Bool
table = all_below 256 byte_right

table_true : table ≡ true
unfolding test_bit put_bit
table_true = refl

right_bit-true : (x k j : ℕ) (b : Bool) → x < 256 → k < 8 → j < 8 → right_bit x k j b ≡ true
right_bit-true x k j b lt below at =
    let row = all_below-at 256 byte_right x table_true lt in
    let cell = all_below-at 8 (place_right x) k row below in
    let both = all_below-at 8 (both_right x k) j cell at in byte_side b both
  where
    byte_side :
        (b : Bool)
        → (right_bit x k j true && right_bit x k j false) ≡ true
        → right_bit x k j b ≡ true
    byte_side true h = ground arith
    byte_side false h = ground arith

same-eq : (a b : Bool) → same a b ≡ true → a ≡ b
same-eq true true h = refl
same-eq true false h = cc
same-eq false true h = cc
same-eq false false h = refl

test_bit-put_bit :
    (x k j : ℕ) (b : Bool)
    → x < 256
    → k < 8
    → j < 8
    → test_bit (put_bit x k b) j ≡ (if k == j then b else test_bit x j)
test_bit-put_bit x k j b lt below at =
    same-eq _ _ (ground (arith, right_bit-true x k j b lt below at))

put_bit-lt : (x k : ℕ) (b : Bool) → x < 256 → k < 8 → put_bit x k b < 256
put_bit-lt x k b lt below = ground (arith, right_bit-true x k 0 b lt below)

-- Each entry of the bitmap is a byte.
unfoldable pub AreBytes : Bytes → Type 0
AreBytes bitmap = (i : ℕ) → byte_at bitmap i < 256

pub set_bit-AreBytes :
    (bitmap : Bytes) (i : ℕ) (b : Bool) → AreBytes bitmap → AreBytes (set_bit bitmap i b)
unfolding AreBytes
set_bit-AreBytes bitmap i b w k = ground (
  arith,
  get_or-set bitmap (i / 8) k (put_bit (byte_at bitmap (i / 8)) (i % 8) b) 0,
  put_bit-lt (byte_at bitmap (i / 8)) (i % 8) b (w (i / 8)) (omega arith),
  w k,
)

pub bit-set_bit :
    (bitmap : Bytes) (i j : ℕ) (b : Bool)
    → AreBytes bitmap
    → i < length bitmap * 8
    → bit (set_bit bitmap i b) j ≡ (if i == j then b else bit bitmap j)
unfolding AreBytes
bit-set_bit bitmap i j b w lt = elim (Bool-cases ((i / 8) == (j / 8))) [
  | inl here ↦ ground (
    arith,
    get_or-set bitmap (i / 8) (j / 8) (put_bit (byte_at bitmap (i / 8)) (i % 8) b) 0,
    test_bit-put_bit (byte_at bitmap (i / 8)) (i % 8) (j % 8) b (w (i / 8)) (omega arith)
        (omega arith),
  )
  | inr other ↦
      ground
        (arith, get_or-set bitmap (i / 8) (j / 8) (put_bit (byte_at bitmap (i / 8)) (i % 8) b) 0)
]

pub set_run-AreBytes :
    (bitmap : Bytes) (i n : ℕ) (b : Bool) → AreBytes bitmap → AreBytes (set_run bitmap i n b)
unfolding set_run
set_run-AreBytes bitmap i zero b w = w
set_run-AreBytes bitmap i (suc n) b w =
    set_run-AreBytes (set_bit bitmap i b) (i + 1) n b (set_bit-AreBytes bitmap i b w)

pub length-set_run :
    (bitmap : Bytes) (i n : ℕ) (b : Bool) → length (set_run bitmap i n b) ≡ length bitmap
unfolding set_run
length-set_run bitmap i zero b = refl
length-set_run bitmap i (suc n) b =
    length-set_run (set_bit bitmap i b) (i + 1) n b ∙ length-set bitmap (i / 8) _

-- A run of writes sets the bits of the run and no others.
pub bit-set_run :
    (bitmap : Bytes) (i n j : ℕ) (b : Bool)
    → AreBytes bitmap
    → i + n ≤ length bitmap * 8
    → bit (set_run bitmap i n b) j ≡ (if leb i j && ltb j (i + n) then b else bit bitmap j)
unfolding set_run
bit-set_run bitmap i zero j b w le = ground arith
bit-set_run bitmap i (suc n) j b w le =
    let fits : i + 1 + n ≤ length (set_bit bitmap i b) * 8 = rw length-set (omega arith) in
    let rest =
      bit-set_run (set_bit bitmap i b) (i + 1) n j b (set_bit-AreBytes bitmap i b w) fits in
    ground (arith, rest, bit-set_bit bitmap i j b w (omega arith))
