-- ===== src/Frames.antt =====
-- kernel/src/frame_alloc.rs: the bitmap of the physical frames, a bit set for a frame that is taken.
--
-- A word is a number below 2 ^ 64. The complement of a bit of it is taken from 2 ^ 64 - 1, and `free`
-- wraps as a `usize` does.
pub mod Lowest
pub mod Scan
pub mod Return
pub mod Boot
use Prim.Native.Nat.{bit_or}
use plinth_os.Base.{
  ℕ, zero, suc, ◌+◌, ◌-◌, ◌*◌, ◌/◌, ◌%◌, ◌^◌, ◌<◌, ◌≡◌, not, Bool, true, false, Option, none, some,
  List, [], ◌∷◌, get_or, set, length, ◌==◌, ltb, if◌then◌else◌, bit_and,
}

abbrev pub frame_size : ℕ
frame_size = 4096

abbrev pub full_word : ℕ
full_word = 2 ^ 64 - 1

pub data FrameError : Type 0 where
  exhausted out_of_range not_allocated : FrameError

pub data Result {ℓ} (A : Type ℓ) : Type ℓ where
  ok : (a : A) → Result A
  err : (e : FrameError) → Result A

pub record FrameAlloc : Type 0 where
  pub bitmap : List ℕ
  pub frames : ℕ
  pub free : ℕ

-- `word & (1 << bit) != 0`
unfoldable pub has_bit : ℕ → ℕ → Bool
has_bit word bit = not (bit_and word (2 ^ bit) == 0)

abbrev pub with_bit : ℕ → ℕ → ℕ
with_bit word bit = bit_or word (2 ^ bit)

abbrev pub without_bit : ℕ → ℕ → ℕ
without_bit word bit = bit_and word (2 ^ 64 - 1 - 2 ^ bit)

-- `(!word).trailing_zeros()`, from bit `k` on with `n` bits left.
unfoldable pub lowest_clear : ℕ → ℕ → ℕ → ℕ
lowest_clear word k zero = k
lowest_clear word k (suc n) =
    let rest = lowest_clear word (k + 1) n in if has_bit word k then rest else k

-- The loop of `alloc` from word `wi` on.
unfoldable pub alloc_words : List ℕ → ℕ → ℕ → List ℕ × Option ℕ
alloc_words [] wi frames = ([], none)
alloc_words (w ∷ ws) wi frames =
    let (ws', found) = alloc_words ws (wi + 1) frames in
    let bit = lowest_clear w 0 64 in
    if w == full_word
    then (w ∷ ws', found)
    else if not (ltb (wi * 64 + bit) frames)
    then (w ∷ ws, none)
    else (with_bit w bit ∷ ws, some (wi * 64 + bit))

abbrev pub taken : FrameAlloc → List ℕ × Option ℕ → FrameAlloc × Result ℕ
taken fa (ws, none) = (record fa { bitmap = ws }, err exhausted)
taken fa (ws, some idx) =
    (record fa { bitmap = ws; free = (fa.free + 2 ^ 64 - 1) % 2 ^ 64 }, ok (idx * frame_size))

unfoldable pub alloc : FrameAlloc → FrameAlloc × Result ℕ
alloc fa = taken fa (alloc_words fa.bitmap 0 fa.frames)

abbrev pub word_of : FrameAlloc → ℕ → ℕ
word_of fa idx = get_or fa.bitmap (idx / 64) 0

abbrev pub put_word : FrameAlloc → ℕ → ℕ → FrameAlloc
put_word fa idx w = record fa { bitmap = set fa.bitmap (idx / 64) w }

-- `mark_free` and `mark_used` panic on a frame that is not of the bitmap.
unfoldable pub mark_free : FrameAlloc → ℕ → Option FrameAlloc
mark_free fa idx =
    if not (ltb (idx / 64) (length fa.bitmap))
    then none
    else if has_bit (word_of fa idx) (idx % 64)
    then some (record (put_word fa idx (without_bit (word_of fa idx) (idx % 64))) {
      free = (fa.free + 1) % 2 ^ 64;
    })
    else some fa

unfoldable pub mark_used : FrameAlloc → ℕ → Option FrameAlloc
mark_used fa idx =
    if not (ltb (idx / 64) (length fa.bitmap))
    then none
    else if has_bit (word_of fa idx) (idx % 64)
    then some fa
    else some (record (put_word fa idx (with_bit (word_of fa idx) (idx % 64))) {
      free = (fa.free + 2 ^ 64 - 1) % 2 ^ 64;
    })

unfoldable pub dealloc : FrameAlloc → ℕ → FrameAlloc × Result (Unit {0})
dealloc fa addr =
    let idx = addr / frame_size in
    if not (addr % frame_size == 0)
    then (fa, err out_of_range)
    else if not (ltb idx fa.frames)
    then (fa, err out_of_range)
    else if not (has_bit (word_of fa idx) (idx % 64))
    then (fa, err not_allocated)
    else (
      record (put_word fa idx (without_bit (word_of fa idx) (idx % 64))) {
        free = (fa.free + 1) % 2 ^ 64;
      },
      ok tt,
    )
