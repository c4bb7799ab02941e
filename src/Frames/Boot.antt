-- ===== src/Frames/Boot.antt =====
-- kernel/src/frame_alloc.rs: the allocator as it is built from the memory map of the boot loader.
--
-- A region of the map is its two ends and whether it is usable memory. The bitmap is kept in frames of
-- its own, and what `new` asserts is `none`. Addresses are those of memory, far below 2 ^ 64.
pub mod Marks
pub mod Reserved
use plinth_os.Base.{
  ℕ, zero, suc, ◌+◌, ◌-◌, ◌*◌, ◌/◌, Bool, Option, none, some, List, [], ◌∷◌, replicate, ltb,
  if◌then◌else◌,
}
use plinth_os.Frames.{FrameAlloc, frame_size, full_word, mark_free, mark_used}

pub record Region : Type 0 where
  pub start : ℕ
  pub end : ℕ
  pub is_usable : Bool

-- `smp::TRAMPOLINE_PHYS`
abbrev pub trampoline_phys : ℕ
trampoline_phys = 0x8000

abbrev pub and_then {ℓ ℓ'} : {A : Type ℓ} {B : Type ℓ'} → Option A → (A → Option B) → Option B
and_then none f = none
and_then (some a) f = f a

abbrev pub usable : List Region → List Region
usable [] = []
usable (r ∷ rs) = if r.is_usable then r ∷ usable rs else usable rs

abbrev later_end : ℕ → Option ℕ → Option ℕ
later_end e none = some e
later_end e (some e') = some (if ltb e e' then e' else e)

abbrev pub max_end : List Region → Option ℕ
max_end [] = none
max_end (r ∷ rs) = later_end r.end (max_end rs)

-- Of two regions of one size `max_by_key` returns the later one.
abbrev larger : Region → Option Region → Option Region
larger r none = some r
larger r (some h) = some (if ltb (h.end - h.start) (r.end - r.start) then r else h)

abbrev pub largest : List Region → Option Region
largest [] = none
largest (r ∷ rs) = larger r (largest rs)

abbrev pub div_ceil : ℕ → ℕ → ℕ
div_ceil a b = (a + b - 1) / b

-- `for idx in first..first + n`
unfoldable pub mark_each :
    (FrameAlloc → ℕ → Option FrameAlloc) → FrameAlloc → ℕ → ℕ → Option FrameAlloc
mark_each mark fa first zero = some fa
mark_each mark fa first (suc n) = and_then (mark fa first) (λ fa'. mark_each mark fa' (first + 1) n)

unfoldable pub opened : FrameAlloc → List Region → Option FrameAlloc
opened fa [] = some fa
opened fa (r ∷ rs) =
    let first = div_ceil r.start frame_size in
    and_then (mark_each mark_free fa first (r.end / frame_size - first)) (λ fa'. opened fa' rs)

-- The bitmap lies in `bitmap_frames` frames from `first` on.
abbrev pub reserved : FrameAlloc → ℕ → ℕ → Option FrameAlloc
reserved fa first bitmap_frames =
    and_then (mark_each mark_used fa first bitmap_frames)
      (λ fa1. and_then (mark_used fa1 0) (λ fa2. mark_used fa2 (trampoline_phys / frame_size)))

abbrev pub bitmap_words : ℕ → ℕ
bitmap_words end = div_ceil (end / frame_size) 64

abbrev pub bitmap_frames : ℕ → ℕ
bitmap_frames end = div_ceil (bitmap_words end * 8) frame_size

abbrev pub unavailable : ℕ → FrameAlloc
unavailable end = record {
  bitmap = replicate (bitmap_words end) full_word;
  frames = end / frame_size;
  free = 0;
}

abbrev pub hosted : List Region → ℕ → Region → Option FrameAlloc
hosted us end host =
    let first = div_ceil host.start frame_size in
    if ltb host.end (first * frame_size + bitmap_frames end * frame_size)
    then none
    else and_then (opened (unavailable end) us) (λ fa. reserved fa first (bitmap_frames end))

unfoldable pub new : List Region → Option FrameAlloc
new regions =
    and_then (max_end (usable regions))
      (λ end. and_then (largest (usable regions)) (λ host. hosted (usable regions) end host))
