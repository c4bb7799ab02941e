-- ===== src/Tests/FrameTests.antt =====
-- 70 frames in two words, of which all of the first word are taken but frame 5.
use plinth_os.Base.{
  ℕ, ◌-◌, ◌*◌, ◌/◌, ◌%◌, ◌^◌, ◌<◌, ◌≤◌, ◌≡◌, ◌≢◌, ◌⊎◌, refl, List, [], ◌∷◌, arith, ◌==◌,
  if◌then◌else◌, true, false, some,
}
use plinth_os.Frames.{
  FrameAlloc, alloc, mark_free, mark_used, dealloc, ok, err, exhausted, out_of_range, not_allocated,
  frame_size,
}
use plinth_os.Frames.Scan.{used, Handed, IsFrames, alloc-Handed}
use plinth_os.Frames.Boot.{Region, new, usable}
use plinth_os.Frames.Boot.Reserved.{MayGive, new-MayGive}
use plinth_os.Frames.Return.{given_back, dealloc-cases}

abbrev frames : FrameAlloc
frames = record { bitmap = (2 ^ 64 - 1 - 32) ∷ 0 ∷ []; frames = 70; free = 7 }

frames-IsFrames : IsFrames frames
frames-IsFrames = record { words = (omega arith, (omega arith, tt)); covers = omega arith }

alloc-Handed_example :
    ((idx : ℕ) × (fa' : FrameAlloc) × (alloc frames ≡ (fa', ok (idx * frame_size)))
      × (idx < 70)
      × Handed frames.bitmap fa'.bitmap idx
      × IsFrames fa')
    ⊎ ((alloc frames ≡ (frames, err exhausted)) × ((j : ℕ) → j < 70 → used frames.bitmap j ≡ 1))
alloc-Handed_example = alloc-Handed frames frames-IsFrames

dealloc-cases_example :
    ((idx : ℕ) × (8192 ≡ idx * frame_size)
      × (idx < 70)
      × (used frames.bitmap idx ≡ 1)
      × (dealloc frames 8192 ≡ (given_back frames idx, ok tt))
      × ((j : ℕ)
          → used (given_back frames idx).bitmap j ≡ (if idx == j then 0 else used frames.bitmap j))
      × (dealloc (given_back frames idx) 8192 ≡ (given_back frames idx, err not_allocated)))
    ⊎ (((dealloc frames 8192 ≡ (frames, err out_of_range))
          × ((8192 % frame_size ≢ 0) ⊎ (70 ≤ 8192 / frame_size)))
        ⊎ ((dealloc frames 8192 ≡ (frames, err not_allocated))
            × (used frames.bitmap (8192 / frame_size) ≡ 0)))
dealloc-cases_example = dealloc-cases frames 8192 frames-IsFrames

-- Frame 5 is the one that is free, and the call takes it.
fifth : (alloc frames).1 ≡ ok (5 * 4096)
unfolding alloc plinth_os.Frames.alloc_words plinth_os.Frames.lowest_clear plinth_os.Frames.has_bit
fifth = refl

-- Memory of 13 frames and a half, of which frame 9 is the firmware's.
abbrev low_memory : Region
low_memory = record { start = 0; end = 0x9000; is_usable = true }

abbrev regions : List Region
regions =
    low_memory
    ∷ record { start = 0x9000; end = 0xa000; is_usable = false }
    ∷ record { start = 0xa000; end = 0xd800; is_usable = true }
    ∷ []

abbrev booted : FrameAlloc
booted = record { bitmap = 18446744073709544193 ∷ []; frames = 13; free = 10 }

built : new regions ≡ some booted
unfolding new plinth_os.Frames.Boot.mark_each plinth_os.Frames.Boot.opened mark_free mark_used
    plinth_os.Frames.has_bit
built = refl

new-MayGive_example :
    IsFrames booted
    × ((idx : ℕ) → idx < 13 → used booted.bitmap idx ≡ 0 → MayGive (usable regions) 0 1 idx)
new-MayGive_example = new-MayGive regions booted 0xd800 low_memory refl refl built
