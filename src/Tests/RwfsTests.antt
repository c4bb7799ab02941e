-- ===== src/Tests/RwfsTests.antt =====
-- A bitmap of two bytes whose sectors 0, 1 and 5 are used.
use plinth_os.Base.{ℕ, zero, suc, ◌≡◌, ◌<◌, ◌⊎◌, refl, [], ◌∷◌, arith}
use plinth_os.Rwfs.Bitmap.{Bytes, ok, bit, set_run, scan, alloc, free, test_bit, put_bit, byte_at}
use plinth_os.Rwfs.Bitmap.Bits.{AreBytes}
use plinth_os.Rwfs.Bitmap.Alloc.{Allocated, OutOfSpace, alloc-cases, free-alloc}

abbrev disk : Bytes
disk = 0x23 ∷ 0 ∷ []

disk-AreBytes : AreBytes disk
unfolding AreBytes
disk-AreBytes i = bytes_below i
  where
    bytes_below : (i : ℕ) → byte_at disk i < 256
    bytes_below zero = omega arith
    bytes_below (suc zero) = omega arith
    bytes_below (suc (suc i)) = omega arith

-- The run of four that starts at sector 2 is broken by sector 5.
disk-alloc : alloc disk 12 4 ≡ (0xe3 ∷ 3 ∷ [], ok 6)
unfolding alloc scan test_bit set_run put_bit
disk-alloc = refl

alloc-cases_example : Allocated disk 12 4 ⊎ OutOfSpace disk 12 4
alloc-cases_example = alloc-cases disk 12 4 disk-AreBytes (omega arith) (omega arith) (omega arith)

free-alloc_example :
    ((free (0xe3 ∷ 3 ∷ []) 12 6 4).1 ≡ ok tt)
    × ((j : ℕ) → bit (free (0xe3 ∷ 3 ∷ []) 12 6 4).0 j ≡ bit disk j)
free-alloc_example =
    free-alloc disk (0xe3 ∷ 3 ∷ []) 12 4 6 disk-AreBytes (omega arith) (omega arith) (omega arith)
      (omega arith) disk-alloc
