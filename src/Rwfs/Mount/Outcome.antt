-- ===== src/Rwfs/Mount/Outcome.antt =====
-- What `create` leaves, on every path: a file that reads back, or the mount as it was.
use plinth_os.Base.{ℕ, ◌+◌, ◌*◌, ◌≤◌, ◌≡◌, ◌≢◌, List, length, ◌⊎◌}
use plinth_os.Blk.{blk_ok}
use plinth_os.Rwfs.Bitmap
use plinth_os.Rwfs.Directory
use plinth_os.Rwfs.Directory.{Directory, Entry, find, not_found}
use plinth_os.Rwfs.Mount.{
  Mount, Device, Created, ok, err, io, stat, read, meta_bytes, sectors_of, padded, data_start,
  sector,
}
use plinth_os.Rwfs.Mount.Views.{SameView}

-- What a write that reports success has done: its sectors read back as written, and the others read
-- as before.
pub record IsStore {Disk : Type 0} (dev : Device Disk) : Type 0 where
  pub kept :
      (d : Disk) (s n : ℕ) (xs : List ℕ)
      → (dev.write d s n xs).1 ≡ blk_ok
      → length xs ≡ n * sector
      → dev.read (dev.write d s n xs).0 s n ≡ (xs, blk_ok)
  pub apart :
      (d : Disk) (s n : ℕ) (xs : List ℕ) (s' n' : ℕ)
      → (dev.write d s n xs).1 ≡ blk_ok
      → (s + n ≤ s') ⊎ (s' + n' ≤ s)
      → dev.read (dev.write d s n xs).0 s' n' ≡ dev.read d s' n'

-- After success the file reads back and every other name shows what it did. After an error the mount
-- shows what it did, but for the last step: when the data is written and the metadata, with the new
-- file in it, cannot be, the new file stays in the mount.
pub Outcome :
    {Disk : Type 0} → Device Disk → Disk → Mount → List ℕ → List ℕ → ℕ → Created Disk → Type 0
Outcome dev d m name xs room (m', d', ok u) =
    (read dev d' m' name room ≡ ok xs)
    × ((other : List ℕ) → other ≢ name → stat m' other ≡ stat m other)
Outcome dev d m name xs room (m', d', err e) =
    SameView m m'
    ⊎ ((e ≡ io)
        × ((first : ℕ) × (stat m' name ≡ ok (first, length xs))
            × ((dev.write d first (sectors_of xs) (padded xs)).1 ≡ blk_ok)
            × ((dev.write (dev.write d first (sectors_of xs) (padded xs)).0 0 data_start
                  (meta_bytes m')).1
                ≢ blk_ok))
        × ((other : List ℕ) → other ≢ name → stat m' other ≡ stat m other))

-- The file is in the directory, and its sectors read back.
record IsWritten {Disk : Type 0} (dev : Device Disk) (d : Disk) (m m' : Mount) (name xs : List ℕ)
    (first : ℕ) : Type 0 where
  found : find m'.dir name ≡ Directory.ok (record { first_sector = first; byte_len = length xs })
  behind : data_start ≤ first
  back : dev.read d first (sectors_of xs) ≡ (padded xs, blk_ok)
  others : (other : List ℕ) → other ≢ name → stat m' other ≡ stat m other
