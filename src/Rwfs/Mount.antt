-- ===== src/Rwfs/Mount.antt =====
-- librwfs/src/format.rs: a filesystem over a range of sectors, made of the bitmap and the directory.
--
-- `meta` is kept as its parts; `meta_bytes` is how they lie in the metadata region. The device under
-- the ring is a parameter: its state, and what a write and a read of sectors make of it.
pub mod Views
pub mod Outcome
use plinth_os.Base.{
  ℕ, zero, suc, ◌+◌, ◌-◌, ◌*◌, ◌/◌, ◌%◌, ◌^◌, ◌<◌, ◌≡◌, ◌||◌, not, Bool, true, false, List, [], ◌∷◌,
  ◌++◌, length, replicate, ◌==◌, ltb, leb, if◌then◌else◌,
}
use plinth_os.Blk.{blk_ok}
use plinth_os.Rwfs.Bitmap
use plinth_os.Rwfs.Bitmap.{Bytes, BitmapError}
use plinth_os.Rwfs.Directory
use plinth_os.Rwfs.Directory.{
  Directory, DirError, Entry, Rec, to_le_bytes, sector_count, eq_bytes, zeroed,
}

abbrev pub sector : ℕ
sector = 512

abbrev pub max_entries : ℕ
max_entries = 16

abbrev pub data_start : ℕ
data_start = 4

abbrev pub max_file_bytes : ℕ
max_file_bytes = 4096

abbrev pub meta_len : ℕ
meta_len = 2048

-- "PLNTHRW1"
abbrev pub magic : List ℕ
magic = 0x50 ∷ 0x4C ∷ 0x4E ∷ 0x54 ∷ 0x48 ∷ 0x52 ∷ 0x57 ∷ 0x31 ∷ []

pub data RwfsError : Type 0 where
  io bad_magic truncated invalid_len : RwfsError
  in_bitmap : (e : BitmapError) → RwfsError
  in_dir : (e : DirError) → RwfsError

pub data Result {ℓ} (A : Type ℓ) : Type ℓ where
  ok : (a : A) → Result A
  err : (e : RwfsError) → Result A

-- A write of the bytes of some sectors, and a read of as many, with the status of the request.
pub record Device (Disk : Type 0) : Type 0 where
  pub write : Disk → ℕ → ℕ → List ℕ → Disk × ℕ
  pub read : Disk → ℕ → ℕ → List ℕ × ℕ

pub record Mount : Type 0 where
  pub data_sectors : ℕ
  pub bitmap : Bytes
  pub dir : Directory

unfoldable pub take : ℕ → List ℕ → List ℕ
take zero xs = []
take (suc n) [] = []
take (suc n) (x ∷ xs) = x ∷ take n xs

unfoldable pub dir_bytes : Directory → List ℕ
dir_bytes [] = []
dir_bytes (r ∷ rs) = r.name ++ (r.first_sector ++ (r.byte_len ++ dir_bytes rs))

unfoldable pub meta_bytes : Mount → List ℕ
meta_bytes m =
    magic
    ++ (to_le_bytes m.data_sectors
        ++ (replicate 500 0 ++ (m.bitmap ++ (dir_bytes m.dir ++ replicate 384 0))))

unfoldable pub persist_meta :
    {Disk : Type 0} → Device Disk → Disk → Mount → Disk × Result (Unit {0})
persist_meta dev d m =
    let (d', status) = dev.write d 0 data_start (meta_bytes m) in
    (d', if status == blk_ok then ok tt else err io)

abbrev pub fresh : ℕ → Mount
fresh total_sectors = record {
  data_sectors = total_sectors - data_start;
  bitmap = replicate 512 0;
  dir = replicate max_entries zeroed;
}

abbrev pub verified : Mount → List ℕ × ℕ → Result Mount
verified m (back, status) =
    if not (status == blk_ok)
    then err io
    else if not (eq_bytes (take 8 back) magic)
    then err bad_magic
    else if not (eq_bytes (take meta_len back) (meta_bytes m))
    then err io
    else ok m

abbrev pub format_written :
    {Disk : Type 0} → Device Disk → Mount → Disk × Result (Unit {0}) → Disk × Result Mount
format_written dev m (d, err e) = (d, err e)
format_written dev m (d, ok u) = (d, verified m (dev.read d 0 data_start))

unfoldable pub format : {Disk : Type 0} → Device Disk → Disk → ℕ → Disk × Result Mount
format dev d total_sectors =
    if leb total_sectors data_start
    then (d, err truncated)
    else format_written dev (fresh total_sectors) (persist_meta dev d (fresh total_sectors))

abbrev pub sectors_of : List ℕ → ℕ
sectors_of data_bytes = (length data_bytes + 511) / 512

-- The frame: the data, and zeros up to the end of its last sector.
abbrev pub padded : List ℕ → List ℕ
padded data_bytes = data_bytes ++ replicate (sectors_of data_bytes * sector - length data_bytes) 0

-- `DATA_START as u32 + rel as u32`
abbrev pub abs_sector : ℕ → ℕ
abs_sector rel = (data_start + rel % 2 ^ 32) % 2 ^ 32

abbrev pub Created : Type 0 → Type 0
Created Disk = Mount × Disk × Result (Unit {0})

abbrev pub release : Mount → ℕ → ℕ → Mount
release m rel n = record m { bitmap = (Bitmap.free m.bitmap m.data_sectors rel n).0 }

abbrev pub persisted : {Disk : Type 0} → Device Disk → Disk → Mount → Created Disk
persisted dev d m = let (d', result) = persist_meta dev d m in (m, d', result)

abbrev pub data_written :
    {Disk : Type 0} → Device Disk → Mount → List ℕ → List ℕ → ℕ → Disk × ℕ → Created Disk
data_written dev m name data_bytes rel (d, status) =
    if not (status == blk_ok)
    then (
      release (record m { dir = (Directory.remove m.dir name).0 }) rel (sectors_of data_bytes),
      d,
      err io,
    )
    else persisted dev d m

abbrev pub listed :
    {Disk : Type 0}
    → Device Disk
    → Disk
    → Mount
    → List ℕ
    → List ℕ
    → ℕ
    → Directory × Directory.Result (Unit {0})
    → Created Disk
listed dev d m name data_bytes rel (dir, Directory.err e) =
    (release (record m { dir = dir }) rel (sectors_of data_bytes), d, err (in_dir e))
listed dev d m name data_bytes rel (dir, Directory.ok u) =
    data_written dev (record m { dir = dir }) name data_bytes rel
      (dev.write d (abs_sector rel) (sectors_of data_bytes) (padded data_bytes))

abbrev pub allocated :
    {Disk : Type 0}
    → Device Disk
    → Disk
    → Mount
    → List ℕ
    → List ℕ
    → Bytes × Bitmap.Result ℕ
    → Created Disk
allocated dev d m name data_bytes (bitmap, Bitmap.err e) =
    (record m { bitmap = bitmap }, d, err (in_bitmap e))
allocated dev d m name data_bytes (bitmap, Bitmap.ok rel) =
    listed dev d (record m { bitmap = bitmap }) name data_bytes rel
      (Directory.create m.dir name (abs_sector rel) (length data_bytes % 2 ^ 32))

unfoldable pub create :
    {Disk : Type 0} → Device Disk → Disk → Mount → List ℕ → List ℕ → Created Disk
create dev d m name data_bytes =
    if length data_bytes == 0 || ltb max_file_bytes (length data_bytes)
    then (m, d, err invalid_len)
    else allocated dev d m name data_bytes
        (Bitmap.alloc m.bitmap m.data_sectors (sectors_of data_bytes))

abbrev pub extent : Directory.Result Entry → Result (ℕ × ℕ)
extent (Directory.ok e) = ok (e.first_sector, e.byte_len)
extent (Directory.err e) = err (in_dir e)

unfoldable pub stat : Mount → List ℕ → Result (ℕ × ℕ)
stat m name = extent (Directory.find m.dir name)

abbrev pub taken : ℕ → List ℕ × ℕ → Result (List ℕ)
taken len (frame, status) = if not (status == blk_ok) then err io else ok (take len frame)

abbrev pub read_found :
    {Disk : Type 0} → Device Disk → Disk → ℕ → Directory.Result Entry → Result (List ℕ)
read_found dev d out_len (Directory.err e) = err (in_dir e)
read_found dev d out_len (Directory.ok e) =
    if ltb out_len e.byte_len
    then err invalid_len
    else taken e.byte_len (dev.read d e.first_sector (sector_count e))

-- The bytes that are copied to an `out` of `out_len` bytes.
unfoldable pub read : {Disk : Type 0} → Device Disk → Disk → Mount → List ℕ → ℕ → Result (List ℕ)
read dev d m name out_len = read_found dev d out_len (Directory.find m.dir name)

abbrev pub delete_freed :
    {Disk : Type 0} → Device Disk → Disk → Mount → Bytes × Bitmap.Result (Unit {0}) → Created Disk
delete_freed dev d m (bitmap, Bitmap.err e) = (record m { bitmap = bitmap }, d, err (in_bitmap e))
delete_freed dev d m (bitmap, Bitmap.ok u) = persisted dev d (record m { bitmap = bitmap })

abbrev pub delete_removed :
    {Disk : Type 0} → Device Disk → Disk → Mount → Directory × Directory.Result Entry → Created Disk
delete_removed dev d m (dir, Directory.err e) = (record m { dir = dir }, d, err (in_dir e))
delete_removed dev d m (dir, Directory.ok e) =
    delete_freed dev d (record m { dir = dir })
      (Bitmap.free m.bitmap m.data_sectors ((e.first_sector + 2 ^ 32 - data_start) % 2 ^ 32)
        (sector_count e))

unfoldable pub delete : {Disk : Type 0} → Device Disk → Disk → Mount → List ℕ → Created Disk
delete dev d m name = delete_removed dev d m (Directory.remove m.dir name)
