-- ===== src/Rwfs/Directory.antt =====
-- librwfs/src/directory.rs: a table of named extents whose slots are used again.
--
-- The directory is the list of its records, and a record its three fields, each in bytes: the name
-- at offset 0, `first_sector` at 32 and `byte_len` at 36. Bytes behind the last whole record are
-- never read.
pub mod Find
pub mod Change
pub mod Unique
use plinth_os.Base.{
  ℕ, zero, suc, ◌+◌, ◌-◌, ◌*◌, ◌/◌, ◌%◌, ◌<◌, ◌≡◌, ◌&&◌, ◌||◌, not, Bool, true, false, List, [],
  ◌∷◌, ◌++◌, length, get_or, replicate, ◌==◌, ltb, if◌then◌else◌,
}

abbrev pub name_len : ℕ
name_len = 32

pub data DirError : Type 0 where
  full not_found duplicate invalid_name : DirError

pub data Result {ℓ} (A : Type ℓ) : Type ℓ where
  ok : (a : A) → Result A
  err : (e : DirError) → Result A

pub record Entry : Type 0 where
  pub first_sector : ℕ
  pub byte_len : ℕ

unfoldable pub sector_count : Entry → ℕ
sector_count e = (e.byte_len + 511) / 512

pub record Rec : Type 0 where
  pub name : List ℕ
  pub first_sector : List ℕ
  pub byte_len : List ℕ

abbrev pub Directory : Type 0
Directory = List Rec

abbrev pub byte : List ℕ → ℕ → ℕ
byte b i = get_or b i 0

-- `from_le_bytes` and `to_le_bytes` of a `u32`.
unfoldable pub rd_u32 : List ℕ → ℕ
rd_u32 b = byte b 0 + 256 * byte b 1 + 65536 * byte b 2 + 16777216 * byte b 3

unfoldable pub to_le_bytes : ℕ → List ℕ
to_le_bytes n = n % 256 ∷ n / 256 % 256 ∷ n / 65536 % 256 ∷ n / 16777216 % 256 ∷ []

abbrev pub eq_bytes : List ℕ → List ℕ → Bool
eq_bytes [] [] = true
eq_bytes [] (_ ∷ _) = false
eq_bytes (_ ∷ _) [] = false
eq_bytes (x ∷ xs) (y ∷ ys) = (x == y) && eq_bytes xs ys

-- The bytes in front of the first NUL, or all of them.
unfoldable pub up_to_nul : List ℕ → List ℕ
up_to_nul [] = []
up_to_nul (b ∷ bs) = let rest = up_to_nul bs in if b == 0 then [] else b ∷ rest

unfoldable pub name_eq : List ℕ → List ℕ → Bool
name_eq field name = eq_bytes (up_to_nul field) name

unfoldable pub is_free : Rec → Bool
is_free r = byte r.name 0 == 0

abbrev pub matches : Rec → List ℕ → Bool
matches r name = not (is_free r) && name_eq r.name name

unfoldable pub entry_of : Rec → Entry
entry_of r = record { first_sector = rd_u32 r.first_sector; byte_len = rd_u32 r.byte_len }

unfoldable pub find : Directory → List ℕ → Result Entry
find [] name = err not_found
find (r ∷ rs) name = let rest = find rs name in if matches r name then ok (entry_of r) else rest

-- `fill(0)` and the three copies.
unfoldable pub rec_of : List ℕ → ℕ → ℕ → Rec
rec_of name first_sector byte_len = record {
  name = name ++ replicate (name_len - length name) 0;
  first_sector = to_le_bytes first_sector;
  byte_len = to_le_bytes byte_len;
}

abbrev pub zeroed : Rec
zeroed = record { name = replicate 32 0; first_sector = replicate 4 0; byte_len = replicate 4 0 }

-- The record goes to the first free slot, if there is one.
unfoldable pub put_free : Directory → Rec → Directory × Bool
put_free [] r = ([], false)
put_free (s ∷ ss) r =
    let (ss', done) = put_free ss r in if is_free s then (r ∷ ss, true) else (s ∷ ss', done)

abbrev pub is_ok {ℓ} : {A : Type ℓ} → Result A → Bool
is_ok (ok a) = true
is_ok (err e) = false

abbrev pub put_or_full : Directory × Bool → Directory × Result (Unit {0})
put_or_full (dir, done) = (dir, if done then ok tt else err full)

unfoldable pub create : Directory → List ℕ → ℕ → ℕ → Directory × Result (Unit {0})
create dir name first_sector byte_len =
    if length name == 0 || ltb name_len (length name)
    then (dir, err invalid_name)
    else if is_ok (find dir name)
    then (dir, err duplicate)
    else put_or_full (put_free dir (rec_of name first_sector byte_len))

unfoldable pub remove : Directory → List ℕ → Directory × Result Entry
remove [] name = ([], err not_found)
remove (r ∷ rs) name =
    let (rs', result) = remove rs name in
    if matches r name then (zeroed ∷ rs, ok (entry_of r)) else (r ∷ rs', result)
