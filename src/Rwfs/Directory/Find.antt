-- ===== src/Rwfs/Directory/Find.antt =====
-- What a record is found by: the name that it was written with, and no other.
use plinth_os.Base.{
  ℕ, zero, suc, ◌^◌, ◌<◌, ◌≤◌, ◌≡◌, ◌≢◌, refl, true, false, List, [], ◌∷◌, ◌++◌, length, replicate,
  arith, Bool-cases, inl, inr,
}
use plinth_os.Rwfs.Directory.{
  rd_u32, to_le_bytes, eq_bytes, up_to_nul, name_eq, is_free, matches, entry_of, rec_of, zeroed,
  name_len,
}

pub eq_bytes-eq : (xs ys : List ℕ) → eq_bytes xs ys ≡ true → xs ≡ ys
eq_bytes-eq [] [] h = refl
eq_bytes-eq [] (y ∷ ys) h = cc
eq_bytes-eq (x ∷ xs) [] h = cc
eq_bytes-eq (x ∷ xs) (y ∷ ys) h =
    let rest = eq_bytes-eq xs ys (ground arith) in let at : x ≡ y = ground arith in cc

pub eq_bytes_refl : (xs : List ℕ) → eq_bytes xs xs ≡ true
eq_bytes_refl [] = refl
eq_bytes_refl (x ∷ xs) = ground (arith, eq_bytes_refl xs)

abbrev pub NoNul : List ℕ → Type 0
NoNul [] = Unit {0}
NoNul (b ∷ bs) = (b ≢ 0) × NoNul bs

up_to_nul-zeros : (n : ℕ) → up_to_nul (replicate n 0) ≡ []
unfolding up_to_nul
up_to_nul-zeros zero = refl
up_to_nul-zeros (suc n) = refl

pub up_to_nul-padded :
    (name : List ℕ) (n : ℕ) → NoNul name → up_to_nul (name ++ replicate n 0) ≡ name
unfolding up_to_nul
up_to_nul-padded [] n h = up_to_nul-zeros n
up_to_nul-padded (b ∷ bs) n h = ground (arith, h.0, up_to_nul-padded bs n h.1)

rd_u32-to_le_bytes : (n : ℕ) → n < 2 ^ 32 → rd_u32 (to_le_bytes n) ≡ n
unfolding rd_u32 to_le_bytes
rd_u32-to_le_bytes n lt = omega arith

-- A valid name: neither empty nor too long, and with no NUL.
pub record IsName (name : List ℕ) : Type 0 where
  pub filled : 0 < length name
  pub fits : length name ≤ name_len
  pub clean : NoNul name

pub entry_of-rec_of :
    (name : List ℕ) (first_sector byte_len : ℕ)
    → first_sector < 2 ^ 32
    → byte_len < 2 ^ 32
    → entry_of (rec_of name first_sector byte_len)
      ≡ record { first_sector = first_sector; byte_len = byte_len }
unfolding entry_of rec_of
entry_of-rec_of name s b lt below = rw (rd_u32-to_le_bytes s lt, rd_u32-to_le_bytes b below) refl

name_of-rec_of : (name : List ℕ) (s b : ℕ) → NoNul name → up_to_nul (rec_of name s b).name ≡ name
unfolding rec_of
name_of-rec_of name s b h = up_to_nul-padded name _ h

live-rec_of :
    (name : List ℕ) (s b : ℕ) → 0 < length name → NoNul name → is_free (rec_of name s b) ≡ false
unfolding is_free rec_of
live-rec_of [] s b lt c = absurd (omega arith)
live-rec_of (x ∷ xs) s b lt c = ground (arith, c.0)

pub matches-rec_of :
    (name other : List ℕ) (s b : ℕ)
    → IsName name
    → matches (rec_of name s b) other ≡ eq_bytes name other
unfolding name_eq
matches-rec_of name other s b v =
    rw (live-rec_of name s b v.filled v.clean, name_of-rec_of name s b v.clean) refl

pub matches-zeroed : (name : List ℕ) → matches zeroed name ≡ false
unfolding is_free
matches-zeroed name = refl

pub eq_bytes-ne : (xs ys : List ℕ) → xs ≢ ys → eq_bytes xs ys ≡ false
eq_bytes-ne xs ys ne = elim (Bool-cases (eq_bytes xs ys)) [
  | inl same ↦ absurd (ne (eq_bytes-eq xs ys same))
  | inr other ↦ other
]
