-- ===== src/Rwfs/Directory/Change.antt =====
-- The directory is a map from names to extents: what `create` and `remove` change of `find`.
use plinth_os.Base.{
  ℕ, ◌^◌, ◌<◌, ◌≡◌, ◌≢◌, refl, sym, ◌∙◌, ap, true, false, List, [], ◌∷◌, arith, Bool-cases, inl,
  inr,
}
use plinth_os.Rwfs.Directory.{
  Rec, Directory, ok, is_free, matches, entry_of, rec_of, find, put_free, is_ok, create,
}
use plinth_os.Rwfs.Directory.Find.{
  IsName, eq_bytes-ne, eq_bytes_refl, matches-rec_of, entry_of-rec_of,
}

-- A record that is written to a free slot is found, if no record had its name.
find-put_free :
    (dir : Directory) (r : Rec) (name : List ℕ)
    → (put_free dir r).1 ≡ true
    → is_ok (find dir name) ≡ false
    → matches r name ≡ true
    → find (put_free dir r).0 name ≡ ok (entry_of r)
unfolding put_free find
find-put_free [] r name put absent m = cc
find-put_free (s ∷ ss) r name put absent m = elim (Bool-cases (is_free s)) [
  | inl here ↦ rw here (rw m refl)
  | inr taken ↦
      let other : matches s name ≡ false = ground arith in
      let ih = find-put_free ss r name (ground arith) (ground arith) m in
      ground (arith, taken, other, ih)
]

-- Any other name finds what it found.
find-put_free_other :
    (dir : Directory) (r : Rec) (other : List ℕ)
    → matches r other ≡ false
    → find (put_free dir r).0 other ≡ find dir other
unfolding put_free find
find-put_free_other [] r other m = refl
find-put_free_other (s ∷ ss) r other m = elim (Bool-cases (is_free s)) [
  | inl here ↦ ground (arith, here, m)
  | inr taken ↦ let ih = find-put_free_other ss r other m in ground (arith, taken, ih)
]

create-eq :
    (dir : Directory) (name : List ℕ) (s b : ℕ)
    → (create dir name s b).1 ≡ ok tt
    → (is_ok (find dir name) ≡ false)
      × ((put_free dir (rec_of name s b)).1 ≡ true)
      × ((create dir name s b).0 ≡ (put_free dir (rec_of name s b)).0)
unfolding create
create-eq dir name s b h = (ground arith, ground arith, ground arith)

-- A file that is created is found under its name with the extent that it was given, and every other
-- name finds what it found before. The name is a valid one without a NUL, and the extent fits `u32`.
pub find-create :
    (dir : Directory) (name : List ℕ) (s b : ℕ)
    → IsName name
    → s < 2 ^ 32
    → b < 2 ^ 32
    → (create dir name s b).1 ≡ ok tt
    → (find (create dir name s b).0 name ≡ ok (record { first_sector = s; byte_len = b }))
      × ((other : List ℕ) → other ≢ name → find (create dir name s b).0 other ≡ find dir other)
find-create dir name s b v lt below h =
    let (absent, put, eq) = create-eq dir name s b h in
    let found : matches (rec_of name s b) name ≡ true =
      matches-rec_of name name s b v ∙ eq_bytes_refl name in
    (
      ap (λ d. find d name) eq
          ∙ find-put_free dir (rec_of name s b) name put absent found
          ∙ ap ok (entry_of-rec_of name s b lt below),
      λ other ne.
          ap (λ d. find d other) eq
          ∙ find-put_free_other dir (rec_of name s b) other
              (matches-rec_of name other s b v ∙ eq_bytes-ne name other (λ e. ne (sym e))),
    )
