-- ===== src/Tests/DirectoryTests.antt =====
-- A directory of three slots, with the middle one in use.
use plinth_os.Base.{ℕ, ◌≡◌, ◌≢◌, refl, List, [], ◌∷◌, arith}
use plinth_os.Rwfs.Directory.{
  Directory, ok, err, not_found, zeroed, rec_of, find, create, remove, put_free, is_free, name_eq,
  up_to_nul,
}
use plinth_os.Rwfs.Directory.Find.{IsName}
use plinth_os.Rwfs.Directory.Change.{find-create}
use plinth_os.Rwfs.Directory.Unique.{IsUnique, Unnamed, remove_lem}

-- `b.txt` and `a.txt`.
abbrev b_txt : List ℕ
b_txt = 98 ∷ 46 ∷ 116 ∷ 120 ∷ 116 ∷ []

abbrev a_txt : List ℕ
a_txt = 97 ∷ 46 ∷ 116 ∷ 120 ∷ 116 ∷ []

abbrev a_txt-IsName : IsName a_txt
a_txt-IsName = record {
  filled = omega arith;
  fits = omega arith;
  clean = (
    λ e. omega arith,
    (λ e. omega arith, (λ e. omega arith, (λ e. omega arith, (λ e. omega arith, tt)))),
  );
}

abbrev files : Directory
files = zeroed ∷ rec_of b_txt 33 700 ∷ zeroed ∷ []

-- Nothing else is in use.
zeroed-IsUnique : (name : List ℕ) → Unnamed name (zeroed ∷ [])
unfolding is_free
zeroed-IsUnique name = (refl, tt)

files-IsUnique : IsUnique files
unfolding is_free
files-IsUnique = (
  λ name m. absurd (ground arith),
  (λ name m. zeroed-IsUnique name, (λ name m. absurd (ground arith), tt)),
)

find-create_example :
    (find (create files a_txt 40 9).0 a_txt ≡ ok (record { first_sector = 40; byte_len = 9 }))
    × ((other : List ℕ) → other ≢ a_txt → find (create files a_txt 40 9).0 other ≡ find files other)
unfolding create find is_free name_eq up_to_nul rec_of put_free
find-create_example = find-create files a_txt 40 9 a_txt-IsName (omega arith) (omega arith) refl

remove_lem_example :
    let (dir', result) = remove files b_txt in
    (result ≡ find files b_txt)
    × (find dir' b_txt ≡ err not_found)
    × ((other : List ℕ) → other ≢ b_txt → find dir' other ≡ find files other)
    × IsUnique dir'
remove_lem_example = remove_lem files b_txt files-IsUnique

-- A name with a NUL inside is accepted, but what is created is never found.
nul_name_created : (create files (97 ∷ 0 ∷ 98 ∷ []) 40 9).1 ≡ ok tt
unfolding create find is_free name_eq up_to_nul rec_of put_free
nul_name_created = refl

nul_name_lost : find (create files (97 ∷ 0 ∷ 98 ∷ []) 40 9).0 (97 ∷ 0 ∷ 98 ∷ []) ≡ err not_found
unfolding create find is_free name_eq up_to_nul rec_of put_free
nul_name_lost = refl
