-- ===== src/Rwfs/Directory/Unique.antt =====
-- No two files share a name, so that a file that is removed is gone.
use mathlib.Core.Path.{subst}
use plinth_os.Base.{
  ℕ, ◌≡◌, ◌≢◌, refl, sym, ◌∙◌, ap, true, false, List, [], ◌∷◌, arith, Bool-cases, inl, inr,
  if◌then◌else◌,
}
use plinth_os.Rwfs.Directory.{
  Rec, Directory, ok, err, not_found, up_to_nul, name_eq, is_free, matches, entry_of, rec_of, find,
  put_free, is_ok, create, remove,
}
use plinth_os.Rwfs.Directory.Find.{IsName, eq_bytes-eq, matches-rec_of, matches-zeroed}

abbrev pub Unnamed : List ℕ → Directory → Type 0
Unnamed name [] = Unit {0}
Unnamed name (r ∷ rs) = (matches r name ≡ false) × Unnamed name rs

abbrev pub IsUnique : Directory → Type 0
IsUnique [] = Unit {0}
IsUnique (r ∷ rs) = ((name : List ℕ) → matches r name ≡ true → Unnamed name rs) × IsUnique rs

find-Unnamed : (dir : Directory) (name : List ℕ) → Unnamed name dir → find dir name ≡ err not_found
unfolding find
find-Unnamed [] name u = refl
find-Unnamed (r ∷ rs) name u = rw u.0 (find-Unnamed rs name u.1)

Unnamed-absent :
    (dir : Directory) (name : List ℕ) → is_ok (find dir name) ≡ false → Unnamed name dir
unfolding find
Unnamed-absent [] name h = tt
Unnamed-absent (r ∷ rs) name h = (ground arith, Unnamed-absent rs name (ground arith))

Unnamed-put_free :
    (dir : Directory) (r : Rec) (name : List ℕ)
    → matches r name ≡ false
    → Unnamed name dir
    → Unnamed name (put_free dir r).0
unfolding put_free
Unnamed-put_free [] r name m u = tt
Unnamed-put_free (s ∷ ss) r name m u = elim (Bool-cases (is_free s)) [
  | inl here ↦ rw here (m, u.1)
  | inr taken ↦ rw taken (u.0, Unnamed-put_free ss r name m u.1)
]

IsUnique-put_free :
    (dir : Directory) (r : Rec)
    → ((name : List ℕ) → matches r name ≡ true → Unnamed name dir)
    → IsUnique dir
    → IsUnique (put_free dir r).0
unfolding put_free
IsUnique-put_free [] r fresh u = tt
IsUnique-put_free (s ∷ ss) r fresh u = elim (Bool-cases (is_free s)) [
  | inl here ↦ rw here (λ name m. (fresh name m).1, u.1)
  | inr taken ↦ rw taken (
    λ name m. Unnamed-put_free ss r name (apart name m) (u.0 name m),
    IsUnique-put_free ss r (λ name m. (fresh name m).1) u.1,
  )
]
  where
    apart : (name : List ℕ) → matches s name ≡ true → matches r name ≡ false
    apart name m = elim (Bool-cases (matches r name)) [
      | inl both ↦ absurd (ground (arith, (fresh name both).0))
      | inr other ↦ other
    ]

Unnamed-remove :
    (dir : Directory) (gone name : List ℕ) → Unnamed name dir → Unnamed name (remove dir gone).0
unfolding remove
Unnamed-remove [] gone name u = tt
Unnamed-remove (r ∷ rs) gone name u = elim (Bool-cases (matches r gone)) [
  | inl here ↦ rw here (matches-zeroed name, u.1)
  | inr other ↦ rw other (u.0, Unnamed-remove rs gone name u.1)
]

IsUnique-remove : (dir : Directory) (gone : List ℕ) → IsUnique dir → IsUnique (remove dir gone).0
unfolding remove
IsUnique-remove [] gone u = tt
IsUnique-remove (r ∷ rs) gone u = elim (Bool-cases (matches r gone)) [
  | inl here ↦ rw here (λ name m. absurd (ground (arith, matches-zeroed name)), u.1)
  | inr other ↦
      rw other (λ name m. Unnamed-remove rs gone name (u.0 name m), IsUnique-remove rs gone u.1)
]

same_name : (r : Rec) (x y : List ℕ) → matches r x ≡ true → matches r y ≡ true → x ≡ y
unfolding name_eq
same_name r x y m n =
    sym (eq_bytes-eq (up_to_nul r.name) x (ground arith))
    ∙ eq_bytes-eq (up_to_nul r.name) y (ground arith)

remove-found : (dir : Directory) (name : List ℕ) → (remove dir name).1 ≡ find dir name
unfolding remove find
remove-found [] name = refl
remove-found (r ∷ rs) name = ground (arith, remove-found rs name)

remove-other :
    (dir : Directory) (name other : List ℕ)
    → other ≢ name
    → find (remove dir name).0 other ≡ find dir other
unfolding remove find
remove-other [] name other ne = refl
remove-other (r ∷ rs) name other ne = elim (Bool-cases (matches r name)) [
  | inl here ↦ rw (here, matches-zeroed other, apart here) refl
  | inr missed ↦
      rw missed
        (ap (λ e. if matches r other then ok (entry_of r) else e) (remove-other rs name other ne))
]
  where
    apart : matches r name ≡ true → matches r other ≡ false
    apart here = elim (Bool-cases (matches r other)) [
      | inl both ↦ absurd (ne (same_name r other name both here))
      | inr differs ↦ differs
    ]

remove-Unnamed : (dir : Directory) (name : List ℕ) → IsUnique dir → Unnamed name (remove dir name).0
unfolding remove
remove-Unnamed [] name u = tt
remove-Unnamed (r ∷ rs) name u = elim (Bool-cases (matches r name)) [
  | inl here ↦ rw here (matches-zeroed name, u.0 name here)
  | inr other ↦ rw other (other, remove-Unnamed rs name u.1)
]

-- In a directory without two files of one name, `remove` returns what its name found, after which
-- the name finds nothing, every other name finds what it found, and still no two files share a name.
pub remove_lem :
    (dir : Directory) (name : List ℕ)
    → IsUnique dir
    → let (dir', result) = remove dir name in
      (result ≡ find dir name)
      × (find dir' name ≡ err not_found)
      × ((other : List ℕ) → other ≢ name → find dir' other ≡ find dir other)
      × IsUnique dir'
remove_lem dir name u = (
  remove-found dir name,
  find-Unnamed (remove dir name).0 name (remove-Unnamed dir name u),
  remove-other dir name,
  IsUnique-remove dir name u,
)

create_duplicate :
    (dir : Directory) (name : List ℕ) (s b : ℕ)
    → IsName name
    → is_ok (find dir name) ≡ true
    → (create dir name s b).0 ≡ dir
unfolding create
create_duplicate dir name s b v there = ground (arith, v.filled, v.fits)

create_new :
    (dir : Directory) (name : List ℕ) (s b : ℕ)
    → IsName name
    → is_ok (find dir name) ≡ false
    → (create dir name s b).0 ≡ (put_free dir (rec_of name s b)).0
unfolding create
create_new dir name s b v absent = ground (arith, v.filled, v.fits)

fresh_rec :
    (dir : Directory) (name : List ℕ) (s b : ℕ)
    → IsName name
    → is_ok (find dir name) ≡ false
    → (other : List ℕ) → matches (rec_of name s b) other ≡ true
    → Unnamed other dir
fresh_rec dir name s b v absent other m =
    subst (λ n. Unnamed n dir) (eq_bytes-eq name other (sym (matches-rec_of name other s b v) ∙ m))
      (Unnamed-absent dir name absent)

-- `create` of a valid name without a NUL keeps names unique, whether it succeeds or not.
pub create-IsUnique :
    (dir : Directory) (name : List ℕ) (s b : ℕ)
    → IsName name
    → IsUnique dir
    → IsUnique (create dir name s b).0
create-IsUnique dir name s b v u = elim (Bool-cases (is_ok (find dir name))) [
  | inl there ↦ subst IsUnique (sym (create_duplicate dir name s b v there)) u
  | inr absent ↦
      subst IsUnique (sym (create_new dir name s b v absent))
        (IsUnique-put_free dir (rec_of name s b) (fresh_rec dir name s b v absent) u)
]
