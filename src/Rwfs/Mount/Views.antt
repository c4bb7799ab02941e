-- ===== src/Rwfs/Mount/Views.antt =====
-- What a mount shows: the extent of each name, and which sectors are taken.
use mathlib.Core.Path.{subst}
use plinth_os.Base.{
  ℕ, zero, suc, ◌+◌, ◌^◌, ◌<◌, ◌≤◌, ◌≡◌, ◌≢◌, refl, sym, ap, ◌∙◌, true, false, List, [], ◌∷◌, ◌++◌,
  length, replicate, get_or-replicate, arith, ◌==◌, ltb, ◌||◌, ◌⊎◌, inl, inr, Bool-cases,
  Option-cases,
}
use plinth_os.Rwfs.Bitmap
use plinth_os.Rwfs.Bitmap.{Bytes, bit, capacity, alloc, free, scan, BitmapError}
use plinth_os.Rwfs.Bitmap.Bits.{AreBytes}
use plinth_os.Rwfs.Bitmap.Alloc.{alloc-cases, free-alloc}
use plinth_os.Rwfs.Directory
use plinth_os.Rwfs.Directory.{
  Directory, DirError, Rec, Entry, find, zeroed, put_free, rec_of, is_free, is_ok, eq_bytes,
  not_found, matches, remove, name_len,
}
use plinth_os.Rwfs.Directory.Find.{matches-zeroed, eq_bytes-eq, eq_bytes_refl}
use plinth_os.Rwfs.Directory.Unique.{IsUnique}
use plinth_os.Rwfs.Mount.{Mount, fresh, stat, take}

-- The same files in the same places, and the same sectors taken.
pub record SameView (m m' : Mount) : Type 0 where
  pub files : (name : List ℕ) → stat m' name ≡ stat m name
  pub space : (j : ℕ) → bit m'.bitmap j ≡ bit m.bitmap j

-- A mount as `format` makes it and `create` and `delete` keep it.
pub record IsMount (m : Mount) : Type 0 where
  pub bytes : AreBytes m.bitmap
  pub fits : m.data_sectors ≤ capacity (length m.bitmap)
  pub small : m.data_sectors < 2 ^ 31
  pub names : IsUnique m.dir

zeroed-IsUnique : (n : ℕ) → IsUnique (replicate n zeroed)
zeroed-IsUnique zero = tt
zeroed-IsUnique (suc n) =
    (λ name m. absurd (ground (arith, m, matches-zeroed name)), zeroed-IsUnique n)

-- A filesystem that is formatted over a range that its bitmap can describe.
pub fresh-IsMount : (total_sectors : ℕ) → total_sectors ≤ 4100 → IsMount (fresh total_sectors)
unfolding AreBytes
fresh-IsMount total_sectors le = record {
  bytes = λ i. let zero_byte = get_or-replicate {A = ℕ} 512 i 0 in omega (arith, zero_byte);
  fits = omega arith;
  small = omega arith;
  names = zeroed-IsUnique 16;
}

pub alloc-err :
    (bitmap : Bytes) (total n : ℕ) (bitmap' : Bytes) (e : BitmapError)
    → alloc bitmap total n ≡ (bitmap', Bitmap.err e)
    → bitmap' ≡ bitmap
unfolding alloc
alloc-err bitmap total n bitmap' e h =
    elim (Bool-cases (n == 0 || ltb total n || ltb (capacity (length bitmap)) total)) [
      | inl bad ↦
          let here : (bitmap, Bitmap.err Bitmap.out_of_range) ≡ (bitmap', Bitmap.err e) =
            sym (rw bad refl) ∙ h in
          sym (ap (λ r. r.0) here)
      | inr good ↦ elim (Option-cases (scan bitmap n 0 0 0 total)) [
        | inl nowhere ↦
            let here : (bitmap, Bitmap.err Bitmap.out_of_space) ≡ (bitmap', Bitmap.err e) =
              sym (rw (good, nowhere) refl) ∙ h in
            sym (ap (λ r. r.0) here)
        | inr (start, found) ↦
            let here : (Bitmap.set_run bitmap start n true, Bitmap.ok start)
                ≡ (bitmap', Bitmap.err e) =
              sym (rw (good, found) refl) ∙ h in
            absurd (cc)
      ]
    ]

pub alloc-few :
    (bitmap : Bytes) (total n : ℕ) (bitmap' : Bytes) (start : ℕ)
    → alloc bitmap total n ≡ (bitmap', Bitmap.ok start)
    → n ≤ total
unfolding alloc
alloc-few bitmap total n bitmap' start h =
    elim (Bool-cases (n == 0 || ltb total n || ltb (capacity (length bitmap)) total)) [
      | inl bad ↦
          let here : (bitmap, Bitmap.err Bitmap.out_of_range) ≡ (bitmap', Bitmap.ok start) =
            sym (rw bad refl) ∙ h in
          absurd (cc)
      | inr good ↦ ground (arith, good)
    ]

-- An allocation lies within the sectors, and freeing it brings every bit back.
pub alloc-released :
    (m : Mount) (n : ℕ) (bitmap' : Bytes) (start : ℕ)
    → IsMount m
    → 0 < n
    → alloc m.bitmap m.data_sectors n ≡ (bitmap', Bitmap.ok start)
    → (start + n ≤ m.data_sectors)
      × ((j : ℕ) → bit (free bitmap' m.data_sectors start n).0 j ≡ bit m.bitmap j)
alloc-released m n bitmap' start v pos h =
    let few = alloc-few m.bitmap m.data_sectors n bitmap' start h in
    let small = v.small in
    (
      elim (alloc-cases m.bitmap m.data_sectors n v.bytes pos few v.fits) [
        | inl (b, s, done, below, unused_run, first, c) ↦
            let at : s ≡ start = ground (arith, done, h) in omega (arith, at, below)
        | inr (failed, blocked) ↦ absurd (cc)
      ],
      (free-alloc m.bitmap bitmap' m.data_sectors n start v.bytes pos few v.fits
          (omega (arith, small)) h).1,
    )

find-missing :
    (dir : Directory) (name : List ℕ)
    → is_ok (find dir name) ≡ false
    → find dir name ≡ Directory.err not_found
unfolding find
find-missing [] name h = refl
find-missing (r ∷ rs) name h = elim (Bool-cases (matches r name)) [
  | inl here ↦ absurd (ground (arith, here, h))
  | inr other ↦
      let gone : is_ok (find rs name) ≡ false = sym (rw other refl) ∙ h in
      rw other (find-missing rs name gone)
]

put_free-full : (dir : Directory) (r : Rec) → (put_free dir r).1 ≡ false → (put_free dir r).0 ≡ dir
unfolding put_free
put_free-full [] r h = refl
put_free-full (s ∷ ss) r h = elim (Bool-cases (is_free s)) [
  | inl here ↦ absurd (ground (arith, here, h))
  | inr taken ↦
      let rest : (put_free ss r).1 ≡ false = sym (rw taken refl) ∙ h in
      rw taken (ap (λ xs. s ∷ xs) (put_free-full ss r rest))
]

-- A failed `create` leaves the directory, and a successful one had no file of the name.
pub create-err :
    (dir : Directory) (name : List ℕ) (s b : ℕ) (dir' : Directory) (e : DirError)
    → Directory.create dir name s b ≡ (dir', Directory.err e)
    → dir' ≡ dir
unfolding Directory.create
create-err dir name s b dir' e h =
    elim (Bool-cases (length name == 0 || ltb name_len (length name))) [
      | inl bad ↦
          let here : (dir, Directory.err Directory.invalid_name) ≡ (dir', Directory.err e) =
            sym (rw bad refl) ∙ h in
          sym (ap (λ r. r.0) here)
      | inr good ↦ elim (Bool-cases (is_ok (find dir name))) [
        | inl there ↦
            let here : (dir, Directory.err Directory.duplicate) ≡ (dir', Directory.err e) =
              sym (rw (good, there) refl) ∙ h in
            sym (ap (λ r. r.0) here)
        | inr absent ↦ elim (Bool-cases ((put_free dir (rec_of name s b)).1)) [
          | inl put ↦
              let result : Directory.ok tt ≡ Directory.err e =
                sym (rw (good, absent, put) refl) ∙ ap (λ r. r.1) h in
              absurd (cc)
          | inr none_free ↦
              let same : (put_free dir (rec_of name s b)).0 ≡ dir' =
                sym (rw (good, absent) refl) ∙ ap (λ r. r.0) h in
              sym same ∙ put_free-full dir (rec_of name s b) none_free
        ]
      ]
    ]

pub create-absent :
    (dir : Directory) (name : List ℕ) (s b : ℕ)
    → (Directory.create dir name s b).1 ≡ Directory.ok tt
    → find dir name ≡ Directory.err not_found
unfolding Directory.create
create-absent dir name s b h = find-missing dir name (ground arith)

pub take-all : (xs ys : List ℕ) → take (length xs) (xs ++ ys) ≡ xs
unfolding take
take-all [] ys = refl
take-all (x ∷ xs) ys = ap (λ zs. x ∷ zs) (take-all xs ys)

-- A name is the one given, or differs from it.
pub name-cases : (a b : List ℕ) → (a ≡ b) ⊎ (a ≢ b)
name-cases a b = elim (Bool-cases (eq_bytes a b)) [
  | inl same ↦ inl (eq_bytes-eq a b same)
  | inr other ↦
      inr
        (λ e. absurd (ground (arith, other, subst (λ x. eq_bytes a x ≡ true) e (eq_bytes_refl a))))
]
