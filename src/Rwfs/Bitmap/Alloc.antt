-- ===== src/Rwfs/Bitmap/Alloc.antt =====
-- First fit: what `alloc` hands out was free and is the first that fits, and `free` gives it back.
use mathlib.Core.Path.{subst}
use plinth_os.Base.{
  ℕ, sym, zero, suc, ◌+◌, ◌^◌, ◌<◌, ◌≤◌, ◌≡◌, refl, ◌∙◌, ap, ◌&&◌, true, false, none, some, length,
  arith, Bool-cases, inl, inr, ◌⊎◌, ◌==◌, ltb, leb, if◌then◌else◌,
}
use plinth_os.Rwfs.Bitmap.{
  Bytes, ok, err, out_of_space, bit, set_run, scan, claim, alloc, free, capacity,
}
use plinth_os.Rwfs.Bitmap.Bits.{AreBytes, set_run-AreBytes, length-set_run, bit-set_run}

abbrev pub IsFree : Bytes → ℕ → ℕ → Type 0
IsFree bitmap start n = (j : ℕ) → start ≤ j → j < start + n → bit bitmap j ≡ false

-- Some bit of the run is used.
abbrev pub IsBlocked : Bytes → ℕ → ℕ → Type 0
IsBlocked bitmap start n = (j : ℕ) × (start ≤ j) × (j < start + n) × (bit bitmap j ≡ true)

abbrev pub AllBlocked : Bytes → ℕ → ℕ → Type 0
AllBlocked bitmap before n = (s : ℕ) → s < before → IsBlocked bitmap s n

-- The state of the scan when it comes to bit `i`.
record Scanned (bitmap : Bytes) (n run_start run_len i : ℕ) : Type 0 where
  reached : run_start + run_len ≡ i
  short : run_len < n
  is_free : IsFree bitmap run_start run_len
  blocked : AllBlocked bitmap run_start n

Scanned-skip :
    (bitmap : Bytes) (n run_start run_len i : ℕ)
    → Scanned bitmap n run_start run_len i
    → bit bitmap i ≡ true
    → Scanned bitmap n (i + 1) 0 (i + 1)
Scanned-skip bitmap n run_start run_len i v used =
    let at = v.reached in
    let short = v.short in
    record {
      reached = omega arith;
      short = omega arith;
      is_free = λ j from below. absurd (omega arith);
      blocked = λ s lt. elim (Bool-cases (ltb s run_start)) [
        | inl before ↦ v.blocked s (ground arith)
        | inr after ↦ let from : run_start ≤ s = ground arith in (i, omega arith, omega arith, used)
      ];
    }

Scanned-more :
    (bitmap : Bytes) (n run_start run_len i : ℕ)
    → Scanned bitmap n run_start run_len i
    → bit bitmap i ≡ false
    → IsFree bitmap run_start (run_len + 1)
Scanned-more bitmap n run_start run_len i v unused j from below = elim (Bool-cases (j == i)) [
  | inl at ↦ let e : j ≡ i = ground arith in rw e unused
  | inr other ↦ v.is_free j from (ground (arith, v.reached))
]

scan-cases :
    (bitmap : Bytes) (n run_start run_len i left : ℕ)
    → Scanned bitmap n run_start run_len i
    → ((s : ℕ) × (scan bitmap n run_start run_len i left ≡ some s)
        × (s + n ≤ i + left)
        × IsFree bitmap s n
        × AllBlocked bitmap s n)
      ⊎ ((scan bitmap n run_start run_len i left ≡ none)
          × ((s : ℕ) → s + n ≤ i + left → IsBlocked bitmap s n))
unfolding scan
scan-cases bitmap n run_start run_len i zero v =
    let at = v.reached in let short = v.short in inr (refl, λ s le. v.blocked s (omega arith))
scan-cases bitmap n run_start run_len i (suc left) v = elim (Bool-cases (bit bitmap i)) [
  | inl used ↦
      elim (scan-cases bitmap n (i + 1) 0 (i + 1) left
        (Scanned-skip bitmap n run_start run_len i v used)) [
          | inl (s, found, le, unused_run, first) ↦
              inl (s, rw used found, omega arith, unused_run, first)
          | inr (failed, blocked) ↦ inr (rw used failed, λ s le. blocked s (omega arith))
        ]
  | inr unused ↦
      let unused_run = Scanned-more bitmap n run_start run_len i v unused in
      let at = v.reached in
      let short = v.short in
      elim (Bool-cases (run_len + 1 == n)) [
        | inl enough ↦
            let e : run_len + 1 ≡ n = ground arith in
            inl (
              run_start,
              rw (unused, enough) refl,
              omega arith,
              λ j from below. unused_run j from (omega arith),
              v.blocked,
            )
        | inr more ↦
            let v' : Scanned bitmap n run_start (run_len + 1) (i + 1) = record {
              reached = omega arith;
              short = ground arith;
              is_free = unused_run;
              blocked = v.blocked;
            } in
            elim (scan-cases bitmap n run_start (run_len + 1) (i + 1) left v') [
              | inl (s, found, le, unused_run', first) ↦
                  inl (s, rw (unused, more) found, omega arith, unused_run', first)
              | inr (failed, blocked) ↦
                  inr (rw (unused, more) failed, λ s le. blocked s (omega arith))
            ]
      ]
]

-- The bits of the run are used now, and no other bit has changed.
pub record Claimed (bitmap bitmap' : Bytes) (start n : ℕ) : Type 0 where
  pub AreBytes_kept : AreBytes bitmap'
  pub length_kept : length bitmap' ≡ length bitmap
  pub bits :
      (j : ℕ) → bit bitmap' j ≡ (if leb start j && ltb j (start + n) then true else bit bitmap j)

claim-Claimed :
    (bitmap : Bytes) (start n : ℕ)
    → AreBytes bitmap
    → start + n ≤ capacity (length bitmap)
    → Claimed bitmap (set_run bitmap start n true) start n
claim-Claimed bitmap start n w le = record {
  AreBytes_kept = set_run-AreBytes bitmap start n true w;
  length_kept = length-set_run bitmap start n true;
  bits = λ j. bit-set_run bitmap start n j true w le;
}

abbrev pub Allocated : Bytes → ℕ → ℕ → Type 0
Allocated bitmap total n =
    (bitmap' : Bytes) × (start : ℕ) × (alloc bitmap total n ≡ (bitmap', ok start))
    × (start + n ≤ total)
    × IsFree bitmap start n
    × AllBlocked bitmap start n
    × Claimed bitmap bitmap' start n

abbrev pub OutOfSpace : Bytes → ℕ → ℕ → Type 0
OutOfSpace bitmap total n =
    (alloc bitmap total n ≡ (bitmap, err out_of_space))
    × ((s : ℕ) → s + n ≤ total → IsBlocked bitmap s n)

alloc-eq :
    (bitmap : Bytes) (total n : ℕ)
    → 0 < n
    → n ≤ total
    → total ≤ capacity (length bitmap)
    → alloc bitmap total n ≡ claim bitmap n (scan bitmap n 0 0 0 total)
unfolding alloc
alloc-eq bitmap total n pos le fits = ground arith

-- A request for at least one and at most all sectors, on a bitmap that is large enough, is met with
-- the first run of free sectors that fits: all of it was free and lies below `total`, each run that
-- starts before it has a used sector, and afterwards exactly its sectors are marked. It is refused
-- for want of space only if no free run fits, and then changes nothing.
pub alloc-cases :
    (bitmap : Bytes) (total n : ℕ)
    → AreBytes bitmap
    → 0 < n
    → n ≤ total
    → total ≤ capacity (length bitmap)
    → Allocated bitmap total n ⊎ OutOfSpace bitmap total n
alloc-cases bitmap total n w pos le fits =
    let start_state : Scanned bitmap n 0 0 0 = record {
      reached = omega arith;
      short = pos;
      is_free = λ j from below. absurd (omega arith);
      blocked = λ s lt. absurd (omega arith);
    } in
    let eq = alloc-eq bitmap total n pos le fits in
    elim (scan-cases bitmap n 0 0 0 total start_state) [
      | inl (s, found, below, unused_run, first) ↦ inl (
        set_run bitmap s n true,
        s,
        eq ∙ ap (claim bitmap n) found,
        omega arith,
        unused_run,
        first,
        claim-Claimed bitmap s n w (omega arith),
      )
      | inr (failed, blocked) ↦
          inr (eq ∙ ap (claim bitmap n) failed, λ s below. blocked s (omega arith))
    ]

free-eq :
    (bitmap : Bytes) (total start n : ℕ)
    → total < 2 ^ 64
    → total ≤ capacity (length bitmap)
    → start + n ≤ total
    → free bitmap total start n ≡ (set_run bitmap start n false, ok tt)
unfolding free
free-eq bitmap total start n small fits le = ground arith

back_to_free :
    (bitmap bitmap' : Bytes) (start n j : ℕ)
    → IsFree bitmap start n
    → bit bitmap' j ≡ (if leb start j && ltb j (start + n) then true else bit bitmap j)
    → (if leb start j && ltb j (start + n) then false else bit bitmap' j) ≡ bit bitmap j
back_to_free bitmap bitmap' start n j unused_run was =
    elim (Bool-cases (leb start j && ltb j (start + n))) [
      | inl inside ↦ rw inside (sym (unused_run j (ground arith) (ground arith)))
      | inr outside ↦ ground (arith, was, outside)
    ]

restored :
    (bitmap bitmap' : Bytes) (total start n : ℕ)
    → total < 2 ^ 64
    → total ≤ capacity (length bitmap)
    → start + n ≤ total
    → IsFree bitmap start n
    → Claimed bitmap bitmap' start n
    → ((free bitmap' total start n).1 ≡ ok tt)
      × ((j : ℕ) → bit (free bitmap' total start n).0 j ≡ bit bitmap j)
restored bitmap bitmap' total start n small fits le unused_run c =
    let fits' : total ≤ capacity (length bitmap') = rw c.length_kept fits in
    let eq = free-eq bitmap' total start n small fits' le in
    (
      ap (λ r. r.1) eq,
      λ j.
          ap (λ r. bit r.0 j) eq
          ∙ bit-set_run bitmap' start n j false c.AreBytes_kept (omega arith)
          ∙ back_to_free bitmap bitmap' start n j unused_run (c.bits j),
    )

-- Freeing what was allocated succeeds and restores every bit of the bitmap.
pub free-alloc :
    (bitmap bitmap' : Bytes) (total n start : ℕ)
    → AreBytes bitmap
    → 0 < n
    → n ≤ total
    → total ≤ capacity (length bitmap)
    → total < 2 ^ 64
    → alloc bitmap total n ≡ (bitmap', ok start)
    → ((free bitmap' total start n).1 ≡ ok tt)
      × ((j : ℕ) → bit (free bitmap' total start n).0 j ≡ bit bitmap j)
free-alloc bitmap bitmap' total n start w pos le fits small h =
    elim (alloc-cases bitmap total n w pos le fits) [
      | inl (b, s, done, below, unused_run, first, c) ↦
          let same : b ≡ bitmap' = cc in
          let at : s ≡ start = ground (arith, done, h) in
          restored bitmap bitmap' total start n small fits (rw (← at) below)
            (subst (λ t. IsFree bitmap t n) at unused_run)
            (subst (λ t. Claimed bitmap bitmap' t n) at (subst (λ d. Claimed bitmap d s n) same c))
      | inr (failed, blocked) ↦ absurd (cc)
    ]
