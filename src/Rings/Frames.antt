-- ===== src/Rings/Frames.antt =====
-- What the kernel writes of a completion: one entry and the tail of the frame, and nothing else.
use mathlib.Core.Path.{subst}
use plinth_os.Base.{
  ℕ, zero, suc, ◌+◌, ◌*◌, ◌/◌, ◌%◌, ◌^◌, ◌<◌, ◌≤◌, ◌≡◌, ◌≢◌, refl, sym, ap, ap₂, List, [], ◌∷◌,
  ◌++◌, arith, ◌==◌, if◌then◌else◌, ◌⊎◌, inl, inr,
}
use plinth_os.Base.Bits.{IsSize, places_apart}
use plinth_os.Rings.{Mem, r64, cq_entry, hdr_tail, write_completion, next}

-- The word at `p` after a completion is written.
word_after :
    (mem : Mem) (base slot t ud st p : ℕ)
    → write_completion mem base slot t ud st p ≡ (
        if p == base + 4
        then t
        else if p == base + 16 + slot * 16 + 12
        then 0
        else if p == base + 16 + slot * 16 + 8
        then st % 2 ^ 32
        else if p == base + 16 + slot * 16 + 4
        then ud / 2 ^ 32 % 2 ^ 32
        else if p == base + 16 + slot * 16
        then ud % 2 ^ 32
        else mem p)
unfolding write_completion
word_after mem base slot t ud st p = refl

abbrev pub entry_at : Mem → ℕ → ℕ → ℕ × ℕ
entry_at mem base slot = (r64 mem (cq_entry base slot), mem (cq_entry base slot + 8))

-- A frame of `n` entries that starts at `base`: no word outside of it, and not the head, changes.
pub outside_frame :
    (mem : Mem) (base slot t ud st p : ℕ)
    → slot < 64
    → (p < base + 4) ⊎ (base + 4096 ≤ p)
    → write_completion mem base slot t ud st p ≡ mem p
outside_frame mem base slot t ud st p lt (inl before) =
    ground (arith, word_after mem base slot t ud st p)
outside_frame mem base slot t ud st p lt (inr behind) =
    ground (arith, word_after mem base slot t ud st p)

pub tail_after :
    (mem : Mem) (base slot t ud st : ℕ)
    → write_completion mem base slot t ud st (base + hdr_tail) ≡ t
tail_after mem base slot t ud st = ground (arith, word_after mem base slot t ud st (base + 4))

pub entry_after :
    (mem : Mem) (base slot t ud st : ℕ)
    → ud < 2 ^ 64
    → entry_at (write_completion mem base slot t ud st) base slot ≡ (ud, st % 2 ^ 32)
entry_after mem base slot t ud st lt =
    let e = base + 16 + slot * 16 in
    let low : write_completion mem base slot t ud st e ≡ ud % 2 ^ 32 =
      ground (arith, word_after mem base slot t ud st e) in
    let high : write_completion mem base slot t ud st (e + 4) ≡ ud / 2 ^ 32 % 2 ^ 32 =
      ground (arith, word_after mem base slot t ud st (e + 4)) in
    let status : write_completion mem base slot t ud st (e + 8) ≡ st % 2 ^ 32 =
      ground (arith, word_after mem base slot t ud st (e + 8)) in
    let whole : ud % 2 ^ 32 + 2 ^ 32 * (ud / 2 ^ 32 % 2 ^ 32) ≡ ud = omega arith in
    ap₂ (λ (x y : ℕ). (x, y)) (omega arith) status

pub entry_other :
    (mem : Mem) (base slot other t ud st : ℕ)
    → other ≢ slot
    → entry_at (write_completion mem base slot t ud st) base other ≡ entry_at mem base other
entry_other mem base slot other t ud st ne =
    let e = base + 16 + other * 16 in
    let low : write_completion mem base slot t ud st e ≡ mem e =
      ground (arith, word_after mem base slot t ud st e) in
    let high : write_completion mem base slot t ud st (e + 4) ≡ mem (e + 4) =
      ground (arith, word_after mem base slot t ud st (e + 4)) in
    let status : write_completion mem base slot t ud st (e + 8) ≡ mem (e + 8) =
      ground (arith, word_after mem base slot t ud st (e + 8)) in
    ap₂ (λ (x y : ℕ). (x, y)) (omega arith) status

-- The `n` entries from index `h` on, oldest first.
unfoldable pub entries_from : Mem → ℕ → ℕ → ℕ → ℕ → List (ℕ × ℕ)
entries_from mem base size h zero = []
entries_from mem base size h (suc n) =
    entry_at mem base (h % size) ∷ entries_from mem base size (next h) n

-- A completion at index `w`, at least `n` and less than the size ahead of `h`, is no entry of these.
pub entries_kept :
    {size : ℕ} (mem : Mem) (base h n d t ud st : ℕ)
    → IsSize size
    → n ≤ d
    → d < size
    → entries_from (write_completion mem base ((h + d) % 2 ^ 32 % size) t ud st) base size h n
      ≡ entries_from mem base size h n
unfolding entries_from
entries_kept mem base h zero d t ud st z le lt = refl
entries_kept {size} mem base h (suc n) zero t ud st z le lt = absurd (omega arith)
entries_kept {size} mem base h (suc n) (suc d) t ud st z le lt =
    let same : (h + suc d) % 2 ^ 32 ≡ (next h + d) % 2 ^ 32 = omega arith in
    ap₂ (λ (x : ℕ × ℕ) xs. x ∷ xs)
      (entry_other mem base ((h + suc d) % 2 ^ 32 % size) (h % size) t ud st
        (places_apart h (suc d) z (omega arith) lt))
      (subst
        (λ w.
          entries_from (write_completion mem base (w % size) t ud st) base size (next h) n
          ≡ entries_from mem base size (next h) n)
        (sym same) (entries_kept mem base (next h) n d t ud st z (omega arith) (omega arith)))

-- With the entry that is written at its end.
pub entries_grown :
    {size : ℕ} (mem : Mem) (base h n t ud st : ℕ)
    → IsSize size
    → n < size
    → ud < 2 ^ 64
    → h < 2 ^ 32
    → entries_from (write_completion mem base ((h + n) % 2 ^ 32 % size) t ud st) base size h (suc n)
      ≡ entries_from mem base size h n ++ (ud, st % 2 ^ 32) ∷ []
unfolding entries_from
entries_grown {size} mem base h zero t ud st z lt fits in_range =
    let same : h ≡ (h + 0) % 2 ^ 32 = omega arith in
    ap (λ (x : ℕ × ℕ). x ∷ [])
      (subst
        (λ w.
          entry_at (write_completion mem base ((h + 0) % 2 ^ 32 % size) t ud st) base (w % size)
          ≡ (ud, st % 2 ^ 32))
        (sym same) (entry_after mem base ((h + 0) % 2 ^ 32 % size) t ud st fits))
entries_grown {size} mem base h (suc n) t ud st z lt fits in_range =
    let same : (h + suc n) % 2 ^ 32 ≡ (next h + n) % 2 ^ 32 = omega arith in
    ap₂ (λ (x : ℕ × ℕ) xs. x ∷ xs)
      (entry_other mem base ((h + suc n) % 2 ^ 32 % size) (h % size) t ud st
        (places_apart h (suc n) z (omega arith) lt))
      (subst
        (λ w.
          entries_from (write_completion mem base (w % size) t ud st) base size (next h) (suc n)
          ≡ entries_from mem base size (next h) n ++ (ud, st % 2 ^ 32) ∷ [])
        (sym same) (entries_grown mem base (next h) n t ud st z (omega arith) fits (omega arith)))
