-- ===== src/UserHeap/Cover.antt =====
-- How many spans cover an address, and how the free list changes that.
use plinth_os.Base.{
  ℕ, zero, suc, ◌+◌, ◌-◌, ◌≤◌, ◌≡◌, refl, ap, Option, none, some, List, [], ◌∷◌, ◌++◌, replicate,
  arith, ltb, leb, not, ◌&&◌, if◌then◌else◌, Bool-cases, inl, inr,
}
use plinth_os.UserHeap.{Span, Spans, rest_of, take_span, put_span, align}

-- 1 if the address is in the span.
unfoldable pub cover : Span → ℕ → ℕ
cover s a = if leb s.at a && ltb a (s.at + s.size) then 1 else 0

abbrev pub cover_some : Option Span → ℕ → ℕ
cover_some none a = 0
cover_some (some s) a = cover s a

unfoldable pub covers_free : Spans → ℕ → ℕ
covers_free [] a = 0
covers_free (s ∷ ss) a = cover_some s a + covers_free ss a

unfoldable pub covers : List Span → ℕ → ℕ
covers [] a = 0
covers (s ∷ ss) a = cover s a + covers ss a

pub covers-append : (xs ys : List Span) (a : ℕ) → covers (xs ++ ys) a ≡ covers xs a + covers ys a
unfolding covers
covers-append [] ys a = omega arith
covers-append (x ∷ xs) ys a = omega (arith, covers-append xs ys a)

pub covers_free-none : (n a : ℕ) → covers_free (replicate n none) a ≡ 0
unfolding covers_free
covers_free-none zero a = refl
covers_free-none (suc n) a = omega (arith, covers_free-none n a)

rest_of-cover :
    (s : Span) (size a : ℕ)
    → size ≤ s.size
    → cover_some (rest_of s size) a + cover (record { at = s.at; size = size }) a ≤ cover s a
unfolding cover
rest_of-cover s size a le = elim (Bool-cases (not (ltb (s.size - size) align))) [
  | inl more ↦ rw more (ground arith)
  | inr little ↦ rw little (ground arith)
]

abbrev pub Taken : Spans → ℕ → ℕ → Spans × Option ℕ → Type 0
Taken ss size a (ss', none) = ss' ≡ ss
Taken ss size a (ss', some at) =
    covers_free ss' a + cover (record { at = at; size = size }) a ≤ covers_free ss a

Taken-cons :
    (ss : Spans) (size a : ℕ) (o : Option Span) (r : Spans × Option ℕ)
    → Taken ss size a r
    → Taken (o ∷ ss) size a (o ∷ r.0, r.1)
unfolding covers_free
Taken-cons ss size a o (ss', none) t = ap (λ xs. o ∷ xs) t
Taken-cons ss size a o (ss', some at) t = omega (arith, t)

-- What is taken comes out of one span, and nothing else of the list changes.
pub take_span-cover : (ss : Spans) (size a : ℕ) → Taken ss size a (take_span ss size)
unfolding take_span covers_free
take_span-cover [] size a = refl
take_span-cover (none ∷ ss) size a =
    Taken-cons ss size a none (take_span ss size) (take_span-cover ss size a)
take_span-cover (some s ∷ ss) size a = elim (Bool-cases (not (ltb s.size size))) [
  | inl fits ↦
      let le : size ≤ s.size = ground (arith, fits) in
      rw fits (omega (arith, rest_of-cover s size a le))
  | inr small ↦
      rw small (Taken-cons ss size a (some s) (take_span ss size) (take_span-cover ss size a))
]

pub put_span-cover :
    (ss : Spans) (s : Span) (a : ℕ) → covers_free (put_span ss s) a ≤ covers_free ss a + cover s a
unfolding put_span covers_free
put_span-cover [] s a = omega arith
put_span-cover (none ∷ ss) s a = omega arith
put_span-cover (some x ∷ ss) s a = omega (arith, put_span-cover ss s a)
