-- ===== src/Reactor/Take.antt =====
-- A completion is taken once, and a stream of events in the order of their arrival.
use plinth_os.Base.{
  ℕ, ◌≡◌, ◌≢◌, refl, ap, none, some, List, [], ◌∷◌, ◌++◌, arith, ◌==◌, ◌⊎◌, inl, inr, Bool-cases,
}
use plinth_os.Reactor.{take, push_front}

-- No entry has the cookie `ud`.
abbrev pub NoneFor : ℕ → List (ℕ × ℕ) → Type 0
NoneFor ud [] = Unit {0}
NoneFor ud ((cookie, status) ∷ es) = (cookie ≢ ud) × NoneFor ud es

-- `take` hands out the oldest completion of its cookie and leaves all others in their order, or finds
-- none and leaves the table as it is.
pub take-cases :
    (es : List (ℕ × ℕ)) (ud : ℕ)
    → ((before after : List (ℕ × ℕ)) × (status : ℕ) × (es ≡ before ++ (ud, status) ∷ after)
        × NoneFor ud before
        × (take es ud ≡ (before ++ after, some status)))
      ⊎ ((take es ud ≡ (es, none)) × NoneFor ud es)
unfolding take
take-cases [] ud = inr (refl, tt)
take-cases ((cookie, status) ∷ es) ud = elim (Bool-cases (cookie == ud)) [
  | inl here ↦
      let same : cookie ≡ ud = ground arith in
      inl ([], es, status, ap (λ c. (c, status) ∷ es) same, tt, rw here refl)
  | inr away ↦
      let ne : cookie ≢ ud = ground arith in
      elim (take-cases es ud) [
        | inl (before, after, st, split, clear, taken) ↦ inl (
          (cookie, status) ∷ before,
          after,
          st,
          ap (λ xs. (cookie, status) ∷ xs) split,
          (ne, clear),
          rw away (ap (push_front (cookie, status)) taken),
        )
        | inr (missing, clear) ↦
            inr (rw away (ap (push_front (cookie, status)) missing), (ne, clear))
      ]
]
