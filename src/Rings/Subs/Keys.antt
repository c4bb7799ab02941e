-- ===== src/Rings/Subs/Keys.antt =====
-- A ring and a cookie name one subscription at most, and a ring that is released leaves none.
use mathlib.Core.Path.{subst}
use plinth_os.Base.{
  ℕ, zero, suc, ◌+◌, ◌<◌, ◌≡◌, refl, ap, ◌∙◌, true, false, Option, none, some, [], ◌∷◌, length,
  get_or, set, arith, not, ◌⊎◌, inl, inr, Bool-cases,
}
use plinth_os.Capability.{is_none}
use plinth_os.Rings.Subs.{
  Subscription, Subscriptions, has_key, find_from, find, first_free, armed, subscribe, cancel,
  on_ring, release_ring,
}

abbrev pub Absent : ℕ → ℕ → Subscriptions → Type 0
Absent ring ud [] = Unit {0}
Absent ring ud (s ∷ ss) = (has_key ring ud s ≡ false) × Absent ring ud ss

-- No two live subscriptions share their ring and their cookie.
abbrev pub IsKeyed : Subscriptions → Type 0
IsKeyed [] = Unit {0}
IsKeyed (s ∷ ss) = ((ring ud : ℕ) → has_key ring ud s ≡ true → Absent ring ud ss) × IsKeyed ss

Absent-set :
    (ring ud : ℕ) (ss : Subscriptions) (i : ℕ) (v : Option Subscription)
    → has_key ring ud v ≡ false
    → Absent ring ud ss
    → Absent ring ud (set ss i v)
Absent-set ring ud [] i v h a = tt
Absent-set ring ud (s ∷ ss) zero v h a = (h, a.1)
Absent-set ring ud (s ∷ ss) (suc i) v h a = (a.0, Absent-set ring ud ss i v h a.1)

IsKeyed-set :
    (ss : Subscriptions) (i : ℕ) (v : Option Subscription)
    → ((ring ud : ℕ) → has_key ring ud v ≡ true → Absent ring ud ss)
    → IsKeyed ss
    → IsKeyed (set ss i v)
IsKeyed-set [] i v fresh k = tt
IsKeyed-set (s ∷ ss) zero v fresh k = (λ ring ud m. (fresh ring ud m).1, k.1)
IsKeyed-set (s ∷ ss) (suc i) v fresh k = (
  λ ring ud m. Absent-set ring ud ss i v (apart ring ud m) (k.0 ring ud m),
  IsKeyed-set ss i v (λ ring ud m. (fresh ring ud m).1) k.1,
)
  where
    apart : (ring ud : ℕ) → has_key ring ud s ≡ true → has_key ring ud v ≡ false
    apart ring ud m = elim (Bool-cases (has_key ring ud v)) [
      | inl both ↦ absurd (ground (arith, (fresh ring ud both).0))
      | inr differs ↦ differs
    ]

find_from-cases :
    (ss : Subscriptions) (ring ud i : ℕ)
    → ((p : ℕ) × (find_from ss ring ud i ≡ some (p + i))
        × (p < length ss)
        × (has_key ring ud (get_or ss p none) ≡ true))
      ⊎ ((find_from ss ring ud i ≡ none) × Absent ring ud ss)
unfolding find_from
find_from-cases [] ring ud i = inr (refl, tt)
find_from-cases (s ∷ ss) ring ud i = elim (Bool-cases (has_key ring ud s)) [
  | inl here ↦ inl (0, rw here (ap some (omega arith)), omega arith, here)
  | inr other ↦ elim (find_from-cases ss ring ud (i + 1)) [
    | inl (p, found, lt, m) ↦ inl (suc p, rw other (found ∙ ap some (omega arith)), omega arith, m)
    | inr (missing, absent) ↦ inr (rw other missing, (other, absent))
  ]
]

first_free-cases :
    (ss : Subscriptions) (i : ℕ)
    → ((p : ℕ) × (first_free ss i ≡ some (p + i))
        × (p < length ss)
        × (is_none (get_or ss p none) ≡ true))
      ⊎ (first_free ss i ≡ none)
unfolding first_free
first_free-cases [] i = inr refl
first_free-cases (s ∷ ss) i = elim (Bool-cases (is_none s)) [
  | inl here ↦ inl (0, rw here (ap some (omega arith)), omega arith, here)
  | inr other ↦ elim (first_free-cases ss (i + 1)) [
    | inl (p, found, lt, free) ↦
        inl (suc p, rw other (found ∙ ap some (omega arith)), omega arith, free)
    | inr missing ↦ inr (rw other missing)
  ]
]

same_key :
    (source ring ud ring' ud' : ℕ)
    → has_key ring' ud' (some (armed source ring ud)) ≡ true
    → (ring ≡ ring') × (ud ≡ ud')
same_key source ring ud ring' ud' m = (ground arith, ground arith)

-- Arming a subscription keeps keys unique, whether it succeeds or not.
subscribe-IsKeyed :
    (ss : Subscriptions) (source ring ud : ℕ) → IsKeyed ss → IsKeyed (subscribe ss source ring ud).0
unfolding subscribe
subscribe-IsKeyed ss source ring ud k = elim (find_from-cases ss ring ud 0) [
  | inl (p, found, lt, m) ↦ rw found k
  | inr (missing, absent) ↦ elim (first_free-cases ss 0) [
    | inl (p, at, lt, free) ↦
        rw (missing, at)
          (IsKeyed-set ss (p + 0) (some (armed source ring ud))
            (λ ring' ud' m.
              let (e, f) = same_key source ring ud ring' ud' m in
              subst (λ x. Absent x ud' ss) e (subst (λ y. Absent ring y ss) f absent))
            k)
    | inr full ↦ rw (missing, full) k
  ]
]

cancel-IsKeyed : (ss : Subscriptions) (ring ud : ℕ) → IsKeyed ss → IsKeyed (cancel ss ring ud).0
unfolding cancel
cancel-IsKeyed ss ring ud k = elim (find_from-cases ss ring ud 0) [
  | inl (p, found, lt, m) ↦ rw found (IsKeyed-set ss (p + 0) none (λ ring' ud' h. absurd (cc)) k)
  | inr (missing, absent) ↦ rw missing k
]

Absent-gone :
    (ring ud : ℕ) (ss : Subscriptions) (p : ℕ)
    → IsKeyed ss
    → has_key ring ud (get_or ss p none) ≡ true
    → Absent ring ud (set ss p none)
Absent-gone ring ud [] p k m = tt
Absent-gone ring ud (s ∷ ss) zero k m = (refl, k.0 ring ud m)
Absent-gone ring ud (s ∷ ss) (suc p) k m = (differs, Absent-gone ring ud ss p k.1 m)
  where
    absent_at :
        (ss : Subscriptions) (p : ℕ)
        → Absent ring ud ss
        → has_key ring ud (get_or ss p none) ≡ false
    absent_at [] p a = refl
    absent_at (x ∷ xs) zero a = a.0
    absent_at (x ∷ xs) (suc p) a = absent_at xs p a.1

    differs : has_key ring ud s ≡ false
    differs = elim (Bool-cases (has_key ring ud s)) [
      | inl both ↦ absurd (ground (arith, absent_at ss p (k.0 ring ud both), m))
      | inr not_it ↦ not_it
    ]

-- After `cancel` no subscription has the key, if keys were unique, and they still are; the result
-- tells whether there was one.
pub cancel_lem :
    (ss : Subscriptions) (ring ud : ℕ)
    → IsKeyed ss
    → Absent ring ud (cancel ss ring ud).0
      × ((cancel ss ring ud).1 ≡ not (is_none (find ss ring ud)))
      × IsKeyed (cancel ss ring ud).0
unfolding cancel
cancel_lem ss ring ud k = elim (find_from-cases ss ring ud 0) [
  | inl (p, found, lt, m) ↦
      let at : find ss ring ud ≡ some p = found ∙ ap some (omega arith) in
      (rw at (Absent-gone ring ud ss p k m), rw at refl, cancel-IsKeyed ss ring ud k)
  | inr (missing, absent) ↦ (rw missing absent, rw missing refl, cancel-IsKeyed ss ring ud k)
]

abbrev pub NoneOn : ℕ → Subscriptions → Type 0
NoneOn ring [] = Unit {0}
NoneOn ring (s ∷ ss) = (on_ring ring s ≡ false) × NoneOn ring ss

pub release_ring-NoneOn : (ss : Subscriptions) (ring : ℕ) → NoneOn ring (release_ring ss ring)
unfolding release_ring
release_ring-NoneOn [] ring = tt
release_ring-NoneOn (s ∷ ss) ring = elim (Bool-cases (on_ring ring s)) [
  | inl here ↦ rw here (refl, release_ring-NoneOn ss ring)
  | inr other ↦ rw other (other, release_ring-NoneOn ss ring)
]
