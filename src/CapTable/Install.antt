-- ===== src/CapTable/Install.antt =====
-- What the scan of `CapTable::install` finds, and what it writes.
use plinth_os.Base.{
  ℕ, zero, suc, ◌+◌, ◌<◌, ◌≡◌, ◌≢◌, refl, Bool, true, false, Option, none, some, List, [], ◌∷◌,
  length, get_or, set, length-set, get_or-set_self, get_or-set_ne, arith, Bool-cases, Option-cases,
  sym, ◌⊎◌, inl, inr, if◌then◌else◌,
}
use mathlib.Core.Path.{subst}
use plinth_os.Capability.{Capability}
use plinth_os.CapTable.{
  CapTable, CapError, ok, err, table_full, slot_at, free_at, first_free, install,
}

-- `d` is the least index that is free.
pub record IsFirst (ss : List (Option Capability)) (rs : List Bool) (d : ℕ) : Type 0 where
  pub below : d < length ss
  pub free : free_at ss rs d ≡ true
  pub first : (k : ℕ) → k < d → free_at ss rs k ≡ false

IsFirst-zero :
    (s : Option Capability) (ss : List (Option Capability)) (rs : List Bool)
    → free_at (s ∷ ss) rs 0 ≡ true
    → IsFirst (s ∷ ss) rs 0
IsFirst-zero s ss rs h = record {
  below = omega arith;
  free = h;
  first = λ k lt. absurd (omega arith);
}

tail {ℓ} : {A : Type ℓ} → List A → List A
tail [] = []
tail (x ∷ xs) = xs

get_or-tail {ℓ} :
    {A : Type ℓ} (xs : List A) (i : ℕ) (d : A) → get_or (tail xs) i d ≡ get_or xs (suc i) d
unfolding tail
get_or-tail [] i d = refl
get_or-tail (x ∷ xs) i d = refl

IsFirst-suc :
    (s : Option Capability) (ss : List (Option Capability)) (rs : List Bool) (d : ℕ)
    → free_at (s ∷ ss) rs 0 ≡ false
    → IsFirst ss (tail rs) d
    → IsFirst (s ∷ ss) rs (suc d)
IsFirst-suc s ss rs d h f = record {
  below = omega arith;
  free = rw (get_or-tail rs d false) at (f.free);
  first = go;
}
  where
    go : (k : ℕ) → k < suc d → free_at (s ∷ ss) rs k ≡ false
    go zero lt = h
    go (suc k) lt = rw (get_or-tail rs k false) at (f.first k (omega arith))

first_free_step :
    (s : Option Capability) (ss : List (Option Capability)) (rs : List Bool) (i : ℕ)
    → first_free (s ∷ ss) rs i
      ≡ (if free_at (s ∷ ss) rs 0 then some i else first_free ss (tail rs) (i + 1))
unfolding first_free tail
first_free_step s ss [] i = ground arith
first_free_step s ss (r ∷ rs) i = refl

first_free-nil : (rs : List Bool) (i : ℕ) → first_free [] rs i ≡ none
unfolding first_free
first_free-nil rs i = refl

-- The scan finds the least free index.
pub first_free-IsFirst :
    (ss : List (Option Capability)) (rs : List Bool) (i j : ℕ)
    → first_free ss rs i ≡ some j
    → (d : ℕ) × (j ≡ i + d) × IsFirst ss rs d
first_free-IsFirst [] rs i j h = absurd (ground (arith, first_free-nil rs i))
first_free-IsFirst (s ∷ ss) rs i j h = elim (Bool-cases (free_at (s ∷ ss) rs 0)) [
  | inl yes_free ↦ (0, ground (arith, first_free_step s ss rs i), IsFirst-zero s ss rs yes_free)
  | inr taken ↦
      let (d, e, f) =
        first_free-IsFirst ss (tail rs) (i + 1) j (ground (arith, first_free_step s ss rs i)) in
      (suc d, omega arith, IsFirst-suc s ss rs d taken f)
]

-- It finds nothing only where every slot is taken or held open.
pub first_free-none :
    (ss : List (Option Capability)) (rs : List Bool) (i k : ℕ)
    → first_free ss rs i ≡ none
    → k < length ss
    → free_at ss rs k ≡ false
first_free-none [] rs i k h lt = absurd (omega arith)
first_free-none (s ∷ ss) rs i zero h lt = ground (arith, first_free_step s ss rs i)
first_free-none (s ∷ ss) rs i (suc k) h lt = rw (get_or-tail rs k false) at (
    first_free-none ss (tail rs) (i + 1) k (ground (arith, first_free_step s ss rs i))
      (omega arith))

-- What `install` has done when it took slot `i`.
pub record Installed (t t' : CapTable) (cap : Capability) (i : ℕ) : Type 0 where
  pub was_first : IsFirst t.slots t.reserved i
  pub stored : slot_at t' i ≡ some cap
  pub others : (k : ℕ) → k ≢ i → slot_at t' k ≡ slot_at t k
  pub held : t'.reserved ≡ t.reserved
  pub size : length t'.slots ≡ length t.slots

Installed-set :
    (t : CapTable) (cap : Capability) (i : ℕ)
    → IsFirst t.slots t.reserved i
    → Installed t (record t { slots = set t.slots i (some cap) }) cap i
Installed-set t cap i f = record {
  was_first = f;
  stored = get_or-set_self t.slots i (some cap) none f.below;
  others = λ k ne. get_or-set_ne t.slots i k (some cap) none (λ e. ne (sym e));
  held = refl;
  size = length-set t.slots i (some cap);
}

-- The scan and the write together, on both branches.
pub install-cases :
    (t : CapTable) (cap : Capability)
    → ((first_free t.slots t.reserved 0 ≡ none) × (install t cap ≡ (t, err table_full)))
      ⊎ ((i : ℕ) × (IsFirst t.slots t.reserved i)
          × (install t cap ≡ (record t { slots = set t.slots i (some cap) }, ok i)))
unfolding install
install-cases t cap = elim (Option-cases (first_free t.slots t.reserved 0)) [
  | inl e ↦ inl (e, rw e)
  | inr (j, e) ↦
      let (d, at, f) = first_free-IsFirst t.slots t.reserved 0 j e in
      let same : j ≡ d = omega arith in inr (d, f, rw (e, same))
]

-- Where a slot is free, `install` takes the least one: that slot was empty and not held open for a
-- loan, it holds the capability afterwards, and nothing else of the table changes.
install-ok :
    (t t' : CapTable) (cap : Capability) (i : ℕ) → install t cap ≡ (t', ok i) → Installed t t' cap i
install-ok t t' cap i h = elim (install-cases t cap) [
  | inl (e, full) ↦ absurd (cc full)
  | inr (j, f, took) ↦
      subst (λ (p : CapTable × ℕ). Installed t p.0 cap p.1) (cc took) (Installed-set t cap j f)
]

-- `install` fails only with `TableFull`, with the table unchanged, and exactly where each slot is
-- occupied or held open.
install-err :
    (t t' : CapTable) (cap : Capability) (e : CapError)
    → install t cap ≡ (t', err e)
    → (e ≡ table_full)
      × (t' ≡ t)
      × ((k : ℕ) → k < length t.slots → free_at t.slots t.reserved k ≡ false)
install-err t t' cap e h = elim (install-cases t cap) [
  | inl (n, full) ↦ (cc full, cc full, λ k lt. first_free-none t.slots t.reserved 0 k n lt)
  | inr (j, f, took) ↦ absurd (cc took)
]
