-- ===== src/Scheduler/Pick.antt =====
-- `pick_next` is round robin: what it passes over is not ready, and it never picks the current slot.
use mathlib.Core.Path.{subst}
use plinth_os.Base.{
  ℕ, sym, ◌∙◌, zero, suc, ◌+◌, ◌-◌, ◌%◌, ◌<◌, ◌≤◌, ◌≡◌, ◌≢◌, refl, Bool, true, false, none, some,
  List, get_or, arith, Bool-cases, inl, inr, ◌⊎◌, ◌==◌,
}
use plinth_os.Kernel.{State, max_processes}
use plinth_os.Scheduler.{is_ready, pick_loop, pick_next}

-- Is the slot `offset` places behind `current`, around the table, ready?
abbrev pub ready_at : List State → ℕ → ℕ → Bool
ready_at slots current offset =
    is_ready (get_or slots ((current + offset) % max_processes) State.empty)

abbrev pub Picked : List State → ℕ → ℕ → ℕ → ℕ → Type 0
Picked slots current offset end i =
    (d : ℕ) × (offset ≤ d)
    × (d < end)
    × (i ≡ (current + d) % max_processes)
    × (ready_at slots current d ≡ true)
    × ((e : ℕ) → offset ≤ e → e < d → ready_at slots current e ≡ false)

abbrev pub Passed : List State → ℕ → ℕ → ℕ → Type 0
Passed slots current offset end = (e : ℕ) → offset ≤ e → e < end → ready_at slots current e ≡ false

before_or_at :
    (slots : List State) (current offset d : ℕ)
    → ready_at slots current offset ≡ false
    → ((e : ℕ) → offset + 1 ≤ e → e < d → ready_at slots current e ≡ false)
    → (e : ℕ) → offset ≤ e
    → e < d
    → ready_at slots current e ≡ false
before_or_at slots current offset d here rest e le lt = elim (Bool-cases (e == offset)) [
  | inl at ↦ let same : e ≡ offset = ground arith in rw same here
  | inr other ↦ rest e (ground arith) lt
]

pick_loop-cases :
    (slots : List State) (current offset n : ℕ)
    → ((i : ℕ) × (pick_loop slots current offset n ≡ some i)
        × Picked slots current offset (offset + n) i)
      ⊎ ((pick_loop slots current offset n ≡ none) × Passed slots current offset (offset + n))
unfolding pick_loop
pick_loop-cases slots current offset zero = inr (refl, λ e le lt. absurd (omega arith))
pick_loop-cases slots current offset (suc n) = elim (Bool-cases (ready_at slots current offset)) [
  | inl here ↦ inl (
    (current + offset) % max_processes,
    rw here refl,
    (offset, omega arith, omega arith, refl, here, λ e le lt. absurd (omega arith)),
  )
  | inr here ↦ elim (pick_loop-cases slots current (offset + 1) n) [
    | inl (i, found, (d, le, lt, at, ready, before)) ↦ inl (
      i,
      rw here found,
      (d, omega arith, omega arith, at, ready, before_or_at slots current offset d here before),
    )
    | inr (failed, before) ↦ inr (
      rw here failed,
      λ e le lt.
          before_or_at slots current offset (offset + suc n) here
            (λ e' le' lt'. before e' le' (omega arith)) e le lt,
    )
  ]
]

other_place :
    (current d : ℕ)
    → current < max_processes
    → 1 ≤ d
    → d < max_processes
    → (current + d) % max_processes ≢ current
other_place current d lt le below e = omega arith

place_of :
    (current i : ℕ)
    → current < max_processes
    → i < max_processes
    → i ≢ current
    → (d : ℕ) × (1 ≤ d) × (d < max_processes) × ((current + d) % max_processes ≡ i)
place_of current i lt below ne =
    ((i + max_processes - current) % max_processes, omega arith, omega arith, omega arith)

-- The scheduler picks the first ready slot behind the current one, around the table: each slot
-- between the two is not ready, and the slot picked is another one than the current. It picks none
-- exactly when no other slot is ready.
pub pick_next-cases :
    (slots : List State) (current : ℕ)
    → current < max_processes
    → ((i : ℕ) × (pick_next slots current ≡ some i)
        × (i ≢ current)
        × Picked slots current 1 max_processes i)
      ⊎ ((pick_next slots current ≡ none)
          × ((i : ℕ)
              → i < max_processes
              → i ≢ current
              → is_ready (get_or slots i State.empty) ≡ false))
unfolding pick_next
pick_next-cases slots current lt = elim (pick_loop-cases slots current 1 3) [
  | inl (i, found, (d, le, below, at, ready, rest)) ↦ inl (
    i,
    found,
    λ e. absurd (other_place current d lt le below (sym at ∙ e)),
    (d, le, below, at, ready, rest),
  )
  | inr (failed, passed) ↦ inr (
    failed,
    λ i below ne.
        let (d, le, bound, at) = place_of current i lt below ne in
        subst (λ j. is_ready (get_or slots j State.empty) ≡ false) at (passed d le bound),
  )
]
