-- ===== src/Scheduler/Home.antt =====
-- The search for the next home of a process ends, at the next core that is up.
use plinth_os.Base.{
  ℕ, zero, suc, ◌+◌, ◌-◌, ◌%◌, ◌<◌, ◌≡◌, refl, sym, ap, ◌∙◌, Bool, true, false, some, List, get_or,
  arith, Bool-cases, inl, inr,
}
use plinth_os.Scheduler.{Cores, max_cores, home_loop, put_home, next_home_core}

abbrev pub is_up : List Bool → ℕ → ℕ → Bool
is_up online next d = get_or online ((next + d) % max_cores) false

-- The core `d` places on is the first one, counted from the counter, that is up.
abbrev pub Found : List Bool → ℕ → ℕ → Type 0
Found online next core =
    (d : ℕ) × (core ≡ (next + d) % max_cores)
    × (is_up online next d ≡ true)
    × ((e : ℕ) → e < d → is_up online next e ≡ false)

up_on :
    (online : List Bool) (next d : ℕ)
    → is_up online (next % max_cores + 1) d ≡ is_up online next (suc d)
up_on online next d = ap (λ i. get_or online i false) (omega arith)

up_here :
    (online : List Bool) (next : ℕ) → is_up online next 0 ≡ get_or online (next % max_cores) false
up_here online next = ap (λ i. get_or online i false) (omega arith)

step_on :
    (online : List Bool) (next core : ℕ)
    → is_up online next 0 ≡ false
    → Found online (next % max_cores + 1) core
    → Found online next core
step_on online next core away (d, at, up, before) =
    (suc d, omega arith, sym (up_on online next d) ∙ up, passed)
  where
    passed : (e : ℕ) → e < suc d → is_up online next e ≡ false
    passed zero lt = away
    passed (suc e) lt = sym (up_on online next e) ∙ before e (omega arith)

home_loop-Found :
    (n : ℕ) (online : List Bool) (next d : ℕ)
    → d < n
    → is_up online next d ≡ true
    → (core : ℕ) × (home_loop n online next ≡ some (core, core + 1)) × Found online next core
unfolding home_loop
home_loop-Found zero online next d lt up = absurd (omega arith)
home_loop-Found (suc n) online next zero lt up =
    let here = sym (up_here online next) ∙ up in
    (next % max_cores, rw here refl, (0, omega arith, up, λ e below. absurd (omega arith)))
home_loop-Found (suc n) online next (suc d) lt up =
    elim (Bool-cases (get_or online (next % max_cores) false)) [
      | inl here ↦ (
        next % max_cores,
        rw here refl,
        (0, omega arith, up_here online next ∙ here, λ e below. absurd (omega arith)),
      )
      | inr away ↦
          let (core, found, place) =
            home_loop-Found n online (next % max_cores + 1) d (omega arith)
              (up_on online next d ∙ up) in
          (core, rw away found, step_on online next core (up_here online next ∙ away) place)
    ]

place_of_home :
    (next core : ℕ) → core < max_cores → (d : ℕ) × (d < max_cores) × ((next + d) % max_cores ≡ core)
place_of_home next core lt =
    ((core + max_cores - next % max_cores) % max_cores, omega arith, omega arith)

-- As long as some core is up, the search for a home ends within one round over the cores. It gives
-- the first core from the counter on that is up, and leaves the counter behind it.
pub next_home_core-Found :
    (c : Cores) (online : List Bool) (core : ℕ)
    → core < max_cores
    → get_or online core false ≡ true
    → (h : ℕ) × (next_home_core c online ≡ some (record c { next_home = h + 1 }, h))
      × Found online c.next_home h
unfolding next_home_core
next_home_core-Found c online core lt up =
    let (d, below, at) = place_of_home c.next_home core lt in
    let up_there : is_up online c.next_home d ≡ true = ap (λ i. get_or online i false) at ∙ up in
    let (h, found, place) = home_loop-Found max_cores online c.next_home d below up_there in
    (h, ap (put_home c) found, place)
