-- ===== src/Scheduler/Homes.antt =====
-- The queues of the cores: how many homes a process has, and the entries that move it.
use mathlib.Core.Path.{subst}
use plinth_os.Base.{
  ℕ, zero, suc, ◌+◌, ◌<◌, ◌≤◌, ◌≡◌, refl, ◌∙◌, ap, Option, none, some, List, [], ◌∷◌, length,
  get_or, set, arith, length-set, get_or-set_self, get_or-set_ne, Bool-cases, inl, inr, ◌==◌,
  if◌then◌else◌,
}
use plinth_os.Capability.{is_none}
use plinth_os.Kernel.{max_processes}
use plinth_os.Scheduler.{
  Cores, max_cores, queue_of, holds, position_of, position_free, put_entry, push_to_core_queue,
  remove_from_core_queue,
}

-- How many entries of the queue name `t`.
abbrev pub entries : ℕ → List (Option ℕ) → ℕ
entries t [] = 0
entries t (s ∷ ss) = (if holds t s then 1 else 0) + entries t ss

-- How many entries of all queues name `t`: the number of cores that are its home.
abbrev pub homes : ℕ → List (List (Option ℕ)) → ℕ
homes t [] = 0
homes t (q ∷ qs) = entries t q + homes t qs

abbrev pub occupied : List (Option ℕ) → ℕ
occupied [] = 0
occupied (s ∷ ss) = (if is_none s then 0 else 1) + occupied ss

abbrev pub total : List (List (Option ℕ)) → ℕ
total [] = 0
total (q ∷ qs) = occupied q + total qs

pub entries-set :
    (t : ℕ) (q : List (Option ℕ)) (i : ℕ) (v : Option ℕ)
    → i < length q
    → entries t (set q i v) + (if holds t (get_or q i none) then 1 else 0)
      ≡ entries t q + (if holds t v then 1 else 0)
entries-set t [] i v lt = absurd (omega arith)
entries-set t (s ∷ ss) zero v lt = omega arith
entries-set t (s ∷ ss) (suc i) v lt = let ih = entries-set t ss i v (omega arith) in omega arith

pub occupied-set :
    (q : List (Option ℕ)) (i : ℕ) (v : Option ℕ)
    → i < length q
    → occupied (set q i v) + (if is_none (get_or q i none) then 0 else 1)
      ≡ occupied q + (if is_none v then 0 else 1)
occupied-set [] i v lt = absurd (omega arith)
occupied-set (s ∷ ss) zero v lt = omega arith
occupied-set (s ∷ ss) (suc i) v lt = let ih = occupied-set ss i v (omega arith) in omega arith

pub homes-set :
    (t : ℕ) (qs : List (List (Option ℕ))) (core : ℕ) (q : List (Option ℕ))
    → core < length qs
    → homes t (set qs core q) + entries t (get_or qs core []) ≡ homes t qs + entries t q
homes-set t [] core q lt = absurd (omega arith)
homes-set t (r ∷ rs) zero q lt = omega arith
homes-set t (r ∷ rs) (suc core) q lt = let ih = homes-set t rs core q (omega arith) in omega arith

pub total-set :
    (qs : List (List (Option ℕ))) (core : ℕ) (q : List (Option ℕ))
    → core < length qs
    → total (set qs core q) + occupied (get_or qs core []) ≡ total qs + occupied q
total-set [] core q lt = absurd (omega arith)
total-set (r ∷ rs) zero q lt = omega arith
total-set (r ∷ rs) (suc core) q lt = let ih = total-set rs core q (omega arith) in omega arith

pub occupied-le-total :
    (qs : List (List (Option ℕ))) (core : ℕ) → occupied (get_or qs core []) ≤ total qs
occupied-le-total [] core = omega arith
occupied-le-total (q ∷ qs) zero = omega arith
occupied-le-total (q ∷ qs) (suc core) = let ih = occupied-le-total qs core in omega arith

-- A queue that is not full has a free position.
pub position_free-found :
    (q : List (Option ℕ)) (i : ℕ)
    → occupied q < length q
    → (p : ℕ) × (position_free q i ≡ some (p + i)) × (p < length q) × (get_or q p none ≡ none)
unfolding position_free
position_free-found [] i lt = absurd (omega arith)
position_free-found (none ∷ ss) i lt = (0, ap some (omega arith), omega arith, refl)
position_free-found (some t ∷ ss) i lt =
    let (p, at, below, free) = position_free-found ss (i + 1) (omega arith) in
    (suc p, at ∙ ap some (omega arith), omega arith, free)

pub position_of-found :
    (t : ℕ) (q : List (Option ℕ)) (i : ℕ)
    → 0 < entries t q
    → (p : ℕ) × (position_of t q i ≡ some (p + i)) × (p < length q) × (get_or q p none ≡ some t)
unfolding position_of
position_of-found t [] i lt = absurd (omega arith)
position_of-found t (s ∷ ss) i lt = elim (Bool-cases (holds t s)) [
  | inl here ↦ (0, rw here (ap some (omega arith)), omega arith, ground arith)
  | inr other ↦
      let rest : 0 < entries t ss = ground arith in
      let (p, at, below, named) = position_of-found t ss (i + 1) rest in
      (suc p, rw other (at ∙ ap some (omega arith)), omega arith, named)
]

-- Each core has a queue with room for every process, and no more entries are taken than there are
-- processes.
pub record WellHomed (c : Cores) : Type 0 where
  pub cores : length c.queues ≡ max_cores
  pub room : (core : ℕ) → core < max_cores → length (queue_of c core) ≡ max_processes
  pub few : total c.queues ≤ max_processes

abbrev pub with_entry : Cores → ℕ → ℕ → Option ℕ → Cores
with_entry c core p v = record c { queues = set c.queues core (set (queue_of c core) p v) }

pub homes-with_entry :
    (c : Cores) (core p t : ℕ) (v : Option ℕ)
    → core < length c.queues
    → p < length (queue_of c core)
    → homes t (with_entry c core p v).queues
        + (if holds t (get_or (queue_of c core) p none) then 1 else 0)
      ≡ homes t c.queues + (if holds t v then 1 else 0)
homes-with_entry c core p t v lt below =
    let one = homes-set t c.queues core (set (queue_of c core) p v) lt in
    let two = entries-set t (queue_of c core) p v below in omega arith

pub total-with_entry :
    (c : Cores) (core p : ℕ) (v : Option ℕ)
    → core < length c.queues
    → p < length (queue_of c core)
    → total (with_entry c core p v).queues
        + (if is_none (get_or (queue_of c core) p none) then 0 else 1)
      ≡ total c.queues + (if is_none v then 0 else 1)
total-with_entry c core p v lt below =
    let one = total-set c.queues core (set (queue_of c core) p v) lt in
    let two = occupied-set (queue_of c core) p v below in omega arith

pub room-with_entry :
    (c : Cores) (core p k : ℕ) (v : Option ℕ)
    → WellHomed c
    → core < max_cores
    → k < max_cores
    → length (queue_of (with_entry c core p v) k) ≡ max_processes
room-with_entry c core p k v w lt below = elim (Bool-cases (core == k)) [
  | inl at ↦
      let same : core ≡ k = ground arith in
      let fits : core < length c.queues = rw w.cores lt in
      subst (λ j. length (queue_of (with_entry c core p v) j) ≡ max_processes) same
        (ap length (get_or-set_self c.queues core _ [] fits)
          ∙ length-set (queue_of c core) p v
          ∙ w.room core lt)
  | inr other ↦ ap length (get_or-set_ne c.queues core k _ [] (ground arith)) ∙ w.room k below
]

-- `remove_from_core_queue` of a process that the core is home of.
pub remove-found :
    (c : Cores) (donor t : ℕ)
    → WellHomed c
    → donor < max_cores
    → 0 < entries t (queue_of c donor)
    → (p : ℕ) × (remove_from_core_queue c donor t ≡ some (with_entry c donor p none))
      × (p < length (queue_of c donor))
      × (get_or (queue_of c donor) p none ≡ some t)
unfolding remove_from_core_queue
remove-found c donor t w lt here =
    let (p, at, below, named) = position_of-found t (queue_of c donor) 0 here in
    (p, ap (put_entry c donor none) (at ∙ ap some (omega arith)), below, named)

-- `push_to_core_queue` when some process has no home yet.
pub push-found :
    (c : Cores) (core t : ℕ)
    → length (queue_of c core) ≡ max_processes
    → total c.queues < max_processes
    → (p : ℕ) × (push_to_core_queue c core t ≡ some (with_entry c core p (some t)))
      × (p < length (queue_of c core))
      × (get_or (queue_of c core) p none ≡ none)
unfolding push_to_core_queue
push-found c core t room few =
    let le = occupied-le-total c.queues core in
    let (p, at, below, free) = position_free-found (queue_of c core) 0 (omega arith) in
    (p, ap (put_entry c core (some t)) (at ∙ ap some (omega arith)), below, free)
