-- ===== src/Scheduler.antt =====
-- kernel/src/scheduler.rs, which core runs what: the queue of each core, the round-robin choice, and
-- the stealing of work from another core.
--
-- All of it runs under the big kernel lock, so one call is one step. An `expect` that fails is
-- `none`; what the function returns otherwise stands under `some`.
pub mod Home
pub mod Homes
pub mod Pick
pub mod Steal
use plinth_os.Base.{
  ℕ, zero, suc, ◌+◌, ◌-◌, ◌%◌, ◌<◌, ◌≡◌, ◌&&◌, not, Bool, true, false, Option, none, some, List, [],
  ◌∷◌, get_or, set, ◌==◌, if◌then◌else◌,
}
use plinth_os.Capability.{is_none}
use plinth_os.Kernel.{State, max_processes}

abbrev pub max_cores : ℕ
max_cores = 16

-- `CORE_QUEUE`, `CURRENT_SLOT`, the states of `TABLE`, `NEXT_HOME_CORE` and `STEAL_COUNT`.
pub record Cores : Type 0 where
  pub queues : List (List (Option ℕ))
  pub current_slot : List ℕ
  pub states : List State
  pub next_home : ℕ
  pub steals : ℕ

abbrev pub is_ready : State → Bool
is_ready State.ready = true
is_ready _ = false

abbrev pub queue_of : Cores → ℕ → List (Option ℕ)
queue_of c core = get_or c.queues core []

abbrev pub state_of : Cores → ℕ → State
state_of c slot = get_or c.states slot State.empty

-- `*s == Some(table_slot)`
abbrev pub holds : ℕ → Option ℕ → Bool
holds t none = false
holds t (some s) = s == t

-- `iter().position(..)`, with the positions counted from `i`.
unfoldable pub position_of : ℕ → List (Option ℕ) → ℕ → Option ℕ
position_of t [] i = none
position_of t (s ∷ ss) i = let rest = position_of t ss (i + 1) in if holds t s then some i else rest

unfoldable pub position_free : List (Option ℕ) → ℕ → Option ℕ
position_free [] i = none
position_free (s ∷ ss) i = let rest = position_free ss (i + 1) in if is_none s then some i else rest

unfoldable pub core_states : Cores → List (Option ℕ) → List State
core_states c [] = []
core_states c (none ∷ ss) = State.empty ∷ core_states c ss
core_states c (some t ∷ ss) = state_of c t ∷ core_states c ss

abbrev pub core_position : Cores → ℕ → ℕ → Option ℕ
core_position c me table_slot = position_of table_slot (queue_of c me) 0

abbrev pub core_table_slot : Cores → ℕ → ℕ → Option ℕ
core_table_slot c me pos = get_or (queue_of c me) pos none

abbrev pub put_entry : Cores → ℕ → Option ℕ → Option ℕ → Option Cores
put_entry c core entry none = none
put_entry c core entry (some pos) =
    some (record c { queues = set c.queues core (set (queue_of c core) pos entry) })

unfoldable pub push_to_core_queue : Cores → ℕ → ℕ → Option Cores
push_to_core_queue c core table_slot =
    put_entry c core (some table_slot) (position_free (queue_of c core) 0)

unfoldable pub remove_from_core_queue : Cores → ℕ → ℕ → Option Cores
remove_from_core_queue c core table_slot =
    put_entry c core none (position_of table_slot (queue_of c core) 0)

-- The closure of `find_map` in `try_steal`.
abbrev pub eligible : Cores → ℕ → Option ℕ → Bool
eligible c donor none = false
eligible c donor (some t) = not (t == get_or c.current_slot donor 0) && is_ready (state_of c t)

unfoldable pub find_stealable : Cores → ℕ → List (Option ℕ) → Option ℕ
find_stealable c donor [] = none
find_stealable c donor (s ∷ ss) =
    let rest = find_stealable c donor ss in if eligible c donor s then s else rest

abbrev pub count_steal : Option Cores → ℕ → Option (Cores × Option ℕ)
count_steal none t = none
count_steal (some c) t = some (record c { steals = c.steals + 1 }, some t)

abbrev pub push_stolen : ℕ → ℕ → Option Cores → Option (Cores × Option ℕ)
push_stolen me t none = none
push_stolen me t (some c) = count_steal (push_to_core_queue c me t) t

-- `for offset in ..`, with `n` offsets left.
unfoldable pub steal_loop : Cores → ℕ → ℕ → ℕ → Option (Cores × Option ℕ)
steal_loop c me offset zero = some (c, none)
steal_loop c me offset (suc n) =
    let donor = (me + offset) % max_cores in
    let rest = steal_loop c me (offset + 1) n in
    elim (find_stealable c donor (queue_of c donor)) [
      | none ↦ rest
      | some t ↦ push_stolen me t (remove_from_core_queue c donor t)
    ]

unfoldable pub try_steal : Cores → ℕ → Option (Cores × Option ℕ)
try_steal c me = steal_loop c me 1 (max_cores - 1)

unfoldable pub pick_loop : List State → ℕ → ℕ → ℕ → Option ℕ
pick_loop slots current offset zero = none
pick_loop slots current offset (suc n) =
    let rest = pick_loop slots current (offset + 1) n in
    let i = (current + offset) % max_processes in
    if is_ready (get_or slots i State.empty) then some i else rest

unfoldable pub pick_next : List State → ℕ → Option ℕ
pick_next slots current = pick_loop slots current 1 (max_processes - 1)

-- The loop of `next_home_core` over the counter; `online` is `irq::is_core_online`. A round for each
-- core finds one if any is up.
unfoldable pub home_loop : ℕ → List Bool → ℕ → Option (ℕ × ℕ)
home_loop zero online next = none
home_loop (suc n) online next =
    let candidate = next % max_cores in
    let rest = home_loop n online (candidate + 1) in
    if get_or online candidate false then some (candidate, candidate + 1) else rest

abbrev pub put_home : Cores → Option (ℕ × ℕ) → Option (Cores × ℕ)
put_home c none = none
put_home c (some (core, next)) = some (record c { next_home = next }, core)

unfoldable pub next_home_core : Cores → List Bool → Option (Cores × ℕ)
next_home_core c online = put_home c (home_loop max_cores online c.next_home)
