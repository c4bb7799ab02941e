-- ===== src/Scheduler/Steal.antt =====
-- Stealing moves one process from the queue of one core to another's, and loses none.
use mathlib.Core.Path.{subst}
use plinth_os.Base.{
  ℕ, zero, suc, ◌+◌, ◌-◌, ◌%◌, ◌<◌, ◌≤◌, ◌≡◌, ◌≢◌, refl, sym, ◌∙◌, ap, true, false, Option, none,
  some, List, [], ◌∷◌, length, get_or, set, arith, length-set, get_or-set_self, Bool-cases, inl,
  inr, ◌⊎◌, ◌==◌,
}
use plinth_os.Kernel.{State, max_processes}
use plinth_os.Scheduler.{
  state_of, is_ready, Cores, max_cores, queue_of, remove_from_core_queue, eligible, find_stealable,
  count_steal, push_stolen, steal_loop, try_steal,
}
use plinth_os.Scheduler.Homes.{
  entries, homes, total, WellHomed, with_entry, homes-with_entry, total-with_entry, room-with_entry,
  remove-found, push-found,
}

-- What `find_map` finds is in the queue and may be taken; if it finds nothing, nothing may.
abbrev pub NoneEligible : Cores → ℕ → List (Option ℕ) → Type 0
NoneEligible c donor [] = Unit {0}
NoneEligible c donor (s ∷ ss) = (eligible c donor s ≡ false) × NoneEligible c donor ss

find_stealable-cases :
    (c : Cores) (donor : ℕ) (q : List (Option ℕ))
    → ((t : ℕ) × (find_stealable c donor q ≡ some t)
        × (eligible c donor (some t) ≡ true)
        × (0 < entries t q))
      ⊎ ((find_stealable c donor q ≡ none) × NoneEligible c donor q)
unfolding find_stealable
find_stealable-cases c donor [] = inr (refl, tt)
find_stealable-cases c donor (none ∷ ss) = elim (find_stealable-cases c donor ss) [
  | inl (t, found, may, here) ↦ inl (t, found, may, omega arith)
  | inr (failed, others) ↦ inr (failed, (refl, others))
]
find_stealable-cases c donor (some x ∷ ss) = elim (Bool-cases (eligible c donor (some x))) [
  | inl may ↦ inl (x, ground arith, may, ground arith)
  | inr not_x ↦ elim (find_stealable-cases c donor ss) [
    | inl (t, found, may, here) ↦ inl (t, ground arith, may, ground arith)
    | inr (failed, others) ↦ inr (ground arith, (not_x, others))
  ]
]

-- What a steal by `me` leaves: the process `t` was ready on another core that was not coming back to
-- it, it is at home with `me` now, and each process has as many homes as before.
pub record Stolen (c : Cores) (me : ℕ) (c' : Cores) (t : ℕ) : Type 0 where
  pub donor : ℕ
  pub from_other : (donor < max_cores) × (donor ≢ me)
  pub was_home : 0 < entries t (queue_of c donor)
  pub was_ready : state_of c t ≡ State.ready
  pub not_awaited : t ≢ get_or c.current_slot donor 0
  pub now_home : 0 < entries t (queue_of c' me)
  pub homes_kept : (s : ℕ) → homes s c'.queues ≡ homes s c.queues
  pub WellHomed_kept : WellHomed c'
  pub counted : c'.steals ≡ c.steals + 1
  pub states_kept : c'.states ≡ c.states

is_ready-eq : (s : State) → is_ready s ≡ true → s ≡ State.ready
is_ready-eq State.empty e = cc
is_ready-eq State.ready e = refl
is_ready-eq State.running e = cc
is_ready-eq State.blocked e = cc

may_ready :
    (c : Cores) (donor t : ℕ) → eligible c donor (some t) ≡ true → state_of c t ≡ State.ready
may_ready c donor t may = is_ready-eq (state_of c t) (ground arith)

may_not_awaited :
    (c : Cores) (donor t : ℕ) → eligible c donor (some t) ≡ true → t ≢ get_or c.current_slot donor 0
may_not_awaited c donor t may e = absurd (ground arith)

-- Each ready process in the queue of the donor is the one that it is coming back to.
abbrev pub NothingToTake : Cores → ℕ → Type 0
NothingToTake c donor =
    (t : ℕ)
    → 0 < entries t (queue_of c donor)
    → state_of c t ≡ State.ready
    → t ≡ get_or c.current_slot donor 0

none_to_take :
    (c : Cores) (donor t : ℕ) (q : List (Option ℕ))
    → NoneEligible c donor q
    → 0 < entries t q
    → state_of c t ≡ State.ready
    → t ≡ get_or c.current_slot donor 0
none_to_take c donor t [] none_here here ready = absurd (omega arith)
none_to_take c donor t (none ∷ ss) none_here here ready =
    none_to_take c donor t ss none_here.1 (omega arith) ready
none_to_take c donor t (some x ∷ ss) none_here here ready = elim (Bool-cases (x == t)) [
  | inl at ↦
      let same : x ≡ t = ground arith in
      let awaited : eligible c donor (some t) ≡ false =
        subst (λ y. eligible c donor (some y) ≡ false) same none_here.0 in
      let ready' : is_ready (state_of c t) ≡ true = ap is_ready ready in
      ground (arith, awaited, ready')
  | inr other ↦ none_to_take c donor t ss none_here.1 (ground arith) ready
]

entries-put :
    (t : ℕ) (q : List (Option ℕ)) (i : ℕ) → i < length q → 0 < entries t (set q i (some t))
entries-put t [] i lt = absurd (omega arith)
entries-put t (s ∷ ss) zero lt = ground arith
entries-put t (s ∷ ss) (suc i) lt = let ih = entries-put t ss i (omega arith) in omega arith

WellHomed-with_entry :
    (c : Cores) (core p : ℕ) (v : Option ℕ)
    → WellHomed c
    → core < max_cores
    → total (with_entry c core p v).queues ≤ max_processes
    → WellHomed (with_entry c core p v)
WellHomed-with_entry c core p v w lt few = record {
  cores = length-set c.queues core _ ∙ w.cores;
  room = λ k below. room-with_entry c core p k v w lt below;
  few = few;
}

move-Stolen :
    (c : Cores) (me donor t : ℕ)
    → WellHomed c
    → me < max_cores
    → donor < max_cores
    → donor ≢ me
    → eligible c donor (some t) ≡ true
    → 0 < entries t (queue_of c donor)
    → (c' : Cores) × (push_stolen me t (remove_from_core_queue c donor t) ≡ some (c', some t))
      × Stolen c me c' t
move-Stolen c me donor t w lt below ne may here =
    let (p, removed, fits, named) = remove-found c donor t w below here in
    let c1 = with_entry c donor p none in
    let donor_in : donor < length c.queues = rw w.cores below in
    let left = total-with_entry c donor p none donor_in fits in
    let fewer : total c1.queues + 1 ≡ total c.queues = ground (arith, left, named) in
    let bound = w.few in
    let w1 = WellHomed-with_entry c donor p none w below (omega arith) in
    let (r, pushed, fits', free) = push-found c1 me t (w1.room me lt) (omega arith) in
    let c2 = with_entry c1 me r (some t) in
    let me_in : me < length c1.queues = rw w1.cores lt in
    let back = total-with_entry c1 me r (some t) me_in fits' in
    let as_many : total c2.queues ≡ total c1.queues + 1 = ground (arith, back, free) in
    let w2 = WellHomed-with_entry c1 me r (some t) w1 lt (omega arith) in
    (
      record c2 { steals = c2.steals + 1 },
      ap (push_stolen me t) removed ∙ ap (λ o. count_steal o t) pushed,
      record {
        donor = donor;
        from_other = (below, ne);
        was_home = here;
        was_ready = may_ready c donor t may;
        not_awaited = may_not_awaited c donor t may;
        now_home =
            subst (λ q. 0 < entries t q) (sym (get_or-set_self c1.queues me _ [] me_in))
              (entries-put t (queue_of c1 me) r fits');
        homes_kept = λ s. ground (
          arith,
          homes-with_entry c donor p s none donor_in fits,
          homes-with_entry c1 me r s (some t) me_in fits',
          named,
          free,
        );
        WellHomed_kept = record { cores = w2.cores; room = w2.room; few = w2.few };
        counted = refl;
        states_kept = refl;
      },
    )

abbrev pub NothingFrom : Cores → ℕ → ℕ → ℕ → Type 0
NothingFrom c me offset end =
    (d : ℕ)
    → offset ≤ d
    → d < end
    → NoneEligible c ((me + d) % max_cores) (queue_of c ((me + d) % max_cores))

steal_step-none :
    (c : Cores) (me offset n : ℕ)
    → find_stealable c ((me + offset) % max_cores) (queue_of c ((me + offset) % max_cores)) ≡ none
    → steal_loop c me offset (suc n) ≡ steal_loop c me (offset + 1) n
unfolding steal_loop
steal_step-none c me offset n e = ground (arith, e)

steal_step-some :
    (c : Cores) (me offset n t : ℕ)
    → find_stealable c ((me + offset) % max_cores) (queue_of c ((me + offset) % max_cores)) ≡ some t
    → steal_loop c me offset (suc n)
      ≡ push_stolen me t (remove_from_core_queue c ((me + offset) % max_cores) t)
unfolding steal_loop
steal_step-some c me offset n t e = ground (arith, e)

steal_loop-cases :
    (c : Cores) (me offset n : ℕ)
    → WellHomed c
    → me < max_cores
    → 1 ≤ offset
    → offset + n ≤ max_cores
    → ((c' : Cores) × (t : ℕ) × (steal_loop c me offset n ≡ some (c', some t)) × Stolen c me c' t)
      ⊎ ((steal_loop c me offset n ≡ some (c, none)) × NothingFrom c me offset (offset + n))
unfolding steal_loop
steal_loop-cases c me offset zero w lt le bound = inr (refl, λ d from below. absurd (omega arith))
steal_loop-cases c me offset (suc n) w lt le bound =
    let donor = (me + offset) % max_cores in
    elim (find_stealable-cases c donor (queue_of c donor)) [
      | inl (t, found, may, here) ↦
          let (c', stole, s) =
            move-Stolen c me donor t w lt (omega arith) (λ e. omega arith) may here in
          inl (c', t, steal_step-some c me offset n t found ∙ stole, s)
      | inr (failed, nothing) ↦
          elim (steal_loop-cases c me (offset + 1) n w lt (omega arith) (omega arith)) [
            | inl (c', t, stole, s) ↦ inl (c', t, steal_step-none c me offset n failed ∙ stole, s)
            | inr (none_left, rest) ↦ inr (
              steal_step-none c me offset n failed ∙ none_left,
              λ d from below. elim (Bool-cases (d == offset)) [
                | inl at ↦
                    let same : offset ≡ d = ground arith in
                    subst
                      (λ e.
                        NoneEligible c ((me + e) % max_cores) (queue_of c ((me + e) % max_cores)))
                      same nothing
                | inr other ↦ rest d (ground arith) (omega arith)
              ],
            )
          ]
    ]

place_of_core :
    (me donor : ℕ)
    → me < max_cores
    → donor < max_cores
    → donor ≢ me
    → (d : ℕ) × (1 ≤ d) × (d < max_cores) × ((me + d) % max_cores ≡ donor)
place_of_core me donor lt below ne =
    ((donor + max_cores - me) % max_cores, omega arith, omega arith, omega arith)

-- Where each core has a queue with room for every process, and no more entries are taken than there
-- are processes, a core that steals does not fail: either it takes over one ready process that
-- another core has in its queue and is not coming back to, so that every process keeps as many
-- homes as it had, or nothing changes and no other core has a process that could be taken.
pub try_steal-cases :
    (c : Cores) (me : ℕ)
    → WellHomed c
    → me < max_cores
    → ((c' : Cores) × (t : ℕ) × (try_steal c me ≡ some (c', some t)) × Stolen c me c' t)
      ⊎ ((try_steal c me ≡ some (c, none))
          × ((donor : ℕ) → donor < max_cores → donor ≢ me → NothingToTake c donor))
unfolding try_steal
try_steal-cases c me w lt = elim (steal_loop-cases c me 1 15 w lt (omega arith) (omega arith)) [
  | inl stole ↦ inl stole
  | inr (failed, nothing) ↦ inr (
    failed,
    λ donor below ne.
        let (d, le, bound, at) = place_of_core me donor lt below ne in
        λ t.
          none_to_take c donor t (queue_of c donor)
            (subst (λ e. NoneEligible c e (queue_of c e)) at (nothing d le bound)),
  )
]
