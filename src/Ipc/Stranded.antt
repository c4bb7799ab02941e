-- ===== src/Ipc/Stranded.antt =====
-- The death of a process, and what it does to those that wait where only that process could serve.
use mathlib.Core.Path.{subst}
use plinth_os.Base.{
  ℕ, zero, suc, ◌+◌, ◌<◌, ◌≤◌, ◌≡◌, ◌≢◌, refl, sym, ap, ◌∙◌, ◌&&◌, Bool, true, Option, none, some,
  List, [], ◌∷◌, length, arith, ◌==◌, get_or, get_or-set_ne, length-set, inl, inr, Bool-cases,
}
use plinth_os.Kernel.{Kernel, max_processes, wake_with, take_reclaim_landing}
use plinth_os.Kernel.Slots.{wake_landed}
use plinth_os.Ipc.WaitQueue.{WaitQueue}
use plinth_os.Ipc.WaitQueue.Refine.{Holds}
use plinth_os.Ipc.Endpoint.{Endpoint, ep_at, empty, death_strands_peers}
use plinth_os.Ipc.Calls.{put_queue, ipc_peer_died}
use plinth_os.Ipc.Death.{Tally, reap_endpoint, reap_endpoints, wake_loop, wake_all_stranded}
use plinth_os.Ipc.Liveness.{
  Woken, AllWoken, AllBelow, wake_loop-keeps, wake_all_stranded_lem, after_dequeue, popped,
}

-- Nothing changed but the queue of endpoint `id` and the slots of processes.
record Framed (id : ℕ) (k k' : Kernel) : Type 0 where
  others : (j : ℕ) → id ≢ j → ep_at k'.endpoints j ≡ ep_at k.endpoints j
  links : k'.links ≡ k.links
  slots : length k'.table ≡ length k.table
  many : length k'.endpoints ≡ length k.endpoints

Framed-refl : (id : ℕ) (k : Kernel) → Framed id k k
Framed-refl id k = record { others = λ j ne. refl; links = refl; slots = refl; many = refl }

Framed-then : (id : ℕ) (k k1 k2 : Kernel) → Framed id k k1 → Framed id k1 k2 → Framed id k k2
Framed-then id k k1 k2 f g = record {
  others = λ j ne. g.others j ne ∙ f.others j ne;
  links = g.links ∙ f.links;
  slots = g.slots ∙ f.slots;
  many = g.many ∙ f.many;
}

put_queue-Framed : (k : Kernel) (id : ℕ) (q : WaitQueue) → Framed id k (put_queue k id q)
put_queue-Framed k id q = record {
  others = λ j ne. get_or-set_ne k.endpoints id j _ empty ne;
  links = refl;
  slots = refl;
  many = length-set k.endpoints id _;
}

wake_landed-Framed : (k : Kernel) (id slot : ℕ) → Framed id k (wake_landed k slot ipc_peer_died)
unfolding wake_with take_reclaim_landing
wake_landed-Framed k id slot = record {
  others = λ j ne. refl;
  links = refl;
  slots = rw (length-set, length-set) refl;
  many = refl;
}

after_dequeue-Framed :
    (fuel : ℕ) (k : Kernel) (id : ℕ) (r : WaitQueue × Option ℕ)
    → ((k' : Kernel) → Framed id k' (wake_loop fuel k' id))
    → Framed id k (after_dequeue fuel k id r)
after_dequeue-Framed fuel k id (q, none) ih = put_queue-Framed k id q
after_dequeue-Framed fuel k id (q, some slot) ih =
    let k1 = put_queue k id q in
    let k2 = wake_landed k1 slot ipc_peer_died in
    Framed-then id k k1 _ (put_queue-Framed k id q)
      (Framed-then id k1 k2 _ (wake_landed-Framed k1 id slot) (ih k2))

wake_loop-Framed : (fuel : ℕ) (k : Kernel) (id : ℕ) → Framed id k (wake_loop fuel k id)
unfolding wake_loop
wake_loop-Framed zero k id = Framed-refl id k
wake_loop-Framed (suc fuel) k id =
    after_dequeue-Framed fuel k id (popped k id) (λ k'. wake_loop-Framed fuel k' id)

-- What `reap_dying` finds of endpoint `id`.
abbrev pub hit : Tally → Kernel → ℕ → Bool
hit t k id =
    (ep_at k.endpoints id).in_use
    && death_strands_peers (ep_at k.endpoints id) (get_or t.senders id 0) (get_or t.receivers id 0)

reap_endpoint-Framed : (t : Tally) (k : Kernel) (id : ℕ) → Framed id k (reap_endpoint t k id)
reap_endpoint-Framed t k id = elim (Bool-cases (hit t k id)) [
  | inl struck ↦ rw struck (wake_loop-Framed (suc max_processes) k id)
  | inr spared ↦ rw spared (Framed-refl id k)
]

reap_endpoint-keeps :
    (t : Tally) (k : Kernel) (id s : ℕ) → Woken k s → Woken (reap_endpoint t k id) s
reap_endpoint-keeps t k id s w = elim (Bool-cases (hit t k id)) [
  | inl struck ↦ rw struck (wake_loop-keeps (suc max_processes) id s k w)
  | inr spared ↦ rw spared w
]

reap_endpoints-keeps :
    (t : Tally) (from n s : ℕ) (k : Kernel) → Woken k s → Woken (reap_endpoints t k from n) s
unfolding reap_endpoints
reap_endpoints-keeps t from zero s k w = w
reap_endpoints-keeps t from (suc n) s k w =
    reap_endpoints-keeps t (from + 1) n s (reap_endpoint t k from)
      (reap_endpoint-keeps t k from s w)

reap_endpoints-AllWoken :
    (t : Tally) (from n : ℕ) (k : Kernel) (xs : List ℕ)
    → AllWoken k xs
    → AllWoken (reap_endpoints t k from n) xs
reap_endpoints-AllWoken t from n k [] w = tt
reap_endpoints-AllWoken t from n k (x ∷ xs) w =
    (reap_endpoints-keeps t from n x k w.0, reap_endpoints-AllWoken t from n k xs w.1)

-- The rounds of later endpoints leave an earlier one alone.
reap_endpoints-before :
    (t : Tally) (from n : ℕ) (k : Kernel) (id : ℕ)
    → id < from
    → ep_at (reap_endpoints t k from n).endpoints id ≡ ep_at k.endpoints id
unfolding reap_endpoints
reap_endpoints-before t from zero k id lt = refl
reap_endpoints-before t from (suc n) k id lt =
    let f = reap_endpoint-Framed t k from in
    reap_endpoints-before t (from + 1) n (reap_endpoint t k from) id (omega (arith, lt))
    ∙ f.others id (λ e. absurd (omega (arith, lt, e)))

-- What waits on endpoint `id`.
pub record Queued (k : Kernel) (id : ℕ) (xs : List ℕ) : Type 0 where
  pub room : id < length k.endpoints
  pub queued : Holds (ep_at k.endpoints id).queue k.links xs
  pub below : AllBelow (length k.table) xs

Queued-Framed :
    (j id : ℕ) (k k' : Kernel) (xs : List ℕ)
    → j ≢ id
    → Framed j k k'
    → Queued k id xs
    → Queued k' id xs
Queued-Framed j id k k' xs ne f q = record {
  room = subst (λ n. id < n) (sym f.many) q.room;
  queued =
      subst (λ l. Holds (ep_at k'.endpoints id).queue l xs) (sym f.links)
        (subst (λ (e : Endpoint). Holds e.queue k.links xs) (sym (f.others id ne)) q.queued);
  below = subst (λ n. AllBelow n xs) (sym f.slots) q.below;
}

pub reap_endpoints-wakes :
    (t : Tally) (from n : ℕ) (k : Kernel) (id : ℕ) (xs : List ℕ)
    → from ≤ id
    → id < from + n
    → hit t k id ≡ true
    → Queued k id xs
    → length xs ≤ max_processes
    → AllWoken (reap_endpoints t k from n) xs
      × ((ep_at (reap_endpoints t k from n).endpoints id).queue.head ≡ none)
unfolding reap_endpoints
reap_endpoints-wakes t from zero k id xs le lt struck q few = absurd (omega (arith, le, lt))
reap_endpoints-wakes t from (suc n) k id xs le lt struck q few = elim (Bool-cases (from == id)) [
  | inl it ↦
      let same : from ≡ id = ground (arith, it) in
      let here : reap_endpoint t k from ≡ wake_all_stranded k id =
        ap (reap_endpoint t k) same ∙ (rw struck refl) in
      let (woken, gone) = wake_all_stranded_lem k id xs q.room q.queued q.below few in
      let k1 = reap_endpoint t k from in
      (
        reap_endpoints-AllWoken t (from + 1) n k1 xs (subst (λ j. AllWoken j xs) (sym here) woken),
        ap (λ (e : Endpoint). e.queue.head)
              (reap_endpoints-before t (from + 1) n k1 id (omega (arith, same)))
            ∙ ap (λ (j : Kernel). (ep_at j.endpoints id).queue.head) here
            ∙ gone,
      )
  | inr other ↦
      let ne : from ≢ id = ground (arith, other) in
      let f = reap_endpoint-Framed t k from in
      reap_endpoints-wakes t (from + 1) n (reap_endpoint t k from) id xs (omega (arith, le, ne))
        (omega (arith, lt))
        (ap
            (λ (e : Endpoint).
              e.in_use && death_strands_peers e (get_or t.senders id 0) (get_or t.receivers id 0))
            (f.others id ne)
          ∙ struck)
        (Queued-Framed from id k (reap_endpoint t k from) xs ne f q) few
]
