-- ===== src/Ipc/Liveness.antt =====
-- No process waits for a peer that cannot come: what `wake_all_stranded` wakes.
use mathlib.Core.Path.{subst}
use plinth_os.Base.{
  ℕ, zero, suc, ◌<◌, ◌≤◌, ◌≡◌, refl, sym, ◌∙◌, Bool, Option, none, some, List, [], ◌∷◌, length,
  arith, get_or-set, get_or-set_self, length-set,
}
use plinth_os.Kernel.{Kernel, State, max_processes, slot_of, wake_with, take_reclaim_landing}
use plinth_os.Kernel.Slots.{wake_landed, slot_of-wake_landed}
use plinth_os.Ipc.WaitQueue
use plinth_os.Ipc.WaitQueue.{WaitQueue}
use plinth_os.Ipc.WaitQueue.Refine.{Holds, dequeue-Holds}
use plinth_os.Ipc.Endpoint.{ep_at, empty}
use plinth_os.Ipc.Calls.{
  put_queue, ipc_peer_died, take_waiting, endpoint_receivers, endpoint_senders,
}
use plinth_os.Ipc.Death.{wake_loop, wake_all_stranded}

pub record Woken (k : Kernel) (s : ℕ) : Type 0 where
  pub runnable : (slot_of k s).state ≡ State.ready
  pub told : (slot_of k s).rax ≡ ipc_peer_died

abbrev pub AllWoken : Kernel → List ℕ → Type 0
AllWoken k [] = Unit {0}
AllWoken k (x ∷ xs) = Woken k x × AllWoken k xs

wake_landed-Woken :
    (k : Kernel) (slot : ℕ) → slot < length k.table → Woken (wake_landed k slot ipc_peer_died) slot
wake_landed-Woken k slot lt = record {
  runnable = ground (arith, slot_of-wake_landed k slot slot ipc_peer_died);
  told = ground (arith, slot_of-wake_landed k slot slot ipc_peer_died);
}

wake_landed-keeps :
    (k : Kernel) (slot s : ℕ) → Woken k s → Woken (wake_landed k slot ipc_peer_died) s
wake_landed-keeps k slot s w = record {
  runnable = ground (arith, slot_of-wake_landed k slot s ipc_peer_died, w.runnable);
  told = ground (arith, slot_of-wake_landed k slot s ipc_peer_died, w.told);
}

-- What a round of `wake_loop` leaves, given what `dequeue` returned.
abbrev pub after_dequeue : ℕ → Kernel → ℕ → WaitQueue × Option ℕ → Kernel
after_dequeue fuel k id r = elim (r.1) [
  | none ↦ put_queue k id r.0
  | some slot ↦ wake_loop fuel (wake_landed (put_queue k id r.0) slot ipc_peer_died) id
]

after_dequeue-keeps :
    (fuel : ℕ) (k : Kernel) (id s : ℕ) (r : WaitQueue × Option ℕ)
    → ((k' : Kernel) → Woken k' s → Woken (wake_loop fuel k' id) s)
    → Woken k s
    → Woken (after_dequeue fuel k id r) s
after_dequeue-keeps fuel k id s (q, none) ih w = record { runnable = w.runnable; told = w.told }
after_dequeue-keeps fuel k id s (q, some slot) ih w =
    ih _ (
      wake_landed-keeps (put_queue k id q) slot s (record { runnable = w.runnable; told = w.told }))

pub wake_loop-keeps : (fuel : ℕ) (id s : ℕ) (k : Kernel) → Woken k s → Woken (wake_loop fuel k id) s
unfolding wake_loop
wake_loop-keeps zero id s k w = w
wake_loop-keeps (suc fuel) id s k w =
    after_dequeue-keeps fuel k id s (WaitQueue.dequeue (ep_at k.endpoints id).queue k.links)
      (wake_loop-keeps fuel id s) w

abbrev pub AllBelow : ℕ → List ℕ → Type 0
AllBelow n [] = Unit {0}
AllBelow n (x ∷ xs) = (x < n) × AllBelow n xs

abbrev pub popped : Kernel → ℕ → WaitQueue × Option ℕ
popped k id = WaitQueue.dequeue (ep_at k.endpoints id).queue k.links

pub wake_loop_step :
    (fuel : ℕ) (k : Kernel) (id : ℕ)
    → wake_loop (suc fuel) k id
      ≡ after_dequeue fuel k id (WaitQueue.dequeue (ep_at k.endpoints id).queue k.links)
unfolding wake_loop
wake_loop_step fuel k id = refl

after_dequeue-none :
    (fuel : ℕ) (k : Kernel) (id : ℕ) (r : WaitQueue × Option ℕ)
    → r.1 ≡ none
    → after_dequeue fuel k id r ≡ put_queue k id r.0
after_dequeue-none fuel k id (q, none) e = refl
after_dequeue-none fuel k id (q, some x) e = cc

after_dequeue-some :
    (fuel : ℕ) (k : Kernel) (id x : ℕ) (r : WaitQueue × Option ℕ)
    → r.1 ≡ some x
    → after_dequeue fuel k id r
      ≡ wake_loop fuel (wake_landed (put_queue k id r.0) x ipc_peer_died) id
after_dequeue-some fuel k id x (q, none) e = cc
after_dequeue-some fuel k id x (q, some y) e = let same : y ≡ x = cc in rw same

pub queue-put_queue :
    (k : Kernel) (id : ℕ) (q : WaitQueue)
    → id < length k.endpoints
    → (ep_at (put_queue k id q).endpoints id).queue ≡ q
queue-put_queue k id q lt = rw (get_or-set_self k.endpoints id _ empty lt)

-- What the recursive call starts from.
record Ready (k : Kernel) (id : ℕ) (xs : List ℕ) : Type 0 where
  room : id < length k.endpoints
  queued : Holds (ep_at k.endpoints id).queue k.links xs
  below : AllBelow (length k.table) xs

Ready-wake_landed :
    (k : Kernel) (id x : ℕ) (xs : List ℕ) (q : WaitQueue)
    → id < length k.endpoints
    → Holds q k.links xs
    → AllBelow (length k.table) xs
    → Ready (wake_landed (put_queue k id q) x ipc_peer_died) id xs
unfolding wake_with take_reclaim_landing
Ready-wake_landed k id x xs q lt h b = record {
  room = rw length-set lt;
  queued = rw (queue-put_queue k id q lt) h;
  below = rw (length-set, length-set) b;
}

wake_loop-Ready :
    (fuel : ℕ) (xs : List ℕ) (k : Kernel) (id : ℕ)
    → Ready k id xs
    → length xs < fuel
    → AllWoken (wake_loop fuel k id) xs
      × ((ep_at (wake_loop fuel k id).endpoints id).queue.head ≡ none)
wake_loop-Ready zero xs k id r f = absurd (omega arith)
wake_loop-Ready (suc fuel) [] k id r f =
    let (out, rest) = dequeue-Holds _ k.links [] r.queued in
    rw (wake_loop_step, after_dequeue-none fuel k id (popped k id) out)
      (tt, rw (queue-put_queue k id (popped k id).0 r.room) rest.at_head)
wake_loop-Ready (suc fuel) (x ∷ xs) k id r f =
    let (out, rest) = dequeue-Holds _ k.links (x ∷ xs) r.queued in
    let q = (popped k id).0 in
    let k' = wake_landed (put_queue k id q) x ipc_peer_died in
    let (others, done) =
      wake_loop-Ready fuel xs k' id (Ready-wake_landed k id x xs q r.room rest r.below.1)
        (omega arith) in
    let same : wake_loop (suc fuel) k id ≡ wake_loop fuel k' id =
      wake_loop_step fuel k id ∙ after_dequeue-some fuel k id x (popped k id) out in
    subst (λ z. AllWoken z (x ∷ xs) × ((ep_at z.endpoints id).queue.head ≡ none)) (sym same)
      (
        (wake_loop-keeps fuel id x k' (wake_landed-Woken (put_queue k id q) x r.below.0), others),
        done,
      )

-- `wake_all_stranded` makes each process that waits on the endpoint ready and tells it that its peer
-- died, and none is left waiting there: the process table is small enough for the rounds that the
-- loop has.
pub wake_all_stranded_lem :
    (k : Kernel) (id : ℕ) (xs : List ℕ)
    → id < length k.endpoints
    → Holds (ep_at k.endpoints id).queue k.links xs
    → AllBelow (length k.table) xs
    → length xs ≤ max_processes
    → AllWoken (wake_all_stranded k id) xs
      × ((ep_at (wake_all_stranded k id).endpoints id).queue.head ≡ none)
wake_all_stranded_lem k id xs lt h b f =
    wake_loop-Ready (suc max_processes) xs k id (record { room = lt; queued = h; below = b })
      (omega arith)

pub counts-take_waiting :
    (k : Kernel) (id : ℕ) (want : Bool)
    → (endpoint_receivers (take_waiting k id want).0 id ≡ endpoint_receivers k id)
      × (endpoint_senders (take_waiting k id want).0 id ≡ endpoint_senders k id)
unfolding take_waiting
counts-take_waiting k id want = (
  ground (
    arith,
    get_or-set k.endpoints id id
        (record (ep_at k.endpoints id) {
          queue = (WaitQueue.take_if (ep_at k.endpoints id).queue want k.links).0;
        })
        empty,
  ),
  ground (
    arith,
    get_or-set k.endpoints id id
        (record (ep_at k.endpoints id) {
          queue = (WaitQueue.take_if (ep_at k.endpoints id).queue want k.links).0;
        })
        empty,
  ),
)
