-- ===== src/Blk/Drain.antt =====
-- The drain loses no completion: the buffer that it fills is large enough for all of them.
use mathlib.Core.Path.{subst}
use plinth_os.Base.{
  ℕ, zero, suc, ◌+◌, ◌-◌, ◌%◌, ◌^◌, ◌<◌, ◌≤◌, ◌≡◌, refl, sym, ap, ◌∙◌, false, Option, none, some,
  List, [], ◌∷◌, ◌++◌, length, arith, inl, inr,
}
use plinth_os.Capability.{is_none}
use plinth_os.Blk.{
  Inflights, Completion, Used, route_of, max_slots, slot_of, complete, status_at, record_done,
  drain_loop, drain_completions,
}
use plinth_os.Blk.Pool.{IsPool, live_count, live_count-set, live_count-pos, live_one}
use plinth_os.Blk.Submit.{released}
use plinth_os.Blk.Complete.{complete-cases}

-- The completions in order, with no bound on their number.
abbrev pub add_done : List (Completion × ℕ) → Option Completion → ℕ → List (Completion × ℕ)
add_done done none status = done
add_done done (some target) status = done ++ (target, status) ∷ []

unfoldable pub drain_all :
    Used → ℕ → Inflights → ℕ → List (Completion × ℕ) → ℕ → Inflights × List (Completion × ℕ)
drain_all used qsize d last_used done zero = (d, done)
drain_all used qsize d last_used done (suc n) =
    let head = used.head_at (last_used % qsize) % 2 ^ 16 in
    let status = status_at used (slot_of d head) in
    let (d', info) = complete d head in
    drain_all used qsize d' ((last_used + 1) % 2 ^ 16) (add_done done info status) n

length-snoc :
    (xs : List (Completion × ℕ)) (x : Completion × ℕ) → length (xs ++ x ∷ []) ≡ length xs + 1
length-snoc [] x = refl
length-snoc (y ∷ ys) x = omega (arith, length-snoc ys x)

-- What is recorded and what is still live fit the buffer together.
record HasRoom (room : ℕ) (d : Inflights) (done : List (Completion × ℕ)) : Type 0 where
  pool : IsPool d
  fits : length done + live_count d.routing ≤ room

-- A round keeps the room, and its bounded record is the unbounded one.
abbrev Round : ℕ → List (Completion × ℕ) → ℕ → Inflights × Option Completion → Type 0
Round room done status (d', info) =
    (record_done room done info status ≡ add_done done info status)
    × HasRoom room d' (add_done done info status)

released-Round :
    (room : ℕ) (d : Inflights) (done : List (Completion × ℕ)) (status slot : ℕ) (info : Completion)
    → HasRoom room d done
    → route_of d slot ≡ some info
    → IsPool (released d slot)
    → Round room done status (released d slot, some info)
released-Round room d done status slot info h live pool =
    let here : is_none (route_of d slot) ≡ false = ap is_none live in
    let (pos, lt) = live_count-pos d.routing slot here in
    let fits = h.fits in
    let less = live_count-set d.routing slot none lt in
    let one : live_one (route_of d slot) ≡ 1 = ap live_one live in
    let longer = length-snoc done (info, status) in
    let in_range : length done < room = omega arith in
    (ground (arith, in_range), record { pool = pool; fits = omega (arith, less, one, longer) })

complete-Round :
    (room : ℕ) (d : Inflights) (done : List (Completion × ℕ)) (status head : ℕ)
    → HasRoom room d done
    → Round room done status (complete d head)
complete-Round room d done status head h = elim (complete-cases d head h.pool) [
  | inl (slot, info, at, lt, live, found, again, pool) ↦
      subst (Round room done status) (sym found)
        (released-Round room d done status slot info h live pool)
  | inr (nothing, dead) ↦ subst (Round room done status) (sym nothing) (refl, h)
]

drain_loop-drain_all :
    (room : ℕ) (used : Used) (qsize : ℕ) (d : Inflights) (last_used : ℕ)
    (done : List (Completion × ℕ)) (n : ℕ)
    → HasRoom room d done
    → drain_loop room used qsize d last_used done n ≡ drain_all used qsize d last_used done n
unfolding drain_loop drain_all
drain_loop-drain_all room used qsize d last_used done zero h = refl
drain_loop-drain_all room used qsize d last_used done (suc n) h =
    let head = used.head_at (last_used % qsize) % 2 ^ 16 in
    let status = status_at used (slot_of d head) in
    let (same, kept) = complete-Round room d done status head h in
    ap (λ out. drain_loop room used qsize (complete d head).0 ((last_used + 1) % 2 ^ 16) out n) same
    ∙ drain_loop-drain_all room used qsize (complete d head).0 ((last_used + 1) % 2 ^ 16)
        (add_done done (complete d head).1 status) n kept

live-le-slots : (d : Inflights) → IsPool d → live_count d.routing ≤ max_slots
live-le-slots d v = let counted = v.counted in let few = v.few in omega arith

-- One interrupt may cover many requests, and a device may report anything. The buffer of one entry
-- for each slot never overflows: what the drain records is every completion that it routed, as if
-- the buffer had no bound.
pub drain_completions-drain_all :
    (used : Used) (qsize : ℕ) (d : Inflights) (last_used used_idx : ℕ)
    → IsPool d
    → drain_completions max_slots used qsize d last_used used_idx
      ≡ drain_all used qsize d last_used [] ((used_idx + 2 ^ 16 - last_used) % 2 ^ 16)
unfolding drain_completions
drain_completions-drain_all used qsize d last_used used_idx v =
    drain_loop-drain_all max_slots used qsize d last_used [] _
      (record { pool = v; fits = omega (arith, live-le-slots d v) })
