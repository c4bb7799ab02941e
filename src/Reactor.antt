-- ===== src/Reactor.antt =====
-- libos/src/ring.rs, the reader of a completion queue: `reap` and `take` of the reactor of a process.
--
-- The process sees the frame of the queue at an address of its own; it is the same frame, and so
-- `base` stands for where it begins. `done` is `done[..done_len]`.
pub mod Staged
pub mod Reap
pub mod Take
use plinth_os.Base.{
  ℕ, zero, suc, ◌+◌, ◌-◌, ◌^◌, ◌<◌, ◌≡◌, not, Bool, true, false, Option, none, some, List, [], ◌∷◌,
  ◌++◌, length, ◌==◌, ltb, if◌then◌else◌, bit_and,
}
use plinth_os.Rings.{Mem, w32, r64, cq_entry, hdr_head, hdr_tail, hdr_mask, next, distance}

abbrev pub cap : ℕ
cap = 16

abbrev pub event_dropped : ℕ
event_dropped = 2 ^ 31

pub record Reactor : Type 0 where
  pub done : List (ℕ × ℕ)
  pub drops : ℕ
  pub undelivered : ℕ

-- `saturating_add(1)` on a `u32`.
abbrev pub bump : ℕ → ℕ
bump n = if ltb (n + 1) (2 ^ 32) then n + 1 else 2 ^ 32 - 1

-- One completion goes to the table, or is counted if the table is full.
unfoldable pub stage : Reactor → ℕ × ℕ → Reactor
stage r (ud, status) =
    let drops = if not (bit_and status event_dropped == 0) then bump r.drops else r.drops in
    if ltb (length r.done) cap
    then record r { done = r.done ++ (ud, status) ∷ []; drops = drops }
    else record r { undelivered = bump r.undelivered; drops = drops }

-- The loop of `reap` with `n` rounds left.
unfoldable pub reap_loop : Mem → ℕ → ℕ → Reactor → ℕ → Mem × Reactor
reap_loop mem base mask r zero = (mem, r)
reap_loop mem base mask r (suc n) =
    let head = mem (base + hdr_head) in
    let e = cq_entry base (bit_and head mask) in
    let rest =
      reap_loop (w32 mem (base + hdr_head) (next head)) base mask (stage r (r64 mem e, mem (e + 8)))
        n in
    if head == mem (base + hdr_tail) then (mem, r) else rest

unfoldable pub reap : Mem → ℕ → Reactor → Mem × Reactor
reap mem base r =
    reap_loop mem base (mem (base + hdr_mask)) r
      (distance (mem (base + hdr_tail)) (mem (base + hdr_head)))

abbrev pub push_front : ℕ × ℕ → List (ℕ × ℕ) × Option ℕ → List (ℕ × ℕ) × Option ℕ
push_front e (es, r) = (e ∷ es, r)

-- The oldest completion of the cookie `ud`, and the table without it.
unfoldable pub take : List (ℕ × ℕ) → ℕ → List (ℕ × ℕ) × Option ℕ
take [] ud = ([], none)
take ((cookie, status) ∷ es) ud =
    let rest = push_front (cookie, status) (take es ud) in
    if cookie == ud then (es, some status) else rest
