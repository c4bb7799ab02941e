-- ===== src/Blk.antt =====
-- kernel/src/virtio_blk.rs, the bookkeeping of the requests in flight: the pool of descriptor chains
-- of a device, and the demultiplexing of what the device reports as done.
--
-- The registers, the descriptors and the used ring are the device's memory. What the drain reads of
-- it is an argument: the element of the used ring and the status byte at each index.
pub mod Pool
pub mod Submit
pub mod Complete
pub mod Drain
use plinth_os.Base.{
  ℕ, zero, suc, ◌+◌, ◌-◌, ◌*◌, ◌/◌, ◌%◌, ◌^◌, ◌<◌, ◌≡◌, ◌&&◌, not, Bool, true, false, Option, none,
  some, List, [], ◌∷◌, ◌++◌, length, get_or, set, replicate, ◌==◌, ltb, if◌then◌else◌,
}
use plinth_os.Capability.{is_none}

abbrev pub desc_per_req : ℕ
desc_per_req = 3

abbrev pub max_slots : ℕ
max_slots = 21

abbrev pub blk_ok : ℕ
blk_ok = 0

pub data Completion : Type 0 where
  poll : Completion
  to_ring : (ring user_data : ℕ) → Completion

-- `routing` has an entry of the table for each slot; the first `free_len` entries of `free` are the
-- stack of the slots that are free.
pub record Inflights : Type 0 where
  pub routing : List (Option Completion)
  pub free : List ℕ
  pub free_len : ℕ
  pub slots : ℕ

-- `free[i] = i` for the first `n` entries, from `i` on.
unfoldable pub numbered : ℕ → ℕ → ℕ → List ℕ
numbered i n zero = []
numbered i n (suc m) = (if ltb i n then i else 0) ∷ numbered (i + 1) n m

unfoldable pub new : ℕ → Inflights
new wanted =
    let slots = if ltb wanted max_slots then wanted else max_slots in
    record {
      routing = replicate max_slots none;
      free = numbered 0 slots max_slots;
      free_len = slots;
      slots = slots;
    }

abbrev pub route_of : Inflights → ℕ → Option Completion
route_of d slot = get_or d.routing slot none

unfoldable pub submit : Inflights → Completion → Inflights × Option ℕ
submit d info =
    if d.free_len == 0
    then (d, none)
    else (let slot = get_or d.free (d.free_len - 1) 0 in
        (
          record d { routing = set d.routing slot (some info); free_len = d.free_len - 1 },
          some (slot * desc_per_req),
        ))

unfoldable pub slot_of : Inflights → ℕ → Option ℕ
slot_of d head =
    if not (head % desc_per_req == 0)
    then none
    else if ltb (head / desc_per_req) d.slots
    then some (head / desc_per_req)
    else none

abbrev pub release_slot : Inflights → ℕ → Option Completion → Inflights × Option Completion
release_slot d slot none = (d, none)
release_slot d slot (some info) = (
  record d {
    routing = set d.routing slot none;
    free = set d.free d.free_len slot;
    free_len = d.free_len + 1;
  },
  some info,
)

abbrev pub complete_at : Inflights → Option ℕ → Inflights × Option Completion
complete_at d none = (d, none)
complete_at d (some slot) = release_slot d slot (route_of d slot)

unfoldable pub complete : Inflights → ℕ → Inflights × Option Completion
complete d head = complete_at d (slot_of d head)

unfoldable pub any_live : Inflights → Bool
any_live d = ltb d.free_len d.slots

-- What the device has written: the chain head of each used element, and the status byte of a slot.
pub record Used : Type 0 where
  pub head_at : ℕ → ℕ
  pub status_of : ℕ → ℕ

abbrev pub blk_e_dev : ℕ
blk_e_dev = 4

abbrev pub status_at : Used → Option ℕ → ℕ
status_at used none = blk_e_dev
status_at used (some slot) = if used.status_of slot == 0 then blk_ok else blk_e_dev

-- `out[n] = ..` while there is room in `out`, whose first `n` entries are `done`.
abbrev pub record_done : ℕ → List (Completion × ℕ) → Option Completion → ℕ → List (Completion × ℕ)
record_done room done none status = done
record_done room done (some target) status =
    if ltb (length done) room then done ++ (target, status) ∷ [] else done

-- The loop of `drain_completions` over the used ring of `qsize` elements, with `n` rounds left.
unfoldable pub drain_loop :
    ℕ → Used → ℕ → Inflights → ℕ → List (Completion × ℕ) → ℕ → Inflights × List (Completion × ℕ)
drain_loop room used qsize d last_used done zero = (d, done)
drain_loop room used qsize d last_used done (suc n) =
    let head = used.head_at (last_used % qsize) % 2 ^ 16 in
    let status = status_at used (slot_of d head) in
    let (d', info) = complete d head in
    drain_loop room used qsize d' ((last_used + 1) % 2 ^ 16) (record_done room done info status) n

-- `while last_used != used_idx`, on indices of 16 bits.
unfoldable pub drain_completions :
    ℕ → Used → ℕ → Inflights → ℕ → ℕ → Inflights × List (Completion × ℕ)
drain_completions room used qsize d last_used used_idx =
    drain_loop room used qsize d last_used [] ((used_idx + 2 ^ 16 - last_used) % 2 ^ 16)
