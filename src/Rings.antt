-- ===== src/Rings.antt =====
-- kernel/src/rings.rs: rings of requests and completions in frames that the kernel shares with a
-- process.
--
-- `mem` is the memory that the kernel reads and writes through these frames: the 32-bit word at each
-- address. The process writes it too, between the calls, and so a call takes it as it finds it.
pub mod Frames
pub mod Completions
pub mod Subs
pub mod Submit
pub mod Wait
use plinth_os.Base.{
  ℕ, zero, suc, ◌+◌, ◌-◌, ◌*◌, ◌/◌, ◌%◌, ◌^◌, ◌<◌, ◌≡◌, ◌&&◌, ◌||◌, not, Bool, true, false, Option,
  none, some, List, [], ◌∷◌, get_or, set, ◌==◌, ltb, if◌then◌else◌, bit_and,
}
use plinth_os.Capability.{Capability, CapObject, frame, ring, right_read, right_write}
use plinth_os.CapTable
use plinth_os.CapTable.{CapTable, Result, ok, err}
use plinth_os.Process.{Process}
use plinth_os.Kernel.{Kernel, current, current_slot, put_current}

abbrev pub ring_err : ℕ
ring_err = 2 ^ 64 - 1

abbrev pub max_rings : ℕ
max_rings = 8

abbrev pub cq_entry_size : ℕ
cq_entry_size = 16

abbrev pub hdr_head : ℕ
hdr_head = 0

abbrev pub hdr_tail : ℕ
hdr_tail = 4

abbrev pub hdr_mask : ℕ
hdr_mask = 8

abbrev pub ring_hdr_size : ℕ
ring_hdr_size = 16

abbrev pub max_entries : ℕ
max_entries = 64

abbrev pub right_rw : ℕ
right_rw = right_read + right_write

pub record Ring : Type 0 where
  pub in_use : Bool
  pub owner : ℕ
  pub sq_phys : ℕ
  pub cq_phys : ℕ
  pub mask : ℕ
  pub sq_head : ℕ
  pub cq_tail : ℕ
  pub waiting : Bool

abbrev pub empty : Ring
empty = record {
  in_use = false;
  owner = 0;
  sq_phys = 0;
  cq_phys = 0;
  mask = 0;
  sq_head = 0;
  cq_tail = 0;
  waiting = false;
}

abbrev pub Mem : Type 0
Mem = ℕ → ℕ

pub record Rings : Type 0 where
  pub rings : List Ring
  pub mem : Mem
  pub phys_offset : ℕ

abbrev pub ring_at : Rings → ℕ → Ring
ring_at s id = get_or s.rings id empty

abbrev pub put_ring : Rings → ℕ → Ring → Rings
put_ring s id r = record s { rings = set s.rings id r }

abbrev pub w32 : Mem → ℕ → ℕ → Mem
w32 mem a v p = if p == a then v else mem p

-- A word of 64 bits is two of 32, the low one first.
abbrev pub w64 : Mem → ℕ → ℕ → Mem
w64 mem a v = w32 (w32 mem a (v % 2 ^ 32)) (a + 4) (v / 2 ^ 32 % 2 ^ 32)

abbrev pub r64 : Mem → ℕ → ℕ
r64 mem a = mem a + 2 ^ 32 * mem (a + 4)

abbrev pub va : Rings → ℕ → ℕ
va s phys = s.phys_offset + phys

-- `is_power_of_two` of a number that is not 0.
unfoldable pub is_power_of_two : ℕ → Bool
is_power_of_two n = bit_and n (n - 1) == 0

-- The address of the frame that the capability found names, if it names one.
abbrev pub frame_address : CapObject → Option ℕ
frame_address (frame addr) = some addr
frame_address _ = none

abbrev pub found_frame : Result Capability → Option ℕ
found_frame (ok c) = frame_address c.object
found_frame (err e) = none

unfoldable pub first_unused : List Ring → ℕ → Option ℕ
first_unused [] i = none
first_unused (r ∷ rs) i = let rest = first_unused rs (i + 1) in if r.in_use then rest else some i

unfoldable pub zero_header : Mem → ℕ → ℕ → Mem
zero_header mem base entries =
    w32
      (w32 (w32 (w32 mem (base + hdr_head) 0) (base + hdr_tail) 0) (base + hdr_mask) (entries - 1))
      (base + 12) 0

abbrev pub mint_ring : Kernel → Process → Rings → ℕ → CapTable × Result ℕ → Kernel × Rings × ℕ
mint_ring k p s id (t, ok slot) = (put_current k (some (record p { caps = t })), s, slot)
mint_ring k p s id (t, err e) = (
  put_current k (some (record p { caps = t })),
  put_ring s id (record (ring_at s id) { in_use = false }),
  ring_err,
)

abbrev pub claim : Kernel → Process → Rings → ℕ → ℕ → ℕ → Option ℕ → Kernel × Rings × ℕ
claim k p s entries sq cq none = (k, s, ring_err)
claim k p s entries sq cq (some id) =
    mint_ring k p
      (record (put_ring s id (record empty {
        in_use = true;
        owner = current_slot k;
        sq_phys = sq;
        cq_phys = cq;
        mask = entries - 1;
      })) { mem = zero_header (zero_header s.mem (va s sq) entries) (va s cq) entries })
      id (CapTable.mint p.caps (ring id) right_rw)

abbrev pub register_frames : Kernel → Process → Rings → ℕ → Option ℕ → Option ℕ → Kernel × Rings × ℕ
register_frames k p s entries (some sq) (some cq) =
    if sq == cq then (k, s, ring_err) else claim k p s entries sq cq (first_unused s.rings 0)
register_frames k p s entries _ _ = (k, s, ring_err)

unfoldable pub ring_register : Kernel → Rings → ℕ → ℕ → ℕ → Kernel × Rings × ℕ
ring_register k s sq_slot cq_slot entries =
    if entries == 0 || ltb max_entries entries || not (is_power_of_two entries)
    then (k, s, ring_err)
    else elim (current k) [
      | none ↦ (k, s, ring_err)
      | some p ↦
          register_frames k p s entries (found_frame (CapTable.lookup p.caps sq_slot right_rw))
            (found_frame (CapTable.lookup p.caps cq_slot right_rw))
    ]

abbrev pub owned_ring : Kernel → Rings → CapObject → Option ℕ
owned_ring k s (ring id) =
    if ltb id max_rings && (ring_at s id).in_use && ((ring_at s id).owner == current_slot k)
    then some id
    else none
owned_ring k s _ = none

abbrev pub found_ring : Kernel → Rings → Result Capability → Option ℕ
found_ring k s (ok c) = owned_ring k s c.object
found_ring k s (err e) = none

unfoldable pub ring_id_for : Kernel → Rings → ℕ → Option ℕ
ring_id_for k s slot = elim (current k) [
  | none ↦ none
  | some p ↦ found_ring k s (CapTable.lookup p.caps slot right_rw)
]

-- `wrapping_add(1)` and `wrapping_sub` on a `u32`.
abbrev pub next : ℕ → ℕ
next i = (i + 1) % 2 ^ 32

abbrev pub distance : ℕ → ℕ → ℕ
distance tail head = (tail + 2 ^ 32 - head) % 2 ^ 32

abbrev pub cq_entry : ℕ → ℕ → ℕ
cq_entry base slot = base + ring_hdr_size + slot * cq_entry_size

-- The writes of one completion: the entry, then the tail.
unfoldable pub write_completion : Mem → ℕ → ℕ → ℕ → ℕ → ℕ → Mem
write_completion mem base slot new_tail user_data status =
    let e = cq_entry base slot in
    w32 (w32 (w32 (w64 mem e user_data) (e + 8) (status % 2 ^ 32)) (e + 12) 0) (base + hdr_tail)
      new_tail

abbrev pub admit : Rings → ℕ → Ring → ℕ → ℕ → Rings × Bool × Option ℕ
admit s id r user_data status = (
  record (put_ring s id (record r { cq_tail = next r.cq_tail; waiting = false })) {
    mem =
        write_completion s.mem (va s r.cq_phys) (bit_and r.cq_tail r.mask) (next r.cq_tail)
          user_data status;
  },
  true,
  if r.waiting then some r.owner else none,
)

unfoldable pub cq_post : Rings → ℕ → ℕ → ℕ → Bool → Rings × Bool × Option ℕ
cq_post s id user_data status drop_if_full =
    let r = ring_at s id in
    if not (ltb id max_rings) || not r.in_use
    then (s, true, none)
    else if drop_if_full
        && not (ltb (distance r.cq_tail (s.mem (va s r.cq_phys + hdr_head))) (next r.mask))
    then (s, false, none)
    else admit s id r user_data status

abbrev pub post_completion : Rings → ℕ → ℕ → ℕ → Rings × Option ℕ
post_completion s id user_data status =
    let (s', admitted, wake) = cq_post s id user_data status false in (s', wake)

abbrev pub post_event : Rings → ℕ → ℕ → ℕ → Rings × Bool × Option ℕ
post_event s id user_data status = cq_post s id user_data status true
