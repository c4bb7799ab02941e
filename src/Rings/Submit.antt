-- ===== src/Rings/Submit.antt =====
-- kernel/src/rings.rs, the submission queue: `ring_submit` and what it does with each entry.
--
-- `posted` is what the block devices have been asked to do, the latest request first: `post_request`
-- of kernel/src/virtio_blk.rs writes it to the device's memory.
pub mod Cases
pub mod Authority
pub mod Progress
use plinth_os.Base.{
  ℕ, zero, suc, ◌+◌, ◌-◌, ◌*◌, ◌/◌, ◌%◌, ◌^◌, ◌<◌, ◌≡◌, ◌&&◌, ◌||◌, not, Bool, true, false, Option,
  none, some, List, [], ◌∷◌, get_or, set, ◌==◌, ltb, if◌then◌else◌, bit_and,
}
use plinth_os.Capability.{Capability, CapObject, block_range, right_read, right_write, is_none}
use plinth_os.CapTable
use plinth_os.CapTable.{CapTable, Result, ok, err}
use plinth_os.Process.{Process}
use plinth_os.Kernel.{Kernel, current}
use plinth_os.Blk
use plinth_os.Blk.{Inflights, Completion, to_ring, blk_e_dev}
use plinth_os.Input.{source_for}
use plinth_os.Rings.{
  Rings, Ring, Mem, ring_at, put_ring, va, w32, r64, hdr_head, hdr_tail, ring_hdr_size, ring_err,
  next, distance, ring_id_for, post_completion, found_frame,
}
use plinth_os.Rings.Subs
use plinth_os.Rings.Subs.{Subscriptions}

abbrev pub sq_entry_size : ℕ
sq_entry_size = 32

abbrev pub sector_size : ℕ
sector_size = 512

abbrev pub frame_size : ℕ
frame_size = 4096

abbrev pub ring_op_read : ℕ
ring_op_read = 0

abbrev pub ring_op_event_sub : ℕ
ring_op_event_sub = 1

abbrev pub ring_op_cancel : ℕ
ring_op_cancel = 2

abbrev pub ring_op_write : ℕ
ring_op_write = 3

abbrev pub blk_e_badarg : ℕ
blk_e_badarg = 1

abbrev pub blk_e_range : ℕ
blk_e_range = 2

abbrev pub blk_e_rights : ℕ
blk_e_rights = 3

abbrev pub event_sub_err : ℕ
event_sub_err = 0

pub data Direction : Type 0 where
  read write : Direction

pub record Request : Type 0 where
  pub dev : ℕ
  pub head : ℕ
  pub sector : ℕ
  pub count : ℕ
  pub frame_phys : ℕ
  pub dir : Direction

pub record Io : Type 0 where
  pub rings : Rings
  pub subs : Subscriptions
  pub devices : List (Option Inflights)
  pub posted : List Request

pub data Outcome : Type 0 where
  consumed full : Outcome

abbrev pub is_full : Outcome → Bool
is_full Outcome.full = true
is_full Outcome.consumed = false

-- An entry of the queue, copied out once.
pub record Entry : Type 0 where
  pub op : ℕ
  pub count : ℕ
  pub range_slot : ℕ
  pub frame_slot : ℕ
  pub sector_off : ℕ
  pub user_data : ℕ

abbrev pub read_entry : Mem → ℕ → Entry
read_entry mem e = record {
  op = mem e;
  count = mem (e + 4) % 2 ^ 16;
  range_slot = mem (e + 8);
  frame_slot = mem (e + 12);
  sector_off = r64 mem (e + 16);
  user_data = r64 mem (e + 24);
}

abbrev pub post_status : Io → ℕ → ℕ → ℕ → Io
post_status io id user_data status = record io {
  rings = (post_completion io.rings id user_data status).0;
}

abbrev pub finish : Io → ℕ → ℕ → ℕ → Io × Outcome
finish io id user_data status = (post_status io id user_data status, Outcome.consumed)

abbrev pub finish_event_err : Io → ℕ → ℕ → Io × Outcome
finish_event_err io id user_data = finish io id user_data event_sub_err

-- `saturating_mul` on a `u64`.
abbrev pub saturating_mul : ℕ → ℕ → ℕ
saturating_mul a b = if ltb (a * b) (2 ^ 64) then a * b else 2 ^ 64 - 1

-- What the two checks of a block request resolve to: device, first sector and frame, or a status.
pub data Resolved : Type 0 where
  target : (dev sector frame_phys : ℕ) → Resolved
  refused : (status : ℕ) → Resolved

abbrev pub resolve_frame : Option ℕ → ℕ → ℕ → Resolved
resolve_frame none dev sector = refused blk_e_rights
resolve_frame (some addr) dev sector = target dev sector addr

abbrev pub resolve_range : CapObject → Entry → Option ℕ → Resolved
resolve_range (block_range dev start range_count) e frame =
    if not (ltb (e.sector_off + e.count) (2 ^ 64))
    then refused blk_e_range
    else if ltb range_count (e.sector_off + e.count)
    then refused blk_e_range
    else resolve_frame frame dev ((start + e.sector_off) % 2 ^ 64)
resolve_range _ e frame = refused blk_e_rights

abbrev pub resolve_found : Result Capability → Entry → Option ℕ → Resolved
resolve_found (ok c) e frame = resolve_range c.object e frame
resolve_found (err x) e frame = refused blk_e_rights

-- The range needs `range_right`, and the frame `frame_right`.
unfoldable pub resolve : Kernel → ℕ → ℕ → Entry → Resolved
resolve k range_right frame_right e = elim (current k) [
  | none ↦ refused blk_e_rights
  | some p ↦
      resolve_found (CapTable.lookup p.caps e.range_slot range_right) e
        (found_frame (CapTable.lookup p.caps e.frame_slot frame_right))
]

abbrev pub device : Io → ℕ → Option Inflights
device io dev = get_or io.devices dev none

abbrev pub ready : Io → ℕ → Bool
ready io dev = not (is_none (device io dev))

abbrev pub post_request : Io → Request → Inflights × Option ℕ → Io × Outcome
post_request io r (d, none) = (io, Outcome.full)
post_request io r (d, some head) = (
  record io {
    devices = set io.devices r.dev (some d);
    posted = record r { head = head } ∷ io.posted;
  },
  Outcome.consumed,
)

-- `Err` leaves the entry where it is.
unfoldable pub ring_post : Io → Request → ℕ → ℕ → Io × Outcome
ring_post io r ring user_data = elim (device io r.dev) [
  | none ↦ (io, Outcome.full)
  | some d ↦ post_request io r (Blk.submit d (to_ring ring user_data))
]

abbrev pub post_resolved : Io → ℕ → Entry → Direction → Resolved → Io × Outcome
post_resolved io id e dir (refused status) = finish io id e.user_data status
post_resolved io id e dir (target dev sector frame_phys) =
    if not (ready io dev)
    then finish io id e.user_data blk_e_dev
    else ring_post io
        (record {
          dev = dev;
          head = 0;
          sector = sector;
          count = e.count;
          frame_phys = frame_phys;
          dir = dir;
        })
        id e.user_data

abbrev pub range_right : Direction → ℕ
range_right Direction.read = right_read
range_right Direction.write = right_write

-- The device writes into the frame of a read.
abbrev pub frame_right : Direction → ℕ
frame_right Direction.read = right_write
frame_right Direction.write = right_read

-- `post_read` and `post_write`, which differ in the rights alone.
unfoldable pub post_block : Kernel → Io → ℕ → Entry → Direction → Io × Outcome
post_block k io id e dir =
    if e.count == 0 || ltb frame_size (saturating_mul e.count sector_size)
    then finish io id e.user_data blk_e_badarg
    else post_resolved io id e dir (resolve k (range_right dir) (frame_right dir) e)

abbrev pub subscribed : Io → ℕ → ℕ → Subscriptions × Option ℕ → Io × Outcome
subscribed io id user_data (subs, some slot) = (record io { subs = subs }, Outcome.consumed)
subscribed io id user_data (subs, none) = finish_event_err io id user_data

unfoldable pub post_event_sub : Kernel → Io → ℕ → ℕ → ℕ → Io × Outcome
post_event_sub k io id source_slot user_data = elim (source_for k source_slot) [
  | none ↦ finish_event_err io id user_data
  | some source ↦ subscribed io id user_data (Subs.subscribe io.subs source id user_data)
]

abbrev pub post_cancel : Io → ℕ → ℕ → Io × Outcome
post_cancel io id user_data =
    (record io { subs = (Subs.cancel io.subs id user_data).0 }, Outcome.consumed)

unfoldable pub post_entry : Kernel → Io → ℕ → Entry → Io × Outcome
post_entry k io id e =
    if e.op == ring_op_read
    then post_block k io id e Direction.read
    else if e.op == ring_op_write
    then post_block k io id e Direction.write
    else if e.op == ring_op_event_sub
    then post_event_sub k io id e.range_slot e.user_data
    else if e.op == ring_op_cancel
    then post_cancel io id e.user_data
    else finish io id e.user_data blk_e_badarg

abbrev pub entry_of : Io → ℕ → ℕ → ℕ → Entry
entry_of io base mask head =
    read_entry io.rings.mem (base + ring_hdr_size + bit_and head mask * sq_entry_size)

-- The loop of `ring_submit` with `n` rounds left: the state, the head, and how many are consumed.
unfoldable pub submit_loop : Kernel → ℕ → ℕ → ℕ → ℕ → Io → ℕ → ℕ → ℕ → Io × ℕ × ℕ
submit_loop k id base mask tail io head done zero = (io, head, done)
submit_loop k id base mask tail io head done (suc n) =
    let (io', outcome) = post_entry k io id (entry_of io base mask head) in
    let rest = submit_loop k id base mask tail io' (next head) (done + 1) n in
    if head == tail then (io, head, done) else if is_full outcome then (io', head, done) else rest

abbrev pub publish : Rings → ℕ → ℕ → ℕ → Rings
publish s id base head = record (put_ring s id (record (ring_at s id) { sq_head = head })) {
  mem = w32 s.mem (base + hdr_head) head;
}

abbrev pub published : ℕ → ℕ → Io × ℕ × ℕ → Io × ℕ
published id base (io, head, done) = (record io { rings = publish io.rings id base head }, done)

abbrev pub drain_submissions : Kernel → Io → ℕ → Io × ℕ
drain_submissions k io id =
    let r = ring_at io.rings id in
    let base = va io.rings r.sq_phys in
    let tail = io.rings.mem (base + hdr_tail) in
    published id base (submit_loop k id base r.mask tail io r.sq_head 0 (distance tail r.sq_head))

unfoldable pub ring_submit : Kernel → Io → ℕ → Io × ℕ
ring_submit k io ring_slot = elim (ring_id_for k io.rings ring_slot) [
  | none ↦ (io, ring_err)
  | some id ↦ drain_submissions k io id
]
