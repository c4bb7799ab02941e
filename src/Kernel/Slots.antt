-- ===== src/Kernel/Slots.antt =====
-- What the operations on one slot of the process table leave in every slot.
use plinth_os.Base.{
  ℕ, ◌≡◌, ◌∙◌, length, arith, get_or-set, length-set, ◌==◌, ltb, if◌then◌else◌, ◌&&◌,
}
use plinth_os.Kernel.{
  Kernel, Slot, State, slot_of, put_slot, wake_with, take_reclaim_landing, empty_slot, no_cap,
}

pub slot_of-put_slot :
    (k : Kernel) (i s : ℕ) (v : Slot)
    → slot_of (put_slot k i v) s ≡ (if i == s && ltb i (length k.table) then v else slot_of k s)
slot_of-put_slot k i s v = get_or-set k.table i s v empty_slot

abbrev pub woken : Slot → ℕ → ℕ → ℕ → Slot
woken v status payload landing = record v {
  rax = status;
  rsi = payload;
  rdx = landing;
  state = State.ready;
}

pub slot_of-wake_with :
    (k : Kernel) (i s status payload landing : ℕ)
    → slot_of (wake_with k i status payload landing) s ≡ (
        if i == s && ltb i (length k.table)
        then woken (slot_of k i) status payload landing
        else slot_of k s)
unfolding wake_with
slot_of-wake_with k i s status payload landing = slot_of-put_slot k i s _

pub length-wake_with :
    (k : Kernel) (i status payload landing : ℕ)
    → length (wake_with k i status payload landing).table ≡ length k.table
unfolding wake_with
length-wake_with k i status payload landing = length-set k.table i _

-- Waking a slot with the landing that was pending for it.
abbrev pub wake_landed : Kernel → ℕ → ℕ → Kernel
wake_landed k slot status =
    let (k', landing) = take_reclaim_landing k slot in wake_with k' slot status 0 landing

pub slot_of-take :
    (k : Kernel) (i s : ℕ)
    → slot_of (take_reclaim_landing k i).0 s ≡ (
        if i == s && ltb i (length k.table)
        then record (slot_of k i) { pending_landing = no_cap }
        else slot_of k s)
unfolding take_reclaim_landing
slot_of-take k i s = slot_of-put_slot k i s _

pub length-take : (k : Kernel) (i : ℕ) → length (take_reclaim_landing k i).0.table ≡ length k.table
unfolding take_reclaim_landing
length-take k i = length-set k.table i _

-- A slot that is woken so is ready, and told the status and the landing; any other is as it was.
pub slot_of-wake_landed :
    (k : Kernel) (i s status : ℕ)
    → slot_of (wake_landed k i status) s ≡ (
        if i == s && ltb i (length k.table)
        then woken
            (record (slot_of k i) { pending_landing = no_cap })
            status
            0
            (take_reclaim_landing k i).1
        else slot_of k s)
slot_of-wake_landed k i s status = ground (
  arith,
  slot_of-wake_with (take_reclaim_landing k i).0 i s status 0 (take_reclaim_landing k i).1,
  slot_of-take k i s,
  slot_of-take k i i,
  length-take k i,
)

pub length-wake_landed :
    (k : Kernel) (i status : ℕ) → length (wake_landed k i status).table ≡ length k.table
length-wake_landed k i status = length-wake_with _ i status 0 _ ∙ length-take k i
