-- ===== src/Ipc/WaitQueue.antt =====
-- kernel/src/ipc.rs, `WaitQueue`: a FIFO of blocked waiters whose links live in an outside array
-- indexed by process slot. A method that is handed the links returns them where it writes them.
pub mod Refine
use plinth_os.Base.{
  ℕ, ◌≡◌, ◌&&◌, not, Bool, true, false, Option, none, some, List, get_or, set, if◌then◌else◌,
}
use plinth_os.Capability.{is_none}

pub record WaitQueue : Type 0 where
  pub head : Option ℕ
  pub tail : Option ℕ
  pub are_senders : Bool

abbrev pub empty : WaitQueue
empty = record { head = none; tail = none; are_senders = false }

abbrev pub Links : Type 0
Links = List (Option ℕ)

abbrev pub link_of : Links → ℕ → Option ℕ
link_of links i = get_or links i none

-- The two arms of the `match self.tail` in `enqueue`, on links whose `slot` is already cleared.
abbrev pub append_after : Option ℕ → WaitQueue → ℕ → Links → WaitQueue × Links
append_after (some tail) q slot links = (q, set links tail (some slot))
append_after none q slot links = (record q { head = some slot }, links)

unfoldable pub enqueue : WaitQueue → ℕ → Bool → Links → WaitQueue × Links
enqueue q slot are_senders links =
    let (q', links') = append_after q.tail q slot (set links slot none) in
    (record q' { tail = some slot; are_senders = are_senders }, links')

abbrev pub advance : Option ℕ → WaitQueue → Links → WaitQueue × Option ℕ
advance none q links = (q, none)
advance (some head) q links = (
  record q {
    head = link_of links head;
    tail = if is_none (link_of links head) then none else q.tail;
  },
  some head,
)

unfoldable pub dequeue : WaitQueue → Links → WaitQueue × Option ℕ
dequeue q links = advance q.head q links

-- `==` on `bool`
abbrev pub same_side : Bool → Bool → Bool
same_side true b = b
same_side false b = not b

unfoldable pub take_if : WaitQueue → Bool → Links → WaitQueue × Option ℕ
take_if q want_senders links =
    if not (is_none q.head) && same_side q.are_senders want_senders
    then dequeue q links
    else (q, none)

unfoldable pub is_empty : WaitQueue → Bool
is_empty q = is_none q.head
