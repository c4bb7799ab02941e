-- ===== src/Tests/IpcTests.antt =====
-- Two cores, four slots and eight endpoints: a death, the calls that block, and a move that fails.
use plinth_os.Base.{
  ◌≡◌, inr, refl, true, false, Option, none, some, List, [], ◌∷◌, arith, replicate,
  get_or-replicate,
}
use plinth_os.Capability.{reply, Capability, endpoint, framebuffer, frame, lend_reserves_home}
use plinth_os.CapTable
use plinth_os.CapTable.{CapTable, slot_at, is_reserved}
use plinth_os.CapTable.Valid.{IsValid}
use plinth_os.Process.{Process}
use plinth_os.Kernel.{Kernel, Slot, State, empty_slot, current, no_cap}
use plinth_os.Ipc.Endpoint
use plinth_os.Ipc.Endpoint.Counts.{note_cap_added-note_cap_removed}
use plinth_os.Ipc.Endpoint.{
  note_cap_added, note_cap_removed, create_endpoint, free_endpoint_count, Endpoint, Endpoints,
  ep_at,
}
use plinth_os.Ipc.Reply.{Answered, ipc_reply-Answered}
use plinth_os.Ipc.Calls.{ipc_reply, ipc_ok, returns, transfer_current_to_blocked}
use plinth_os.Ipc.Death.{reap_dying}
use plinth_os.Ipc.Liveness.{AllWoken}
use plinth_os.Ipc.Dying.{reap_dying_lem}
use plinth_os.Ipc.Waits.{Waits}
use plinth_os.Ipc.WaitQueue.Refine.{Holds}
use plinth_os.Ipc.Transfer.{failed_transfer}

abbrev gate : Capability
gate = record { object = endpoint 0; rights = 48; origin = none }

abbrev screen : Capability
screen = record { object = framebuffer 0x1000 64 48 64 4 1; rights = 6; origin = none }

abbrev page : Capability
page = record { object = frame 0x5000; rights = 7; origin = none }

abbrev process_with : List (Option Capability) → Process
process_with slots = record {
  caps = record { slots = slots; reserved = replicate 16 false };
  maps = [];
  fb_maps = [];
  pages = [];
}

abbrev client : Process
client = process_with (some gate ∷ some screen ∷ replicate 14 none)

abbrev crowded : Process
crowded = process_with (replicate 16 (some page))

abbrev waiting : Process → Slot
waiting p = record empty_slot { state = State.blocked; process = some p }

-- Slots 1 and 2 wait on endpoint 0, in that order; the client runs on core 0 in slot 0.
abbrev served : Endpoint
served = record {
  in_use = true;
  queue = record { head = some 1; tail = some 2; are_senders = true };
  senders = 3;
  receivers = 1;
}

abbrev kernel : Kernel
kernel = record {
  table =
      record empty_slot { state = State.running }
      ∷ waiting crowded
      ∷ waiting crowded
      ∷ empty_slot
      ∷ [];
  links = none ∷ some 2 ∷ none ∷ none ∷ [];
  endpoints = served ∷ replicate 7 Endpoint.empty;
  current_slot = 0 ∷ 3 ∷ [];
  current = some client ∷ none ∷ [];
  core = 0;
}

kernel-Holds : Holds (ep_at kernel.endpoints 0).queue kernel.links (1 ∷ 2 ∷ [])
kernel-Holds = record {
  at_head = refl;
  at_tail = refl;
  linked = (omega arith, refl, (omega arith, refl, tt));
  distinct = ((λ e. omega arith, tt), (tt, tt));
}

-- The client, which has the only capability to receive, dies.
reap_dying_lem_example :
    AllWoken (reap_dying kernel client.caps) (1 ∷ 2 ∷ [])
    × ((ep_at (reap_dying kernel client.caps).endpoints 0).queue.head ≡ none)
unfolding CapTable.iter CapTable.live
reap_dying_lem_example =
    reap_dying_lem kernel client.caps 0 (1 ∷ 2 ∷ []) (omega arith) (omega arith) refl
      (inr (omega arith, omega arith)) kernel-Holds (omega arith, (omega arith, tt)) (omega arith)

client-IsValid : IsValid client.caps
client-IsValid = record {
  slot_count = refl;
  reserved_count = refl;
  held_empty = λ i h. absurd (ground (arith, get_or-replicate 16 i false));
}

failed_transfer_example :
    let (k', landing) = transfer_current_to_blocked kernel 1 1 in
    (landing ≡ no_cap)
    × (p' : Process) × (current k' ≡ some p')
    × (slot_at p'.caps 1 ≡ none)
    × (is_reserved p'.caps 1 ≡ true)
unfolding CapTable.first_free lend_reserves_home
failed_transfer_example =
    failed_transfer kernel 1 1 client crowded screen (omega arith) refl client-IsValid refl refl
      refl refl

note_cap_added-note_cap_removed_example :
    ep_at (note_cap_added (note_cap_removed kernel.endpoints gate false) gate) 0
    ≡ ep_at kernel.endpoints 0
note_cap_added-note_cap_removed_example = note_cap_added-note_cap_removed kernel.endpoints gate 0 (
  omega arith,
  record {
    sends = λ e. omega arith;
    receives = λ e. omega arith;
    few_senders = omega arith;
    few_receivers = omega arith;
  },
)

-- The client holds a reply capability for the process that waits in slot 2.
abbrev server : Process
server =
    process_with (some (record { object = reply 2; rights = 0; origin = none }) ∷ replicate 15 none)

abbrev serving : Kernel
serving = record kernel { current = some server ∷ none ∷ [] }

ipc_reply-Answered_example :
    let (k', outcome) = ipc_reply serving 0 42 in (outcome ≡ returns ipc_ok) × Answered k' 2 42 0
unfolding CapTable.lookup
ipc_reply-Answered_example =
    ipc_reply-Answered serving server 0 42 2 refl (omega arith) refl refl (omega arith)
