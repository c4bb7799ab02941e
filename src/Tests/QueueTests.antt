-- ===== src/Tests/QueueTests.antt =====
-- Three waiters on one queue of four links, and the unmapping of a screen that is given away.
use plinth_os.Base.{◌≡◌, refl, true, false, none, some, [], ◌∷◌, arith, replicate}
use plinth_os.Capability.{Capability, framebuffer}
use plinth_os.CapTable
use plinth_os.CapTable.{CapTable}
use plinth_os.Process.{
  FbMap, Process, revoke_and_unmap, unmap_fb_for_slot, fb_take_slot, unmap_all, unmap_run,
  unmap_user_page,
}
use plinth_os.Process.Unmap.{framebuffer_unmapped, NoneAt, PagesGone, records_at}
use plinth_os.Ipc.WaitQueue.{WaitQueue, Links, enqueue, take_if}
use plinth_os.Ipc.WaitQueue.Refine.{Holds, enqueue-Holds, take_if_lem}

-- Slot 2 has waited longer than slot 0.
abbrev links : Links
links = none ∷ none ∷ some 0 ∷ none ∷ []

abbrev queue : WaitQueue
queue = record { head = some 2; tail = some 0; are_senders = true }

queue-Holds : Holds queue links (2 ∷ 0 ∷ [])
queue-Holds = record {
  at_head = refl;
  at_tail = refl;
  linked = (omega arith, refl, (omega arith, refl, tt));
  distinct = ((λ e. omega arith, tt), (tt, tt));
}

enqueue-Holds_example :
    Holds (enqueue queue 1 true links).0 (enqueue queue 1 true links).1 (2 ∷ 0 ∷ 1 ∷ [])
    × ((enqueue queue 1 true links).0.are_senders ≡ true)
enqueue-Holds_example =
    enqueue-Holds queue links 1 true (2 ∷ 0 ∷ []) queue-Holds (omega arith)
      (λ e. omega arith, (λ e. omega arith, tt))

take_if_lem_example :
    ((take_if queue true links).1 ≡ some 2) × Holds (take_if queue true links).0 links (0 ∷ [])
take_if_lem_example = take_if_lem queue links true (2 ∷ 0 ∷ []) queue-Holds

abbrev other : WaitQueue
other = record { head = some 3; tail = some 3; are_senders = false }

other-Holds : Holds other links (3 ∷ [])
other-Holds = record {
  at_head = refl;
  at_tail = refl;
  linked = (omega arith, refl, tt);
  distinct = (tt, tt);
}

abbrev screen : Capability
screen = record { object = framebuffer 0x1000 64 48 64 4 1; rights = 6; origin = none }

abbrev shown : FbMap
shown = record { va_base = 0x20000; pages = 2; slot = 0 }

abbrev kept : Process
kept = record {
  caps = record { slots = replicate 16 none; reserved = replicate 16 false };
  maps = none ∷ [];
  fb_maps = none ∷ none ∷ [];
  pages = 7 ∷ [];
}

abbrev drawing : Process
drawing = record kept {
  caps = record { slots = some screen ∷ replicate 15 none; reserved = replicate 16 false };
  fb_maps = some shown ∷ none ∷ [];
  pages = 0x20 ∷ 7 ∷ 0x21 ∷ [];
}

framebuffer_unmapped_example :
    NoneAt 0 kept.fb_maps × PagesGone kept.pages (records_at 0 drawing.fb_maps)
unfolding revoke_and_unmap unmap_fb_for_slot fb_take_slot unmap_all unmap_run unmap_user_page
    CapTable.revoke
framebuffer_unmapped_example = framebuffer_unmapped drawing kept 0 screen refl refl
