-- ===== src/Tests/RingTests.antt =====
-- A ring of two entries in the frame at 0, whose owner waits, and a reader of it.
use plinth_os.Base.{
  ℕ, ◌≤◌, ◌≡◌, ◌⊎◌, refl, not, true, false, none, some, List, [], ◌∷◌, ◌++◌, arith, replicate,
}
use plinth_os.Base.Bits.{size2}
use plinth_os.Capability.{is_none}
use plinth_os.Rings
use plinth_os.Rings.{Rings, Ring, Mem, ring_at, w32, hdr_head, hdr_tail, hdr_mask, post_event}
use plinth_os.Rings.Completions.{IsRing, unread, Posted, waiting_count, post_event-cases}
use plinth_os.Rings.Subs.{Subscriptions, find, cancel}
use plinth_os.Rings.Subs.Keys.{IsKeyed, Absent, cancel_lem}
use plinth_os.Reactor.{Reactor, reap, take}
use plinth_os.Reactor.Staged.{Staged}
use plinth_os.Reactor.Reap.{reap-unread}
use plinth_os.Reactor.Take.{NoneFor, take-cases}

abbrev waiting_ring : Ring
waiting_ring = record Rings.empty {
  in_use = true;
  owner = 2;
  mask = 1;
  cq_tail = 1;
  waiting = true;
}

abbrev header : Mem
header = w32 (w32 (λ p. 0) 4 1) 8 1

abbrev rings : Rings
rings = record { rings = waiting_ring ∷ replicate 7 Rings.empty; mem = header; phys_offset = 0 }

rings-IsRing : IsRing rings 0
rings-IsRing = record {
  in_range = omega arith;
  there = omega arith;
  in_use = refl;
  size = size2;
  tail_word = omega arith;
  head_word = omega arith;
}

post_event-cases_example :
    ((s' : Rings) × (post_event rings 0 9 5 ≡ (s', true, some 2))
      × ((ring_at s' 0).waiting ≡ false)
      × Posted rings s' 0 9 5)
    ⊎ ((post_event rings 0 9 5 ≡ (rings, false, none)) × (2 ≤ waiting_count rings 0))
post_event-cases_example = post_event-cases rings 0 9 5 rings-IsRing (omega arith)

abbrev idle : Reactor
idle = record { done = []; drops = 0; undelivered = 0 }

reap-unread_example :
    Staged idle (reap rings.mem 0 idle).1 (unread rings 0) × ((reap rings.mem 0 idle).0 0 ≡ 1)
reap-unread_example = reap-unread rings 0 idle rings-IsRing refl refl (omega arith) (omega arith)

taken : take ((7, 0) ∷ (8, 4) ∷ (7, 1) ∷ []) 7 ≡ ((8, 4) ∷ (7, 1) ∷ [], some 0)
unfolding take
taken = refl

take-cases_example :
    ((before after : List (ℕ × ℕ)) × (status : ℕ) × ((7, 0) ∷ (8, 4) ∷ []
        ≡ before ++ (8, status) ∷ after)
      × NoneFor 8 before
      × (take ((7, 0) ∷ (8, 4) ∷ []) 8 ≡ (before ++ after, some status)))
    ⊎ ((take ((7, 0) ∷ (8, 4) ∷ []) 8 ≡ ((7, 0) ∷ (8, 4) ∷ [], none))
        × NoneFor 8 ((7, 0) ∷ (8, 4) ∷ []))
take-cases_example = take-cases ((7, 0) ∷ (8, 4) ∷ []) 8

abbrev subs : Subscriptions
subs = some (record { source = 1; ring = 0; user_data = 9; dropped = 2 }) ∷ none ∷ []

subs-IsKeyed : IsKeyed subs
subs-IsKeyed = (λ ring ud m. (refl, tt), ((λ ring ud m. tt), tt))

cancel_lem_example :
    Absent 0 9 (cancel subs 0 9).0
    × ((cancel subs 0 9).1 ≡ not (is_none (find subs 0 9)))
    × IsKeyed (cancel subs 0 9).0
cancel_lem_example = cancel_lem subs 0 9 subs-IsKeyed
