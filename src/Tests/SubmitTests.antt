-- ===== src/Tests/SubmitTests.antt =====
-- A process whose ring 0 holds one request: to read one sector of its range into its frame.
use plinth_os.Base.{◌<◌, ◌≡◌, ◌⊎◌, refl, true, false, none, some, [], ◌∷◌, arith, replicate}
use plinth_os.Base.Bits.{size2}
use plinth_os.Capability.{frame, ring, block_range}
use plinth_os.Process.{Process}
use plinth_os.Kernel.{Kernel, empty_slot, block_current}
use plinth_os.Ipc.Endpoint
use plinth_os.Blk.{Inflights}
use plinth_os.Blk
use plinth_os.Rings
use plinth_os.Rings.{Rings, Ring, Mem, w32, post_event, post_completion}
use plinth_os.Rings.Completions.{IsRing, unread, waiting_count}
use plinth_os.Rings.Subs
use plinth_os.Rings.Submit.{Io, Request, Direction, ring_submit}
use plinth_os.Rings.Submit.Authority.{Asked, ring_submit-Asked}
use plinth_os.Rings.Submit.Progress.{IsDrained, ring_submit-IsDrained}
use plinth_os.Rings.Wait.{ring_wait}
use plinth_os.Rings.Wait.Wakes.{parked, ring_wait-cases}

abbrev process : Process
process = record {
  caps = record {
    slots =
        some (record { object = ring 0; rights = 3; origin = none })
        ∷ some (record { object = block_range 0 100 8; rights = 1; origin = none })
        ∷ some (record { object = frame 0x5000; rights = 2; origin = none })
        ∷ replicate 13 none;
    reserved = replicate 16 false;
  };
  maps = [];
  fb_maps = [];
  pages = [];
}

abbrev kernel : Kernel
kernel = record {
  table = empty_slot ∷ empty_slot ∷ empty_slot ∷ empty_slot ∷ [];
  links = replicate 4 none;
  endpoints = replicate 8 Endpoint.empty;
  current_slot = 2 ∷ [];
  current = some process ∷ [];
  core = 0;
}

-- The submission queue is the frame at 4096, the completion queue the frame at 8192.
abbrev filled : Mem
filled = w32 (w32 (w32 (w32 (w32 (λ p. 0) 4100 1) 4116 1) 4120 1) 4124 2) 4128 5

abbrev sleeping_ring : Ring
sleeping_ring = record Rings.empty {
  in_use = true;
  owner = 2;
  sq_phys = 4096;
  cq_phys = 8192;
  mask = 1;
}

abbrev io : Io
io = record {
  rings = record { rings = sleeping_ring ∷ replicate 7 Rings.empty; mem = filled; phys_offset = 0 };
  subs = Subs.new;
  devices = some (Blk.new 2) ∷ none ∷ none ∷ [];
  posted = [];
}

submitted :
    (ring_submit kernel io 0).0.posted
    ≡ record {
      dev = 0;
      head = 3;
      sector = 105;
      count = 1;
      frame_phys = 0x5000;
      dir = Direction.read;
    }
      ∷ []
unfolding ring_submit Rings.ring_id_for plinth_os.CapTable.lookup plinth_os.Rings.Submit.submit_loop
    plinth_os.Rings.Submit.post_entry plinth_os.Rings.Submit.post_block
    plinth_os.Rings.Submit.resolve plinth_os.Rings.Submit.ring_post Blk.submit Blk.new Blk.numbered
submitted = refl

ring_submit-Asked_example : Asked kernel io (ring_submit kernel io 0).0
ring_submit-Asked_example = ring_submit-Asked kernel io 0

ring_submit-IsDrained_example : IsDrained io 0 (ring_submit kernel io 0)
unfolding plinth_os.Rings.ring_id_for plinth_os.CapTable.lookup
ring_submit-IsDrained_example =
    ring_submit-IsDrained kernel io 0 0 refl (omega arith) (omega arith) (omega arith)

sleeping-IsRing : IsRing io.rings 0
sleeping-IsRing = record {
  in_range = omega arith;
  there = omega arith;
  in_use = refl;
  size = size2;
  tail_word = omega arith;
  head_word = omega arith;
}

ring_wait-cases_example :
    ((ring_wait kernel io.rings 0 ≡ (kernel, io.rings, some 0)) × (0 < waiting_count io.rings 0))
    ⊎ ((ring_wait kernel io.rings 0 ≡ (block_current kernel, parked io.rings 0, none))
        × ((s' : Rings) × (post_event (parked io.rings 0) 0 9 5 ≡ (s', true, some 2))
            × (post_completion (parked io.rings 0) 0 9 5 ≡ (s', some 2))
            × (unread s' 0 ≡ (9, 5) ∷ [])))
unfolding plinth_os.Rings.ring_id_for plinth_os.CapTable.lookup
ring_wait-cases_example = ring_wait-cases kernel io.rings 0 0 9 5 refl sleeping-IsRing (omega arith)
