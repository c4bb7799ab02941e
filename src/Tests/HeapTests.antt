-- ===== src/Tests/HeapTests.antt =====
-- A kernel that maps every page of the window, and a program that allocates 20 bytes, and frees them
-- after it has allocated 5000 more.
use plinth_os.Base.{ℕ, ◌+◌, ◌-◌, ◌^◌, ◌≡◌, refl, some, [], ◌∷◌, arith, leb}
use plinth_os.UserHeap.{Grant, map_base, map_end, page_len, alloc, new}
use plinth_os.UserHeap.Carve.{IsWindow}
use plinth_os.UserHeap.Apart.{
  Heap, allocates, frees, Reach, here, after_step, with_block, initial, IsHeap, Reach-IsHeap,
}

abbrev counting : Grant ℕ
counting k at = (k + 1, leb (at + page_len) map_end)

counting-IsWindow : IsWindow counting
counting-IsWindow k at granted = ground (arith, granted)

abbrev one : Heap ℕ
one = with_block [] 20 (alloc counting 0 new 20)

abbrev two : Heap ℕ
two = with_block one.live 5000 (alloc counting one.kernel one.list 5000)

abbrev last : Heap ℕ
last = record {
  kernel = two.kernel;
  list = plinth_os.UserHeap.free two.list map_base 20;
  live = record { at = map_base + 24; size = 5000 } ∷ [];
}

steps : Reach counting (initial 0) last
unfolding alloc plinth_os.UserHeap.take_span plinth_os.UserHeap.carve plinth_os.UserHeap.grow
    plinth_os.UserHeap.round_up
steps =
    after_step
      (after_step (after_step (here (initial 0)) (allocates (initial 0) 20 (omega arith)))
        (allocates one 5000 (omega arith)))
      (frees two.kernel two.list (record { at = map_base + 24; size = 5000 } ∷ []) [] map_base 20)

-- The size of the largest request wraps to 0 when it is rounded, and so it is given no byte at all.
wraps : (alloc counting 0 new (2 ^ 64 - 1)).2 ≡ some map_base
unfolding alloc plinth_os.UserHeap.take_span plinth_os.UserHeap.carve plinth_os.UserHeap.grow
    plinth_os.UserHeap.round_up
wraps = refl

Reach-IsHeap_example : IsHeap last
Reach-IsHeap_example = Reach-IsHeap counting 0 last counting-IsWindow steps
