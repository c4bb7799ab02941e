-- ===== src/UserHeap/Apart.antt =====
-- The blocks that are handed out never overlap, whatever is allocated and freed.
use plinth_os.Base.{
  ℕ, ◌+◌, ◌^◌, ◌≤◌, ◌≡◌, refl, Option, none, some, List, [], ◌∷◌, ◌++◌, arith, ltb, leb, ◌&&◌,
  if◌then◌else◌,
}
use plinth_os.UserHeap.{
  Grant, Region, FreeList, Span, Spans, new, carve, carved_for, round_up, alloc, alloc_from, free,
  take_span, map_base,
}
use plinth_os.UserHeap.Cover.{
  cover, covers_free, covers, covers-append, covers_free-none, Taken, take_span-cover,
  put_span-cover,
}
use plinth_os.UserHeap.Carve.{IsWindow, IsRegion, Carves, carve-Carves}

-- The allocator with the blocks that the program holds: the size of each as the allocator rounds it.
pub record Heap (K : Type 0) : Type 0 where
  pub kernel : K
  pub list : FreeList
  pub live : List Span

abbrev pub with_block : {K : Type 0} → List Span → ℕ → K × FreeList × Option ℕ → Heap K
with_block live size (k, h, none) = record { kernel = k; list = h; live = live }
with_block live size (k, h, some at) = record {
  kernel = k;
  list = h;
  live = record { at = at; size = round_up size } ∷ live;
}

abbrev pub initial : {K : Type 0} → K → Heap K
initial k = record { kernel = k; list = new; live = [] }

-- A program asks for memory, or gives back a block that it holds, with the size that it asked for.
pub data Step {K : Type 0} (grant : Grant K) : Heap K → Heap K → Type 0 where
  allocates :
      (s : Heap K) (size : ℕ)
      → size ≤ 2 ^ 63
      → Step grant s (with_block s.live size (alloc grant s.kernel s.list size))
  frees :
      (k : K) (h : FreeList) (before after : List Span) (at size : ℕ)
      → Step grant
          (record {
            kernel = k;
            list = h;
            live = before ++ record { at = at; size = round_up size } ∷ after;
          })
          (record { kernel = k; list = free h at size; live = before ++ after })

pub data Reach {K : Type 0} (grant : Grant K) : Heap K → Heap K → Type 0 where
  here : (s : Heap K) → Reach grant s s
  after_step : {s t u : Heap K} → Reach grant s t → Step grant t u → Reach grant s u

abbrev pub used : Region → ℕ → ℕ
used r a = if leb map_base a && ltb a r.next then 1 else 0

-- Each address belongs to one block or one free span at most, and only if it was carved.
pub record IsHeap {K : Type 0} (s : Heap K) : Type 0 where
  pub apart : (a : ℕ) → covers_free s.list.spans a + covers s.live a ≤ used s.list.region a
  pub region : IsRegion s.list.region

added :
    {K : Type 0} (s : Heap K) (size a at : ℕ) (r' : Region)
    → at ≡ s.list.region.next
    → r'.next ≡ s.list.region.next + round_up size
    → map_base ≤ s.list.region.next
    → covers_free s.list.spans a + covers s.live a ≤ used s.list.region a
    → covers_free s.list.spans a
        + (cover (record { at = at; size = round_up size }) a + covers s.live a)
      ≤ used r' a
unfolding cover
added s size a at r' start grown low before = ground (arith, before, start, grown, low)

alloc_from-IsHeap :
    {K : Type 0} (grant : Grant K) (s : Heap K) (size : ℕ) (found : Spans × Option ℕ)
    → IsWindow grant
    → IsHeap s
    → round_up size ≤ 2 ^ 63
    → ((a : ℕ) → Taken s.list.spans (round_up size) a found)
    → IsHeap (with_block s.live size (alloc_from grant s.kernel s.list (round_up size) found))
unfolding covers
alloc_from-IsHeap grant s size (spans, some at) w v small t = record {
  apart = λ a. omega (arith, v.apart a, t a);
  region = v.region;
}
alloc_from-IsHeap {K} grant s size (spans, none) w v small t =
    from_region (carve grant s.kernel s.list.region (round_up size))
      (carve-Carves grant s.kernel s.list.region (round_up size) w v.region small)
  where
    from_region :
        (out : K × Region × Option ℕ)
        → Carves s.list.region (round_up size) out
        → IsHeap (with_block s.live size (carved_for s.list out))
    from_region (k, r', none) (region, same) = record {
      apart = λ a. ground (arith, v.apart a, same);
      region = region;
    }
    from_region (k, r', some at) (region, start, grown) =
        let low = v.region.low in
        record { apart = λ a. added s size a at r' start grown low (v.apart a); region = region }

round_up-small : (size : ℕ) → size ≤ 2 ^ 63 → round_up size ≤ 2 ^ 63
unfolding round_up
round_up-small size le = omega arith

Step-IsHeap :
    {K : Type 0} (grant : Grant K) {s t : Heap K}
    → IsWindow grant
    → Step grant s t
    → IsHeap s
    → IsHeap t
unfolding alloc free covers
Step-IsHeap grant w (allocates s size le) v =
    alloc_from-IsHeap grant s size (take_span s.list.spans (round_up size)) w v
      (round_up-small size le) (λ a. take_span-cover s.list.spans (round_up size) a)
Step-IsHeap grant w (frees k h before after at size) v =
    let block : Span = record { at = at; size = round_up size } in
    record {
      apart = λ a. omega (
        arith,
        v.apart a,
        put_span-cover h.spans block a,
        covers-append before (block ∷ after) a,
        covers-append before after a,
      );
      region = v.region;
    }

initial-IsHeap : {K : Type 0} (k : K) → IsHeap (initial k)
unfolding covers
initial-IsHeap k = record {
  apart = λ a. omega (arith, covers_free-none 32 a);
  region = record {
    low = omega arith;
    mapped = omega arith;
    window = omega arith;
    accounted = refl;
  };
}

-- Whatever a program allocates and frees in its heap, as long as it frees only what it holds, each
-- address is in one of its blocks at most, and in none while it is on the free list; every block lies
-- in pages that the kernel has mapped in the window; and the count of frames is that of the pages.
-- The kernel maps pages of the window only, and no request is larger than half of what 64 bits hold.
pub Reach-IsHeap :
    {K : Type 0} (grant : Grant K) (k : K) (s : Heap K)
    → IsWindow grant
    → Reach grant (initial k) s
    → IsHeap s
Reach-IsHeap grant k s w (here _) = initial-IsHeap k
Reach-IsHeap grant k s w (after_step run step) =
    Step-IsHeap grant w step (Reach-IsHeap grant k _ w run)
