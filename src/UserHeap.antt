-- ===== src/UserHeap.antt =====
-- libos/src/lib.rs: the two memory policies of a process, on frames that it asks the kernel for.
--
-- `grant` is what the kernel makes of the two calls `sys_frame_alloc` and `sys_frame_map` at an
-- address: its new state, and whether the page is mapped. A null pointer is `none`.
pub mod Cover
pub mod Carve
pub mod Apart
use plinth_os.Base.{
  ℕ, zero, suc, ◌+◌, ◌-◌, ◌*◌, ◌/◌, ◌%◌, ◌^◌, ◌<◌, ◌≡◌, not, Bool, true, false, Option, none, some,
  List, [], ◌∷◌, ◌++◌, replicate, ltb, if◌then◌else◌,
}

abbrev pub align : ℕ
align = 8

abbrev pub page_len : ℕ
page_len = 4096

abbrev pub map_base : ℕ
map_base = 0x10000000

abbrev pub map_end : ℕ
map_end = 0x20000000

abbrev pub max_free_spans : ℕ
max_free_spans = 32

abbrev pub Grant : Type 0 → Type 0
Grant K = K → ℕ → K × Bool

pub record Region : Type 0 where
  pub next : ℕ
  pub mapped_end : ℕ
  pub frames : ℕ

abbrev pub new_region : Region
new_region = record { next = map_base; mapped_end = map_base; frames = 0 }

-- The loop of `carve` with `n` rounds left, and whether it came to its end.
unfoldable pub grow : {K : Type 0} → Grant K → K → Region → ℕ → ℕ → K × Region × Bool
grow grant k r end_at zero = (k, r, true)
grow grant k r end_at (suc n) =
    let (k', granted) = grant k r.mapped_end in
    let rest =
      grow grant k' (record r { mapped_end = r.mapped_end + page_len; frames = r.frames + 1 })
        end_at n in
    if not (ltb r.mapped_end end_at) then (k, r, true) else if granted then rest else (k', r, false)

abbrev pub rounds : Region → ℕ → ℕ
rounds r end_at = (end_at - r.mapped_end + (page_len - 1)) / page_len

abbrev pub carved : {K : Type 0} → ℕ → ℕ → K × Region × Bool → K × Region × Option ℕ
carved start end_at (k, r, true) = (k, record r { next = end_at }, some start)
carved start end_at (k, r, false) = (k, r, none)

-- The sum is a `u64`.
unfoldable pub carve : {K : Type 0} → Grant K → K → Region → ℕ → K × Region × Option ℕ
carve grant k r size =
    let end_at = (r.next + size) % 2 ^ 64 in
    carved r.next end_at (grow grant k r end_at (rounds r end_at))

unfoldable pub round_up : ℕ → ℕ
round_up size = (size + (align - 1)) / align * align % 2 ^ 64

-- `BumpAlloc::alloc`
abbrev pub bump_alloc : {K : Type 0} → Grant K → K → Region → ℕ → K × Region × Option ℕ
bump_alloc grant k r size = carve grant k r (round_up size)

pub record Span : Type 0 where
  pub at : ℕ
  pub size : ℕ

abbrev pub Spans : Type 0
Spans = List (Option Span)

pub record FreeList : Type 0 where
  pub region : Region
  pub spans : Spans

abbrev pub new : FreeList
new = record { region = new_region; spans = replicate max_free_spans none }

-- What is left of a span of which `size` bytes are taken.
abbrev pub rest_of : Span → ℕ → Option Span
rest_of s size =
    if not (ltb (s.size - size) align)
    then some (record { at = s.at + size; size = s.size - size })
    else none

-- First fit.
unfoldable pub take_span : Spans → ℕ → Spans × Option ℕ
take_span [] size = ([], none)
take_span (none ∷ ss) size = let (ss', found) = take_span ss size in (none ∷ ss', found)
take_span (some s ∷ ss) size =
    let (ss', found) = take_span ss size in
    if not (ltb s.size size) then (rest_of s size ∷ ss, some s.at) else (some s ∷ ss', found)

abbrev pub carved_for : {K : Type 0} → FreeList → K × Region × Option ℕ → K × FreeList × Option ℕ
carved_for h (k, r, result) = (k, record h { region = r }, result)

abbrev pub alloc_from :
    {K : Type 0} → Grant K → K → FreeList → ℕ → Spans × Option ℕ → K × FreeList × Option ℕ
alloc_from grant k h size (spans, some at) = (k, record h { spans = spans }, some at)
alloc_from grant k h size (spans, none) = carved_for h (carve grant k h.region size)

unfoldable pub alloc : {K : Type 0} → Grant K → K → FreeList → ℕ → K × FreeList × Option ℕ
alloc grant k h size = alloc_from grant k h (round_up size) (take_span h.spans (round_up size))

-- A span that finds no place is dropped.
unfoldable pub put_span : Spans → Span → Spans
put_span [] s = []
put_span (none ∷ ss) s = some s ∷ ss
put_span (some x ∷ ss) s = some x ∷ put_span ss s

unfoldable pub free : FreeList → ℕ → ℕ → FreeList
free h at size = record h { spans = put_span h.spans (record { at = at; size = round_up size }) }
