-- ===== src/Process.antt =====
-- kernel/src/process.rs: what a process holds besides its capabilities, and how a capability leaves
-- it together with the access that it justified.
--
-- The address space is the list of the pages that are mapped. `memory::unmap_user_page` takes the
-- page of an address off that list; the page tables themselves are the hardware's.
pub mod Unmap
use plinth_os.Base.{
  ℕ, zero, suc, ◌+◌, ◌*◌, ◌/◌, ◌<◌, ◌≡◌, ◌&&◌, not, Bool, true, false, Option, none, some, List, [],
  ◌∷◌, get_or, ◌==◌, if◌then◌else◌,
}
use plinth_os.Capability.{Capability, CapObject, frame, framebuffer, lend_reserves_home, is_none}
use plinth_os.CapTable
use plinth_os.CapTable.{CapTable, ok, err, Result}

abbrev pub frame_size : ℕ
frame_size = 4096

abbrev pub max_fb_maps : ℕ
max_fb_maps = 4

-- `pages` pages mapped contiguously from `va_base` through the capability at `slot`.
pub record FbMap : Type 0 where
  pub va_base : ℕ
  pub pages : ℕ
  pub slot : ℕ

-- A page is named by its number, `va / 4096`.
pub record Process : Type 0 where
  pub caps : CapTable
  pub maps : List (Option (ℕ × ℕ))
  pub fb_maps : List (Option FbMap)
  pub pages : List ℕ

abbrev pub remove : ℕ → List ℕ → List ℕ
remove x [] = []
remove x (y ∷ ys) = if y == x then remove x ys else y ∷ remove x ys

unfoldable pub unmap_user_page : List ℕ → ℕ → List ℕ
unmap_user_page pages va = remove (va / frame_size) pages

unfoldable pub fb_record : List (Option FbMap) → FbMap → List (Option FbMap) × Bool
fb_record [] m = ([], false)
fb_record (e ∷ es) m =
    let (es', done) = fb_record es m in if is_none e then (some m ∷ es, true) else (e ∷ es', done)

-- Does the record name `slot`?
abbrev pub at_slot : ℕ → Option FbMap → Bool
at_slot slot none = false
at_slot slot (some m) = m.slot == slot

abbrev pub keep : Option FbMap → List FbMap → List FbMap
keep none ms = ms
keep (some m) ms = m ∷ ms

-- The records taken stand for `out[..n]`.
unfoldable pub fb_take_slot : List (Option FbMap) → ℕ → List (Option FbMap) × List FbMap
fb_take_slot [] slot = ([], [])
fb_take_slot (e ∷ es) slot =
    let (es', out) = fb_take_slot es slot in
    if at_slot slot e then (none ∷ es', keep e out) else (e ∷ es', out)

-- `while i < m.pages`, from page `i` on.
unfoldable pub unmap_run : List ℕ → ℕ → ℕ → ℕ → List ℕ
unmap_run pages va i zero = pages
unmap_run pages va i (suc n) = unmap_run (unmap_user_page pages (va + i * frame_size)) va (i + 1) n

unfoldable pub unmap_all : List ℕ → List FbMap → List ℕ
unmap_all pages [] = pages
unmap_all pages (m ∷ ms) = unmap_all (unmap_run pages m.va_base 0 m.pages) ms

unfoldable pub unmap_fb_for_slot : Process → ℕ → Process
unmap_fb_for_slot proc slot =
    let (fb, taken) = fb_take_slot proc.fb_maps slot in
    record proc { fb_maps = fb; pages = unmap_all proc.pages taken }

-- Does the entry of `maps` name `slot`?
abbrev pub maps_slot : ℕ → Option (ℕ × ℕ) → Bool
maps_slot slot none = false
maps_slot slot (some (va, s)) = s == slot

abbrev pub unmap_entry : List ℕ → Option (ℕ × ℕ) → List ℕ
unmap_entry pages none = pages
unmap_entry pages (some (va, s)) = unmap_user_page pages va

-- The loop over `maps` of a frame that is given away.
unfoldable pub unmap_frame_loop :
    List (Option (ℕ × ℕ)) → ℕ → List ℕ → List (Option (ℕ × ℕ)) × List ℕ
unmap_frame_loop [] slot pages = ([], pages)
unmap_frame_loop (e ∷ es) slot pages =
    let (es', pages') =
      unmap_frame_loop es slot (if maps_slot slot e then unmap_entry pages e else pages) in
    ((if maps_slot slot e then none else e) ∷ es', pages')

unfoldable pub unmap_frame : Process → ℕ → Process
unmap_frame proc slot =
    let (maps, pages) = unmap_frame_loop proc.maps slot proc.pages in
    record proc { maps = maps; pages = pages }

-- The two `matches!` of `revoke_and_unmap`, by the kind of what was revoked.
abbrev pub unmap_for : CapObject → Process → ℕ → Process
unmap_for (frame _) proc slot = unmap_frame proc slot
unmap_for (framebuffer _ _ _ _ _ _) proc slot = unmap_fb_for_slot proc slot
unmap_for _ proc slot = proc

abbrev pub after_revoke : Process → ℕ → CapTable × Result Capability → Process × Option Capability
after_revoke proc slot (t, err e) = (record proc { caps = t }, none)
after_revoke proc slot (t, ok c) = (unmap_for c.object (record proc { caps = t }) slot, some c)

unfoldable pub revoke_and_unmap : Process → ℕ → Process × Option Capability
revoke_and_unmap proc slot = after_revoke proc slot (CapTable.revoke proc.caps slot)

-- `peek(slot).map(lend_reserves_home).unwrap_or(false)`
abbrev pub reserves : Option Capability → Bool
reserves none = false
reserves (some c) = lend_reserves_home c

abbrev pub hold_open : Bool → ℕ → Process × Option Capability → Process × Option Capability
hold_open r slot (proc, none) = (proc, none)
hold_open r slot (proc, some c) =
    (if r then record proc { caps = CapTable.reserve proc.caps slot } else proc, some c)

unfoldable pub revoke_and_unmap_for_lend : Process → ℕ → Process × Option Capability
revoke_and_unmap_for_lend proc slot =
    hold_open (reserves (CapTable.peek proc.caps slot)) slot (revoke_and_unmap proc slot)
