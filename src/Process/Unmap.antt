-- ===== src/Process/Unmap.antt =====
-- The access leaves with the authority: a capability that is given away takes its mappings along.
use mathlib.Core.Path.{subst}
use plinth_os.Base.{
  ℕ, zero, suc, ◌+◌, ◌*◌, ◌/◌, ◌<◌, ◌≡◌, ◌≢◌, refl, ap, Bool, true, false, Option, none, some, List,
  [], ◌∷◌, arith, ◌==◌, if◌then◌else◌, Bool-cases, inl, inr, set, length, ◌⊎◌,
}
use plinth_os.Capability.{Capability, CapObject, framebuffer}
use plinth_os.CapTable.{slot_at}
use plinth_os.CapTable.Lookup.{revoke-cases}
use plinth_os.Process.{
  FbMap, Process, remove, unmap_user_page, at_slot, fb_take_slot, unmap_run, unmap_all,
  unmap_fb_for_slot, unmap_for, revoke_and_unmap, frame_size,
}

abbrev pub Unmapped : ℕ → List ℕ → Type 0
Unmapped p [] = Unit {0}
Unmapped p (q ∷ qs) = (p ≢ q) × Unmapped p qs

remove-Unmapped : (p : ℕ) (qs : List ℕ) → Unmapped p (remove p qs)
remove-Unmapped p [] = tt
remove-Unmapped p (q ∷ qs) = elim (Bool-cases (q == p)) [
  | inl same ↦ rw same (remove-Unmapped p qs)
  | inr other ↦ rw other (ground arith, remove-Unmapped p qs)
]

-- A page that is not mapped stays so.
Unmapped-remove : (p x : ℕ) (qs : List ℕ) → Unmapped p qs → Unmapped p (remove x qs)
Unmapped-remove p x [] u = tt
Unmapped-remove p x (q ∷ qs) u = elim (Bool-cases (q == x)) [
  | inl same ↦ rw same (Unmapped-remove p x qs u.1)
  | inr other ↦ rw other (u.0, Unmapped-remove p x qs u.1)
]

-- No record, or entry, of the list names `slot`.
abbrev pub NoneAt : ℕ → List (Option FbMap) → Type 0
NoneAt slot [] = Unit {0}
NoneAt slot (e ∷ es) = (at_slot slot e ≡ false) × NoneAt slot es

fb_take_slot-NoneAt : (es : List (Option FbMap)) (slot : ℕ) → NoneAt slot (fb_take_slot es slot).0
unfolding fb_take_slot
fb_take_slot-NoneAt [] slot = tt
fb_take_slot-NoneAt (e ∷ es) slot = elim (Bool-cases (at_slot slot e)) [
  | inl here ↦ rw here (refl, fb_take_slot-NoneAt es slot)
  | inr other ↦ rw other (other, fb_take_slot-NoneAt es slot)
]

-- The page number of page `k` of the run at `va`.
abbrev pub page_of : ℕ → ℕ → ℕ
page_of va k = (va + k * frame_size) / frame_size

unmap_run-keeps :
    (p : ℕ) (pages : List ℕ) (va i n : ℕ) → Unmapped p pages → Unmapped p (unmap_run pages va i n)
unfolding unmap_run unmap_user_page
unmap_run-keeps p pages va i zero u = u
unmap_run-keeps p pages va i (suc n) u =
    unmap_run-keeps p (unmap_user_page pages (va + i * frame_size)) va (i + 1) n
      (Unmapped-remove p _ pages u)

unmap_run-Unmapped :
    (p : ℕ) (pages : List ℕ) (va i n k : ℕ)
    → k < n
    → p ≡ page_of va (i + k)
    → Unmapped p (unmap_run pages va i n)
unfolding unmap_run unmap_user_page
unmap_run-Unmapped p pages va i zero k lt e = absurd (omega arith)
unmap_run-Unmapped p pages va i (suc n) zero lt e =
    unmap_run-keeps p (unmap_user_page pages (va + i * frame_size)) va (i + 1) n
      (subst (λ q. Unmapped p (remove q pages)) (omega arith) (remove-Unmapped p pages))
unmap_run-Unmapped p pages va i (suc n) (suc k) lt e =
    unmap_run-Unmapped p (unmap_user_page pages (va + i * frame_size)) va (i + 1) n k (omega arith)
      (omega arith)

unmap_all-keeps :
    (p : ℕ) (pages : List ℕ) (ms : List FbMap) → Unmapped p pages → Unmapped p (unmap_all pages ms)
unfolding unmap_all
unmap_all-keeps p pages [] u = u
unmap_all-keeps p pages (m ∷ ms) u =
    unmap_all-keeps p (unmap_run pages m.va_base 0 m.pages) ms
      (unmap_run-keeps p pages m.va_base 0 m.pages u)

-- Each page of each record is off the list.
abbrev pub PagesGone : List ℕ → List FbMap → Type 0
PagesGone pages [] = Unit {0}
PagesGone pages (m ∷ ms) =
    ((k : ℕ) → k < m.pages → Unmapped (page_of m.va_base k) pages) × PagesGone pages ms

unmap_all-gone : (pages : List ℕ) (ms : List FbMap) → PagesGone (unmap_all pages ms) ms
unfolding unmap_all
unmap_all-gone pages [] = tt
unmap_all-gone pages (m ∷ ms) = (
  λ k lt. unmap_all-keeps (page_of m.va_base k) (unmap_run pages m.va_base 0 m.pages) ms (
      unmap_run-Unmapped (page_of m.va_base k) pages m.va_base 0 m.pages k lt
        (ap (page_of m.va_base) (omega arith))),
  unmap_all-gone (unmap_run pages m.va_base 0 m.pages) ms,
)

-- The records of `slot`, in table order.
pub records_at : ℕ → List (Option FbMap) → List FbMap
records_at slot [] = []
records_at slot (none ∷ es) = records_at slot es
records_at slot (some m ∷ es) =
    if m.slot == slot then m ∷ records_at slot es else records_at slot es

taken-eq-records_at :
    (es : List (Option FbMap)) (slot : ℕ) → (fb_take_slot es slot).1 ≡ records_at slot es
unfolding fb_take_slot records_at
taken-eq-records_at [] slot = refl
taken-eq-records_at (none ∷ es) slot = taken-eq-records_at es slot
taken-eq-records_at (some m ∷ es) slot = ground (arith, taken-eq-records_at es slot)

abbrev pub is_framebuffer : CapObject → Bool
is_framebuffer (framebuffer _ _ _ _ _ _) = true
is_framebuffer _ = false

unmap_fb-Gone :
    (proc : Process) (slot : ℕ)
    → NoneAt slot (unmap_fb_for_slot proc slot).fb_maps
      × PagesGone (unmap_fb_for_slot proc slot).pages (records_at slot proc.fb_maps)
unfolding unmap_fb_for_slot
unmap_fb-Gone proc slot = (
  fb_take_slot-NoneAt proc.fb_maps slot,
  subst (PagesGone _) (taken-eq-records_at proc.fb_maps slot) (unmap_all-gone proc.pages _),
)

-- `proc` without the capability at `slot`.
abbrev pub without : Process → ℕ → Process
without proc slot = record proc {
  caps = record proc.caps { slots = set proc.caps.slots slot none };
}

-- `revoke_and_unmap` on both branches.
pub revoke_and_unmap-cases :
    (proc : Process) (slot : ℕ)
    → ((revoke_and_unmap proc slot ≡ (proc, none)) × (slot_at proc.caps slot ≡ none))
      ⊎ ((c : Capability) × (slot < length proc.caps.slots)
          × (slot_at proc.caps slot ≡ some c)
          × (revoke_and_unmap proc slot ≡ (unmap_for c.object (without proc slot) slot, some c)))
unfolding revoke_and_unmap
revoke_and_unmap-cases proc slot = elim (revoke-cases proc.caps slot) [
  | inl (e, failed, none_there) ↦ inl (ground (arith, failed), none_there)
  | inr (c, lt, held, left) ↦ inr (c, lt, held, ground (arith, left))
]

unmap_for-framebuffer :
    (object : CapObject) (proc : Process) (slot : ℕ)
    → is_framebuffer object ≡ true
    → unmap_for object proc slot ≡ unmap_fb_for_slot proc slot
unmap_for-framebuffer (framebuffer _ _ _ _ _ _) proc slot fb = refl
unmap_for-framebuffer _ proc slot fb = cc

-- Giving a framebuffer away takes every access through it along: no mapping record of the process
-- names its slot any more, and no page of a record that did is mapped.
pub framebuffer_unmapped :
    (proc proc' : Process) (slot : ℕ) (c : Capability)
    → revoke_and_unmap proc slot ≡ (proc', some c)
    → is_framebuffer c.object ≡ true
    → NoneAt slot proc'.fb_maps × PagesGone proc'.pages (records_at slot proc.fb_maps)
framebuffer_unmapped proc proc' slot c h fb = elim (revoke_and_unmap-cases proc slot) [
  | inl (failed, _) ↦ absurd (cc failed)
  | inr (d, lt, held, left) ↦
      let same : d ≡ c = cc left in
      let at : proc' ≡ unmap_for d.object (without proc slot) slot = cc left in
      rw (at, unmap_for-framebuffer d.object (without proc slot) slot (rw same fb))
        (unmap_fb-Gone (without proc slot) slot)
]
