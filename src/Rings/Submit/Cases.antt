-- ===== src/Rings/Submit/Cases.antt =====
-- What one entry of the submission queue can come to: a status, a change of the subscriptions, or a
-- request that the submitter's capabilities allow.
use mathlib.Core.Path.{subst}
use plinth_os.Base.{
  ℕ, ◌+◌, ◌*◌, ◌%◌, ◌^◌, ◌<◌, ◌≤◌, ◌≡◌, refl, sym, true, Option, none, some, arith, ◌==◌, ltb, ◌||◌,
  inl, inr, Bool-cases, Option-cases,
}
use plinth_os.Capability.{
  Capability, CapObject, frame, cpu_time, endpoint, reply, block_range, event_source, ring,
  framebuffer, bound_device,
}
use plinth_os.CapTable
use plinth_os.CapTable.{Result, ok, err}
use plinth_os.Process.{Process}
use plinth_os.Kernel.{Kernel, current}
use plinth_os.Blk.{blk_e_dev}
use plinth_os.Input.{source_for}
use plinth_os.Rings.{found_frame, frame_address}
use plinth_os.Rings.Subs.{Subscriptions}
use plinth_os.Rings.Submit.{
  Io, Request, Direction, Outcome, Entry, Resolved, target, refused, resolve, resolve_range,
  resolve_found, range_right, frame_right, post_resolved, ring_post, post_block, post_event_sub,
  subscribed, post_entry, ready, finish, blk_e_rights, blk_e_badarg, event_sub_err, sector_size,
  frame_size, saturating_mul,
}

-- What the capabilities of the running process say of `n` sectors from `sector` on.
abbrev pub Allowed : Kernel → ℕ → ℕ → ℕ → ℕ → ℕ → ℕ → Type 0
Allowed k range_right frame_right dev sector count addr =
    (p : Process) × (range_slot frame_slot off start range_count : ℕ) × (c f : Capability)
    × (current k ≡ some p)
    × (CapTable.lookup p.caps range_slot range_right ≡ ok c)
    × (c.object ≡ block_range dev start range_count)
    × (off + count ≤ range_count)
    × (sector ≡ (start + off) % 2 ^ 64)
    × (CapTable.lookup p.caps frame_slot frame_right ≡ ok f)
    × (f.object ≡ frame addr)

abbrev Sound : Kernel → ℕ → ℕ → ℕ → Resolved → Type 0
Sound k range_right frame_right count (refused status) = Unit {0}
Sound k range_right frame_right count (target dev sector addr) =
    Allowed k range_right frame_right dev sector count addr

-- What the frame's slot was found to hold.
frame_address-some : (o : CapObject) (addr : ℕ) → frame_address o ≡ some addr → o ≡ frame addr
frame_address-some (frame a) addr e = cc
frame_address-some (cpu_time _) addr e = absurd (cc)
frame_address-some (endpoint _) addr e = absurd (cc)
frame_address-some (reply _) addr e = absurd (cc)
frame_address-some (block_range _ _ _) addr e = absurd (cc)
frame_address-some (event_source _) addr e = absurd (cc)
frame_address-some (ring _) addr e = absurd (cc)
frame_address-some (framebuffer _ _ _ _ _ _) addr e = absurd (cc)
frame_address-some (bound_device _) addr e = absurd (cc)

found_frame-some :
    (r : Result Capability) (addr : ℕ)
    → found_frame r ≡ some addr
    → (f : Capability) × (r ≡ ok f) × (f.object ≡ frame addr)
found_frame-some (ok f) addr e = (f, refl, frame_address-some f.object addr e)
found_frame-some (err x) addr e = absurd (cc)

resolve_range-Sound :
    (k : Kernel) (rr fr : ℕ) (e : Entry) (p : Process) (c : Capability) (o : CapObject)
    (found : Option ℕ)
    → current k ≡ some p
    → CapTable.lookup p.caps e.range_slot rr ≡ ok c
    → c.object ≡ o
    → found_frame (CapTable.lookup p.caps e.frame_slot fr) ≡ found
    → Sound k rr fr e.count (resolve_range o e found)
resolve_range-Sound k rr fr e p c (block_range dev start range_count) none running at is held =
    elim (Bool-cases (ltb (e.sector_off + e.count) (2 ^ 64))) [
      | inr past ↦ rw past tt
      | inl fits ↦ elim (Bool-cases (ltb range_count (e.sector_off + e.count))) [
        | inl past ↦ rw (fits, past) tt
        | inr inside ↦ rw (fits, inside) tt
      ]
    ]
resolve_range-Sound k rr fr e p c (block_range dev start range_count) (some addr) running at is
      held =
    elim (Bool-cases (ltb (e.sector_off + e.count) (2 ^ 64))) [
      | inr past ↦ rw past tt
      | inl fits ↦ elim (Bool-cases (ltb range_count (e.sector_off + e.count))) [
        | inl past ↦ rw (fits, past) tt
        | inr inside ↦
            let (f, slot, names) =
              found_frame-some (CapTable.lookup p.caps e.frame_slot fr) addr held in
            let within : e.sector_off + e.count ≤ range_count = ground (arith, inside) in
            rw (fits, inside)
              (
                p, e.range_slot, e.frame_slot, e.sector_off, start, range_count, c, f, running, at,
                is, within, refl, slot, names,
              )
      ]
    ]
resolve_range-Sound k rr fr e p c (frame _) found running at is held = tt
resolve_range-Sound k rr fr e p c (cpu_time _) found running at is held = tt
resolve_range-Sound k rr fr e p c (endpoint _) found running at is held = tt
resolve_range-Sound k rr fr e p c (reply _) found running at is held = tt
resolve_range-Sound k rr fr e p c (event_source _) found running at is held = tt
resolve_range-Sound k rr fr e p c (ring _) found running at is held = tt
resolve_range-Sound k rr fr e p c (framebuffer _ _ _ _ _ _) found running at is held = tt
resolve_range-Sound k rr fr e p c (bound_device _) found running at is held = tt

resolve_found-Sound :
    (k : Kernel) (rr fr : ℕ) (e : Entry) (p : Process) (r : Result Capability)
    → current k ≡ some p
    → CapTable.lookup p.caps e.range_slot rr ≡ r
    → Sound k rr fr e.count
        (resolve_found r e (found_frame (CapTable.lookup p.caps e.frame_slot fr)))
resolve_found-Sound k rr fr e p (ok c) running at =
    resolve_range-Sound k rr fr e p c c.object _ running at refl refl
resolve_found-Sound k rr fr e p (err x) running at = tt

resolve-idle :
    (k : Kernel) (rr fr : ℕ) (e : Entry)
    → current k ≡ none
    → resolve k rr fr e ≡ refused blk_e_rights
unfolding resolve
resolve-idle k rr fr e idle = rw (idle, resolve) refl

resolve-running :
    (k : Kernel) (rr fr : ℕ) (e : Entry) (p : Process)
    → current k ≡ some p
    → resolve k rr fr e
      ≡ resolve_found
          (CapTable.lookup p.caps e.range_slot rr)
          e
          (found_frame (CapTable.lookup p.caps e.frame_slot fr))
unfolding resolve
resolve-running k rr fr e p running = rw (running, resolve) refl

resolve-Sound : (k : Kernel) (rr fr : ℕ) (e : Entry) → Sound k rr fr e.count (resolve k rr fr e)
resolve-Sound k rr fr e = elim (Option-cases (current k)) [
  | inl idle ↦ subst (Sound k rr fr e.count) (sym (resolve-idle k rr fr e idle)) tt
  | inr (p, running) ↦
      subst (Sound k rr fr e.count) (sym (resolve-running k rr fr e p running))
        (resolve_found-Sound k rr fr e p _ running refl)
]

-- A request of one to eight sectors, which fit the frame, that the capabilities allow.
pub record IsAuthorized (k : Kernel) (r : Request) : Type 0 where
  pub some_sector : 0 < r.count
  pub fits_frame : r.count * sector_size ≤ frame_size
  pub allowed :
      Allowed k (range_right r.dir) (frame_right r.dir) r.dev r.sector r.count r.frame_phys

module _ (k : Kernel) (io : Io) (id : ℕ) (P : Io × Outcome → Type 0)
    (done : (user_data status : ℕ) → P (finish io id user_data status))
    (routed : (subs : Subscriptions) → P (record io { subs = subs }, Outcome.consumed))
    (asked : (r : Request) (user_data : ℕ)
      → IsAuthorized k r
      → ready io r.dev ≡ true
      → P (ring_post io r id user_data)) where
  post_resolved-elim :
      (e : Entry) (dir : Direction) (to : Resolved)
      → 0 < e.count
      → e.count * sector_size ≤ frame_size
      → Sound k (range_right dir) (frame_right dir) e.count to
      → P (post_resolved io id e dir to)
  post_resolved-elim e dir (refused status) pos fits sound = done e.user_data status
  post_resolved-elim e dir (target dev sector addr) pos fits sound =
      elim (Bool-cases (ready io dev)) [
        | inr absent ↦ rw absent (done e.user_data blk_e_dev)
        | inl there ↦ rw there (
            asked _ e.user_data (record { some_sector = pos; fits_frame = fits; allowed = sound })
              there)
      ]

  post_block-elim : (e : Entry) (dir : Direction) → P (post_block k io id e dir)
  unfolding post_block
  post_block-elim e dir =
      elim (Bool-cases (e.count == 0 || ltb frame_size (saturating_mul e.count sector_size))) [
        | inl bad ↦ rw bad (done e.user_data blk_e_badarg)
        | inr good ↦ rw good (
            post_resolved-elim e dir (resolve k (range_right dir) (frame_right dir) e)
              (ground (arith, good)) (ground (arith, good))
              (resolve-Sound k (range_right dir) (frame_right dir) e))
      ]

  subscribed-elim :
      (user_data : ℕ) (found : Subscriptions × Option ℕ) → P (subscribed io id user_data found)
  subscribed-elim user_data (subs, some slot) = routed subs
  subscribed-elim user_data (subs, none) = done user_data event_sub_err

  post_event_sub-elim : (slot user_data : ℕ) → P (post_event_sub k io id slot user_data)
  unfolding post_event_sub
  post_event_sub-elim slot user_data = elim (Option-cases (source_for k slot)) [
    | inl unknown ↦ rw (unknown, post_event_sub) (done user_data event_sub_err)
    | inr (source, known) ↦ rw (known, post_event_sub) (subscribed-elim user_data _)
  ]

  -- What holds of all that an entry can come to holds of `post_entry`.
  pub post_entry-elim : (e : Entry) → P (post_entry k io id e)
  unfolding post_entry
  post_entry-elim e = elim (Bool-cases (e.op == 0)) [
    | inl reads ↦ rw reads (post_block-elim e Direction.read)
    | inr a ↦ elim (Bool-cases (e.op == 3)) [
      | inl writes ↦ rw (a, writes) (post_block-elim e Direction.write)
      | inr b ↦ elim (Bool-cases (e.op == 1)) [
        | inl subscribes ↦ rw (a, b, subscribes) (post_event_sub-elim e.range_slot e.user_data)
        | inr c ↦ elim (Bool-cases (e.op == 2)) [
          | inl cancels ↦ rw (a, b, c, cancels) (routed _)
          | inr d ↦ rw (a, b, c, d) (done e.user_data blk_e_badarg)
        ]
      ]
    ]
  ]
