-- ===== src/Blk/Submit.antt =====
-- `submit` takes a slot that is free, and `complete` gives back exactly what was submitted.
use plinth_os.Base.{
  ℕ, suc, ◌+◌, ◌-◌, ◌*◌, ◌/◌, ◌%◌, ◌<◌, ◌≡◌, ◌≢◌, refl, sym, ap, ◌∙◌, true, false, none, some,
  length, get_or, set, arith, ◌==◌, if◌then◌else◌, length-set, get_or-set, get_or-set_self,
  get_or-set_ne, Bool-cases, inl, inr, ◌⊎◌,
}
use plinth_os.Capability.{is_none}
use plinth_os.Blk.{
  Inflights, Completion, route_of, desc_per_req, submit, slot_of, complete, complete_at,
  release_slot,
}
use plinth_os.Blk.Pool.{IsPool, times, live_count-set, times-suc, times_none}

-- The slot on top of the stack.
abbrev pub top : Inflights → ℕ
top d = get_or d.free (d.free_len - 1) 0

abbrev pub submitted : Inflights → Completion → Inflights
submitted d info = record d {
  routing = set d.routing (top d) (some info);
  free_len = d.free_len - 1;
}

top_free :
    (d : Inflights)
    → IsPool d
    → 0 < d.free_len
    → (top d < d.slots)
      × (is_none (route_of d (top d)) ≡ true)
      × ((s : ℕ)
          → times s d.free d.free_len
            ≡ times s d.free (d.free_len - 1) + (if top d == s then 1 else 0))
top_free d v pos =
    let counted = v.counted in
    let few = v.few in
    let stack = v.free_length in
    let split : (s : ℕ)
        → times s d.free (suc (d.free_len - 1))
          ≡ times s d.free (d.free_len - 1) + (if top d == s then 1 else 0) =
      λ s. times-suc s d.free (d.free_len - 1) (omega arith) in
    let whole : suc (d.free_len - 1) ≡ d.free_len = omega arith in
    let parts : (s : ℕ)
        → times s d.free d.free_len
          ≡ times s d.free (d.free_len - 1) + (if top d == s then 1 else 0) =
      λ s. ap (times s d.free) (sym whole) ∙ split s in
    (
      ground (arith, v.once (top d), parts (top d)),
      ground (arith, v.once (top d), parts (top d)),
      parts,
    )

pub submitted-IsPool :
    (d : Inflights) (info : Completion) → IsPool d → 0 < d.free_len → IsPool (submitted d info)
submitted-IsPool d info v pos =
    let (below, free, parts) = top_free d v pos in
    let few = v.few in
    let fits : top d < length d.routing = rw v.routing_length (omega arith) in
    record {
      routing_length = length-set d.routing (top d) _ ∙ v.routing_length;
      free_length = v.free_length;
      few = v.few;
      counted =
          let counted = v.counted in
          ground (arith, live_count-set d.routing (top d) (some info) fits, free);
      once = λ s.
          ground
            (arith, v.once s, parts s, fits, free, get_or-set d.routing (top d) s (some info) none);
    }

slot_of-head :
    (d : Inflights) (slot : ℕ) → slot < d.slots → slot_of d (slot * desc_per_req) ≡ some slot
unfolding slot_of
slot_of-head d slot lt =
    let aligned : slot * 3 % 3 ≡ 0 = omega arith in
    let back : slot * 3 / 3 ≡ slot = omega arith in ground (arith, aligned, back)

-- The state once the request in `slot` is done.
abbrev pub released : Inflights → ℕ → Inflights
released d slot = record d {
  routing = set d.routing slot none;
  free = set d.free d.free_len slot;
  free_len = d.free_len + 1;
}

pub complete-live :
    (d : Inflights) (slot : ℕ) (info : Completion)
    → slot < d.slots
    → route_of d slot ≡ some info
    → complete d (slot * desc_per_req) ≡ (released d slot, some info)
unfolding complete
complete-live d slot info lt live =
    ap (complete_at d) (slot_of-head d slot lt) ∙ ap (release_slot d slot) live

all_live :
    (d : Inflights)
    → IsPool d
    → d.free_len ≡ 0
    → (s : ℕ) → s < d.slots
    → is_none (route_of d s) ≡ false
all_live d v no_free s lt =
    let none_free : times s d.free d.free_len ≡ 0 =
      ap (times s d.free) no_free ∙ times_none s d.free in
    ground (arith, v.once s, none_free)

-- What `submit` of `info` leaves: a slot that was free carries it now, and no other route changed.
pub record Submitted (d d' : Inflights) (info : Completion) (slot : ℕ) : Type 0 where
  pub below : slot < d.slots
  pub was_free : is_none (route_of d slot) ≡ true
  pub carries : route_of d' slot ≡ some info
  pub others : (s : ℕ) → s ≢ slot → route_of d' s ≡ route_of d s
  pub finds : (complete d' (slot * desc_per_req)).1 ≡ some info
  pub IsPool_kept : IsPool d'

-- On a pool of slots, `submit` takes a slot that was free, whose chain completes with exactly what
-- was submitted, and disturbs no request in flight. It refuses only when every slot is live.
pub submit-cases :
    (d : Inflights) (info : Completion)
    → IsPool d
    → ((slot : ℕ) × (d' : Inflights) × (submit d info ≡ (d', some (slot * desc_per_req)))
        × Submitted d d' info slot)
      ⊎ ((submit d info ≡ (d, none)) × ((s : ℕ) → s < d.slots → is_none (route_of d s) ≡ false))
unfolding submit
submit-cases d info v = elim (Bool-cases (d.free_len == 0)) [
  | inl empty ↦
      let no_free : d.free_len ≡ 0 = ground arith in
      inr (rw empty refl, λ s lt. all_live d v no_free s lt)
  | inr more ↦
      let pos : 0 < d.free_len = ground arith in
      let (below, free, parts) = top_free d v pos in
      let few = v.few in
      let fits : top d < length d.routing = rw v.routing_length (omega arith) in
      let carried : route_of (submitted d info) (top d) ≡ some info =
        get_or-set_self d.routing (top d) (some info) none fits in
      inl (
        top d,
        submitted d info,
        rw more refl,
        record {
          below = below;
          was_free = free;
          carries = carried;
          others = λ s ne. get_or-set_ne d.routing (top d) s (some info) none (λ e. ne (sym e));
          finds = ap (λ r. r.1) (complete-live (submitted d info) (top d) info below carried);
          IsPool_kept = submitted-IsPool d info v pos;
        },
      )
]
