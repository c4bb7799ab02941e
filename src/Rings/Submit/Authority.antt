-- ===== src/Rings/Submit/Authority.antt =====
-- A device is asked only for what the submitter's capabilities allow.
use plinth_os.Base.{
  ℕ, zero, suc, ◌+◌, ◌≡◌, refl, ap, ◌∙◌, Option, none, some, List, [], ◌∷◌, ◌++◌, ◌==◌, Bool-cases,
  Option-cases, inl, inr,
}
use plinth_os.Kernel.{Kernel}
use plinth_os.Blk
use plinth_os.Blk.{Inflights, to_ring}
use plinth_os.Rings.{ring_id_for, next}
use plinth_os.Rings.Submit.{
  Io, Request, Entry, post_request, ring_post, post_entry, submit_loop, ring_submit, device,
  entry_of, is_full,
}
use plinth_os.Rings.Submit.Cases.{IsAuthorized, post_entry-elim}

abbrev pub AllAuthorized : Kernel → List Request → Type 0
AllAuthorized k [] = Unit {0}
AllAuthorized k (r ∷ rs) = IsAuthorized k r × AllAuthorized k rs

-- The devices were asked for authorized requests only between `io` and `io'`.
abbrev pub Asked : Kernel → Io → Io → Type 0
Asked k io io' = (new : List Request) × (io'.posted ≡ new ++ io.posted) × AllAuthorized k new

nothing-Asked : (k : Kernel) (io : Io) → Asked k io io
nothing-Asked k io = ([], refl, tt)

one-Asked :
    (k : Kernel) (io : Io) (r : Request) (found : Inflights × Option ℕ)
    → IsAuthorized k r
    → Asked k io (post_request io r found).0
one-Asked k io r (d, none) a = nothing-Asked k io
one-Asked k io r (d, some head) a = (
  record r { head = head } ∷ [],
  refl,
  (record { some_sector = a.some_sector; fits_frame = a.fits_frame; allowed = a.allowed }, tt),
)

ring_post-Asked :
    (k : Kernel) (io : Io) (r : Request) (on user_data : ℕ)
    → IsAuthorized k r
    → Asked k io (ring_post io r on user_data).0
unfolding ring_post
ring_post-Asked k io r on user_data a = elim (Option-cases (device io r.dev)) [
  | inl absent ↦ rw (absent, ring_post) (nothing-Asked k io)
  | inr (d, there) ↦
      rw (there, ring_post) (one-Asked k io r (Blk.submit d (to_ring on user_data)) a)
]

post_entry-Asked : (k : Kernel) (io : Io) (id : ℕ) (e : Entry) → Asked k io (post_entry k io id e).0
post_entry-Asked k io id e =
    post_entry-elim k io id (λ r. Asked k io r.0) (λ user_data status. nothing-Asked k io)
      (λ subs. nothing-Asked k io) (λ r user_data a there. ring_post-Asked k io r id user_data a) e

more_kept :
    (k : Kernel) (new old base : List Request) (io' : Io)
    → io'.posted ≡ new ++ (old ++ base)
    → AllAuthorized k new
    → AllAuthorized k old
    → (all : List Request) × (io'.posted ≡ all ++ base) × AllAuthorized k all
more_kept k [] old base io' e a b = (old, e, b)
more_kept k (r ∷ new) old base io' e a b =
    let (all, split, whole) =
      more_kept k new old base (record io' { posted = new ++ (old ++ base) }) refl a.1 b in
    (r ∷ all, e ∙ ap (λ rs. r ∷ rs) split, (a.0, whole))

then-Asked : (k : Kernel) (io mid io' : Io) → Asked k io mid → Asked k mid io' → Asked k io io'
then-Asked k io mid io' (old, before, b) (new, after, a) =
    more_kept k new old io.posted io' (after ∙ ap (λ rs. new ++ rs) before) a b

submit_loop-Asked :
    (k : Kernel) (id base mask tail : ℕ) (io : Io) (head done n : ℕ)
    → Asked k io (submit_loop k id base mask tail io head done n).0
unfolding submit_loop
submit_loop-Asked k id base mask tail io head done zero = nothing-Asked k io
submit_loop-Asked k id base mask tail io head done (suc n) =
    let io' = (post_entry k io id (entry_of io base mask head)).0 in
    let one = post_entry-Asked k io id (entry_of io base mask head) in
    elim (Bool-cases (head == tail)) [
      | inl over ↦ rw over (nothing-Asked k io)
      | inr more ↦ elim (Bool-cases (is_full (post_entry k io id (entry_of io base mask head)).1)) [
        | inl busy ↦ rw (more, busy) one
        | inr free ↦
            rw (more, free)
              (then-Asked k io io' (submit_loop k id base mask tail io' (next head) (done + 1) n).0
                one (submit_loop-Asked k id base mask tail io' (next head) (done + 1) n))
      ]
    ]

-- Whatever a process writes into its submission queue, a doorbell asks the devices only for
-- requests of one to eight sectors within a range that the process holds a capability for, from or
-- into a frame that it holds, each with the right that the direction of the request needs.
pub ring_submit-Asked :
    (k : Kernel) (io : Io) (ring_slot : ℕ) → Asked k io (ring_submit k io ring_slot).0
unfolding ring_submit
ring_submit-Asked k io ring_slot = elim (Option-cases (ring_id_for k io.rings ring_slot)) [
  | inl unknown ↦ rw (unknown, ring_submit) (nothing-Asked k io)
  | inr (id, known) ↦ rw (known, ring_submit) (submit_loop-Asked k id _ _ _ io _ 0 _)
]
