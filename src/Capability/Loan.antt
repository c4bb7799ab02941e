-- ===== src/Capability/Loan.antt =====
-- Laws of lending: which process a capability goes home to, and that the two decisions which must
-- not drift (reserving a slot at lend time, reclaiming at death) agree.
use plinth_os.Base.{ℕ, ◌≡◌, ◌≢◌, refl, false, none, some, List, [], ◌∷◌, ◌++◌, arith, if◌then◌else◌}
use plinth_os.Capability.{
  Capability, Origin, lender, lent_to, reclaim_to, is_reclaimable_kind, lend_reserves_home,
  release_action, reclaim_target, kind_action,
}

-- One hand-over: the giver (with the slot it gives from) and the process that receives.
pub record Hop : Type 0 where
  pub source : Origin
  pub dest : ℕ

-- The capability after a chain of hand-overs.
unfoldable pub pass_along : Capability → List Hop → Capability
pass_along cap [] = cap
pass_along cap (h ∷ hs) = pass_along (lent_to cap h.source h.dest) hs

-- No hop of the chain delivers to `p`.
abbrev pub Avoids : ℕ → List Hop → Type 0
Avoids p [] = Unit {0}
Avoids p (h ∷ hs) = (h.dest ≢ p) × Avoids p hs

origin-pass_along :
    (o : Origin) (cap : Capability) (hs : List Hop)
    → cap.origin ≡ some o
    → Avoids (lender o) hs
    → pass_along cap hs ≡ cap
unfolding pass_along lent_to
origin-pass_along o cap [] e a = refl
origin-pass_along o cap (h ∷ hs) e a =
    ground (arith, origin-pass_along o (lent_to cap h.source h.dest) hs)

-- A capability that its owner lends outright and that then travels along any chain of hand-overs
-- which does not come back to the lender is, at the end, the one lent: its object, its rights, and
-- the first lender as its origin.
pub pass_along-root :
    (cap : Capability) (first : Hop) (hs : List Hop)
    → cap.origin ≡ none
    → Avoids (lender first.source) hs
    → pass_along cap (first ∷ hs) ≡ record cap { origin = some first.source }
unfolding pass_along lent_to
pass_along-root cap first hs e a =
    ground (arith, origin-pass_along first.source (lent_to cap first.source first.dest) hs)

pass_along-append :
    (cap : Capability) (hs : List Hop) (h : Hop)
    → pass_along cap (hs ++ (h ∷ [])) ≡ lent_to (pass_along cap hs) h.source h.dest
unfolding pass_along
pass_along-append cap [] h = refl
pass_along-append cap (g ∷ hs) h = pass_along-append (lent_to cap g.source g.dest) hs h

-- Such a chain that ends with a hop back to the lender gives it its capability again exactly as it
-- was before the loan, whoever hands it back and from whichever slot.
pub pass_along-home :
    (cap : Capability) (first : Hop) (hs : List Hop) (giver : Origin)
    → cap.origin ≡ none
    → Avoids (lender first.source) hs
    → pass_along cap ((first ∷ hs) ++ (record { source = giver; dest = lender first.source } ∷ []))
      ≡ cap
unfolding lent_to
pass_along-home cap first hs giver e a = ground (
  arith,
  pass_along-append cap (first ∷ hs) (record { source = giver; dest = lender first.source }),
  pass_along-root cap first hs e a,
)

-- The decision at lend time and the one at death agree: a capability handed by its outright owner
-- to another process is released by sending it back to the slot it was lent from exactly when the
-- loan reserved that slot.
release_action-lent_to :
    (cap : Capability) (source : Origin) (dest : ℕ)
    → cap.origin ≡ none
    → release_action (lent_to cap source dest)
      ≡ (if lend_reserves_home cap then reclaim_to source else kind_action cap.object)
unfolding release_action lent_to lend_reserves_home
release_action-lent_to cap source dest e = ground arith

-- A capability that is already on loan reserves no slot when it is passed on, and passing it on
-- changes neither its claim nor, so long as it does not reach its lender, what its release does.
pub relend :
    (cap : Capability) (o source : Origin) (dest : ℕ)
    → cap.origin ≡ some o
    → dest ≢ lender o
    → (lend_reserves_home cap ≡ false)
      × (release_action (lent_to cap source dest) ≡ release_action cap)
unfolding release_action lent_to lend_reserves_home
relend cap o source dest e ne = ground arith

-- What a death does with a capability, on every branch: one of a reclaimable kind that is on loan
-- goes to its origin, owned outright again; any other is not reclaimed.
pub reclaim_target_lem :
    (cap : Capability) (dying : ℕ)
    → reclaim_target cap dying ≡ (
        if is_reclaimable_kind cap.object
        then elim cap.origin [ none ↦ none | some o ↦ some (o, record cap { origin = none }) ]
        else none)
unfolding reclaim_target release_action lent_to
reclaim_target_lem cap dying = ground arith
