-- ===== src/Ipc/WaitQueue/Refine.antt =====
-- A wait queue over its links is the list of the slots waiting in it, first come first.
use mathlib.Core.Path.{subst}
use plinth_os.Base.{
  ℕ, ◌<◌, ◌≡◌, ◌≢◌, refl, sym, ◌∙◌, Bool, true, false, Option, none, some, List, [], ◌∷◌, ◌++◌,
  length, set, arith, get_or-set, get_or-set_self, get_or-set_ne, length-set, ◌&&◌, ltb, ◌==◌,
  if◌then◌else◌, Bool-cases, inl, inr,
}
use plinth_os.Capability.{is_none}
use plinth_os.Ipc.WaitQueue.{
  WaitQueue, Links, link_of, enqueue, append_after, dequeue, advance, take_if, same_side,
}

abbrev pub first : List ℕ → Option ℕ
first [] = none
first (x ∷ xs) = some x

abbrev pub last : List ℕ → Option ℕ
last [] = none
last (x ∷ []) = some x
last (x ∷ y ∷ xs) = last (y ∷ xs)

abbrev pub NotIn : ℕ → List ℕ → Type 0
NotIn x [] = Unit {0}
NotIn x (y ∷ ys) = (x ≢ y) × NotIn x ys

abbrev pub Distinct : List ℕ → Type 0
Distinct [] = Unit {0}
Distinct (x ∷ xs) = NotIn x xs × Distinct xs

-- Each slot of the list is linked to the next one, and the last to none.
abbrev pub Linked : Links → List ℕ → Type 0
Linked links [] = Unit {0}
Linked links (x ∷ xs) = (x < length links) × (link_of links x ≡ first xs) × Linked links xs

pub record Holds (q : WaitQueue) (links : Links) (xs : List ℕ) : Type 0 where
  pub at_head : q.head ≡ first xs
  pub at_tail : q.tail ≡ last xs
  pub linked : Linked links xs
  pub distinct : Distinct xs

-- A write at a slot that does not wait here changes nothing here.
pub Linked-set :
    (links : Links) (i : ℕ) (v : Option ℕ) (xs : List ℕ)
    → NotIn i xs
    → Linked links xs
    → Linked (set links i v) xs
Linked-set links i v [] n l = tt
Linked-set links i v (x ∷ xs) n l =
    (rw length-set l.0, get_or-set_ne links i x v none n.0 ∙ l.1, Linked-set links i v xs n.1 l.2)

last-ne : (x t : ℕ) (xs : List ℕ) → NotIn x xs → last xs ≡ some t → x ≢ t
last-ne x t [] n e = absurd (cc)
last-ne x t (y ∷ []) n e = grind (arith, n.0)
last-ne x t (y ∷ z ∷ xs) n e = last-ne x t (z ∷ xs) n.1 e

-- The two writes of `enqueue`, read back.
after_writes :
    (links : Links) (slot t k : ℕ)
    → link_of (set (set links slot none) t (some slot)) k ≡ (
        if t == k && ltb t (length links)
        then some slot
        else if slot == k && ltb slot (length links)
        then none
        else link_of links k)
after_writes links slot t k = ground (
  arith,
  get_or-set (set links slot none) t k (some slot) none,
  get_or-set links slot k none none,
  length-set links slot none,
)

length-writes :
    (links : Links) (slot t : ℕ) → length (set (set links slot none) t (some slot)) ≡ length links
length-writes links slot t = rw (length-set, length-set)

Linked-append :
    (links : Links) (slot t : ℕ) (xs : List ℕ)
    → slot < length links
    → NotIn slot xs
    → Distinct xs
    → last xs ≡ some t
    → Linked links xs
    → Linked (set (set links slot none) t (some slot)) (xs ++ slot ∷ [])
Linked-append links slot t [] lt n d e l = absurd (cc)
Linked-append links slot t (x ∷ []) lt n d e l = (
  rw length-writes l.0,
  ground (arith, after_writes links slot t x, l.0),
  (rw length-writes lt, ground (arith, after_writes links slot t slot, n.0, lt), tt),
)
Linked-append links slot t (x ∷ y ∷ xs) lt n d e l = (
  rw length-writes l.0,
  ground (arith, after_writes links slot t x, last-ne x t (y ∷ xs) d.0 e, n.0, l.1),
  Linked-append links slot t (y ∷ xs) lt n.1 d.1 e l.2,
)

last-append : (xs : List ℕ) (x : ℕ) → last (xs ++ x ∷ []) ≡ some x
last-append [] x = refl
last-append (y ∷ []) x = refl
last-append (y ∷ z ∷ xs) x = last-append (z ∷ xs) x

NotIn-append : (y x : ℕ) (xs : List ℕ) → NotIn y xs → y ≢ x → NotIn y (xs ++ x ∷ [])
NotIn-append y x [] n ne = (ne, tt)
NotIn-append y x (z ∷ xs) n ne = (n.0, NotIn-append y x xs n.1 ne)

Distinct-append : (x : ℕ) (xs : List ℕ) → NotIn x xs → Distinct xs → Distinct (xs ++ x ∷ [])
Distinct-append x [] n d = (tt, tt)
Distinct-append x (y ∷ xs) n d =
    (NotIn-append y x xs d.0 (λ e. n.0 (sym e)), Distinct-append x xs n.1 d.1)

abbrev pub tail : List ℕ → List ℕ
tail [] = []
tail (x ∷ xs) = xs

last-some : (x : ℕ) (xs : List ℕ) → (t : ℕ) × (last (x ∷ xs) ≡ some t)
last-some x [] = (x, refl)
last-some x (y ∷ xs) = last-some y xs

rest_tail :
    (q : WaitQueue) (links : Links) (x : ℕ) (xs : List ℕ)
    → Holds q links (x ∷ xs)
    → (if is_none (link_of links x) then none else q.tail) ≡ last xs
rest_tail q links x [] h = rw h.linked.1
rest_tail q links x (y ∷ xs) h = rw h.linked.1 h.at_tail

-- `enqueue` of a slot that is not waiting puts it behind all that wait.
pub enqueue-Holds :
    (q : WaitQueue) (links : Links) (slot : ℕ) (side : Bool) (xs : List ℕ)
    → Holds q links xs
    → slot < length links
    → NotIn slot xs
    → let (q', links') = enqueue q slot side links in
      Holds q' links' (xs ++ slot ∷ []) × (q'.are_senders ≡ side)
unfolding enqueue
enqueue-Holds q links slot side [] h lt n =
    rw (h.at_tail, append_after)
      (
        record {
          at_head = refl;
          at_tail = refl;
          linked = (rw length-set lt, get_or-set_self links slot none none lt, tt);
          distinct = (tt, tt);
        },
        refl,
      )
enqueue-Holds q links slot side (x ∷ xs) h lt n =
    let (t, e) = last-some x xs in
    rw (h.at_tail ∙ e, append_after)
      (
        record {
          at_head = h.at_head;
          at_tail = sym (last-append (x ∷ xs) slot);
          linked = Linked-append links slot t (x ∷ xs) lt n h.distinct e h.linked;
          distinct = Distinct-append slot (x ∷ xs) n h.distinct;
        },
        refl,
      )

-- `dequeue` returns the slot that has waited longest, and leaves the rest in order.
pub dequeue-Holds :
    (q : WaitQueue) (links : Links) (xs : List ℕ)
    → Holds q links xs
    → ((dequeue q links).1 ≡ first xs) × Holds (dequeue q links).0 links (tail xs)
unfolding dequeue
dequeue-Holds q links [] h =
    rw (h.at_head, advance)
      (refl, record { at_head = refl; at_tail = h.at_tail; linked = tt; distinct = tt })
dequeue-Holds q links (x ∷ xs) h =
    rw (h.at_head, advance)
      (
        refl,
        record {
          at_head = h.linked.1;
          at_tail = rest_tail q links x xs h;
          linked = h.linked.2;
          distinct = h.distinct.1;
        },
      )

take_if-other :
    (q : WaitQueue) (links : Links) (want : Bool)
    → same_side q.are_senders want ≡ false
    → take_if q want links ≡ (q, none)
unfolding take_if
take_if-other q links want e = ground arith

take_if-same :
    (q : WaitQueue) (links : Links) (want : Bool)
    → same_side q.are_senders want ≡ true
    → take_if q want links ≡ dequeue q links
unfolding take_if dequeue
take_if-same q links want e = ground arith

-- `take_if` hands out the slot that has waited longest when the queue holds the side asked for, and
-- otherwise leaves the queue as it is.
pub take_if_lem :
    (q : WaitQueue) (links : Links) (want : Bool) (xs : List ℕ)
    → Holds q links xs
    → ((take_if q want links).1 ≡ (if same_side q.are_senders want then first xs else none))
      × Holds (take_if q want links).0 links (if same_side q.are_senders want then tail xs else xs)
take_if_lem q links want xs h = elim (Bool-cases (same_side q.are_senders want)) [
  | inl same ↦ rw (same, take_if-same q links want same) (dequeue-Holds q links xs h)
  | inr other ↦ rw (other, take_if-other q links want other) (refl, h)
]

abbrev pub Apart : List ℕ → List ℕ → Type 0
Apart [] ys = Unit {0}
Apart (x ∷ xs) ys = NotIn x ys × Apart xs ys

last-Apart : (t : ℕ) (xs ys : List ℕ) → Apart xs ys → last xs ≡ some t → NotIn t ys
last-Apart t [] ys a e = absurd (cc)
last-Apart t (x ∷ []) ys a e = let same : x ≡ t = grind arith in subst (λ k. NotIn k ys) same a.0
last-Apart t (x ∷ y ∷ xs) ys a e = last-Apart t (y ∷ xs) ys a.1 e

-- All queues share one array of links: enqueueing a slot on one of them leaves any other queue, that
-- shares no waiter with it and does not hold that slot, holding what it held.
enqueue-Apart :
    (q r : WaitQueue) (links : Links) (slot : ℕ) (side : Bool) (xs ys : List ℕ)
    → Holds q links xs
    → Holds r links ys
    → NotIn slot ys
    → Apart xs ys
    → Holds r (enqueue q slot side links).1 ys
unfolding enqueue
enqueue-Apart q r links slot side [] ys h k n apart =
    rw (h.at_tail, append_after)
      (record {
        at_head = k.at_head;
        at_tail = k.at_tail;
        linked = Linked-set links slot none ys n k.linked;
        distinct = k.distinct;
      })
enqueue-Apart q r links slot side (x ∷ xs) ys h k n apart =
    let (t, e) = last-some x xs in
    rw (h.at_tail ∙ e, append_after)
      (record {
        at_head = k.at_head;
        at_tail = k.at_tail;
        linked =
            Linked-set (set links slot none) t (some slot) ys (last-Apart t (x ∷ xs) ys apart e)
              (Linked-set links slot none ys n k.linked);
        distinct = k.distinct;
      })
