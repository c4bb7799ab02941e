-- ===== src/Rings/Subs.antt =====
-- kernel/src/rings.rs, `Subscriptions`: which ring gets the events of which source, and how many
-- events each one has missed.
pub mod Keys
use Prim.Native.Nat.{bit_or}
use plinth_os.Base.{
  ℕ, zero, suc, ◌+◌, ◌-◌, ◌^◌, ◌<◌, ◌≡◌, ◌&&◌, not, Bool, true, false, Option, none, some, List, [],
  ◌∷◌, get_or, set, replicate, ◌==◌, ltb, if◌then◌else◌,
}
use plinth_os.Capability.{is_none}

abbrev pub max_subs : ℕ
max_subs = 32

abbrev pub event_dropped : ℕ
event_dropped = 2 ^ 31

pub record Subscription : Type 0 where
  pub source : ℕ
  pub ring : ℕ
  pub user_data : ℕ
  pub dropped : ℕ

abbrev pub Subscriptions : Type 0
Subscriptions = List (Option Subscription)

abbrev pub new : Subscriptions
new = replicate max_subs none

abbrev pub has_key : ℕ → ℕ → Option Subscription → Bool
has_key ring user_data none = false
has_key ring user_data (some s) = s.ring == ring && (s.user_data == user_data)

-- `position`, counted from `i`.
unfoldable pub find_from : Subscriptions → ℕ → ℕ → ℕ → Option ℕ
find_from [] ring user_data i = none
find_from (s ∷ ss) ring user_data i =
    let rest = find_from ss ring user_data (i + 1) in
    if has_key ring user_data s then some i else rest

abbrev pub find : Subscriptions → ℕ → ℕ → Option ℕ
find subs ring user_data = find_from subs ring user_data 0

unfoldable pub first_free : Subscriptions → ℕ → Option ℕ
first_free [] i = none
first_free (s ∷ ss) i = let rest = first_free ss (i + 1) in if is_none s then some i else rest

abbrev pub armed : ℕ → ℕ → ℕ → Subscription
armed source ring user_data = record {
  source = source;
  ring = ring;
  user_data = user_data;
  dropped = 0;
}

abbrev pub arm_at : Subscriptions → Subscription → Option ℕ → Subscriptions × Option ℕ
arm_at subs s none = (subs, none)
arm_at subs s (some slot) = (set subs slot (some s), some slot)

unfoldable pub subscribe : Subscriptions → ℕ → ℕ → ℕ → Subscriptions × Option ℕ
subscribe subs source ring user_data =
    if not (is_none (find subs ring user_data))
    then (subs, none)
    else arm_at subs (armed source ring user_data) (first_free subs 0)

abbrev pub disarm_at : Subscriptions → Option ℕ → Subscriptions × Bool
disarm_at subs none = (subs, false)
disarm_at subs (some i) = (set subs i none, true)

unfoldable pub cancel : Subscriptions → ℕ → ℕ → Subscriptions × Bool
cancel subs ring user_data = disarm_at subs (find subs ring user_data)

abbrev pub on_ring : ℕ → Option Subscription → Bool
on_ring ring none = false
on_ring ring (some s) = s.ring == ring

unfoldable pub release_ring : Subscriptions → ℕ → Subscriptions
release_ring [] ring = []
release_ring (s ∷ ss) ring = (if on_ring ring s then none else s) ∷ release_ring ss ring

-- `saturating_add(1)` on a `u32`.
abbrev pub bump : ℕ → ℕ
bump n = if ltb (n + 1) (2 ^ 32) then n + 1 else 2 ^ 32 - 1

abbrev pub status_for : Subscription → ℕ → ℕ
status_for s event = if ltb 0 s.dropped then bit_or event event_dropped else event

abbrev pub after_post : Subscription → Bool → Subscription
after_post s admitted = record s { dropped = if admitted then 0 else bump s.dropped }

-- `deliver`, with the state that its closure `post` changes.
abbrev pub deliver_one {ℓ} :
    {S : Type ℓ}
    → (S → ℕ → ℕ → ℕ → S × Bool)
    → Option Subscription
    → ℕ
    → ℕ
    → S
    → Option Subscription × S
deliver_one post none source event st = (none, st)
deliver_one post (some s) source event st =
    if s.source == source
    then (let (st', admitted) = post st s.ring s.user_data (status_for s event) in
        (some (after_post s admitted), st'))
    else (some s, st)

unfoldable pub deliver {ℓ} :
    {S : Type ℓ} → (S → ℕ → ℕ → ℕ → S × Bool) → Subscriptions → ℕ → ℕ → S → Subscriptions × S
deliver post [] source event st = ([], st)
deliver post (s ∷ ss) source event st =
    let (s', st') = deliver_one post s source event st in
    let (ss', st'') = deliver post ss source event st' in (s' ∷ ss', st'')

unfoldable pub any : Subscriptions → Bool
any [] = false
any (s ∷ ss) = let rest = any ss in if is_none s then rest else true

abbrev pub dropped_at : Subscriptions → Option ℕ → Option ℕ
dropped_at subs none = none
dropped_at subs (some i) = elim (get_or subs i none) [ none ↦ none | some s ↦ some s.dropped ]

unfoldable pub dropped : Subscriptions → ℕ → ℕ → Option ℕ
dropped subs ring user_data = dropped_at subs (find subs ring user_data)
