-- ===== src/Ipc/Dying.antt =====
-- The death of a process: `reap_dying` counts the endpoint capabilities that die with it.
use mathlib.Core.Path.{subst}
use plinth_os.Base.{
  ℕ, ◌+◌, ◌<◌, ◌≤◌, ◌≡◌, refl, sym, ap, ◌∙◌, ◌&&◌, Bool, true, false, none, List, [], ◌∷◌, length,
  arith, ltb, ◌==◌, get_or, get_or-set, length-set, get_or-replicate, if◌then◌else◌, ◌⊎◌, inl, inr,
  Bool-cases,
}
use plinth_os.Capability.{
  Capability, CapObject, right_send, right_recv, frame, cpu_time, endpoint, reply, block_range,
  event_source, ring, framebuffer, bound_device,
}
use plinth_os.CapTable
use plinth_os.CapTable.{CapTable}
use plinth_os.Kernel.{Kernel, max_processes, is_blocked, wake_with, take_reclaim_landing}
use plinth_os.Ipc.WaitQueue.Refine.{Holds}
use plinth_os.Ipc.Endpoint.{Endpoint, ep_at, max_endpoints, grants, death_strands_peers}
use plinth_os.Ipc.Death.{Tally, no_tally, bump, reap_one, reap_caps, reap_dying}
use plinth_os.Ipc.Liveness.{AllWoken, AllBelow}
use plinth_os.Ipc.Stranded.{reap_endpoints-wakes}

abbrev is_endpoint : CapObject → ℕ → Bool
is_endpoint (endpoint i) id = i == id
is_endpoint _ id = false

abbrev one_of : CapObject → ℕ → ℕ → ℕ → ℕ
one_of o rights id right = if is_endpoint o id && grants rights right then 1 else 0

-- How many of these capabilities name endpoint `id` with this right.
abbrev pub count_of : List Capability → ℕ → ℕ → ℕ
count_of [] id right = 0
count_of (c ∷ cs) id right = one_of c.object c.rights id right + count_of cs id right

-- The capabilities hold the last that could send on the endpoint, or the last that could receive.
abbrev pub HoldsLast : List Capability → ℕ → Endpoint → Type 0
HoldsLast cs id ep =
    ((0 < count_of cs id right_send) × (ep.senders ≤ count_of cs id right_send))
    ⊎ ((0 < count_of cs id right_recv) × (ep.receivers ≤ count_of cs id right_recv))

record Tallied (t t' : Tally) (id sends receives : ℕ) : Type 0 where
  senders : get_or t'.senders id 0 ≡ get_or t.senders id 0 + sends
  receivers : get_or t'.receivers id 0 ≡ get_or t.receivers id 0 + receives
  many_senders : length t'.senders ≡ length t.senders
  many_receivers : length t'.receivers ≡ length t.receivers

Tallied-none : (t : Tally) (id : ℕ) → Tallied t t id 0 0
Tallied-none t id = record {
  senders = omega arith;
  receivers = omega arith;
  many_senders = refl;
  many_receivers = refl;
}

get_or-bump :
    (ns : List ℕ) (i id : ℕ) (b : Bool)
    → id < length ns
    → (get_or (bump ns i b) id 0 ≡ get_or ns id 0 + (if (i == id) && b then 1 else 0))
      × (length (bump ns i b) ≡ length ns)
get_or-bump ns i id true lt =
    (ground (arith, get_or-set ns i id (get_or ns i 0 + 1) 0, lt), length-set ns i _)
get_or-bump ns i id false lt = (ground arith, refl)

reap_one-Tallied :
    (k : Kernel) (t : Tally) (o : CapObject) (rights id : ℕ)
    → id < max_endpoints
    → id < length t.senders
    → id < length t.receivers
    → Tallied t
        (reap_one (k, t) o rights).1
        id
        (one_of o rights id right_send)
        (one_of o rights id right_recv)
reap_one-Tallied k t (endpoint i) rights id lt s r = elim (Bool-cases (ltb i max_endpoints)) [
  | inl known ↦
      let (sends, many) = get_or-bump t.senders i id (grants rights right_send) s in
      let (receives, many') = get_or-bump t.receivers i id (grants rights right_recv) r in
      rw known (record {
        senders = sends;
        receivers = receives;
        many_senders = many;
        many_receivers = many';
      })
  | inr past ↦
      let other : i == id ≡ false = ground (arith, past, lt) in rw (past, other) (Tallied-none t id)
]
reap_one-Tallied k t (reply caller) rights id lt s r = elim (Bool-cases (is_blocked k caller)) [
  | inl waits ↦ rw waits (Tallied-none t id)
  | inr gone ↦ rw gone (Tallied-none t id)
]
reap_one-Tallied k t (frame _) rights id lt s r = Tallied-none t id
reap_one-Tallied k t (cpu_time _) rights id lt s r = Tallied-none t id
reap_one-Tallied k t (block_range _ _ _) rights id lt s r = Tallied-none t id
reap_one-Tallied k t (event_source _) rights id lt s r = Tallied-none t id
reap_one-Tallied k t (ring _) rights id lt s r = Tallied-none t id
reap_one-Tallied k t (framebuffer _ _ _ _ _ _) rights id lt s r = Tallied-none t id
reap_one-Tallied k t (bound_device _) rights id lt s r = Tallied-none t id

reap_caps-Tallied :
    (k : Kernel) (t : Tally) (cs : List Capability) (id : ℕ)
    → id < max_endpoints
    → id < length t.senders
    → id < length t.receivers
    → Tallied t (reap_caps (k, t) cs).1 id (count_of cs id right_send) (count_of cs id right_recv)
unfolding reap_caps
reap_caps-Tallied k t [] id lt s r = Tallied-none t id
reap_caps-Tallied k t (c ∷ cs) id lt s r =
    let one = reap_one-Tallied k t c.object c.rights id lt s r in
    let (k', t') = reap_one (k, t) c.object c.rights in
    let many = one.many_senders in
    let many' = one.many_receivers in
    let rest =
      reap_caps-Tallied k' t' cs id lt (omega (arith, s, many)) (omega (arith, r, many')) in
    let sends = one.senders in
    let receives = one.receivers in
    let sends' = rest.senders in
    let receives' = rest.receivers in
    record {
      senders = omega (arith, sends, sends');
      receivers = omega (arith, receives, receives');
      many_senders = rest.many_senders ∙ many;
      many_receivers = rest.many_receivers ∙ many';
    }

-- The first loop wakes callers, and touches no endpoint and no queue.
record Untouched (k k' : Kernel) : Type 0 where
  endpoints : k'.endpoints ≡ k.endpoints
  links : k'.links ≡ k.links
  slots : length k'.table ≡ length k.table

reap_one-Untouched :
    (k : Kernel) (t : Tally) (o : CapObject) (rights : ℕ) → Untouched k (reap_one (k, t) o rights).0
unfolding wake_with take_reclaim_landing
reap_one-Untouched k t (endpoint i) rights = elim (Bool-cases (ltb i max_endpoints)) [
  | inl known ↦ rw known (record { endpoints = refl; links = refl; slots = refl })
  | inr past ↦ rw past (record { endpoints = refl; links = refl; slots = refl })
]
reap_one-Untouched k t (reply caller) rights = elim (Bool-cases (is_blocked k caller)) [
  | inl waits ↦
      rw waits (record { endpoints = refl; links = refl; slots = rw (length-set, length-set) refl })
  | inr gone ↦ rw gone (record { endpoints = refl; links = refl; slots = refl })
]
reap_one-Untouched k t (frame _) rights = record { endpoints = refl; links = refl; slots = refl }
reap_one-Untouched k t (cpu_time _) rights = record { endpoints = refl; links = refl; slots = refl }
reap_one-Untouched k t (block_range _ _ _) rights = record {
  endpoints = refl;
  links = refl;
  slots = refl;
}
reap_one-Untouched k t (event_source _) rights = record {
  endpoints = refl;
  links = refl;
  slots = refl;
}
reap_one-Untouched k t (ring _) rights = record { endpoints = refl; links = refl; slots = refl }
reap_one-Untouched k t (framebuffer _ _ _ _ _ _) rights = record {
  endpoints = refl;
  links = refl;
  slots = refl;
}
reap_one-Untouched k t (bound_device _) rights = record {
  endpoints = refl;
  links = refl;
  slots = refl;
}

reap_caps-Untouched :
    (k : Kernel) (t : Tally) (cs : List Capability) → Untouched k (reap_caps (k, t) cs).0
unfolding reap_caps
reap_caps-Untouched k t [] = record { endpoints = refl; links = refl; slots = refl }
reap_caps-Untouched k t (c ∷ cs) =
    let one = reap_one-Untouched k t c.object c.rights in
    let (k', t') = reap_one (k, t) c.object c.rights in
    let rest = reap_caps-Untouched k' t' cs in
    record {
      endpoints = rest.endpoints ∙ one.endpoints;
      links = rest.links ∙ one.links;
      slots = rest.slots ∙ one.slots;
    }

strands :
    (cs : List Capability) (id : ℕ) (ep : Endpoint) (s r : ℕ)
    → HoldsLast cs id ep
    → s ≡ count_of cs id right_send
    → r ≡ count_of cs id right_recv
    → death_strands_peers ep s r ≡ true
unfolding death_strands_peers
strands cs id ep s r (inl (some_die, all_die)) es er = ground (arith, some_die, all_die, es)
strands cs id ep s r (inr (some_die, all_die)) es er = ground (arith, some_die, all_die, er)

-- When a process dies that holds the last capability that could send on an endpoint, or the last that
-- could receive from it, each process that waits there is made ready and told that its peer died, and
-- none is left waiting there. The queue is well formed, of slots of the process table, and no longer
-- than that table.
pub reap_dying_lem :
    (k : Kernel) (dying : CapTable) (id : ℕ) (xs : List ℕ)
    → id < max_endpoints
    → id < length k.endpoints
    → (ep_at k.endpoints id).in_use ≡ true
    → HoldsLast (CapTable.iter dying) id (ep_at k.endpoints id)
    → Holds (ep_at k.endpoints id).queue k.links xs
    → AllBelow (length k.table) xs
    → length xs ≤ max_processes
    → AllWoken (reap_dying k dying) xs
      × ((ep_at (reap_dying k dying).endpoints id).queue.head ≡ none)
unfolding reap_dying
reap_dying_lem k dying id xs known room in_use last_one held below few =
    let cs = CapTable.iter dying in
    let (k', t) = reap_caps (k, no_tally) cs in
    let same = reap_caps-Untouched k no_tally cs in
    let counted = reap_caps-Tallied k no_tally cs id known known known in
    let ep_same : ep_at k'.endpoints id ≡ ep_at k.endpoints id =
      ap (λ es. ep_at es id) same.endpoints in
    let nothing : get_or (no_tally.senders) id 0 ≡ 0 = get_or-replicate 8 id 0 in
    let sends : get_or t.senders id 0 ≡ count_of cs id right_send =
      counted.senders ∙ omega (arith, nothing) in
    let receives : get_or t.receivers id 0 ≡ count_of cs id right_recv =
      counted.receivers ∙ omega (arith, nothing) in
    let lost =
      strands cs id (ep_at k.endpoints id) (get_or t.senders id 0) (get_or t.receivers id 0)
        last_one sends receives in
    reap_endpoints-wakes t 0 max_endpoints k' id xs (omega arith) (omega (arith, known))
      (ap
          (λ (e : Endpoint).
            e.in_use && death_strands_peers e (get_or t.senders id 0) (get_or t.receivers id 0))
          ep_same
        ∙ (rw (in_use, lost) refl))
      (record {
        room = subst (λ es. id < length es) (sym same.endpoints) room;
        queued =
            subst (λ l. Holds (ep_at k'.endpoints id).queue l xs) (sym same.links)
              (subst (λ (e : Endpoint). Holds e.queue k.links xs) (sym ep_same) held);
        below = subst (λ n. AllBelow n xs) (sym same.slots) below;
      })
      few
