-- ===== src/Blk/Pool.antt =====
-- The pool of slots: each slot of the device is either on the free stack, once, or live.
use plinth_os.Base.{
  ℕ, zero, suc, ◌+◌, ◌<◌, ◌≤◌, ◌≡◌, refl, true, false, Option, none, List, [], ◌∷◌, length, get_or,
  set, replicate, arith, ◌==◌, ltb, leb, ◌&&◌, get_or-replicate, if◌then◌else◌,
}
use plinth_os.Capability.{is_none}
use plinth_os.Blk.{Inflights, Completion, route_of, max_slots, numbered, new}

-- How often `s` stands among the first `n` entries.
abbrev pub times : ℕ → List ℕ → ℕ → ℕ
times s [] n = 0
times s (x ∷ xs) zero = 0
times s (x ∷ xs) (suc n) = (if x == s then 1 else 0) + times s xs n

abbrev pub live_one : Option Completion → ℕ
live_one o = if is_none o then 0 else 1

abbrev pub live_count : List (Option Completion) → ℕ
live_count [] = 0
live_count (o ∷ os) = live_one o + live_count os

pub record IsPool (d : Inflights) : Type 0 where
  pub routing_length : length d.routing ≡ max_slots
  pub free_length : length d.free ≡ max_slots
  pub few : d.slots ≤ max_slots
  pub counted : live_count d.routing + d.free_len ≡ d.slots
  pub once :
      (s : ℕ)
      → times s d.free d.free_len + live_one (route_of d s) ≡ (if ltb s d.slots then 1 else 0)

pub live_count-set :
    (os : List (Option Completion)) (i : ℕ) (v : Option Completion)
    → i < length os
    → live_count (set os i v) + live_one (get_or os i none) ≡ live_count os + live_one v
live_count-set [] i v lt = absurd (omega arith)
live_count-set (o ∷ os) zero v lt = omega arith
live_count-set (o ∷ os) (suc i) v lt = let ih = live_count-set os i v (omega arith) in omega arith

pub times_none : (s : ℕ) (xs : List ℕ) → times s xs 0 ≡ 0
times_none s [] = refl
times_none s (x ∷ xs) = refl

-- The last of the first `n + 1` entries.
pub times-suc :
    (s : ℕ) (xs : List ℕ) (n : ℕ)
    → n < length xs
    → times s xs (suc n) ≡ times s xs n + (if get_or xs n 0 == s then 1 else 0)
times-suc s [] n lt = absurd (omega arith)
times-suc s (x ∷ xs) zero lt = ground (arith, times_none s xs)
times-suc s (x ∷ xs) (suc n) lt = let ih = times-suc s xs n (omega arith) in omega arith

-- A write behind the first `n` entries changes nothing of them.
pub times-set : (s : ℕ) (xs : List ℕ) (n i v : ℕ) → n ≤ i → times s (set xs i v) n ≡ times s xs n
times-set s [] n i v le = refl
times-set s (x ∷ xs) zero zero v le = refl
times-set s (x ∷ xs) zero (suc i) v le = refl
times-set s (x ∷ xs) (suc n) zero v le = absurd (omega arith)
times-set s (x ∷ xs) (suc n) (suc i) v le =
    let ih = times-set s xs n i v (omega arith) in omega arith

-- A live slot is one that counts.
pub live_count-pos :
    (os : List (Option Completion)) (i : ℕ)
    → is_none (get_or os i none) ≡ false
    → (0 < live_count os) × (i < length os)
live_count-pos [] i live = cc
live_count-pos (o ∷ os) zero live = ground arith
live_count-pos (o ∷ os) (suc i) live =
    let ih = live_count-pos os i live in (omega (arith, ih.0), omega (arith, ih.1))

live_count-replicate : (n : ℕ) → live_count (replicate n none) ≡ 0
live_count-replicate zero = refl
live_count-replicate (suc n) = omega (arith, live_count-replicate n)

times-numbered :
    (s i n m j : ℕ)
    → i + j ≤ n
    → j ≤ m
    → times s (numbered i n m) j ≡ (if leb i s && ltb s (i + j) then 1 else 0)
unfolding numbered
times-numbered s i n zero j le fits = ground arith
times-numbered s i n (suc m) zero le fits = ground arith
times-numbered s i n (suc m) (suc j) le fits =
    let ih = times-numbered s (i + 1) n m j (omega arith) (omega arith) in
    let first : ltb i n ≡ true = ground arith in ground (arith, ih, first)

length-numbered : (i n m : ℕ) → length (numbered i n m) ≡ m
unfolding numbered
length-numbered i n zero = refl
length-numbered i n (suc m) = omega (arith, length-numbered (i + 1) n m)

pub new-IsPool : (wanted : ℕ) → IsPool (new wanted)
unfolding new
new-IsPool wanted =
    let slots = if ltb wanted max_slots then wanted else max_slots in
    let few : slots ≤ max_slots = ground arith in
    record {
      routing_length = refl;
      free_length = length-numbered 0 slots max_slots;
      few = few;
      counted = omega arith;
      once = λ s. ground (
        arith,
        times-numbered s 0 slots max_slots slots (omega arith) few,
        get_or-replicate {A = Option Completion} max_slots s none,
      );
    }
