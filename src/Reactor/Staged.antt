-- ===== src/Reactor/Staged.antt =====
-- What staging completions, one after another, leaves in the reactor: the table and the two counts.
use mathlib.Core.Path.{subst}
use plinth_os.Base.{
  ℕ, zero, suc, ◌+◌, ◌-◌, ◌^◌, ◌<◌, ◌≤◌, ◌≡◌, refl, sym, ap, ◌∙◌, not, if◌then◌else◌, List, [], ◌∷◌,
  ◌++◌, length, arith, ◌==◌, ltb, inl, inr, Bool-cases, bit_and,
}
use plinth_os.Reactor.{Reactor, cap, bump, event_dropped, stage}

unfoldable pub stage_all : Reactor → List (ℕ × ℕ) → Reactor
stage_all r [] = r
stage_all r (e ∷ es) = stage_all (stage r e) es

append-nil : (xs : List (ℕ × ℕ)) → xs ++ [] ≡ xs
append-nil [] = refl
append-nil (x ∷ xs) = ap (λ ys. x ∷ ys) (append-nil xs)

append-snoc :
    (xs : List (ℕ × ℕ)) (y : ℕ × ℕ) (ys : List (ℕ × ℕ)) → (xs ++ y ∷ []) ++ ys ≡ xs ++ y ∷ ys
append-snoc [] y ys = refl
append-snoc (x ∷ xs) y ys = ap (λ zs. x ∷ zs) (append-snoc xs y ys)

length-snoc : (xs : List (ℕ × ℕ)) (x : ℕ × ℕ) → length (xs ++ x ∷ []) ≡ length xs + 1
length-snoc [] x = refl
length-snoc (y ∷ ys) x = omega (arith, length-snoc ys x)

-- The first `n` completions.
abbrev pub up_to : ℕ → List (ℕ × ℕ) → List (ℕ × ℕ)
up_to zero es = []
up_to (suc n) [] = []
up_to (suc n) (e ∷ es) = e ∷ up_to n es

-- How many completions say that events before them were dropped.
abbrev pub marked : List (ℕ × ℕ) → ℕ
marked [] = 0
marked ((ud, status) ∷ es) = (if bit_and status event_dropped == 0 then 0 else 1) + marked es

-- A count in 32 bits that stops at the top.
abbrev pub saturated : ℕ → ℕ
saturated n = if ltb n (2 ^ 32) then n else 2 ^ 32 - 1

-- The table has taken as many of the completions as it had room for, the first ones, and behind those
-- that were there; the others are counted, and so are the losses that the completions report.
pub record Staged (r r' : Reactor) (es : List (ℕ × ℕ)) : Type 0 where
  pub table : r'.done ≡ r.done ++ up_to (cap - length r.done) es
  pub rest : r'.undelivered ≡ saturated (r.undelivered + (length es - (cap - length r.done)))
  pub losses : r'.drops ≡ saturated (r.drops + marked es)

saturated-bump :
    (n k : ℕ) → n < 2 ^ 32 → (bump n < 2 ^ 32) × (saturated (bump n + k) ≡ saturated (n + suc k))
saturated-bump n k lt = (ground arith, ground arith)

abbrev noted : ℕ → ℕ → ℕ
noted drops status = if not (bit_and status event_dropped == 0) then bump drops else drops

noted-saturated :
    (drops status k : ℕ)
    → drops < 2 ^ 32
    → (noted drops status < 2 ^ 32)
      × (saturated (noted drops status + k)
          ≡ saturated (drops + ((if bit_and status event_dropped == 0 then 0 else 1) + k)))
noted-saturated drops status k lt = elim (Bool-cases (bit_and status event_dropped == 0)) [
  | inl clear ↦ rw clear (lt, ap (λ n. saturated (drops + n)) (omega arith))
  | inr set ↦
      let (small, same) = saturated-bump drops k lt in
      rw set (small, same ∙ ap (λ n. saturated (drops + n)) (omega arith))
]

abbrev with_room : Reactor → ℕ × ℕ → Reactor
with_room r (ud, status) = record r {
  done = r.done ++ (ud, status) ∷ [];
  drops = noted r.drops status;
}

abbrev without_room : Reactor → ℕ × ℕ → Reactor
without_room r (ud, status) = record r {
  undelivered = bump r.undelivered;
  drops = noted r.drops status;
}

Staged-room :
    (r r' : Reactor) (e : ℕ × ℕ) (es : List (ℕ × ℕ))
    → length r.done < cap
    → r.drops < 2 ^ 32
    → Staged (with_room r e) r' es
    → Staged r r' (e ∷ es)
Staged-room r r' (ud, status) es room lost st =
    let grown = length-snoc r.done (ud, status) in
    let left : cap - length r.done ≡ suc (cap - length (r.done ++ (ud, status) ∷ [])) =
      omega (arith, grown, room) in
    record {
      table =
          st.table
          ∙ append-snoc r.done (ud, status) (up_to (cap - length (r.done ++ (ud, status) ∷ [])) es)
          ∙ sym (ap (λ n. r.done ++ up_to n ((ud, status) ∷ es)) left);
      rest = st.rest ∙ ap (λ n. saturated (r.undelivered + n)) (omega (arith, left));
      losses = st.losses ∙ (noted-saturated r.drops status (marked es) lost).1;
    }

Staged-full :
    (r r' : Reactor) (e : ℕ × ℕ) (es : List (ℕ × ℕ))
    → cap ≤ length r.done
    → r.undelivered < 2 ^ 32
    → r.drops < 2 ^ 32
    → Staged (without_room r e) r' es
    → Staged r r' (e ∷ es)
Staged-full r r' (ud, status) es full few lost st =
    let none_left : cap - length r.done ≡ 0 = omega (arith, full) in
    let all_of : length es - (cap - length r.done) ≡ length es = omega (arith, full) in
    let one_more : suc (length es) ≡ suc (length es) - (cap - length r.done) =
      omega (arith, full) in
    record {
      table =
          st.table
          ∙ ap (λ n. r.done ++ up_to n es) none_left
          ∙ sym (ap (λ n. r.done ++ up_to n ((ud, status) ∷ es)) none_left);
      rest =
          st.rest
          ∙ ap (λ n. saturated (bump r.undelivered + n)) all_of
          ∙ (saturated-bump r.undelivered (length es) few).1
          ∙ ap (λ n. saturated (r.undelivered + n)) one_more;
      losses = st.losses ∙ (noted-saturated r.drops status (marked es) lost).1;
    }

pub stage_all-Staged :
    (r : Reactor) (es : List (ℕ × ℕ))
    → r.undelivered < 2 ^ 32
    → r.drops < 2 ^ 32
    → Staged r (stage_all r es) es
unfolding stage_all stage
stage_all-Staged r [] few lost = record {
  table = sym (ap (λ es. r.done ++ es) (none_up_to (cap - length r.done)) ∙ append-nil r.done);
  rest = ground (arith, few);
  losses = ground (arith, lost);
}
  where
    none_up_to : (n : ℕ) → up_to n [] ≡ []
    none_up_to zero = refl
    none_up_to (suc n) = refl
stage_all-Staged r ((ud, status) ∷ es) few lost =
    let (small, same) = noted-saturated r.drops status (marked es) lost in
    elim (Bool-cases (ltb (length r.done) cap)) [
      | inl room ↦
          let step : stage r (ud, status) ≡ with_room r (ud, status) = rw room refl in
          subst (λ r1. Staged r (stage_all r1 es) ((ud, status) ∷ es)) (sym step)
            (Staged-room r _ (ud, status) es (ground (arith, room)) lost
              (stage_all-Staged (with_room r (ud, status)) es few small))
      | inr full ↦
          let step : stage r (ud, status) ≡ without_room r (ud, status) = rw full refl in
          subst (λ r1. Staged r (stage_all r1 es) ((ud, status) ∷ es)) (sym step)
            (Staged-full r _ (ud, status) es (ground (arith, full)) few lost
              (stage_all-Staged (without_room r (ud, status)) es
                (saturated-bump r.undelivered 0 few).0 small))
    ]
