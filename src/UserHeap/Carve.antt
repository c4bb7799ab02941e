-- ===== src/UserHeap/Carve.antt =====
-- The region of a process grows in whole pages of the window, and hands out fresh bytes.
use mathlib.Core.Path.{subst}
use plinth_os.Base.{
  ℕ, zero, suc, ◌+◌, ◌*◌, ◌%◌, ◌^◌, ◌≤◌, ◌≡◌, refl, sym, ◌∙◌, Bool, true, false, Option, none, some,
  arith, ltb, not, Bool-cases, inl, inr,
}
use plinth_os.UserHeap.{Grant, Region, grow, rounds, carved, carve, map_base, map_end, page_len}

-- The kernel maps whole pages of the window only.
abbrev pub IsWindow : {K : Type 0} → Grant K → Type 0
IsWindow {K} grant = (k : K) (at : ℕ) → (grant k at).1 ≡ true → at + page_len ≤ map_end

-- A region that has only grown.
record Grown (r r' : Region) : Type 0 where
  same_next : r'.next ≡ r.next
  more : r.mapped_end ≤ r'.mapped_end
  window : r'.mapped_end ≤ map_end
  accounted : r'.frames * page_len + r.mapped_end ≡ r.frames * page_len + r'.mapped_end

abbrev Grows : {K : Type 0} → Region → ℕ → K × Region × Bool → Type 0
Grows r end_at (k, r', true) = Grown r r' × (end_at ≤ r'.mapped_end)
Grows r end_at (k, r', false) = Grown r r'

Grows-cons :
    {K : Type 0} (r r1 : Region) (end_at : ℕ) (out : K × Region × Bool)
    → r1.next ≡ r.next
    → r1.mapped_end ≡ r.mapped_end + page_len
    → r1.frames ≡ r.frames + 1
    → Grows r1 end_at out
    → Grows r end_at out
Grows-cons r r1 end_at (k, r', true) n m f (g, reached) =
    let more = g.more in
    let sum = g.accounted in
    (
      record {
        same_next = g.same_next ∙ n;
        more = omega (arith, m, more);
        window = g.window;
        accounted = omega (arith, m, f, sum);
      },
      reached,
    )
Grows-cons r r1 end_at (k, r', false) n m f g =
    let more = g.more in
    let sum = g.accounted in
    record {
      same_next = g.same_next ∙ n;
      more = omega (arith, m, more);
      window = g.window;
      accounted = omega (arith, m, f, sum);
    }

grow-Grows :
    {K : Type 0} (grant : Grant K) (k : K) (r : Region) (end_at n : ℕ)
    → IsWindow grant
    → r.mapped_end ≤ map_end
    → end_at ≤ r.mapped_end + n * page_len
    → Grows r end_at (grow grant k r end_at n)
unfolding grow
grow-Grows grant k r end_at zero w le enough =
    (record { same_next = refl; more = omega arith; window = le; accounted = refl }, omega arith)
grow-Grows grant k r end_at (suc n) w le enough =
    let stay : Grown r r = record {
      same_next = refl;
      more = omega arith;
      window = le;
      accounted = refl;
    } in
    elim (Bool-cases (not (ltb r.mapped_end end_at))) [
      | inl done ↦ rw done (stay, ground (arith, done))
      | inr short ↦ elim (Bool-cases ((grant k r.mapped_end).1)) [
        | inr refused ↦ rw (short, refused) stay
        | inl granted ↦
            let r1 : Region = record r {
              mapped_end = r.mapped_end + page_len;
              frames = r.frames + 1;
            } in
            rw (short, granted)
              (Grows-cons r r1 end_at (grow grant (grant k r.mapped_end).0 r1 end_at n) refl refl
                refl
                (grow-Grows grant (grant k r.mapped_end).0 r1 end_at n w (w k r.mapped_end granted)
                  (omega arith)))
      ]
    ]

pub record IsRegion (r : Region) : Type 0 where
  pub low : map_base ≤ r.next
  pub mapped : r.next ≤ r.mapped_end
  pub window : r.mapped_end ≤ map_end
  pub accounted : r.frames * page_len + map_base ≡ r.mapped_end

-- What `carve` hands out begins where the region ended, and all of it is mapped.
abbrev pub Carves : {K : Type 0} → Region → ℕ → K × Region × Option ℕ → Type 0
Carves r size (k, r', some at) = IsRegion r' × (at ≡ r.next) × (r'.next ≡ r.next + size)
Carves r size (k, r', none) = IsRegion r' × (r'.next ≡ r.next)

carved-Carves :
    {K : Type 0} (r : Region) (size : ℕ) (out : K × Region × Bool)
    → IsRegion r
    → Grows r (r.next + size) out
    → Carves r size (carved r.next (r.next + size) out)
carved-Carves r size (k, r', true) v (g, reached) =
    let sum = g.accounted in
    let before = v.accounted in
    let low = v.low in
    (
      record {
        low = omega arith;
        mapped = reached;
        window = g.window;
        accounted = omega (arith, sum, before);
      },
      refl,
      refl,
    )
carved-Carves r size (k, r', false) v g =
    let sum = g.accounted in
    let before = v.accounted in
    let low = v.low in
    let mapped = v.mapped in
    let more = g.more in
    let same = g.same_next in
    (
      record {
        low = omega (arith, same);
        mapped = omega (arith, same);
        window = g.window;
        accounted = omega (arith, sum, before);
      },
      same,
    )

pub carve-Carves :
    {K : Type 0} (grant : Grant K) (k : K) (r : Region) (size : ℕ)
    → IsWindow grant
    → IsRegion r
    → size ≤ 2 ^ 63
    → Carves r size (carve grant k r size)
unfolding carve
carve-Carves grant k r size w v small =
    let mapped = v.mapped in
    let window = v.window in
    let whole : (r.next + size) % 2 ^ 64 ≡ r.next + size = omega arith in
    subst (λ e. Carves r size (carved r.next e (grow grant k r e (rounds r e)))) (sym whole)
      (carved-Carves r size (grow grant k r (r.next + size) (rounds r (r.next + size))) v
        (grow-Grows grant k r (r.next + size) (rounds r (r.next + size)) w window (omega arith)))
