-- ===== src/Elf/Segments.antt =====
-- The segments that are accepted: where they lie, what backs them, and that no page has two of them.
use plinth_os.Base.{
  ℕ, zero, suc, ◌+◌, ◌-◌, ◌*◌, ◌%◌, ◌^◌, ◌<◌, ◌≤◌, ◌≡◌, refl, sym, ap, ◌∙◌, true, false, none, some,
  List, [], ◌∷◌, ◌++◌, length, arith, ◌==◌, ltb, not, ◌||◌, ◌&&◌, ◌⊎◌, inl, inr, Bool-cases,
  bit_and,
}
use plinth_os.Elf.Results.{
  Holds, Holds-bind, Holds-require, Holds-ok_or, Holds-parsed, Holds-failed, Holds-at,
}
use plinth_os.Elf.{
  page_size, pf_x, pf_w, pf_r, LoadSeg, pages, page_flags, checked_add, Limits, Accepted, overlaps,
  accept, read_segment, accept_loadable, pt_interp, pt_load, scan_header, scan_headers, phdr_size,
}

checked_add-some : (a b c : ℕ) → checked_add a b ≡ some c → (a + b ≡ c) × (c < 2 ^ 64)
checked_add-some a b c e = elim (Bool-cases (ltb (a + b) (2 ^ 64))) [
  | inl fits ↦
      let e' : some (a + b) ≡ some c = sym (rw fits refl) ∙ e in
      let same : a + b ≡ c = cc in (same, ground (arith, fits, same))
  | inr over ↦ let e' : none ≡ some c = sym (rw over refl) ∙ e in absurd (cc)
]

-- One segment: backed by the file, inside the window, readable, and never writable and executable.
pub record IsSegment (bytes : List ℕ) (lim : Limits) (s : LoadSeg) : Type 0 where
  pub backed : s.offset + s.filesz ≤ length bytes
  pub sizes : s.filesz ≤ s.memsz
  pub aligned : s.vaddr % page_size ≡ 0
  pub above : lim.image_base ≤ s.vaddr
  pub below : s.vaddr + s.memsz ≤ lim.image_end
  pub readable : bit_and s.flags pf_r == 0 ≡ false
  pub write_or_execute : (page_flags s).writable && not (page_flags s).no_execute ≡ false

-- No page holds bytes of both.
abbrev pub Apart : LoadSeg → LoadSeg → Type 0
Apart a b = (a.vaddr + pages a * page_size ≤ b.vaddr) ⊎ (b.vaddr + pages b * page_size ≤ a.vaddr)

abbrev pub AllApart : List LoadSeg → LoadSeg → Type 0
AllApart [] s = Unit {0}
AllApart (x ∷ xs) s = Apart s x × AllApart xs s

abbrev pub Disjoint : List LoadSeg → Type 0
Disjoint [] = Unit {0}
Disjoint (x ∷ xs) = AllApart xs x × Disjoint xs

abbrev pub Segments : List ℕ → Limits → List LoadSeg → Type 0
Segments bytes lim [] = Unit {0}
Segments bytes lim (x ∷ xs) = IsSegment bytes lim x × Segments bytes lim xs

unfoldable pub sum_pages : List LoadSeg → ℕ
sum_pages [] = 0
sum_pages (s ∷ ss) = pages s + sum_pages ss

pub record IsAccepted (bytes : List ℕ) (lim : Limits) (acc : Accepted) : Type 0 where
  pub segments : Segments bytes lim acc.segs
  pub disjoint : Disjoint acc.segs
  pub counted : sum_pages acc.segs ≡ acc.total_pages
  pub budget : acc.total_pages ≤ lim.max_image_pages

swap : (a b : LoadSeg) → Apart a b → Apart b a
swap a b (inl before) = inr before
swap a b (inr behind) = inl behind

AllApart-snoc :
    (xs : List LoadSeg) (s x : LoadSeg) → AllApart xs x → Apart x s → AllApart (xs ++ s ∷ []) x
AllApart-snoc [] s x all last = (last, tt)
AllApart-snoc (y ∷ ys) s x all last = (all.0, AllApart-snoc ys s x all.1 last)

Disjoint-snoc :
    (xs : List LoadSeg) (s : LoadSeg) → Disjoint xs → AllApart xs s → Disjoint (xs ++ s ∷ [])
Disjoint-snoc [] s d all = (tt, tt)
Disjoint-snoc (x ∷ xs) s d all =
    (AllApart-snoc xs s x d.0 (swap s x all.0), Disjoint-snoc xs s d.1 all.1)

Segments-snoc :
    (bytes : List ℕ) (lim : Limits) (xs : List LoadSeg) (s : LoadSeg)
    → Segments bytes lim xs
    → IsSegment bytes lim s
    → Segments bytes lim (xs ++ s ∷ [])
Segments-snoc bytes lim [] s all last = (last, tt)
Segments-snoc bytes lim (x ∷ xs) s all last = (all.0, Segments-snoc bytes lim xs s all.1 last)

sum_pages-snoc :
    (xs : List LoadSeg) (s : LoadSeg) → sum_pages (xs ++ s ∷ []) ≡ sum_pages xs + pages s
unfolding sum_pages
sum_pages-snoc [] s = omega arith
sum_pages-snoc (x ∷ xs) s = omega (arith, sum_pages-snoc xs s)

-- Segments that start on pages and share no byte share no page.
page_size-Apart :
    (s x : LoadSeg) (seg_end : ℕ)
    → s.vaddr % page_size ≡ 0
    → x.vaddr % page_size ≡ 0
    → s.vaddr + s.memsz ≡ seg_end
    → (ltb s.vaddr (x.vaddr + x.memsz) && ltb x.vaddr seg_end) ≡ false
    → Apart s x
unfolding pages
page_size-Apart s x seg_end a b ends clear = elim (Bool-cases (ltb s.vaddr (x.vaddr + x.memsz))) [
  | inr behind ↦
      let le : x.vaddr + x.memsz ≤ s.vaddr = ground (arith, behind) in inr (omega (arith, a, b, le))
  | inl before ↦
      let le : s.vaddr + s.memsz ≤ x.vaddr = ground (arith, before, clear, ends) in
      inl (omega (arith, a, b, le))
]

overlaps-AllApart :
    (bytes : List ℕ) (lim : Limits) (xs : List LoadSeg) (s : LoadSeg) (seg_end : ℕ)
    → Segments bytes lim xs
    → s.vaddr % page_size ≡ 0
    → s.vaddr + s.memsz ≡ seg_end
    → overlaps xs s.vaddr seg_end ≡ false
    → AllApart xs s
unfolding overlaps
overlaps-AllApart bytes lim [] s seg_end all a ends clear = tt
overlaps-AllApart bytes lim (x ∷ xs) s seg_end all a ends clear =
    elim (Bool-cases (ltb s.vaddr (x.vaddr + x.memsz) && ltb x.vaddr seg_end)) [
      | inl hit ↦ absurd (true_false (sym (rw hit refl) ∙ clear))
      | inr here ↦
          let rest : overlaps xs s.vaddr seg_end ≡ false = sym (rw here refl) ∙ clear in
          (
            page_size-Apart s x seg_end a (all.0).aligned ends here,
            overlaps-AllApart bytes lim xs s seg_end all.1 a ends rest,
          )
    ]
  where
    true_false : true ≡ false → ⊥
    true_false e = cc

one_of :
    (s : LoadSeg)
    → bit_and s.flags pf_w == 0 || (bit_and s.flags pf_x == 0) ≡ true
    → (page_flags s).writable && not (page_flags s).no_execute ≡ false
unfolding page_flags
one_of s e = elim (Bool-cases (bit_and s.flags pf_w == 0)) [
  | inl read_only ↦ rw read_only refl
  | inr writes ↦ elim (Bool-cases (bit_and s.flags pf_x == 0)) [
    | inl data_only ↦ rw (writes, data_only) refl
    | inr code ↦ absurd (ground (arith, writes, code, e))
  ]
]

accepted :
    (bytes : List ℕ) (lim : Limits) (acc : Accepted) (s : LoadSeg) (file_end seg_end total : ℕ)
    → IsAccepted bytes lim acc
    → s.offset + s.filesz ≡ file_end
    → s.vaddr + s.memsz ≡ seg_end
    → acc.total_pages + pages s ≡ total
    → not (ltb s.memsz s.filesz) ≡ true
    → not (ltb (length bytes) file_end) ≡ true
    → s.vaddr % page_size == 0 ≡ true
    → not (ltb s.vaddr lim.image_base || ltb lim.image_end seg_end) ≡ true
    → not (bit_and s.flags pf_r == 0 || not (bit_and s.flags (2 ^ 32 - 1 - 7) == 0)) ≡ true
    → bit_and s.flags pf_w == 0 || (bit_and s.flags pf_x == 0) ≡ true
    → not (overlaps acc.segs s.vaddr seg_end) ≡ true
    → not (ltb lim.max_image_pages total) ≡ true
    → IsAccepted bytes lim (record { segs = acc.segs ++ s ∷ []; total_pages = total })
accepted bytes lim acc s file_end seg_end total v file_sum seg_sum sum sizes in_file aligned
      in_window flags w_xor_x clear budget =
    let on_page : s.vaddr % page_size ≡ 0 = ground (arith, aligned) in
    let no_overlap : overlaps acc.segs s.vaddr seg_end ≡ false = ground (arith, clear) in
    let counted = v.counted in
    record {
      segments = Segments-snoc bytes lim acc.segs s v.segments (record {
        backed = ground (arith, in_file, file_sum);
        sizes = ground (arith, sizes);
        aligned = on_page;
        above = ground (arith, in_window);
        below = ground (arith, in_window, seg_sum);
        readable = ground (arith, flags);
        write_or_execute = one_of s w_xor_x;
      });
      disjoint =
          Disjoint-snoc acc.segs s v.disjoint
            (overlaps-AllApart bytes lim acc.segs s seg_end v.segments on_page seg_sum no_overlap);
      counted = sum_pages-snoc acc.segs s ∙ ap (λ n. n + pages s) counted ∙ sum;
      budget = ground (arith, budget);
    }

accept-IsAccepted :
    (bytes : List ℕ) (lim : Limits) (acc : Accepted) (s : LoadSeg)
    → IsAccepted bytes lim acc
    → Holds (IsAccepted bytes lim) (accept bytes lim acc s)
unfolding accept
accept-IsAccepted bytes lim acc s v =
    let P = IsAccepted bytes lim in
    Holds-require P _ _ _ λ sizes. Holds-ok_or P _ _ _ λ file_end file_sum.
      Holds-require P _ _ _ λ in_file. Holds-require P _ _ _ λ aligned.
        Holds-ok_or P _ _ _ λ seg_end seg_sum. Holds-require P _ _ _ λ in_window.
          Holds-require P _ _ _ λ flags. Holds-require P _ _ _ λ w_xor_x.
            Holds-require P _ _ _ λ clear. Holds-ok_or P _ _ _ λ total total_sum.
              Holds-require P _ _ _ λ budget. Holds-parsed P _ (
                accepted bytes lim acc s file_end seg_end total v
                  (checked_add-some s.offset s.filesz file_end file_sum).0
                  (checked_add-some s.vaddr s.memsz seg_end seg_sum).0
                  (checked_add-some acc.total_pages (pages s) total total_sum).0 sizes in_file
                  aligned in_window flags w_xor_x clear budget)

-- A header adds a segment that is well placed, or none.
scan_header-IsAccepted :
    (bytes : List ℕ) (lim : Limits) (base : ℕ) (acc : Accepted)
    → IsAccepted bytes lim acc
    → Holds (IsAccepted bytes lim) (scan_header bytes lim base acc)
unfolding scan_header
scan_header-IsAccepted bytes lim base acc v = Holds-ok_or P _ _ _ λ p_type read.
    elim (Bool-cases (p_type == pt_interp)) [
      | inl interp ↦ rw interp (Holds-failed P _)
      | inr a ↦ elim (Bool-cases (p_type == pt_load)) [
        | inr other ↦ rw (a, other) (Holds-parsed P acc v)
        | inl load ↦
            rw (a, load)
              (Holds-bind P (read_segment bytes base) (accept_loadable bytes lim acc)
                λ s found. loadable s)
      ]
    ]
  where
    P : Accepted → Type 0
    P = IsAccepted bytes lim

    loadable : (s : LoadSeg) → Holds P (accept_loadable bytes lim acc s)
    loadable s = elim (Bool-cases (s.memsz == 0)) [
      | inl none_there ↦ rw none_there (Holds-parsed P acc v)
      | inr some_there ↦ rw some_there (accept-IsAccepted bytes lim acc s v)
    ]

pub scan_headers-IsAccepted :
    (bytes : List ℕ) (lim : Limits) (base n : ℕ) (acc : Accepted)
    → IsAccepted bytes lim acc
    → Holds (IsAccepted bytes lim) (scan_headers bytes lim base n acc)
unfolding scan_headers
scan_headers-IsAccepted bytes lim base zero acc v = Holds-parsed (IsAccepted bytes lim) acc v
scan_headers-IsAccepted bytes lim base (suc n) acc v =
    Holds-bind (IsAccepted bytes lim) (scan_header bytes lim base acc) _ λ acc' found.
      scan_headers-IsAccepted bytes lim (base + phdr_size) n acc' (
        Holds-at (IsAccepted bytes lim) (scan_header bytes lim base acc) acc' found
          (scan_header-IsAccepted bytes lim base acc v))
