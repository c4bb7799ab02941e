-- ===== src/Elf/Sound.antt =====
-- What an accepted file promises.
use plinth_os.Base.{
  ℕ, ◌+◌, ◌<◌, ◌≤◌, ◌≡◌, refl, sym, ◌∙◌, true, false, List, [], ◌∷◌, arith, ◌==◌, ltb, not, ◌&&◌,
  ◌⊎◌, inl, inr, Bool-cases, bit_and,
}
use plinth_os.Elf.Results.{Holds, Holds-bind, Holds-require, Holds-ok_or, Holds-parsed, Holds-at}
use plinth_os.Elf.Segments.{Segments, Disjoint, sum_pages, IsAccepted, scan_headers-IsAccepted}
use plinth_os.Elf.{
  pf_x, parsed, LoadSeg, Image, Limits, Accepted, entry_in, check_header, check_entry, parse,
  scan_headers,
}

-- The address is inside a segment that may be executed.
abbrev pub Executable : List LoadSeg → ℕ → Type 0
Executable [] entry = ⊥
Executable (s ∷ ss) entry =
    ((bit_and s.flags pf_x == 0 ≡ false) × (s.vaddr ≤ entry) × (entry < s.vaddr + s.memsz))
    ⊎ Executable ss entry

entry_in-Executable :
    (ss : List LoadSeg) (entry : ℕ) → entry_in ss entry ≡ true → Executable ss entry
unfolding entry_in
entry_in-Executable [] entry e = cc
entry_in-Executable (s ∷ ss) entry e =
    elim (Bool-cases (
      not (bit_and s.flags pf_x == 0)
      && (not (ltb entry s.vaddr) && ltb entry (s.vaddr + s.memsz)))) [
        | inl here ↦ inl (ground (arith, here), ground (arith, here), ground (arith, here))
        | inr away ↦ inr (entry_in-Executable ss entry (sym (rw away refl) ∙ e))
      ]

pub record IsImage (bytes : List ℕ) (lim : Limits) (image : Image) : Type 0 where
  pub segments : Segments bytes lim image.segs
  pub disjoint : Disjoint image.segs
  pub budget : sum_pages image.segs ≤ lim.max_image_pages
  pub starts : Executable image.segs image.entry

parse-Holds : (bytes : List ℕ) (lim : Limits) → Holds (IsImage bytes lim) (parse bytes lim)
unfolding parse sum_pages
parse-Holds bytes lim =
    let P = IsImage bytes lim in
    Holds-bind P (check_header bytes) _ λ checked header. Holds-ok_or P _ _ _ λ entry entry_read.
      Holds-ok_or P _ _ _ λ phoff phoff_read. Holds-ok_or P _ _ _ λ phentsize phentsize_read.
        Holds-ok_or P _ _ _ λ phnum phnum_read. Holds-require P _ _ _ λ stride.
          Holds-require P _ _ _ λ few. Holds-ok_or P _ _ _ λ ph_table ph_table_sum.
            Holds-require P _ _ _ λ in_file.
              Holds-bind P (scan_headers bytes lim phoff phnum start) (check_entry entry)
                λ acc found.
                  let v =
                    Holds-at (IsAccepted bytes lim) (scan_headers bytes lim phoff phnum start) acc
                      found
                      (scan_headers-IsAccepted bytes lim phoff phnum start start-IsAccepted) in
                  let counted = v.counted in
                  let budget = v.budget in
                  Holds-require P _ _ _ λ some_segment. Holds-require P _ _ _ λ inside.
                    Holds-parsed P _ (record {
                      segments = v.segments;
                      disjoint = v.disjoint;
                      budget = omega (arith, counted, budget);
                      starts = entry_in-Executable acc.segs entry inside;
                    })
  where
    start : Accepted
    start = record { segs = []; total_pages = 0 }

    start-IsAccepted : IsAccepted bytes lim start
    start-IsAccepted = record { segments = tt; disjoint = tt; counted = refl; budget = omega arith }

-- Whatever bytes are given as a program: if they are accepted, then each segment is backed by bytes of
-- the file, starts on a page_size, lies in the window that the caller allows, can be read, and is mapped
-- writable or executable and not both; no page belongs to two segments; all pages together are
-- within the budget; and the program starts inside a segment that may be executed.
pub parse-IsImage :
    (bytes : List ℕ) (lim : Limits) (image : Image)
    → parse bytes lim ≡ parsed image
    → IsImage bytes lim image
parse-IsImage bytes lim image accepted =
    Holds-at (IsImage bytes lim) (parse bytes lim) image accepted (parse-Holds bytes lim)
