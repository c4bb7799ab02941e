-- ===== src/Tests/ElfTests.antt =====
-- A file of one page-aligned segment at 0x400000, readable and executable, whose first byte is run.
use plinth_os.Base.{ℕ, ◌≡◌, refl, List, [], ◌∷◌, ◌++◌, replicate}
use plinth_os.Elf.{Limits, Image, LoadSeg, parse, parsed, failed, wx_violation}
use plinth_os.Elf.Sound.{IsImage, parse-IsImage}

-- The program header, for the flags given.
abbrev header : ℕ → List ℕ
header flags =
    1 ∷ 0 ∷ 0 ∷ 0 ∷ flags ∷ 0 ∷ 0 ∷ 0 ∷ replicate 8 0
    ++ (0 ∷ 0 ∷ 0x40 ∷ 0 ∷ 0 ∷ 0 ∷ 0 ∷ 0 ∷ [])
    ++ replicate 8 0
    ++ (120 ∷ 0 ∷ 0 ∷ 0 ∷ 0 ∷ 0 ∷ 0 ∷ 0 ∷ [])
    ++ (0 ∷ 16 ∷ 0 ∷ 0 ∷ 0 ∷ 0 ∷ 0 ∷ 0 ∷ [])
    ++ replicate 8 0

abbrev program : ℕ → List ℕ
program flags =
    (0x7f ∷ 0x45 ∷ 0x4c ∷ 0x46 ∷ 2 ∷ 1 ∷ 1 ∷ [])
    ++ replicate 9 0
    ++ (2 ∷ 0 ∷ 62 ∷ 0 ∷ 1 ∷ 0 ∷ 0 ∷ 0 ∷ [])
    ++ (0 ∷ 0 ∷ 0x40 ∷ 0 ∷ 0 ∷ 0 ∷ 0 ∷ 0 ∷ [])
    ++ (64 ∷ 0 ∷ 0 ∷ 0 ∷ 0 ∷ 0 ∷ 0 ∷ 0 ∷ [])
    ++ replicate 14 0
    ++ (56 ∷ 0 ∷ 1 ∷ 0 ∷ [])
    ++ replicate 6 0
    ++ header flags

abbrev window : Limits
window = record { image_base = 0x400000; image_end = 0x800000; max_image_pages = 16 }

abbrev image : Image
image = record {
  entry = 0x400000;
  segs = record { vaddr = 0x400000; offset = 0; filesz = 120; memsz = 4096; flags = 5 } ∷ [];
}

accepted : parse (program 5) window ≡ parsed image
unfolding parse plinth_os.Elf.◌>>=◌ plinth_os.Elf.check_header plinth_os.Elf.require
    plinth_os.Elf.le_bytes plinth_os.Elf.ok_or plinth_os.Elf.scan_headers plinth_os.Elf.scan_header
    plinth_os.Elf.read_segment plinth_os.Elf.accept plinth_os.Elf.overlaps plinth_os.Elf.pages
    plinth_os.Elf.entry_in
accepted = refl

writable_code : parse (program 7) window ≡ failed wx_violation
unfolding parse plinth_os.Elf.◌>>=◌ plinth_os.Elf.check_header plinth_os.Elf.require
    plinth_os.Elf.le_bytes plinth_os.Elf.ok_or plinth_os.Elf.scan_headers plinth_os.Elf.scan_header
    plinth_os.Elf.read_segment plinth_os.Elf.accept plinth_os.Elf.overlaps plinth_os.Elf.pages
    plinth_os.Elf.entry_in
writable_code = refl

parse-IsImage_example : IsImage (program 5) window image
parse-IsImage_example = parse-IsImage (program 5) window image accepted
