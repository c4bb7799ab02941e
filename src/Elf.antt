-- ===== src/Elf.antt =====
-- kernel/src/elf.rs: what the kernel accepts as a program.
--
-- `bytes` is the file, a number below 2 ^ 8 for each byte. The array of the segments accepted so far
-- is the list of its entries that are filled.
pub mod Results
pub mod Segments
pub mod Sound
use plinth_os.Base.{
  ℕ, zero, suc, ◌+◌, ◌-◌, ◌*◌, ◌/◌, ◌%◌, ◌^◌, ◌<◌, ◌≡◌, ◌&&◌, ◌||◌, not, Bool, true, false, Option,
  none, some, List, [], ◌∷◌, ◌++◌, length, get_or, ◌==◌, ltb, if◌then◌else◌, bit_and,
}

abbrev pub page_size : ℕ
page_size = 4096

abbrev pub pt_load : ℕ
pt_load = 1

abbrev pub pt_interp : ℕ
pt_interp = 3

abbrev pub ehdr_size : ℕ
ehdr_size = 64

abbrev pub phdr_size : ℕ
phdr_size = 56

abbrev pub pf_x : ℕ
pf_x = 1

abbrev pub pf_w : ℕ
pf_w = 2

abbrev pub pf_r : ℕ
pf_r = 4

abbrev pub max_phdrs : ℕ
max_phdrs = 16

pub data ElfError : Type 0 where
  too_small bad_magic bad_class bad_data bad_version not_exec bad_machine : ElfError
  bad_ph_ent_size too_many_phdrs phdrs_out_of_bounds no_loadable dynamic_interp : ElfError
  segment_file_range segment_sizes segment_unaligned segment_overflow : ElfError
  segment_out_of_window segment_overlap bad_flags wx_violation too_large bad_entry : ElfError

pub data Parsed {ℓ} (A : Type ℓ) : Type ℓ where
  parsed : A → Parsed A
  failed : ElfError → Parsed A

infixl 10 ◌>>=◌
unfoldable pub ◌>>=◌ {ℓ ℓ'} : {A : Type ℓ} {B : Type ℓ'} → Parsed A → (A → Parsed B) → Parsed B
parsed a >>= f = f a
failed e >>= f = failed e

infixl 10 ◌>>◌
abbrev pub ◌>>◌ {ℓ ℓ'} : {A : Type ℓ} {B : Type ℓ'} → Parsed A → Parsed B → Parsed B
m >> n = m >>= λ _. n

-- `ok_or`, and an early return of an error unless a condition holds.
unfoldable pub ok_or {ℓ} : {A : Type ℓ} → Option A → ElfError → Parsed A
ok_or none e = failed e
ok_or (some a) e = parsed a

unfoldable pub require : Bool → ElfError → Parsed (Unit {0})
require c e = if c then parsed tt else failed e

pub record LoadSeg : Type 0 where
  pub vaddr : ℕ
  pub offset : ℕ
  pub filesz : ℕ
  pub memsz : ℕ
  pub flags : ℕ

pub record Image : Type 0 where
  pub entry : ℕ
  pub segs : List LoadSeg

-- The two bits of `PageTableFlags` that depend on the segment.
pub record PageFlags : Type 0 where
  pub writable : Bool
  pub no_execute : Bool

unfoldable pub page_flags : LoadSeg → PageFlags
page_flags s = record {
  writable = not (bit_and s.flags pf_w == 0);
  no_execute = bit_and s.flags pf_x == 0;
}

abbrev pub div_ceil : ℕ → ℕ → ℕ
div_ceil a b = (a + (b - 1)) / b

unfoldable pub pages : LoadSeg → ℕ
pages s = div_ceil s.memsz page_size

unfoldable pub image_bytes : List LoadSeg → ℕ
image_bytes [] = 0
image_bytes (s ∷ ss) = s.memsz + image_bytes ss

-- The `n` bytes from `off` on, the low one first.
unfoldable pub le_bytes : List ℕ → ℕ → ℕ → ℕ
le_bytes b off zero = 0
le_bytes b off (suc n) = get_or b off 0 + 2 ^ 8 * le_bytes b (off + 1) n

abbrev pub rd : ℕ → List ℕ → ℕ → Option ℕ
rd n b off = if ltb (length b) (off + n) then none else some (le_bytes b off n)

abbrev pub rd_u16 : List ℕ → ℕ → Option ℕ
rd_u16 = rd 2

abbrev pub rd_u32 : List ℕ → ℕ → Option ℕ
rd_u32 = rd 4

abbrev pub rd_u64 : List ℕ → ℕ → Option ℕ
rd_u64 = rd 8

abbrev pub checked_add : ℕ → ℕ → Option ℕ
checked_add a b = if ltb (a + b) (2 ^ 64) then some (a + b) else none

-- What the caller allows: the window of addresses, and how many pages.
pub record Limits : Type 0 where
  pub image_base : ℕ
  pub image_end : ℕ
  pub max_image_pages : ℕ

-- The segments accepted so far, and their pages.
pub record Accepted : Type 0 where
  pub segs : List LoadSeg
  pub total_pages : ℕ

unfoldable pub overlaps : List LoadSeg → ℕ → ℕ → Bool
overlaps [] vaddr seg_end = false
overlaps (prior ∷ segs) vaddr seg_end =
    let rest = overlaps segs vaddr seg_end in
    if ltb vaddr (prior.vaddr + prior.memsz) && ltb prior.vaddr seg_end then true else rest

-- A segment of the table that has memory.
unfoldable pub accept : List ℕ → Limits → Accepted → LoadSeg → Parsed Accepted
accept bytes lim acc s = do
  require (not (ltb s.memsz s.filesz)) segment_sizes
  file_end ← ok_or (checked_add s.offset s.filesz) segment_file_range
  require (not (ltb (length bytes) file_end)) segment_file_range
  require (s.vaddr % page_size == 0) segment_unaligned
  seg_end ← ok_or (checked_add s.vaddr s.memsz) segment_overflow
  require (not (ltb s.vaddr lim.image_base || ltb lim.image_end seg_end)) segment_out_of_window
  require (not (bit_and s.flags pf_r == 0 || not (bit_and s.flags (2 ^ 32 - 1 - 7) == 0))) bad_flags
  require (bit_and s.flags pf_w == 0 || (bit_and s.flags pf_x == 0)) wx_violation
  require (not (overlaps acc.segs s.vaddr seg_end)) segment_overlap
  total ← ok_or (checked_add acc.total_pages (pages s)) too_large
  require (not (ltb lim.max_image_pages total)) too_large
  parsed (record { segs = acc.segs ++ s ∷ []; total_pages = total })

-- The fields of a loadable header, read in the order of the source.
unfoldable pub read_segment : List ℕ → ℕ → Parsed LoadSeg
read_segment bytes base = do
  p_flags ← ok_or (rd_u32 bytes (base + 4)) phdrs_out_of_bounds
  p_offset ← ok_or (rd_u64 bytes (base + 8)) phdrs_out_of_bounds
  p_vaddr ← ok_or (rd_u64 bytes (base + 16)) phdrs_out_of_bounds
  p_filesz ← ok_or (rd_u64 bytes (base + 32)) phdrs_out_of_bounds
  p_memsz ← ok_or (rd_u64 bytes (base + 40)) phdrs_out_of_bounds
  parsed (record {
    vaddr = p_vaddr;
    offset = p_offset;
    filesz = p_filesz;
    memsz = p_memsz;
    flags = p_flags;
  })

abbrev pub accept_loadable : List ℕ → Limits → Accepted → LoadSeg → Parsed Accepted
accept_loadable bytes lim acc s = if s.memsz == 0 then parsed acc else accept bytes lim acc s

abbrev pub header_of_type : List ℕ → Limits → ℕ → Accepted → ℕ → Parsed Accepted
header_of_type bytes lim base acc p_type =
    if p_type == pt_interp
    then failed dynamic_interp
    else if not (p_type == pt_load)
    then parsed acc
    else (do s ← read_segment bytes base; accept_loadable bytes lim acc s)

unfoldable pub scan_header : List ℕ → Limits → ℕ → Accepted → Parsed Accepted
scan_header bytes lim base acc = do
  p_type ← ok_or (rd_u32 bytes base) phdrs_out_of_bounds
  header_of_type bytes lim base acc p_type

-- `for i in 0..phnum`, with `n` headers left.
unfoldable pub scan_headers : List ℕ → Limits → ℕ → ℕ → Accepted → Parsed Accepted
scan_headers bytes lim base zero acc = parsed acc
scan_headers bytes lim base (suc n) acc = do
  acc' ← scan_header bytes lim base acc
  scan_headers bytes lim (base + phdr_size) n acc'

unfoldable pub entry_in : List LoadSeg → ℕ → Bool
entry_in [] entry = false
entry_in (s ∷ ss) entry =
    let rest = entry_in ss entry in
    if not (bit_and s.flags pf_x == 0) && (not (ltb entry s.vaddr) && ltb entry (s.vaddr + s.memsz))
    then true
    else rest

abbrev pub no_segments : List LoadSeg → Bool
no_segments [] = true
no_segments (_ ∷ _) = false

-- The checks of the identification and the fixed fields, up to the entry point.
unfoldable pub check_header : List ℕ → Parsed (Unit {0})
check_header bytes = do
  require (not (ltb (length bytes) ehdr_size)) too_small
  require (le_bytes bytes 0 4 == 0x464c457f) bad_magic
  require (get_or bytes 4 0 == 2) bad_class
  require (get_or bytes 5 0 == 1) bad_data
  require (get_or bytes 6 0 == 1) bad_version
  e_type ← ok_or (rd_u16 bytes 16) too_small
  require (e_type == 2) not_exec
  e_machine ← ok_or (rd_u16 bytes 18) too_small
  require (e_machine == 62) bad_machine
  e_version ← ok_or (rd_u32 bytes 20) too_small
  require (e_version == 1) bad_version

abbrev pub check_entry : ℕ → Accepted → Parsed Image
check_entry entry acc = do
  require (not (no_segments acc.segs)) no_loadable
  require (entry_in acc.segs entry) bad_entry
  parsed (record { entry = entry; segs = acc.segs })

unfoldable pub parse : List ℕ → Limits → Parsed Image
parse bytes lim = do
  check_header bytes
  entry ← ok_or (rd_u64 bytes 24) too_small
  phoff ← ok_or (rd_u64 bytes 32) too_small
  phentsize ← ok_or (rd_u16 bytes 54) too_small
  phnum ← ok_or (rd_u16 bytes 56) too_small
  require (phentsize == phdr_size) bad_ph_ent_size
  require (not (ltb max_phdrs phnum)) too_many_phdrs
  ph_table ← ok_or (checked_add phoff (phnum * phdr_size)) phdrs_out_of_bounds
  require (not (ltb (length bytes) ph_table)) phdrs_out_of_bounds
  acc ← scan_headers bytes lim phoff phnum (record { segs = []; total_pages = 0 })
  check_entry entry acc
