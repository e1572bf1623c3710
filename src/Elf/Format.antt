-- ===== src/Elf/Format.antt =====
-- The ELF structures of src/kernel/elf.c, read from the bytes of an image as the casts of the code
-- read them on a little-endian machine, and the checks on them.
use Prim.Native.Nat.{bit_and}
use platinum.Prelude.{
  ℕ, zero, suc, ◌+◌, ◌-◌, ◌*◌, ◌%◌, Bool, true, false, not, ◌&&◌, ◌||◌, Option, none, some, List,
  [], ◌∷◌, leb, ltb, ◌==◌, if◌then◌else◌, u64, align_down, align_up,
}

-- The integer of `n` bytes at an offset, least significant byte first.
unfoldable pub read_le : ℕ → ℕ → (ℕ → ℕ) → ℕ
read_le zero offset image = 0
read_le (suc n) offset image = image offset % 256 + 256 * read_le n (offset + 1) image

pub record Header : Type 0 where
  pub ident : ℕ → ℕ
  pub kind : ℕ
  pub machine : ℕ
  pub version : ℕ
  pub entry : ℕ
  pub phoff : ℕ
  pub ehsize : ℕ
  pub phentsize : ℕ
  pub phnum : ℕ

pub record ProgramHeader : Type 0 where
  pub kind : ℕ
  pub offset : ℕ
  pub vaddr : ℕ
  pub filesz : ℕ
  pub memsz : ℕ
  pub align : ℕ

-- sizeof(struct elf64_header)
abbrev pub header_size : ℕ
header_size = 64

-- sizeof(struct elf64_program_header)
abbrev pub program_header_size : ℕ
program_header_size = 56

abbrev pub type_load : ℕ
type_load = 1

unfoldable pub read_header : (ℕ → ℕ) → Header
unfolding read_le
read_header image = record {
  ident = λ i. image i % 256;
  kind = read_le 2 16 image;
  machine = read_le 2 18 image;
  version = read_le 4 20 image;
  entry = read_le 8 24 image;
  phoff = read_le 8 32 image;
  ehsize = read_le 2 52 image;
  phentsize = read_le 2 54 image;
  phnum = read_le 2 56 image;
}

-- The program header at a byte offset.
unfoldable pub read_program_header : ℕ → (ℕ → ℕ) → ProgramHeader
unfolding read_le
read_program_header at image = record {
  kind = read_le 4 at image;
  offset = read_le 8 (at + 8) image;
  vaddr = read_le 8 (at + 16) image;
  filesz = read_le 8 (at + 32) image;
  memsz = read_le 8 (at + 40) image;
  align = read_le 8 (at + 48) image;
}

-- `phdrs[0]` to `phdrs[n - 1]` of the table at a byte offset.
unfoldable pub read_program_headers : ℕ → ℕ → (ℕ → ℕ) → List ProgramHeader
unfolding read_program_header
read_program_headers zero at image = []
read_program_headers (suc n) at image =
    read_program_header at image ∷ read_program_headers n (at + program_header_size) image

unfoldable pub range_fits : ℕ → ℕ → ℕ → Bool
range_fits size offset count =
    if ltb size offset then false else if ltb (size - offset) count then false else true

unfoldable pub validate_header : Header → ℕ → Bool
unfolding range_fits
validate_header h image_size =
    if ltb image_size header_size
    then false
    else if not (h.ident 0 == 0x7f)
        || not (h.ident 1 == b'E')
        || not (h.ident 2 == b'L')
        || not (h.ident 3 == b'F')
    then false
    else if not (h.ident 4 == 2) || not (h.ident 5 == 1) || not (h.ident 6 == 1)
    then false
    else if not (h.kind == 2) || not (h.machine == 62) || not (h.version == 1)
    then false
    else if not (h.ehsize == header_size) || not (h.phentsize == program_header_size)
    then false
    else range_fits image_size h.phoff (u64 (h.phnum * h.phentsize))

unfoldable pub alignment_valid : ProgramHeader → Bool
alignment_valid p =
    if ltb 1 p.align
    then (if not (bit_and p.align (p.align - 1) == 0)
        then false
        else bit_and p.vaddr (p.align - 1) == bit_and p.offset (p.align - 1))
    else true

unfoldable pub validate_load_segment : ℕ → ProgramHeader → Bool
unfolding range_fits alignment_valid
validate_load_segment image_size p =
    if not (p.kind == type_load)
    then true
    else if (p.memsz == 0) || ltb p.memsz p.filesz
    then false
    else if not (range_fits image_size p.offset p.filesz)
    then false
    else if ltb (u64 (p.vaddr + p.memsz)) p.vaddr
    then false
    else alignment_valid p

-- The loop of validate_program_headers, with the value of `load_count != 0` so far.
unfoldable pub validate_all : ℕ → Bool → List ProgramHeader → Bool
validate_all image_size found [] = found
validate_all image_size found (p ∷ rest) =
    let later = validate_all image_size (found || (p.kind == type_load)) rest in
    if not (validate_load_segment image_size p) then false else later

unfoldable pub validate_program_headers : List ProgramHeader → ℕ → Bool
validate_program_headers [] image_size = false
validate_program_headers (p ∷ rest) image_size = validate_all image_size false (p ∷ rest)

-- `lowest` and `highest` of compute_load_span; `none` before `found`.
pub record Span : Type 0 where
  pub lowest : ℕ
  pub highest : ℕ

unfoldable pub widen : ProgramHeader → Option Span → Option Span
widen p none =
    if p.kind == type_load
    then some (record { lowest = p.vaddr; highest = u64 (p.vaddr + p.memsz) })
    else none
widen p (some s) =
    if p.kind == type_load
    then some (record {
      lowest = if ltb p.vaddr s.lowest then p.vaddr else s.lowest;
      highest =
          if ltb s.highest (u64 (p.vaddr + p.memsz)) then u64 (p.vaddr + p.memsz) else s.highest;
    })
    else some s

unfoldable pub span_loop : List ProgramHeader → Option Span → Option Span
span_loop [] s = s
span_loop (p ∷ rest) s = span_loop rest (widen p s)

-- `span_begin` and `span_end`; `none` where compute_load_span returns 0.
unfoldable pub compute_load_span : List ProgramHeader → Option Span
compute_load_span ps = elim (span_loop ps none) [
  | none ↦ none
  | some s ↦
      if ltb (align_down s.lowest) (align_up s.highest)
      then some (record { lowest = align_down s.lowest; highest = align_up s.highest })
      else none
]

unfoldable pub entry_in_load_segment : List ProgramHeader → ℕ → Bool
entry_in_load_segment [] entry = false
entry_in_load_segment (p ∷ rest) entry =
    if not (p.kind == type_load)
    then entry_in_load_segment rest entry
    else let later = entry_in_load_segment rest entry in
      if leb p.vaddr entry && ltb entry (u64 (p.vaddr + p.memsz)) then true else later
