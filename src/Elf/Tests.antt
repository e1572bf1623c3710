-- ===== src/Elf/Tests.antt =====
-- The theorems on src/kernel/elf.c at a concrete image and allocator.
use platinum.Prelude.{
  ℕ, ◌+◌, ◌-◌, ◌≤◌, ◌<◌, ◌≡◌, ◌⊎◌, refl, Bool, true, none, some, Option, List, [], ◌∷◌, arith, ◌==◌,
  if◌then◌else◌, count, get_elem?,
}
use platinum.Palloc.{Palloc}
use platinum.Palloc.Tests.{two_pages, two_pages-IsWf}
use platinum.Paging.{Layout}
use platinum.Elf.{plan, claim_window_pages, load_segment, load_segments}
use platinum.Elf.Format.{
  Header, ProgramHeader, Span, read_le, read_header, read_program_header, read_program_headers,
  range_fits, validate_header, alignment_valid, validate_load_segment, validate_all,
  validate_program_headers, widen, span_loop, compute_load_span, entry_in_load_segment,
}
use platinum.Elf.Claim.{in_window, ClaimSpec, claim_window_pages-ClaimSpec}
use platinum.Elf.Bounds.{IsInside, IsPlanned, plan-IsPlanned}
use platinum.Elf.Segments.{segment_byte, load_segment-bytes, load_segments-window}

claim_window_pages-ClaimSpec_example :
    (ps : List ℕ) × (r : Bool × Palloc) × ((a : ℕ)
      → count a ps ≡ (if in_window 0x2000000 0x2002000 a then 1 else 0))
    × (claim_window_pages 0x2000000 0x2002000 0 0 two_pages ≡ some r)
    × ClaimSpec 0 0 [] ps two_pages r
claim_window_pages-ClaimSpec_example =
    claim_window_pages-ClaimSpec 0x2000000 0x2002000 0 0 two_pages two_pages-IsWf (omega arith) refl
      (omega arith)

-- A program of one segment: the header, one program header, and two bytes of code at 0x1000.
abbrev words : List ℕ
words =
    -- e_ident
    0x7f ∷ b'E' ∷ b'L' ∷ b'F' ∷ 2 ∷ 1 ∷ 1 ∷ 0 ∷ 0 ∷ 0 ∷ 0 ∷ 0 ∷ 0 ∷ 0 ∷ 0 ∷ 0
    -- e_type, e_machine, e_version, e_entry
    ∷ 2 ∷ 0 ∷ 62 ∷ 0 ∷ 1 ∷ 0 ∷ 0 ∷ 0 ∷ 0 ∷ 0x10 ∷ 0 ∷ 0 ∷ 0 ∷ 0 ∷ 0 ∷ 0
    -- e_phoff, e_shoff
    ∷ 64 ∷ 0 ∷ 0 ∷ 0 ∷ 0 ∷ 0 ∷ 0 ∷ 0 ∷ 0 ∷ 0 ∷ 0 ∷ 0 ∷ 0 ∷ 0 ∷ 0 ∷ 0
    -- e_flags, e_ehsize, e_phentsize, e_phnum and the sections
    ∷ 0 ∷ 0 ∷ 0 ∷ 0 ∷ 64 ∷ 0 ∷ 56 ∷ 0 ∷ 1 ∷ 0 ∷ 0 ∷ 0 ∷ 0 ∷ 0 ∷ 0 ∷ 0
    -- p_type, p_flags, p_offset
    ∷ 1 ∷ 0 ∷ 0 ∷ 0 ∷ 5 ∷ 0 ∷ 0 ∷ 0 ∷ 0 ∷ 0x10 ∷ 0 ∷ 0 ∷ 0 ∷ 0 ∷ 0 ∷ 0
    -- p_vaddr, p_paddr
    ∷ 0 ∷ 0x10 ∷ 0 ∷ 0 ∷ 0 ∷ 0 ∷ 0 ∷ 0 ∷ 0 ∷ 0 ∷ 0 ∷ 0 ∷ 0 ∷ 0 ∷ 0 ∷ 0
    -- p_filesz, p_memsz
    ∷ 2 ∷ 0 ∷ 0 ∷ 0 ∷ 0 ∷ 0 ∷ 0 ∷ 0 ∷ 4 ∷ 0 ∷ 0 ∷ 0 ∷ 0 ∷ 0 ∷ 0 ∷ 0
    -- p_align
    ∷ 0 ∷ 0x10 ∷ 0 ∷ 0 ∷ 0 ∷ 0 ∷ 0 ∷ 0 ∷ []

abbrev or_zero : Option ℕ → ℕ
or_zero none = 0
or_zero (some b) = b

abbrev small_program : ℕ → ℕ
small_program a =
    if a == 0x1000 then 0xeb else if a == 0x1001 then 0xfe else or_zero (get_elem? words a)

abbrev user_layout : Layout
user_layout = record {
  trampoline_base = 0x40000000;
  image_base = 0x40010000;
  stack_top = 0x40200000;
}

abbrev small_header : Header
small_header = read_header small_program

abbrev small_segment : ProgramHeader
small_segment = record {
  kind = 1;
  offset = 0x1000;
  vaddr = 0x1000;
  filesz = 2;
  memsz = 4;
  align = 0x1000;
}

abbrev small_span : Span
small_span = record { lowest = 0x1000; highest = 0x2000 }

plan_small :
    plan small_program 0x1002 user_layout 0x3000
    ≡ some (small_span, small_header, small_segment ∷ [])
unfolding plan read_header read_program_headers read_program_header read_le validate_header
    range_fits validate_program_headers validate_all validate_load_segment alignment_valid
    compute_load_span span_loop widen entry_in_load_segment
plan_small = refl

plan-IsPlanned_example : IsPlanned 0x1002 user_layout small_span small_header (small_segment ∷ [])
plan-IsPlanned_example =
    plan-IsPlanned small_program 0x1002 user_layout 0x3000 small_span small_header
      (small_segment ∷ []) (omega arith) plan_small

small_segment-IsInside : IsInside 0x1002 0x1000 0x2000 small_segment
small_segment-IsInside = record {
  in_file = omega arith;
  in_memory = omega arith;
  not_empty = omega arith;
  from = omega arith;
  to = omega arith;
}

abbrev old_memory : ℕ → ℕ
old_memory a = 0xaa

load_segment-bytes_example :
    (m' : ℕ → ℕ) × (load_segment small_program small_segment 0x1000 0x2100000 old_memory ≡ some m')
    × ((i : ℕ)
        → i < 4
        → m' (0x2100000 + (0x1000 - 0x1000) + i) ≡ segment_byte small_program small_segment i)
    × ((a : ℕ)
        → (a < 0x2100000 + (0x1000 - 0x1000)) ⊎ (0x2100000 + (0x1000 - 0x1000) + 4 ≤ a)
        → m' a ≡ old_memory a)
load_segment-bytes_example =
    load_segment-bytes small_program 0x1002 0x1000 0x2000 0x2100000 (omega arith) small_segment
      old_memory refl small_segment-IsInside

load_segments-window_example :
    (m' : ℕ → ℕ) × (load_segments small_program (small_segment ∷ []) 0x1000 0x2100000 old_memory
      ≡ (true, m'))
    × ((a : ℕ) → (a < 0x2100000) ⊎ (0x2100000 + (0x2000 - 0x1000) ≤ a) → m' a ≡ old_memory a)
load_segments-window_example =
    load_segments-window small_program 0x1002 0x1000 0x2000 0x2100000 (omega arith)
      (small_segment ∷ []) old_memory ((λ h. small_segment-IsInside), tt)
