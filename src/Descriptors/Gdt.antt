-- ===== src/Descriptors/Gdt.antt =====
-- src/kernel/gdt.c, the global descriptor table and the task state segment. The addresses of the three
-- static objects are those that the linker gives. In the words that are put together with `|` the
-- fields do not overlap, so `|` is `+`. arch_load_gdt and arch_load_tr hand `gdtr` and a selector to
-- the processor.
use platinum.Prelude.{ℕ, ◌+◌, ◌-◌, ◌*◌, ◌/◌, ◌%◌, ◌^◌, ltb, ◌==◌, if◌then◌else◌}
use platinum.Descriptors.Bytes.{Bytes, zeros, write_le16, write_le64}

pub record Gdt : Type 0 where
  pub gdt : ℕ → ℕ
  pub gdtr : Bytes
  pub tss : Bytes

-- `&gdt[0]`, `&gdtr[0]` and `&tss[0]`
pub record Places : Type 0 where
  pub gdt_at : ℕ
  pub gdtr_at : ℕ
  pub tss_at : ℕ

abbrev pub kernel_code_index : ℕ
kernel_code_index = 1

abbrev pub kernel_data_index : ℕ
kernel_data_index = 2

abbrev pub user_data_index : ℕ
user_data_index = 3

abbrev pub user_code_index : ℕ
user_code_index = 4

abbrev pub tss_index : ℕ
tss_index = 5

abbrev pub gdt_entry_count : ℕ
gdt_entry_count = 7

-- sizeof(tss)
abbrev pub tss_size : ℕ
tss_size = 104

unfoldable pub make_code_data_descriptor : ℕ → ℕ → ℕ
make_code_data_descriptor access flags =
    0xFFFF + access % 256 * 2 ^ 40 + flags % 16 * 2 ^ 52 + 0x000F000000000000

-- `low` and `high` of gdt_set_tss_descriptor
unfoldable pub tss_low : ℕ → ℕ → ℕ
tss_low base limit =
    limit % 2 ^ 16
    + base % 2 ^ 24 * 2 ^ 16
    + 0x89 * 2 ^ 40
    + limit / 2 ^ 16 % 16 * 2 ^ 48
    + base / 2 ^ 24 % 256 * 2 ^ 56

unfoldable pub tss_high : ℕ → ℕ
tss_high base = base / 2 ^ 32 % 2 ^ 32

abbrev set_entry : ℕ → ℕ → (ℕ → ℕ) → ℕ → ℕ
set_entry index value table i = if i == index then value else table i

unfoldable pub set_tss_descriptor : ℕ → ℕ → Gdt → Gdt
unfolding tss_low tss_high
set_tss_descriptor base limit g = record g {
  gdt = set_entry (tss_index + 1) (tss_high base) (set_entry tss_index (tss_low base limit) g.gdt);
}

-- gdt_initialize, whatever the tables held before: every byte and entry is written.
unfoldable pub initialize : Places → Gdt
unfolding make_code_data_descriptor set_tss_descriptor write_le16 write_le64
initialize p =
    let table = set_entry user_code_index (make_code_data_descriptor 0xFA 0x0A) (
      set_entry user_data_index (make_code_data_descriptor 0xF2 0x08) (
        set_entry kernel_data_index (make_code_data_descriptor 0x92 0x08)
          (set_entry kernel_code_index (make_code_data_descriptor 0x9A 0x0A) (λ i. 0)))) in
    let g : Gdt = record {
      gdt = table;
      gdtr = write_le64 2 p.gdt_at (write_le16 0 (gdt_entry_count * 8 - 1) zeros);
      tss = write_le16 102 tss_size zeros;
    } in
    set_tss_descriptor p.tss_at (tss_size - 1) g

unfoldable pub set_tss_rsp0 : ℕ → Gdt → Gdt
unfolding write_le64
set_tss_rsp0 rsp0 g = record g { tss = write_le64 4 rsp0 g.tss }

abbrev smaller : ℕ → ℕ → ℕ
smaller b min = if ltb b min then b else min

abbrev larger : ℕ → ℕ → ℕ
larger b max = if ltb max b then b else max

unfoldable pub gdt_reserved_begin : Places → ℕ
gdt_reserved_begin p = smaller p.tss_at (smaller p.gdtr_at p.gdt_at)

unfoldable pub gdt_reserved_end : Places → ℕ
gdt_reserved_end p =
    larger (p.tss_at + tss_size) (larger (p.gdtr_at + 10) (p.gdt_at + gdt_entry_count * 8))
