-- ===== src/Memmap.antt =====
-- src/kernel/memmap.c, the firmware's memory map. The firmware fills `memory_map_buffer`; `at` reads
-- the descriptor that starts at a byte offset of the buffer.
pub mod Capture
pub mod Largest
pub mod Parse
pub mod Tests
use platinum.Prelude.{
  ℕ, zero, suc, ◌+◌, ◌-◌, ◌*◌, ◌/◌, ◌%◌, ◌^◌, ◌≤◌, ◌<◌, Bool, true, false, Option, none, some, leb,
  ltb, ◌==◌, if◌then◌else◌, u64, align_down, align_up,
}

pub record Descriptor : Type 0 where
  pub kind : ℕ
  pub physical_start : ℕ
  pub number_of_pages : ℕ

pub record Memmap : Type 0 where
  pub at : ℕ → Descriptor
  pub size_used : ℕ
  pub descriptor_size : ℕ
  pub descriptor_version : ℕ
  pub descriptor_count : ℕ
  pub conventional_region_count : ℕ
  pub conventional_page_count : ℕ

abbrev pub conventional_memory : ℕ
conventional_memory = 7

-- The body of the loop of `memmap_parse`.
unfoldable pub tally : Descriptor → Memmap → Memmap
tally d m =
    if d.kind == conventional_memory
    then record m {
      conventional_region_count = u64 (m.conventional_region_count + 1);
      conventional_page_count = u64 (m.conventional_page_count + d.number_of_pages);
    }
    else m

-- `for (; offset + descriptor_size <= memory_map_size; offset += descriptor_size)`, on fuel.
unfoldable pub parse_loop : ℕ → ℕ → Memmap → Option Memmap
unfolding tally
parse_loop zero offset m = none
parse_loop (suc fuel) offset m =
    let next = u64 (offset + m.descriptor_size) in
    let rest = parse_loop fuel next (tally (m.at offset) m) in
    if leb next m.size_used then rest else some m

unfoldable pub parse : ℕ → ℕ → ℕ → ℕ → (ℕ → Descriptor) → Option Memmap
unfolding parse_loop
parse fuel size dsize version at =
    let m : Memmap = record {
      at = at;
      size_used = size;
      descriptor_size = dsize;
      descriptor_version = version;
      descriptor_count = if dsize == 0 then 0 else size / dsize;
      conventional_region_count = 0;
      conventional_page_count = 0;
    } in
    let rest = parse_loop fuel 0 m in if dsize == 0 then some m else rest

unfoldable pub get_descriptor : ℕ → Memmap → Option Descriptor
get_descriptor index m =
    if m.descriptor_size == 0
    then none
    else if leb m.descriptor_count index
    then none
    else some (m.at (u64 (index * m.descriptor_size)))

pub record Region : Type 0 where
  pub begin : ℕ
  pub end : ℕ

-- `region_begin` and `region_end` of one descriptor: cut to the window and to whole pages.
unfoldable pub clip : ℕ → ℕ → Descriptor → Region
clip minimum maximum d =
    let stop = u64 (d.physical_start + u64 (d.number_of_pages * 4096)) in
    record {
      begin = align_up (if ltb d.physical_start minimum then minimum else d.physical_start);
      end = align_down (if ltb maximum stop then maximum else stop);
    }

-- `best_begin`, `best_end` and `best_pages`
pub record Best : Type 0 where
  pub region : Region
  pub pages : ℕ

-- The body of the loop of `memmap_find_largest_conventional_region`.
unfoldable pub consider : ℕ → ℕ → Option Descriptor → Best → Best
consider minimum maximum none best = best
consider minimum maximum (some d) best =
    let r = clip minimum maximum d in
    if d.kind == conventional_memory
    then (if leb r.end r.begin
        then best
        else if ltb best.pages ((r.end - r.begin) / 4096)
        then record { region = r; pages = (r.end - r.begin) / 4096 }
        else best)
    else best

-- The loop over the indices below `n`, in order.
unfoldable pub best_below : ℕ → ℕ → ℕ → Memmap → Best
best_below zero minimum maximum m = record { region = record { begin = 0; end = 0 }; pages = 0 }
best_below (suc n) minimum maximum m =
    consider minimum maximum (get_descriptor n m) (best_below n minimum maximum m)

unfoldable pub find_largest_conventional_region : ℕ → ℕ → Memmap → Option Region
find_largest_conventional_region minimum maximum m =
    let best = best_below m.descriptor_count minimum maximum m in
    if best.pages == 0 then none else some best.region
