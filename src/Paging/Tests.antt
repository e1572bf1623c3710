-- ===== src/Paging/Tests.antt =====
-- The theorems on src/kernel/paging.c at concrete tables.
use platinum.Prelude.{
  ℕ, ◌+◌, ◌≡◌, ◌≤◌, ◌<◌, true, false, not, [], ◌∷◌, refl, ◌==◌, ◌&&◌, if◌then◌else◌, arith,
  align_down,
}
use platinum.Paging.{
  Paging, or_flags, entry_address, is_present, is_user, map_page_4k, mapping_matches, write_entry,
  fill_page, alloc_table, get_or_create_next, user_page_mapped, user_range_mapped,
}
use platinum.Palloc
use platinum.Memmap.Tests.{two_descriptors}
use platinum.Palloc.Tests.{two_pages, two_pages-IsWf}
use platinum.Palloc.Pages.{IsWf}
use platinum.Paging.Hierarchy.{Shape, IsTree, leaf}
use platinum.Paging.View.{MapSpec, page_number, missing, map_page_4k-MapSpec}
use platinum.Paging.Start.{StartSpec, initialize-StartSpec}
use platinum.Paging.Walk.{mapping_matches-leaf, map_page_4k-mapping_matches}
use platinum.Paging.Range.{Decides, user_range_mapped-Decides}

-- All entries lead to the table at 0x2000, with all the flags of user pages.
abbrev pub open_tables : Paging
open_tables = record {
  palloc = record { free_list = []; region_begin = 0; region_end = 0; free_page_count = 0 };
  table = λ p i. 0x2007;
  kernel_pml4 = 0x1000;
  cr3 = 0x2000;
}

user_range_mapped-Decides_example :
    Decides (user_range_mapped 0x2000 0x40000ff0 0x2000 open_tables) (
      (address : ℕ)
      → 0x40000ff0 ≤ address
      → address < 0x40000ff0 + 0x2000
      → user_page_mapped 0x2000 (align_down address) open_tables ≡ true)
user_range_mapped-Decides_example =
    user_range_mapped-Decides 0x2000 0x40000ff0 0x2000 open_tables (omega arith) (omega arith)
      (omega arith)

-- An empty top at 0x1000, and three free pages.
abbrev three_pages : Palloc.Palloc
three_pages = record {
  free_list = 0x2000000 ∷ 0x2001000 ∷ 0x2002000 ∷ [];
  region_begin = 0x2000000;
  region_end = 0x2003000;
  free_page_count = 3;
}

three_pages-IsWf : IsWf three_pages
three_pages-IsWf = record {
  counted = refl;
  unique = λ a. ground arith;
  pages = λ a h. ground arith;
}

abbrev empty_tables : Paging
empty_tables = record { palloc = three_pages; table = λ p i. 0; kernel_pml4 = 0x1000; cr3 = 0x1000 }

abbrev top_only : Shape
top_only = record { level = λ p. if p == 0x1000 then 4 else 0; up = λ p. 0; index = λ p. 0 }

empty_tables-IsTree : IsTree top_only 0x1000 empty_tables
empty_tables-IsTree = record {
  pages = three_pages-IsWf;
  end = omega arith;
  used = λ p h. ground arith;
  top = refl;
  tables = λ p h. ground arith;
  entries = λ p i h k e. absurd (ground arith);
}

map_page_4k-MapSpec_example :
    MapSpec 0x1000
      (page_number 0x40000000)
      (or_flags 0x2005000 7)
      (missing 0x1000 (page_number 0x40000000) empty_tables)
      empty_tables
      (map_page_4k 0x1000 0x40000000 0x2005000 7 empty_tables)
map_page_4k-MapSpec_example =
    map_page_4k-MapSpec top_only 0x1000 0x40000000 0x2005000 7 empty_tables empty_tables-IsTree

three_pages_suffice : (map_page_4k 0x1000 0x40000000 0x2005000 7 empty_tables).0 ≡ true
unfolding map_page_4k get_or_create_next alloc_table write_entry fill_page Palloc.alloc
    entry_address or_flags
three_pages_suffice = refl

map_page_4k-mapping_matches_example :
    mapping_matches 0x1000 0x40000000 0x2005000 true
      (map_page_4k 0x1000 0x40000000 0x2005000 7 empty_tables).1
    ≡ true
map_page_4k-mapping_matches_example =
    map_page_4k-mapping_matches top_only 0x1000 0x40000000 0x2005000 7 empty_tables
      empty_tables-IsTree refl (omega arith) (omega arith) refl three_pages_suffice

mapping_matches-leaf_example :
    let e = leaf 0x1000 (page_number 0x40000123) empty_tables in
    (mapping_matches 0x1000 0x40000123 0x2005000 false empty_tables
      ≡ (is_present e && (entry_address e == 0x2005000) && not (is_user e)))
    × (user_page_mapped 0x1000 0x40000000 empty_tables ≡ (is_present e && is_user e))
mapping_matches-leaf_example =
    mapping_matches-leaf top_only 0x1000 empty_tables empty_tables-IsTree 0x40000123 0x2005000 false

abbrev unmapped : Paging
unmapped = record { palloc = two_pages; table = λ p i. 7; kernel_pml4 = 0; cr3 = 0 }

initialize-StartSpec_example : StartSpec 0x100001 two_descriptors unmapped
initialize-StartSpec_example =
    initialize-StartSpec 0x100001 two_descriptors unmapped (omega arith) two_pages-IsWf
      (omega arith)
