-- ===== src/Palloc.antt =====
-- src/kernel/palloc.c, the physical page allocator. A free page holds the link to the next one;
-- the chain from `free_list_head` is the list `free_list` of page addresses, head first.
pub mod Pages
pub mod SelfTest
pub mod Setup
pub mod Tests
use platinum.Prelude.{
  ℕ, zero, suc, ◌+◌, Bool, true, false, Option, none, some, List, [], ◌∷◌, leb, ◌==◌, if◌then◌else◌,
  u64, sub64, align_down, page_size,
}
use platinum.Memmap.{Memmap, Region, find_largest_conventional_region}

pub record Palloc : Type 0 where
  pub free_list : List ℕ
  pub region_begin : ℕ
  pub region_end : ℕ
  pub free_page_count : ℕ

abbrev pub low_cutoff : ℕ
low_cutoff = 0x02000000

abbrev pub high_limit : ℕ
high_limit = 0x100000000

-- What both `palloc_free` and the loop of `palloc_initialize` do to a page.
unfoldable pub push : ℕ → Palloc → Palloc
push page s = record s {
  free_list = page ∷ s.free_list;
  free_page_count = u64 (s.free_page_count + 1);
}

-- `while (page + page_size <= region_end)`, on fuel.
unfoldable pub fill : ℕ → ℕ → ℕ → Palloc → Option Palloc
unfolding push
fill zero page region_end s = none
fill (suc fuel) page region_end s =
    let rest = fill fuel (u64 (page + page_size)) region_end (push page s) in
    if leb (u64 (page + page_size)) region_end then rest else some s

-- palloc_initialize once the region is known; `none` where there is none.
unfoldable pub initialize_region : ℕ → Option Region → Option Palloc
initialize_region fuel none =
    some (record { free_list = []; region_begin = 0; region_end = 0; free_page_count = 0 })
initialize_region fuel (some r) =
    fill fuel r.begin r.end
      (record { free_list = []; region_begin = r.begin; region_end = r.end; free_page_count = 0 })

-- One round of the fuel for each page below `high_limit` is enough.
unfoldable pub initialize : ℕ → Memmap → Option Palloc
initialize fuel m =
    initialize_region fuel (find_largest_conventional_region low_cutoff high_limit m)

-- Address 0 stands for "no page left".
unfoldable pub alloc : Palloc → ℕ × Palloc
alloc s = elim s.free_list [
  | [] ↦ (0, s)
  | page ∷ rest ↦ (page, record s { free_list = rest; free_page_count = sub64 s.free_page_count 1 })
]

unfoldable pub free : ℕ → Palloc → Palloc
unfolding push
free page s = if page == 0 then s else push page s

-- The walk of `palloc_take`: the list without the first node at `page`, if there is one.
unfoldable pub unlink : ℕ → List ℕ → Option (List ℕ)
unlink page [] = none
unlink page (node ∷ rest) =
    if node == page
    then some rest
    else elim (unlink page rest) [ none ↦ none | some rest' ↦ some (node ∷ rest') ]

unfoldable pub take : ℕ → Palloc → Bool × Palloc
unfolding unlink
take page s = elim (unlink (align_down page) s.free_list) [
  | none ↦ (false, s)
  | some rest ↦ (true, record s { free_list = rest; free_page_count = sub64 s.free_page_count 1 })
]
