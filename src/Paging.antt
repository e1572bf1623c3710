-- ===== src/Paging.antt =====
-- src/kernel/paging.c, four-level page tables. `table p i` is the word at index `i` of the page at
-- physical address `p`, which the kernel maps at the same virtual address; NULL is 0.
pub mod Entries
pub mod Hierarchy
pub mod Change
pub mod Create
pub mod Grow
pub mod Leaves
pub mod Stay
pub mod View
pub mod Count
pub mod Identity
pub mod Empty
pub mod Start
pub mod Walk
pub mod Range
pub mod Tests
use Prim.Native.Nat.{bit_or}
use platinum.Prelude.{
  ℕ, zero, suc, ◌+◌, ◌-◌, ◌*◌, ◌/◌, ◌%◌, ◌^◌, ◌≤◌, ◌<◌, ◌≡◌, Bool, true, false, not, ◌&&◌, ◌||◌,
  Option, none, some, List, [], ◌∷◌, leb, ltb, ◌==◌, if◌then◌else◌, u64, sub64, align_down,
  align_up, Exec, ok, halt, fault, ◌>>=◌, ◌>>◌, page_size,
}
use platinum.Palloc
use platinum.Palloc.{Palloc}
use platinum.Memmap.{Descriptor, Memmap, get_descriptor}

pub record Paging : Type 0 where
  pub palloc : Palloc
  pub table : ℕ → ℕ → ℕ
  pub kernel_pml4 : ℕ
  pub cr3 : ℕ

-- `struct user_virtual_layout` of src/kernel/sched.h
pub record Layout : Type 0 where
  pub trampoline_base : ℕ
  pub image_base : ℕ
  pub stack_top : ℕ

abbrev pub paging_flags_table : ℕ
paging_flags_table = 3

abbrev pub paging_user : ℕ
paging_user = 4

-- paging_present | paging_writable | paging_user
abbrev pub paging_flags_user : ℕ
paging_flags_user = 7

abbrev pub is_present : ℕ → Bool
is_present entry = entry % 2 == 1

abbrev pub is_user : ℕ → Bool
is_user entry = entry / 4 % 2 == 1

-- `entry & 0x000FFFFFFFFFF000`: entry_address, and entry_table as a pointer.
unfoldable pub entry_address : ℕ → ℕ
entry_address entry = entry / 4096 % 2 ^ 40 * 4096

-- `value | flags`, where the flags are below 8.
unfoldable pub or_flags : ℕ → ℕ → ℕ
or_flags value flags = value / 8 * 8 + bit_or (value % 8) flags

abbrev pub pml4_index : ℕ → ℕ
pml4_index va = va / 2 ^ 39 % 512

abbrev pub pdpt_index : ℕ → ℕ
pdpt_index va = va / 2 ^ 30 % 512

abbrev pub pd_index : ℕ → ℕ
pd_index va = va / 2 ^ 21 % 512

abbrev pub pt_index : ℕ → ℕ
pt_index va = va / 2 ^ 12 % 512

-- `table[index] = entry`
unfoldable pub write_entry : ℕ → ℕ → ℕ → Paging → Paging
write_entry p i entry s = record s {
  table = λ q j. if q == p && j == i then entry else s.table q j;
}

-- A page whose 512 words are those of `words`: the loops of zero_page and copy_table.
unfoldable pub fill_page : ℕ → (ℕ → ℕ) → Paging → Paging
fill_page p words s = record s {
  table = λ q j. if q == p && ltb j 512 then words j else s.table q j;
}

unfoldable pub alloc_table : Paging → ℕ × Paging
alloc_table s =
    let (page, palloc) = Palloc.alloc s.palloc in
    let s' : Paging = record s { palloc = palloc } in
    if page == 0 then (0, s') else (page, fill_page page (λ _. 0) s')

unfoldable pub copy_table : ℕ → Paging → ℕ × Paging
copy_table src s =
    let (page, s') = alloc_table s in
    if page == 0 then (0, s') else (page, fill_page page (s'.table src) s')

unfoldable pub get_or_create_next : ℕ → ℕ → ℕ → Paging → ℕ × Paging
get_or_create_next p i flags s =
    if is_present (s.table p i)
    then (let s' =
          if is_user flags then write_entry p i (or_flags (s.table p i) paging_user) s else s in
        (entry_address (s'.table p i), s'))
    else (let (next, s') = alloc_table s in
        if next == 0 then (0, s') else (
          next,
          write_entry p i
              (or_flags (or_flags next paging_flags_table)
                (if is_user flags then paging_user else 0))
              s',
        ))

unfoldable pub map_page_4k : ℕ → ℕ → ℕ → ℕ → Paging → Bool × Paging
map_page_4k pml4 va pa flags s =
    let (pdpt, s₁) = get_or_create_next pml4 (pml4_index va) flags s in
    if pdpt == 0
    then (false, s₁)
    else let (pd, s₂) = get_or_create_next pdpt (pdpt_index va) flags s₁ in
      if pd == 0
      then (false, s₂)
      else let (pt, s₃) = get_or_create_next pd (pd_index va) flags s₂ in
        if pt == 0 then (false, s₃) else (true, write_entry pt (pt_index va) (or_flags pa flags) s₃)

unfoldable pub walk_to_pt : ℕ → ℕ → Paging → ℕ
walk_to_pt pml4 va s =
    if not (is_present (s.table pml4 (pml4_index va)))
    then 0
    else let pdpt = entry_address (s.table pml4 (pml4_index va)) in
      if not (is_present (s.table pdpt (pdpt_index va)))
      then 0
      else let pd = entry_address (s.table pdpt (pdpt_index va)) in
        if not (is_present (s.table pd (pd_index va)))
        then 0
        else entry_address (s.table pd (pd_index va))

-- One level of ensure_private_user_path at the entry `i` of the table `p`, where the kernel's table
-- has `kernel_entry`: a present entry that leads to the kernel's table gets a copy of that table,
-- another present one gets the user bit. `none`: no page for the copy.
unfoldable pub make_private : ℕ → ℕ → ℕ → Paging → Option Paging
make_private p i kernel_entry s =
    let entry = s.table p i in
    if not (is_present entry)
    then some s
    else if entry_address entry == entry_address kernel_entry
    then (let (clone, s') = copy_table (entry_address entry) s in
        if clone == 0
        then none
        else some (write_entry p i (or_flags (or_flags clone paging_flags_table) paging_user) s'))
    else some (write_entry p i (or_flags entry paging_user) s)

-- `entry present ? entry_table(entry)[i] : 0`, an entry of a kernel table below another.
unfoldable pub entry_below : ℕ → ℕ → Paging → ℕ
entry_below entry i s = if is_present entry then s.table (entry_address entry) i else 0

unfoldable pub ensure_private_user_path : ℕ → ℕ → Paging → Option Paging
ensure_private_user_path pml4 va s =
    let kernel_pml4_entry = s.table s.kernel_pml4 (pml4_index va) in
    elim (make_private pml4 (pml4_index va) kernel_pml4_entry s) [
      | none ↦ none
      | some s₁ ↦
          let pdpt = entry_address (s₁.table pml4 (pml4_index va)) in
          let kernel_pdpt_entry = entry_below kernel_pml4_entry (pdpt_index va) s₁ in
          elim (make_private pdpt (pdpt_index va) kernel_pdpt_entry s₁) [
            | none ↦ none
            | some s₂ ↦
                if not (is_present (s₂.table pdpt (pdpt_index va)))
                then some s₂
                else let pd = entry_address (s₂.table pdpt (pdpt_index va)) in
                  let kernel_pd_entry = entry_below kernel_pdpt_entry (pd_index va) s₂ in
                  make_private pd (pd_index va) kernel_pd_entry s₂
          ]
    ]

-- The loop of highest_physical_end over the descriptors below `n`.
unfoldable pub highest_below : ℕ → Memmap → ℕ
unfolding get_descriptor
highest_below zero m = 0
highest_below (suc n) m =
    let highest = highest_below n m in
    elim (get_descriptor n m) [
      | none ↦ highest
      | some d ↦
          let end64 = u64 (d.physical_start + u64 (d.number_of_pages * page_size)) in
          let stop = if ltb 0x100000000 end64 then 0x100000000 else end64 in
          if ltb highest stop then stop else highest
    ]

unfoldable pub highest_physical_end : Memmap → ℕ
unfolding highest_below
highest_physical_end m =
    let highest = highest_below m.descriptor_count m in if highest == 0 then 0 else align_up highest

-- `while (address < limit)` of paging_initialize, on fuel; running out of fuel is `fault`.
unfoldable pub identity_map : ℕ → ℕ → ℕ → Paging → Exec Paging
identity_map zero address limit s = fault
identity_map (suc fuel) address limit s =
    let (mapped, s') = map_page_4k s.kernel_pml4 address address paging_flags_table s in
    let rest = identity_map fuel (u64 (address + page_size)) limit s' in
    if not (ltb address limit) then ok s else if not mapped then halt else rest

unfoldable pub initialize : ℕ → Memmap → Paging → Exec Paging
initialize fuel m s =
    let (pml4, s₁) = alloc_table s in
    let s₂ : Paging = record s₁ { kernel_pml4 = pml4 } in
    let limit = highest_physical_end m in
    if pml4 == 0
    then halt
    else if limit == 0
    then halt
    else (identity_map fuel 0 limit s₂ >>= λ s₃. ok (record s₃ { cr3 = pml4 }))

unfoldable pub create_user_address_space : Paging → ℕ × Paging
create_user_address_space s =
    let (pml4, s') = alloc_table s in
    if pml4 == 0 then (0, s') else (pml4, fill_page pml4 (s'.table s'.kernel_pml4) s')

unfoldable pub map_user_page : ℕ → ℕ → ℕ → Paging → Exec Paging
map_user_page address_space va pa s =
    let private_path =
      if address_space == s.kernel_pml4
      then some s
      else ensure_private_user_path address_space (align_down va) s in
    elim private_path [
      | none ↦ halt
      | some s' ↦
          let (mapped, s'') =
            map_page_4k address_space (align_down va) (align_down pa) paging_flags_user s' in
          if mapped then ok s'' else halt
    ]

unfoldable pub activate : ℕ → Paging → Paging
activate address_space s = record s { cr3 = address_space }

-- The first 512 - `n` entries of the two tables are as present as each other.
unfoldable pub same_presence : ℕ → ℕ → Paging → Bool
same_presence zero pml4 s = true
same_presence (suc n) pml4 s =
    (s.table pml4 n % 2 == s.table s.kernel_pml4 n % 2) && same_presence n pml4 s

unfoldable pub address_space_valid : ℕ → Paging → Bool
unfolding same_presence
address_space_valid address_space s =
    if address_space == 0 then false else same_presence 512 address_space s

unfoldable pub mapping_matches : ℕ → ℕ → ℕ → Bool → Paging → Bool
mapping_matches address_space va pa user_accessible s =
    let pt = walk_to_pt address_space (align_down va) s in
    let entry = s.table pt (pt_index (align_down va)) in
    if address_space == 0
    then false
    else if pt == 0
    then false
    else if not (is_present entry)
    then false
    else if not (entry_address entry == align_down pa)
    then false
    else if user_accessible
    then is_user entry
    else not (is_user entry)

unfoldable pub mapping_is_supervisor_only : ℕ → ℕ → Paging → Bool
unfolding mapping_matches
mapping_is_supervisor_only address_space va s = mapping_matches address_space va va false s

-- What the loop of paging_user_range_mapped asks of one page.
unfoldable pub user_page_mapped : ℕ → ℕ → Paging → Bool
user_page_mapped address_space page s =
    let pt = walk_to_pt address_space page s in
    let entry = s.table pt (pt_index page) in
    if pt == 0 then false else is_present entry && is_user entry

-- `for (page = start;; page += 4096)` with its exit at `end`, on fuel; `none` where it runs out.
unfoldable pub range_loop : ℕ → ℕ → ℕ → ℕ → Paging → Option Bool
range_loop zero address_space page end s = none
range_loop (suc fuel) address_space page end s =
    let rest = range_loop fuel address_space (u64 (page + page_size)) end s in
    if not (user_page_mapped address_space page s)
    then some false
    else if page == end
    then some true
    else rest

-- A range of `count` bytes touches at most `count / 4096 + 2` pages: the fuel.
unfoldable pub user_range_mapped : ℕ → ℕ → ℕ → Paging → Option Bool
user_range_mapped address_space va count s =
    let end = u64 (va + (count - 1)) in
    if address_space == 0
    then some false
    else if count == 0
    then some true
    else if ltb end va
    then some false
    else range_loop (count / 4096 + 2) address_space (align_down va) (align_down end) s

-- The table at `pointer` is freed unless the kernel's table stands in the same place.
unfoldable pub free_private : ℕ → ℕ → Paging → Paging
free_private pointer kernel_pointer s =
    if pointer == kernel_pointer then s else record s { palloc = Palloc.free pointer s.palloc }

unfoldable pub release_user_address_space : ℕ → Layout → Paging → Paging
unfolding free_private entry_address
release_user_address_space address_space layout s =
    let i = pml4_index layout.trampoline_base in
    let j = pdpt_index layout.trampoline_base in
    let k = pd_index layout.trampoline_base in
    let kernel_pdpt = entry_address (s.table s.kernel_pml4 i) in
    let kernel_pd = if kernel_pdpt == 0 then 0 else entry_address (s.table kernel_pdpt j) in
    let kernel_pt = if kernel_pd == 0 then 0 else entry_address (s.table kernel_pd k) in
    let pdpt = entry_address (s.table address_space i) in
    let pd = entry_address (s.table pdpt j) in
    let pt = entry_address (s.table pd k) in
    if (address_space == 0) || (address_space == s.kernel_pml4)
    then s
    else let s₁ =
        if not (is_present (s.table address_space i))
        then s
        else let s₂ =
            if not (is_present (s.table pdpt j))
            then s
            else let s₃ = if is_present (s.table pd k) then free_private pt kernel_pt s else s in
              free_private pd kernel_pd s₃ in
          free_private pdpt kernel_pdpt s₂ in
      record s₁ { palloc = Palloc.free address_space s₁.palloc }
