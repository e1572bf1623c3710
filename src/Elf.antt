-- ===== src/Elf.antt =====
-- src/kernel/elf.c, the loader of user programs. `Format` reads and checks the image; here are the
-- pages of the load window, the copying of the segments and the mapping of the image.
pub mod Bounds
pub mod Claim
pub mod Format
pub mod Segments
mod Tests
use platinum.Prelude.{
  ℕ, zero, suc, ◌+◌, ◌-◌, ◌*◌, ◌/◌, ◌%◌, ◌^◌, ◌≤◌, ◌<◌, ◌≡◌, Bool, true, false, not, ◌&&◌, ◌||◌,
  Option, none, some, List, [], ◌∷◌, ◌++◌, leb, ltb, ◌==◌, if◌then◌else◌, u64, sub64, align_down,
  align_up, Exec, ok, halt, fault, ◌>>=◌, ◌>>◌,
}
use platinum.Palloc
use platinum.Palloc.{Palloc}
use platinum.Paging
use platinum.Paging.{Paging, Layout}
use Format.{
  Header, ProgramHeader, Span, type_load, read_header, read_program_headers, validate_header,
  validate_program_headers, compute_load_span, entry_in_load_segment,
}

-- What the loader works on: pages and page tables, and the bytes of physical memory.
pub record Machine : Type 0 where
  pub paging : Paging
  pub memory : ℕ → ℕ

abbrev pub palloc_of : Machine → Palloc
palloc_of s = s.paging.palloc

abbrev pub with_palloc : Palloc → Machine → Machine
with_palloc p s = record s { paging = record s.paging { palloc = p } }

pub record LoadedImage : Type 0 where
  pub load_begin : ℕ
  pub load_end : ℕ
  pub load_physical_begin : ℕ
  pub load_physical_end : ℕ
  pub reusable_physical_begin : ℕ
  pub reusable_physical_end : ℕ
  pub entry : ℕ
  pub stack_page : ℕ
  pub stack_top : ℕ

abbrev pub user_load_base : ℕ
user_load_base = 0x02100000

abbrev pub user_load_size : ℕ
user_load_size = 0x00100000

unfoldable pub page_in_range : ℕ → ℕ → ℕ → Bool
page_in_range page begin end = not (begin == 0) && leb begin page && ltb page end

unfoldable pub window_loop : ℕ → ℕ → ℕ → Option (List ℕ)
window_loop zero page end = none
window_loop (suc fuel) page end =
    let rest = window_loop fuel (u64 (page + 4096)) end in
    if ltb page end then (elim rest [ none ↦ none | some pages ↦ some (page ∷ pages) ]) else some []

-- The pages that `for (page = begin; page < end; page += 4096u)` visits, in order. The fuel is one
-- round for each page and one for the exit; it runs out only where `page` wraps around.
unfoldable pub window : ℕ → ℕ → Option (List ℕ)
window begin end = window_loop ((end - begin + 4095) / 4096 + 1) begin end

-- Frees the pages that do not lie in the reusable range: the loop of elf_release_user_image and the
-- roll-back of claim_window_pages.
unfoldable pub free_pages : ℕ → ℕ → List ℕ → Palloc → Palloc
free_pages reuse_begin reuse_end [] p = p
free_pages reuse_begin reuse_end (page ∷ rest) p =
    free_pages reuse_begin reuse_end rest
      (if page_in_range page reuse_begin reuse_end then p else Palloc.free page p)

-- The loop of claim_window_pages over the pages of the window; `taken` are those it has passed.
unfoldable pub claim_loop : ℕ → ℕ → List ℕ → List ℕ → Palloc → Bool × Palloc
claim_loop reuse_begin reuse_end taken [] p = (true, p)
claim_loop reuse_begin reuse_end taken (page ∷ rest) p =
    let reused = page_in_range page reuse_begin reuse_end in
    let (done, q) = Palloc.take page p in
    let later =
      claim_loop reuse_begin reuse_end (taken ++ page ∷ []) rest (if reused then p else q) in
    if reused || done then later else (false, free_pages reuse_begin reuse_end taken q)

-- `none`: the loop does not end.
unfoldable pub claim_window_pages : ℕ → ℕ → ℕ → ℕ → Palloc → Option (Bool × Palloc)
claim_window_pages load_begin load_end reuse_begin reuse_end p = elim (window load_begin load_end) [
  | none ↦ none
  | some pages ↦ some (claim_loop reuse_begin reuse_end [] pages p)
]

abbrev pub cleared_image : LoadedImage
cleared_image = record {
  load_begin = 0;
  load_end = 0;
  load_physical_begin = 0;
  load_physical_end = 0;
  reusable_physical_begin = 0;
  reusable_physical_end = 0;
  entry = 0;
  stack_page = 0;
  stack_top = 0;
}

-- `fault`: the loop over the pages does not end. The image is cleared, so it is not returned.
unfoldable pub release_user_image : LoadedImage → Palloc → Exec Palloc
unfolding free_pages window
release_user_image l p =
    let p' = if l.stack_page == 0 then p else Palloc.free l.stack_page p in
    elim (window l.load_physical_begin l.load_physical_end) [
      | none ↦ fault
      | some pages ↦ ok (free_pages l.reusable_physical_begin l.reusable_physical_end pages p')
    ]

-- `memory_zero(dst, count)` and `memory_copy(dst, image + offset, count)`
unfoldable pub memory_zero : ℕ → ℕ → (ℕ → ℕ) → ℕ → ℕ
memory_zero dst count memory a = if leb dst a && ltb a (dst + count) then 0 else memory a

unfoldable pub memory_copy : ℕ → (ℕ → ℕ) → ℕ → ℕ → (ℕ → ℕ) → ℕ → ℕ
memory_copy dst image offset count memory a =
    if leb dst a && ltb a (dst + count) then image (offset + (a - dst)) else memory a

unfoldable pub clear_window : List ℕ → (ℕ → ℕ) → ℕ → ℕ
unfolding memory_zero
clear_window [] memory = memory
clear_window (page ∷ rest) memory = clear_window rest (memory_zero page 4096 memory)

-- `none` where load_segment returns 0.
unfoldable pub load_segment : (ℕ → ℕ) → ProgramHeader → ℕ → ℕ → (ℕ → ℕ) → Option (ℕ → ℕ)
unfolding memory_zero memory_copy
load_segment image p vaddr_begin load_begin memory =
    let dst = u64 (load_begin + (p.vaddr - vaddr_begin)) in
    if not (p.kind == type_load)
    then some memory
    else if ltb p.vaddr vaddr_begin
    then none
    else some (
        memory_zero (dst + p.filesz) (p.memsz - p.filesz)
          (memory_copy dst image p.offset p.filesz memory))

-- Whether every segment was loaded, and the memory.
unfoldable pub load_segments : (ℕ → ℕ) → List ProgramHeader → ℕ → ℕ → (ℕ → ℕ) → Bool × (ℕ → ℕ)
load_segments image [] vaddr_begin load_begin memory = (true, memory)
load_segments image (p ∷ rest) vaddr_begin load_begin memory =
    elim (load_segment image p vaddr_begin load_begin memory) [
      | none ↦ (false, memory)
      | some memory' ↦ load_segments image rest vaddr_begin load_begin memory'
    ]

-- A page mapped and checked; `false` sends the loader to `fail`.
unfoldable pub map_and_check : ℕ → ℕ → ℕ → Paging → Exec (Bool × Paging)
map_and_check address_space va pa s = do
  s' ← Paging.map_user_page address_space va pa s
  ok (Paging.mapping_matches address_space va pa true s', s')

-- The mapping loop of elf_load_user_image for the `rounds` indices from `index` on.
unfoldable pub map_image : ℕ → ℕ → ℕ → ℕ → ℕ → Paging → Exec (Bool × Paging)
unfolding map_and_check
map_image zero index address_space va_begin pa_begin s = ok (true, s)
map_image (suc rounds) index address_space va_begin pa_begin s =
    map_and_check address_space (u64 (va_begin + index * 4096)) (u64 (pa_begin + index * 4096)) s
    >>= λ r.
        let (good, s') = r in
        elim good [
          | true ↦ map_image rounds (index + 1) address_space va_begin pa_begin s'
          | false ↦ ok (false, s')
        ]

-- Everything that elf_load_user_image checks before it claims a page: the span of the image and the
-- entry of its header, or `none` where it returns 0.
unfoldable pub plan : (ℕ → ℕ) → ℕ → Layout → ℕ → Option (Span × Header × List ProgramHeader)
plan image image_size layout address_space =
    let h = read_header image in
    let ps = read_program_headers h.phnum h.phoff image in
    if not (validate_header h image_size)
    then none
    else if not (validate_program_headers ps image_size)
    then none
    else elim (compute_load_span ps) [
      | none ↦ none
      | some span ↦
          let size = span.highest - span.lowest in
          let user_end = u64 (layout.image_base + size) in
          if not (entry_in_load_segment ps h.entry)
          then none
          else if (layout.image_base == 0) || leb layout.stack_top 4096
          then none
          else if address_space == 0
          then none
          else if ltb user_load_size size
          then none
          else if ltb user_end layout.image_base || ltb (layout.stack_top - 4096) user_end
          then none
          else some (span, h, ps)
    ]

-- The label `fail`.
unfoldable pub fail : LoadedImage → Machine → Exec (Bool × LoadedImage × Machine)
fail l s = do p ← release_user_image l (palloc_of s); ok (false, cleared_image, with_palloc p s)

-- The last part of elf_load_user_image: the stack page.
unfoldable pub load_stack :
    Layout → ℕ → Header → Span → LoadedImage → Machine → Exec (Bool × LoadedImage × Machine)
unfolding fail map_and_check
load_stack layout address_space h span l s =
    let (page, p) = Palloc.alloc (palloc_of s) in
    let s₁ = with_palloc p s in
    let l' : LoadedImage = record l { stack_page = page; stack_top = layout.stack_top } in
    if page == 0 then fail l s₁ else do
      (good, paging) ← map_and_check address_space (layout.stack_top - 4096) page s₁.paging
      let s₂ : Machine = record s₁ { paging = paging }
      let l'' : LoadedImage = record l' {
        load_begin = layout.image_base;
        load_end = u64 (layout.image_base + (span.highest - span.lowest));
        entry = u64 (layout.image_base + sub64 h.entry span.lowest);
      }
      if good then ok (true, l'', s₂) else fail l' s₂

-- elf_load_user_image behind the claim of the window: the window is cleared, the segments are loaded
-- and the pages mapped.
unfoldable pub load_claimed :
    (ℕ → ℕ)
    → Layout
    → ℕ
    → Span
    → Header
    → List ProgramHeader
    → LoadedImage
    → Machine
    → Exec (Bool × LoadedImage × Machine)
unfolding window clear_window load_segments map_image load_stack fail
load_claimed image layout address_space span h ps l s =
    elim (window l.load_physical_begin l.load_physical_end) [
      | none ↦ fault
      | some pages ↦
          let (loaded, memory) =
            load_segments image ps span.lowest l.load_physical_begin
              (clear_window pages s.memory) in
          let s₁ : Machine = record s { memory = memory } in
          if not loaded then fail l s₁ else do
            (good, paging) ←
                map_image ((l.load_physical_end - l.load_physical_begin) / 4096 % 2 ^ 16) 0
                  address_space layout.image_base l.load_physical_begin s₁.paging
            let s₂ : Machine = record s₁ { paging = paging }
            if good then load_stack layout address_space h span l s₂ else fail l s₂
    ]

-- elf_load_user_image: whether it succeeded, the image that it describes, and the machine.
unfoldable pub load_user_image :
    (ℕ → ℕ) → ℕ → Layout → ℕ → ℕ → ℕ → Machine → Exec (Bool × LoadedImage × Machine)
unfolding plan claim_window_pages load_claimed
load_user_image image image_size layout address_space reuse_begin reuse_end s =
    elim (plan image image_size layout address_space) [
      | none ↦ ok (false, cleared_image, s)
      | some (span, h, ps) ↦
          let load_end = user_load_base + (span.highest - span.lowest) in
          let l : LoadedImage = record cleared_image {
            load_physical_begin = user_load_base;
            load_physical_end = load_end;
            reusable_physical_begin = reuse_begin;
            reusable_physical_end = reuse_end;
          } in
          let claim =
            claim_window_pages user_load_base load_end reuse_begin reuse_end (palloc_of s) in
          elim claim [
            | none ↦ fault
            | some (claimed, p) ↦
                let s₁ = with_palloc p s in
                if not claimed
                then ok (false, cleared_image, s₁)
                else load_claimed image layout address_space span h ps l s₁
          ]
    ]
