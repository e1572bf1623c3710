-- ===== src/Heap.antt =====
-- src/kernel/heap.c, the kernel heap: the chain of `struct heap_block` from `heap_head`, as the list
-- of its headers in the order of the `next` links. A block is known by the address of its header,
-- its `prev` is the block before it in the list, and NULL is 0.
pub mod Allocate
pub mod Chain
pub mod Grow
pub mod Kmalloc
pub mod SelfTest
pub mod Tests
use platinum.Prelude.{
  ℕ, ◌+◌, ◌-◌, ◌*◌, ◌/◌, Bool, not, ◌&&◌, ◌||◌, List, [], ◌∷◌, leb, ltb, ◌==◌, if◌then◌else◌, u32,
  u64, sub64, Exec, ok, halt, fault, ◌>>=◌,
}
use platinum.Palloc
use platinum.Palloc.{Palloc}

pub record Block : Type 0 where
  pub address : ℕ
  pub magic : ℕ
  pub free : ℕ
  pub size : ℕ

pub record Heap : Type 0 where
  pub blocks : List Block
  pub palloc : Palloc

abbrev pub heap_magic : ℕ
heap_magic = 0x48454150

-- sizeof(struct heap_block)
abbrev pub header_size : ℕ
header_size = 32

-- `(value + (heap_align - 1u)) & ~(heap_align - 1u)`: the sum is a size_t, but the mask an unsigned int,
-- 0xfffffff0, which clears the upper half of the sum.
unfoldable pub align_size : ℕ → ℕ
align_size value = u32 (u64 (value + 15)) / 16 * 16

abbrev pub block_end : Block → ℕ
block_end b = u64 (b.address + header_size + b.size)

abbrev pub blocks_touch : Block → Block → Bool
blocks_touch left right = block_end left == right.address

-- `magic == heap_magic && free != 0`
abbrev pub is_free : Block → Bool
is_free b = (b.magic == heap_magic) && not (b.free == 0)

-- The block alone, or the block cut to `size` and the free block made of the rest.
unfoldable pub split_block : Block → ℕ → List Block
split_block b size =
    if leb b.size (u64 (size + header_size + 16))
    then b ∷ []
    else record b { size = size }
      ∷ record {
        address = u64 (b.address + header_size + size);
        magic = heap_magic;
        free = 1;
        size = sub64 (sub64 b.size size) header_size;
      }
      ∷ []

-- `block` takes in the free blocks that touch it, one after the other.
unfoldable pub coalesce_forward : Block → List Block → List Block
coalesce_forward b [] = b ∷ []
coalesce_forward b (n ∷ rest) =
    let merged = coalesce_forward (record b { size = u64 (b.size + header_size + n.size) }) rest in
    if is_free n && blocks_touch b n then merged else b ∷ n ∷ rest

-- The end of insert_block_sorted: `block` stands behind `previous` and before `after`. The result
-- starts with the address of the block that insert_block_sorted returns.
unfoldable pub settle : Block → Block → List Block → ℕ × List Block
settle previous block after =
    if is_free previous && blocks_touch previous block
    then (previous.address, coalesce_forward previous (block ∷ after))
    else (block.address, previous ∷ coalesce_forward block after)

unfoldable pub insert_behind : Block → Block → List Block → ℕ × List Block
insert_behind previous block [] = settle previous block []
insert_behind previous block (current ∷ rest) =
    let later = insert_behind current block rest in
    if ltb current.address block.address
    then (later.0, previous ∷ later.1)
    else settle previous block (current ∷ rest)

unfoldable pub insert_block_sorted : Block → List Block → ℕ × List Block
insert_block_sorted block [] = (block.address, block ∷ [])
insert_block_sorted block (current ∷ rest) =
    if ltb current.address block.address
    then insert_behind current block rest
    else (block.address, coalesce_forward block (current ∷ rest))

-- A page from the page allocator as one free block; 0 where `size` does not fit or no page is left.
unfoldable pub grow_heap : ℕ → Heap → ℕ × Heap
grow_heap size h =
    if ltb (4096 - header_size) size
    then (0, h)
    else let (page, palloc) = Palloc.alloc h.palloc in
      if page == 0
      then (0, record h { palloc = palloc })
      else let block : Block = record {
        address = page;
        magic = heap_magic;
        free = 1;
        size = 4096 - header_size;
      } in
        let (address, blocks) = insert_block_sorted block h.blocks in
        (address, record { blocks = blocks; palloc = palloc })

-- The first free block with room, 0 if there is none; a bad header on the way stops the kernel.
unfoldable pub find_block : ℕ → List Block → Exec ℕ
find_block size [] = ok 0
find_block size (b ∷ rest) =
    let later = find_block size rest in
    if not (b.magic == heap_magic)
    then halt
    else if not (b.free == 0) && leb size b.size
    then ok b.address
    else later

-- `split_block(block, size); block->free = 0u;` on the block at `address`.
unfoldable pub take_block : ℕ → ℕ → List Block → List Block
take_block address size [] = []
take_block address size (b ∷ rest) =
    if b.address == address
    then (elim (split_block b size) [
      | [] ↦ rest
      | first ∷ [] ↦ record first { free = 0 } ∷ rest
      | first ∷ second ∷ _ ↦ record first { free = 0 } ∷ second ∷ rest
    ])
    else b ∷ take_block address size rest

-- The part of kmalloc behind the search: `found` is the block that find_block returned.
unfoldable pub place : ℕ → ℕ → Heap → ℕ × Heap
place address size h =
    if address == 0
    then (0, h)
    else (u64 (address + header_size), record h { blocks = take_block address size h.blocks })

-- The address of the allocated bytes, 0 for NULL.
unfoldable pub kmalloc : ℕ → Heap → Exec (ℕ × Heap)
kmalloc size h = if size == 0 then ok (0, h) else do
  found ← find_block (align_size size) h.blocks
  let (address, h') = if found == 0 then grow_heap (align_size size) h else (found, h)
  ok (place address (align_size size) h')

-- The end of kfree: the block before takes in `block`, if it is free and they touch.
unfoldable pub merge_back : Block → List Block → List Block
unfolding coalesce_forward
merge_back previous [] = previous ∷ []
merge_back previous (block ∷ rest) =
    if is_free previous && blocks_touch previous block
    then coalesce_forward previous (block ∷ rest)
    else previous ∷ block ∷ rest

-- `block->free = 1u; coalesce_forward(block);` behind the check of the header.
unfoldable pub release : Block → List Block → Exec (List Block)
unfolding coalesce_forward
release b rest =
    if not (b.magic == heap_magic) || not (b.free == 0)
    then halt
    else ok (coalesce_forward (record b { free = 1 }) rest)

unfoldable pub free_behind : ℕ → Block → List Block → Exec (List Block)
free_behind address previous [] = fault
free_behind address previous (b ∷ rest) =
    let later = free_behind address b rest in
    if b.address == address
    then (release b rest >>= λ blocks. ok (merge_back previous blocks))
    else (later >>= λ blocks. ok (previous ∷ blocks))

-- A pointer behind no header of the chain is a fault: the code reads what stands there.
unfoldable pub free_block : ℕ → List Block → Exec (List Block)
free_block address [] = fault
free_block address (b ∷ rest) =
    if b.address == address then release b rest else free_behind address b rest

unfoldable pub kfree : ℕ → Heap → Exec Heap
kfree ptr h =
    if ptr == 0
    then ok h
    else do blocks ← free_block (sub64 ptr header_size) h.blocks; ok (record h { blocks = blocks })
