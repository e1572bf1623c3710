-- ===== src/Heap/Kmalloc.antt =====
-- kmalloc of src/kernel/heap.c as a whole.
use platinum.Prelude.{
  ℕ, ◌+◌, ◌-◌, ◌^◌, ◌≤◌, ◌<◌, ◌≡◌, ◌≢◌, ◌⊎◌, ◌∙◌, ap, inl, inr, refl, false, ◌&&◌, List, [], ◌∷◌,
  arith, ltb, ◌==◌, if◌then◌else◌, u64, Bool-cases, ok,
}
use platinum.Palloc
use platinum.Palloc.{Palloc}
use platinum.Heap.{
  Block, Heap, heap_magic, header_size, align_size, insert_block_sorted, grow_heap, place, kmalloc,
}
use platinum.Heap.Chain.{Chain, owned}
use platinum.Heap.Grow.{Apart, insert_block_sorted-Inserted}
use platinum.Heap.Allocate.{FreeAt, FreeAt-low, take_block-Taken, find_block-FreeAt}

-- The block that a page of the page allocator makes.
abbrev pub page_block : ℕ → Block
page_block page = record { address = page; magic = heap_magic; free = 1; size = 4064 }

-- The page that the page allocator hands out next, if there is one, is not in the heap.
abbrev pub FreshPage : Heap → Type 0
FreshPage h =
    (Palloc.alloc h.palloc).0 ≢ 0
    → ((Palloc.alloc h.palloc).0 + 4096 < 2 ^ 63)
      × Apart (page_block (Palloc.alloc h.palloc).0) h.blocks

-- The two outcomes of kmalloc.
abbrev pub KmallocSpec : ℕ → Heap → ℕ → Heap → Type 0
KmallocSpec size h ptr h' =
    Chain 1 h'.blocks
    × (((ptr ≡ 0) × ((a m : ℕ) → owned a m h'.blocks ≡ owned a m h.blocks))
        ⊎ ((room : ℕ) × (size ≤ room)
            × (32 < ptr)
            × (ptr + room < 2 ^ 63)
            × ((a m : ℕ)
                → owned a m h'.blocks
                  ≡ owned a m h.blocks + (if (ptr - 32 == a) && (room == m) then 1 else 0))))

place-KmallocSpec :
    (size n address : ℕ) (h h₁ : Heap)
    → size ≤ n
    → Chain 1 h₁.blocks
    → ((a m : ℕ) → owned a m h₁.blocks ≡ owned a m h.blocks)
    → FreeAt address n h₁.blocks
    → KmallocSpec size h (place address n h₁).0 (place address n h₁).1
unfolding place
place-KmallocSpec size n address h h₁ le chain same free =
    let t = take_block-Taken 1 address n h₁.blocks chain free in
    let ne : (address == 0) ≡ false = ground (arith, t.above) in
    let e : u64 (address + header_size) ≡ address + 32 = omega (arith, t.below) in
    let back : address + 32 - 32 ≡ address = omega arith in
    rw (ne, e, place)
      (
        t.chain,
        inr (
          t.room,
          omega (arith, t.enough),
          omega (arith, t.above),
          omega (arith, t.below),
          λ a m. rw back (
              t.counted a m
              ∙ ap (λ k. k + (if (address == a) && (t.room == m) then 1 else 0)) (same a m)),
        ),
      )

FreeAt-le :
    (address n size : ℕ) (bs : List Block) → n ≤ size → FreeAt address size bs → FreeAt address n bs
FreeAt-le address n size [] le f = absurd (omega arith)
FreeAt-le address n size (b ∷ bs) le (inl here) = inl (here.0, here.1, omega (arith, here.2))
FreeAt-le address n size (b ∷ bs) le (inr further) = inr (FreeAt-le address n size bs le further)

-- kmalloc where no block has room.
grown :
    (size n : ℕ) (h : Heap)
    → size ≤ n
    → Chain 1 h.blocks
    → FreshPage h
    → KmallocSpec size h
        (place (grow_heap n h).0 n (grow_heap n h).1).0
        (place (grow_heap n h).0 n (grow_heap n h).1).1
unfolding grow_heap
grown size n h le chain fresh = elim (Bool-cases (ltb (4096 - header_size) n)) [
  | inl too_large ↦ rw (too_large, grow_heap) (unfold place in (chain, inl (refl, λ a m. refl)))
  | inr fits ↦ elim (Bool-cases ((Palloc.alloc h.palloc).0 == 0)) [
    | inl no_page ↦ rw (fits, no_page, grow_heap) (unfold place in (chain, inl (refl, λ a m. refl)))
    | inr some_page ↦
        let page = (Palloc.alloc h.palloc).0 in
        let (below, apart) = fresh (ground arith) in
        let i =
          insert_block_sorted-Inserted (page_block page) h.blocks chain (ground arith) refl
            (omega arith) (omega arith) apart in
        rw (fits, some_page, grow_heap)
          (place-KmallocSpec size n _ h
            (record {
              blocks = (insert_block_sorted (page_block page) h.blocks).1;
              palloc = (Palloc.alloc h.palloc).1;
            })
            le i.chain i.counted (FreeAt-le _ n 4064 _ (ground arith) i.free_there))
  ]
]

-- kmalloc of 1 to 2 ^ 32 - 16 bytes, in a heap whose blocks have intact headers and do not overlap, and where the next page of
-- the page allocator is not part of the heap: it does not stop the kernel and the blocks still do not
-- overlap. Either it returns NULL and the same blocks are in use; or the block at the result has at
-- least the size that was asked for and is in use from then on, and every other block in use has its
-- address and its size.
pub kmalloc-KmallocSpec :
    (size : ℕ) (h : Heap)
    → 0 < size
    → size ≤ 2 ^ 32 - 16
    → Chain 1 h.blocks
    → FreshPage h
    → (ptr : ℕ) × (h' : Heap) × (kmalloc size h ≡ ok (ptr, h')) × KmallocSpec size h ptr h'
unfolding kmalloc align_size
kmalloc-KmallocSpec size h pos small chain fresh =
    let ne : (size == 0) ≡ false = ground arith in
    let n : ℕ = align_size size in
    let le : size ≤ n = unfold align_size in omega arith in
    elim (find_block-FreeAt 1 n h.blocks chain) [
      | inl none_found ↦ rw (ne, none_found, kmalloc) (_, _, refl, grown size n h le chain fresh)
      | inr (a, found, free) ↦
          let some_block : (a == 0) ≡ false =
            ground (arith, FreeAt-low 1 a n h.blocks chain free) in
          rw (ne, found, some_block, kmalloc)
            (_, _, refl, place-KmallocSpec size n a h h le chain (λ b m. refl) free)
    ]
