-- ===== src/Heap/Tests.antt =====
-- The theorems on src/kernel/heap.c at a concrete heap.
use platinum.Prelude.{
  Exec, halt, fault, List, ℕ, ◌+◌, ◌-◌, ◌<◌, ◌≡◌, inl, refl, arith, [], ◌∷◌, ◌==◌, ◌&&◌,
  if◌then◌else◌, ok,
}
use platinum.Prelude.Text.{written_line}
use platinum.Heap.SelfTest.{
  self_test, initialize, test_blocks, kzalloc, clear, all_zero, merge_part,
}
use platinum.Palloc
use platinum.Palloc.Tests.{two_pages}
use platinum.Heap.{Heap, align_size, heap_magic, kmalloc, kfree}
use platinum.Heap.Chain.{Chain, owned, kfree-Chain}
use platinum.Heap.Kmalloc.{FreshPage, KmallocSpec, kmalloc-KmallocSpec}

-- A block in use and a free one behind it.
abbrev pub two_blocks : Heap
two_blocks = record {
  blocks =
      record { address = 0x3000; magic = heap_magic; free = 0; size = 64 }
      ∷ record { address = 0x3060; magic = heap_magic; free = 1; size = 208 }
      ∷ [];
  palloc = two_pages;
}

pub two_blocks-Chain : Chain 1 two_blocks.blocks
two_blocks-Chain = (omega arith, refl, omega arith, (omega arith, refl, omega arith, tt))

pub two_blocks-FreshPage : FreshPage two_blocks
unfolding Palloc.alloc
two_blocks-FreshPage = λ h. (omega arith, (inl (omega arith), (inl (omega arith), tt)))

kmalloc-KmallocSpec_example :
    (ptr : ℕ) × (h' : Heap) × (kmalloc 40 two_blocks ≡ ok (ptr, h'))
    × KmallocSpec 40 two_blocks ptr h'
kmalloc-KmallocSpec_example =
    kmalloc-KmallocSpec 40 two_blocks (omega arith) (omega arith) two_blocks-Chain
      two_blocks-FreshPage

first_owned : 0 < owned 0x3000 64 two_blocks.blocks
unfolding owned
first_owned = omega arith

kfree-Chain_example :
    (h' : Heap) × (kfree 0x3020 two_blocks ≡ ok h')
    × Chain 1 h'.blocks
    × ((a m : ℕ)
        → owned a m two_blocks.blocks
          ≡ owned a m h'.blocks + (if (0x3020 - 32 == a) && (64 == m) then 1 else 0))
    × (h'.palloc ≡ two_blocks.palloc)
kfree-Chain_example =
    kfree-Chain 0x3020 64 two_blocks (omega arith) (omega arith) two_blocks-Chain first_owned

-- The mask of align_up has 32 bits.
align_size_cut : align_size 0x100000001 ≡ 16
unfolding align_size
align_size_cut = refl

-- heap_self_test with one free page, which has any bytes.
abbrev outcome_of : Exec (List ℕ × Heap) → List ℕ
outcome_of (ok (text, h)) = text
outcome_of halt = []
outcome_of fault = []

self_test_passes : outcome_of (self_test (initialize two_blocks) (λ a. a)) ≡ written_line "heap ok"
unfolding self_test initialize test_blocks kzalloc clear all_zero merge_part kmalloc
    platinum.Heap.find_block platinum.Heap.place platinum.Heap.grow_heap align_size
    platinum.Palloc.alloc platinum.Heap.insert_block_sorted platinum.Heap.take_block
    platinum.Heap.split_block platinum.Heap.coalesce_forward platinum.Heap.free_behind
    platinum.Heap.free_block platinum.Heap.insert_behind kfree platinum.Heap.merge_back
    platinum.Heap.release platinum.Heap.settle
self_test_passes = refl
