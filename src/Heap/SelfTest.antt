-- ===== src/Heap/SelfTest.antt =====
-- heap_initialize, kzalloc and heap_self_test of src/kernel/heap.c. `memory` has the bytes of the blocks; the
-- self test frees the block that it has cleared, so its state is the heap alone.
use platinum.Prelude.{
  ℕ, zero, suc, ◌+◌, ◌%◌, Bool, true, false, not, ◌&&◌, ◌||◌, List, [], leb, ltb, ◌==◌,
  if◌then◌else◌, Exec, ok, ◌>>=◌,
}
use platinum.Prelude.Text.{written_line}
use platinum.Heap.{Heap, kmalloc, kfree}

unfoldable pub initialize : Heap → Heap
initialize h = record h { blocks = [] }

-- The loop of kzalloc.
unfoldable pub clear : (start count : ℕ) → (ℕ → ℕ) → ℕ → ℕ
clear start count memory a = if leb start a && ltb a (start + count) then 0 else memory a

unfoldable pub kzalloc : ℕ → Heap → (ℕ → ℕ) → Exec (ℕ × Heap × (ℕ → ℕ))
unfolding clear
kzalloc size h memory = do
  (p, h') ← kmalloc size h
  ok (p, h', if p == 0 then memory else clear p size memory)

-- `third[index] != 0u` for none of the `n` bytes from `at` on.
unfoldable pub all_zero : (n at : ℕ) → (ℕ → ℕ) → Bool
all_zero zero at memory = true
all_zero (suc n) at memory = (memory at % 256 == 0) && all_zero n (at + 1) memory

-- The blocks are freed, merged and used again.
unfoldable pub merge_part : (first second third : ℕ) → Heap → Exec (Bool × Heap)
merge_part first second third h = do
  h₁ ← kfree second h
  h₂ ← kfree first h₁
  (merged, h₃) ← kmalloc 80 h₂
  if merged == 0
      then ok (false, h₃)
      else (do h₄ ← kfree merged h₃; h₅ ← kfree third h₄; ok (true, h₅))

-- Whether it reported success, its message, and the heap.
unfoldable pub test_blocks : Heap → (ℕ → ℕ) → Exec (Bool × Heap)
unfolding kzalloc all_zero merge_part
test_blocks h memory = do
  (first, h₁) ← kmalloc 32 h
  (second, h₂) ← kmalloc 64 h₁
  (third, h₃, memory') ← kzalloc 24 h₂ memory
  if (first == 0) || (second == 0) || (third == 0)
      then ok (false, h₃)
      else if not (all_zero 24 third memory')
      then ok (false, h₃)
      else merge_part first second third h₃

-- The message and the heap behind heap_self_test.
unfoldable pub self_test : Heap → (ℕ → ℕ) → Exec (List ℕ × Heap)
unfolding test_blocks
self_test h memory = do
  (good, h') ← test_blocks h memory
  ok (if good then written_line "heap ok" else written_line "heap fail", h')
