-- ===== src/Heap/Grow.antt =====
-- A new free block in the chain of src/kernel/heap.c.
use platinum.Prelude.{
  ℕ, ◌+◌, ◌^◌, ◌≤◌, ◌<◌, ◌≡◌, ◌≢◌, ◌⊎◌, inl, inr, refl, true, ◌&&◌, List, [], ◌∷◌, arith, ltb,
  Bool-cases,
}
use platinum.Heap.{
  Block, heap_magic, is_free, blocks_touch, coalesce_forward, settle, insert_behind,
  insert_block_sorted,
}
use platinum.Heap.Chain.{Chain, merged-Chain, owned, coalesce_forward-Chain, coalesce_forward-owned}
use platinum.Heap.Allocate.{FreeAt}

-- No block of the chain overlaps the block.
abbrev pub Apart : Block → List Block → Type 0
Apart b [] = Unit
Apart b (c ∷ bs) =
    ((c.address + 32 + c.size ≤ b.address) ⊎ (b.address + 32 + b.size ≤ c.address)) × Apart b bs

coalesce_forward-FreeAt :
    (size : ℕ) (b : Block) (low : ℕ) (bs : List Block)
    → Chain low (b ∷ bs)
    → b.free ≢ 0
    → size ≤ b.size
    → FreeAt b.address size (coalesce_forward b bs)
unfolding coalesce_forward
coalesce_forward-FreeAt size b low [] h free fits = inl (refl, free, fits)
coalesce_forward-FreeAt size b low (n ∷ bs) h free fits =
    elim (Bool-cases (is_free n && blocks_touch b n)) [
      | inr apart ↦ rw apart (inl (refl, free, fits))
      | inl touch ↦
          let (e, merged) = merged-Chain low b n bs (ground arith) h in
          rw (touch, e)
            (coalesce_forward-FreeAt size (record b { size = b.size + 32 + n.size }) low bs merged
              free (omega arith))
    ]

-- The chain with one free block more: nothing in use changes, and the free block that the address
-- names has room.
pub record Inserted (low size : ℕ) (bs : List Block) (r : ℕ × List Block) : Type 0 where
  pub chain : Chain low r.1
  pub counted : (a m : ℕ) → owned a m r.1 ≡ owned a m bs
  pub free_there : FreeAt r.0 size r.1

settle_merge :
    (low : ℕ) (previous b : Block) (bs : List Block)
    → Chain low (previous ∷ b ∷ bs)
    → b.free ≢ 0
    → (is_free previous && blocks_touch previous b) ≡ true
    → Inserted low b.size (previous ∷ bs) (previous.address, coalesce_forward previous (b ∷ bs))
unfolding owned
settle_merge low previous b bs h free touch =
    let previous_free : previous.free ≢ 0 = ground arith in
    let joined : (is_free b && blocks_touch previous b) ≡ true = ground (arith, h.3.1) in
    let (e, merged) = merged-Chain low previous b bs (ground arith) h in
    record {
      chain = coalesce_forward-Chain low previous (b ∷ bs) h;
      counted =
          λ a m. let c = coalesce_forward-owned a m previous (b ∷ bs) previous_free in ground arith;
      free_there =
          unfold coalesce_forward in
          rw (joined, e)
            (coalesce_forward-FreeAt b.size (record previous { size = previous.size + 32 + b.size })
              low bs merged previous_free (omega arith));
    }

settle-Inserted :
    (low : ℕ) (previous b : Block) (bs : List Block)
    → Chain low (previous ∷ b ∷ bs)
    → b.free ≢ 0
    → Inserted low b.size (previous ∷ bs) (settle previous b bs)
unfolding settle owned
settle-Inserted low previous b bs h free =
    elim (Bool-cases (is_free previous && blocks_touch previous b)) [
      | inl touch ↦ rw touch (settle_merge low previous b bs h free touch)
      | inr apart ↦ rw apart (record {
        chain = (h.0, h.1, h.2, coalesce_forward-Chain _ b bs h.3);
        counted = λ a m. omega (arith, coalesce_forward-owned a m b bs free);
        free_there = inr (coalesce_forward-FreeAt b.size b _ bs h.3 free (omega arith));
      })
    ]

insert_behind-Inserted :
    (low : ℕ) (previous b : Block) (bs : List Block)
    → Chain low (previous ∷ bs)
    → previous.address + 32 + previous.size ≤ b.address
    → b.magic ≡ heap_magic
    → b.free ≢ 0
    → b.address + 32 + b.size < 2 ^ 63
    → Apart b bs
    → Inserted low b.size (previous ∷ bs) (insert_behind previous b bs)
unfolding insert_behind owned
insert_behind-Inserted low previous b [] h behind good free small apart =
    settle-Inserted low previous b [] (h.0, h.1, h.2, (behind, good, small, tt)) free
insert_behind-Inserted low previous b (c ∷ bs) h behind good free small apart =
    elim (Bool-cases (ltb c.address b.address)) [
      | inl before ↦
          let later =
            insert_behind-Inserted (previous.address + 32 + previous.size) c b bs h.3
              (ground (arith, apart.0)) good free small apart.1 in
          rw (before, insert_behind)
            (record {
              chain = (h.0, h.1, h.2, later.chain);
              counted = λ a m. omega (arith, later.counted a m);
              free_there = inr later.free_there;
            })
      | inr after ↦
          rw (after, insert_behind)
            (settle-Inserted low previous b (c ∷ bs)
              (h.0, h.1, h.2, (behind, good, small, (ground (arith, apart.0), h.3.1, h.3.2, h.3.3)))
              free)
    ]

-- insert_block_sorted puts a block that overlaps no other where it belongs.
pub insert_block_sorted-Inserted :
    (b : Block) (bs : List Block)
    → Chain 1 bs
    → 1 ≤ b.address
    → b.magic ≡ heap_magic
    → b.free ≢ 0
    → b.address + 32 + b.size < 2 ^ 63
    → Apart b bs
    → Inserted 1 b.size bs (insert_block_sorted b bs)
unfolding insert_block_sorted owned
insert_block_sorted-Inserted b [] h pos good free small apart = record {
  chain = (pos, good, small, tt);
  counted = λ a m. ground arith;
  free_there = inl (refl, free, omega arith);
}
insert_block_sorted-Inserted b (c ∷ bs) h pos good free small apart =
    elim (Bool-cases (ltb c.address b.address)) [
      | inl before ↦
          rw (before, insert_block_sorted)
            (insert_behind-Inserted 1 c b bs h (ground (arith, apart.0)) good free small apart.1)
      | inr after ↦
          let chain : Chain 1 (b ∷ c ∷ bs) =
            (pos, good, small, (ground (arith, apart.0), h.1, h.2, h.3)) in
          rw (after, insert_block_sorted)
            (record {
              chain = coalesce_forward-Chain 1 b (c ∷ bs) chain;
              counted = λ a m. coalesce_forward-owned a m b (c ∷ bs) free;
              free_there = coalesce_forward-FreeAt b.size b 1 (c ∷ bs) chain free (omega arith);
            })
    ]
