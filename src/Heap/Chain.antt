-- ===== src/Heap/Chain.antt =====
-- The chain of blocks of src/kernel/heap.c: sorted, disjoint, with intact headers, and the blocks in
-- use that kfree leaves alone.
use platinum.Prelude.{
  ℕ, ◌+◌, ◌-◌, ◌^◌, ◌%◌, ◌≤◌, ◌<◌, ◌≡◌, ◌≢◌, ◌∙◌, inl, inr, refl, Bool, true, false, ◌&&◌, List, [],
  ◌∷◌, arith, ◌==◌, if◌then◌else◌, u64, Bool-cases, Exec, ok, ◌>>=◌,
}
use platinum.Heap.{
  Block, Heap, heap_magic, is_free, blocks_touch, coalesce_forward, merge_back, release,
  free_behind, free_block, kfree,
}

-- The blocks from `low` on do not overlap, and lie below 2 ^ 63.
abbrev pub Chain : ℕ → List Block → Type 0
Chain low [] = Unit
Chain low (b ∷ bs) =
    (low ≤ b.address)
    × (b.magic ≡ heap_magic)
    × (b.address + 32 + b.size < 2 ^ 63)
    × Chain (b.address + 32 + b.size) bs

abbrev pub is_owned : ℕ → ℕ → Block → Bool
is_owned address size b = (b.free == 0) && ((b.address == address) && (b.size == size))

-- How many blocks in use have an address and a size.
unfoldable pub owned : ℕ → ℕ → List Block → ℕ
owned address size [] = 0
owned address size (b ∷ bs) = owned address size bs + (if is_owned address size b then 1 else 0)

-- A block and the next one, where they touch, make one block of the chain.
pub merged-Chain :
    (low : ℕ) (b n : Block) (bs : List Block)
    → blocks_touch b n ≡ true
    → Chain low (b ∷ n ∷ bs)
    → (u64 (b.size + 32 + n.size) ≡ b.size + 32 + n.size)
      × Chain low (record b { size = b.size + 32 + n.size } ∷ bs)
merged-Chain low b n bs touch h =
    let adjacent : n.address ≡ b.address + 32 + b.size = ground (arith, h.2) in
    let e : b.address + 32 + (b.size + 32 + n.size) ≡ n.address + 32 + n.size = omega arith in
    (omega (arith, h.3.2), (h.0, h.1, omega (arith, h.3.2), rw e h.3.3))

pub coalesce_forward-Chain :
    (low : ℕ) (b : Block) (bs : List Block) → Chain low (b ∷ bs) → Chain low (coalesce_forward b bs)
unfolding coalesce_forward
coalesce_forward-Chain low b [] h = h
coalesce_forward-Chain low b (n ∷ bs) h = elim (Bool-cases (is_free n && blocks_touch b n)) [
  | inr apart ↦ rw apart h
  | inl touch ↦
      let (e, merged) = merged-Chain low b n bs (ground arith) h in
      rw (touch, e)
        (coalesce_forward-Chain low (record b { size = b.size + 32 + n.size }) bs merged)
]

pub coalesce_forward-owned :
    (a m : ℕ) (b : Block) (bs : List Block)
    → b.free ≢ 0
    → owned a m (coalesce_forward b bs) ≡ owned a m bs
unfolding coalesce_forward owned
coalesce_forward-owned a m b [] h = ground arith
coalesce_forward-owned a m b (n ∷ bs) h = elim (Bool-cases (is_free n && blocks_touch b n)) [
  | inr apart ↦ rw apart (ground arith)
  | inl touch ↦ rw touch (
      ground
        (arith, coalesce_forward-owned a m (record b { size = u64 (b.size + 32 + n.size) }) bs h))
]

pub owned_below : (low a m : ℕ) (bs : List Block) → Chain low bs → a < low → owned a m bs ≡ 0
unfolding owned
owned_below low a m [] h lt = refl
owned_below low a m (b ∷ bs) h lt =
    let rest = owned_below (b.address + 32 + b.size) a m bs h.3 (omega (arith, h.0)) in
    ground (arith, h.0)

merge_back-Chain :
    (low : ℕ) (previous : Block) (bs : List Block)
    → Chain low (previous ∷ bs)
    → Chain low (merge_back previous bs)
unfolding merge_back
merge_back-Chain low previous [] h = h
merge_back-Chain low previous (b ∷ bs) h =
    elim (Bool-cases (is_free previous && blocks_touch previous b)) [
      | inr apart ↦ rw apart h
      | inl touch ↦ rw touch (coalesce_forward-Chain low previous (b ∷ bs) h)
    ]

merge_back-owned :
    (a m : ℕ) (previous : Block) (bs : List Block)
    → owned a m (merge_back previous bs) ≡ owned a m (previous ∷ bs)
unfolding merge_back
merge_back-owned a m previous [] = refl
merge_back-owned a m previous (b ∷ bs) =
    elim (Bool-cases (is_free previous && blocks_touch previous b)) [
      | inr apart ↦ rw apart refl
      | inl touch ↦
          let free : previous.free ≢ 0 = ground arith in
          rw touch
            (coalesce_forward-owned a m previous (b ∷ bs) free ∙ unfold owned in ground arith)
    ]

-- The block in use at an address is freed, and no other.
abbrev pub FreeSpec : ℕ → List Block → ℕ → ℕ → Exec (List Block) → Type 0
FreeSpec low bs address size r =
    (bs' : List Block) × (r ≡ ok bs')
    × Chain low bs'
    × ((a m : ℕ) → owned a m bs ≡ owned a m bs' + (if (address == a) && (size == m) then 1 else 0))

-- In a chain the block at an address is the one in use there.
owned_head :
    (low address size : ℕ) (b : Block) (bs : List Block)
    → Chain low (b ∷ bs)
    → b.address ≡ address
    → 0 < owned address size (b ∷ bs)
    → (b.free ≡ 0) × (b.size ≡ size)
unfolding owned
owned_head low address size b bs h at pos =
    let none_behind = owned_below (b.address + 32 + b.size) address size bs h.3 (omega arith) in
    ground arith

release-FreeSpec :
    (low address size : ℕ) (b : Block) (bs : List Block)
    → Chain low (b ∷ bs)
    → b.address ≡ address
    → 0 < owned address size (b ∷ bs)
    → FreeSpec low (b ∷ bs) address size (release b bs)
unfolding release owned
release-FreeSpec low address size b bs h at pos =
    let (free, same) = owned_head low address size b bs h at pos in
    let f : (b.free == 0) ≡ true = ground arith in
    let g : (b.magic == heap_magic) ≡ true = ground (arith, h.1) in
    rw (f, g)
      (
        _,
        refl,
        coalesce_forward-Chain low (record b { free = 1 }) bs h,
        λ a m. ground (arith, coalesce_forward-owned a m (record b { free = 1 }) bs (omega arith)),
      )

-- What is done behind a block, when the block is put before it again.
module _ (low address size : ℕ) (previous : Block) (g : List Block → List Block)
    (chains : (xs : List Block) → Chain low (previous ∷ xs) → Chain low (g xs))
    (counts : (a m : ℕ) (xs : List Block) → owned a m (g xs) ≡ owned a m (previous ∷ xs)) where
  FreeSpec-behind :
      (bs : List Block) (r : Exec (List Block))
      → Chain low (previous ∷ bs)
      → FreeSpec (previous.address + 32 + previous.size) bs address size r
      → FreeSpec low (previous ∷ bs) address size (r >>= λ blocks. ok (g blocks))
  FreeSpec-behind bs r h (bs', done, chain, freed) = rw done (
    g bs',
    refl,
    chains bs' (h.0, h.1, h.2, chain),
    λ a m. let c = counts a m bs' in let d = freed a m in unfold owned in ground arith,
  )

free_behind-FreeSpec :
    (low address size : ℕ) (previous : Block) (bs : List Block)
    → Chain low (previous ∷ bs)
    → 0 < owned address size bs
    → FreeSpec low (previous ∷ bs) address size (free_behind address previous bs)
unfolding free_behind
free_behind-FreeSpec low address size previous [] h pos = absurd (unfold owned in ground arith)
free_behind-FreeSpec low address size previous (b ∷ bs) h pos =
    elim (Bool-cases (b.address == address)) [
      | inl here ↦
          rw (here, free_behind)
            (FreeSpec-behind low address size previous (merge_back previous)
              (merge_back-Chain low previous) (λ a m xs. merge_back-owned a m previous xs) (b ∷ bs)
              _ h (release-FreeSpec _ address size b bs h.3 (ground arith) pos))
      | inr further ↦
          let pos' : 0 < owned address size bs = unfold owned in ground arith in
          rw (further, free_behind)
            (FreeSpec-behind low address size previous (λ xs. previous ∷ xs) (λ xs c. c)
              (λ a m xs. refl) (b ∷ bs) _ h
              (free_behind-FreeSpec (previous.address + 32 + previous.size) address size b bs h.3
                pos'))
    ]

free_block-FreeSpec :
    (low address size : ℕ) (bs : List Block)
    → Chain low bs
    → 0 < owned address size bs
    → FreeSpec low bs address size (free_block address bs)
unfolding free_block
free_block-FreeSpec low address size [] h pos = absurd (unfold owned in ground arith)
free_block-FreeSpec low address size (b ∷ bs) h pos = elim (Bool-cases (b.address == address)) [
  | inl here ↦ rw (here, free_block) (release-FreeSpec low address size b bs h (ground arith) pos)
  | inr further ↦
      let pos' : 0 < owned address size bs = unfold owned in ground arith in
      rw (further, free_block) (free_behind-FreeSpec low address size b bs h pos')
]

-- kfree of the bytes of a block in use, in a heap whose blocks have intact headers and do not overlap:
-- it does not stop the kernel, the blocks still do not overlap, that block is in use no more, every
-- other block in use is left with its address and its size, and no page changes hands.
pub kfree-Chain :
    (ptr size : ℕ) (h : Heap)
    → 32 ≤ ptr
    → ptr < 2 ^ 64
    → Chain 1 h.blocks
    → 0 < owned (ptr - 32) size h.blocks
    → (h' : Heap) × (kfree ptr h ≡ ok h')
      × Chain 1 h'.blocks
      × ((a m : ℕ)
          → owned a m h.blocks
            ≡ owned a m h'.blocks + (if (ptr - 32 == a) && (size == m) then 1 else 0))
      × (h'.palloc ≡ h.palloc)
unfolding kfree
kfree-Chain ptr size h above small chain pos =
    let e : (ptr + 2 ^ 64 - 32) % 2 ^ 64 ≡ ptr - 32 = omega arith in
    let ne : (ptr == 0) ≡ false = ground arith in
    let (bs, done, chain', freed) = free_block-FreeSpec 1 (ptr - 32) size h.blocks chain pos in
    rw (ne, e, done, kfree) (record h { blocks = bs }, refl, chain', freed, refl)
