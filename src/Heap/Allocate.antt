-- ===== src/Heap/Allocate.antt =====
-- Taking a free block of the chain of src/kernel/heap.c for the bytes that kmalloc returns.
use platinum.Prelude.{
  ℕ, ◌+◌, ◌^◌, ◌≤◌, ◌<◌, ◌≡◌, ◌≢◌, ◌⊎◌, inl, inr, refl, true, false, not, ◌&&◌, List, [], ◌∷◌,
  arith, leb, ◌==◌, if◌then◌else◌, u64, sub64, Bool-cases, ok,
}
use platinum.Heap.{Block, heap_magic, header_size, split_block, find_block, take_block}
use platinum.Heap.Chain.{Chain, owned}

-- A free block at an address has room for `size` bytes.
abbrev pub FreeAt : ℕ → ℕ → List Block → Type 0
FreeAt address size [] = 1 ≤ 0
FreeAt address size (b ∷ bs) =
    ((b.address ≡ address) × (b.free ≢ 0) × (size ≤ b.size)) ⊎ FreeAt address size bs

-- The block at an address is in use now, with room for `size` bytes, and the others are as they were.
pub record Taken (low address size : ℕ) (bs bs' : List Block) : Type 0 where
  pub chain : Chain low bs'
  pub room : ℕ
  pub enough : size ≤ room
  pub above : low ≤ address
  pub below : address + 32 + room < 2 ^ 63
  pub counted :
      (a m : ℕ) → owned a m bs' ≡ owned a m bs + (if (address == a) && (room == m) then 1 else 0)

pub FreeAt-low :
    (low address size : ℕ) (bs : List Block) → Chain low bs → FreeAt address size bs → low ≤ address
FreeAt-low low address size [] h f = absurd (omega arith)
FreeAt-low low address size (b ∷ bs) h (inl here) = omega (arith, h.0, here.0)
FreeAt-low low address size (b ∷ bs) h (inr further) =
    omega (arith, h.0, FreeAt-low (b.address + 32 + b.size) address size bs h.3 further)

take_here :
    (low address size : ℕ) (b : Block) (bs : List Block)
    → Chain low (b ∷ bs)
    → b.address ≡ address
    → b.free ≢ 0
    → size ≤ b.size
    → Taken low address size (b ∷ bs) (take_block address size (b ∷ bs))
unfolding take_block split_block owned
take_here low address size b bs h here free fits =
    let at : (b.address == address) ≡ true = ground arith in
    elim (Bool-cases (leb b.size (u64 (size + header_size + 16)))) [
      | inl whole ↦
          rw (at, whole)
            (record {
              chain = h;
              below = omega (arith, h.2);
              room = b.size;
              enough = fits;
              above = omega (arith, h.0);
              counted = λ a m. ground arith;
            })
      | inr cut ↦
          rw (at, cut)
            (record {
              chain = cut_chain (ground (arith, h.2));
              below = ground (arith, h.2);
              room = size;
              enough = omega arith;
              above = omega (arith, h.0);
              counted = λ a m. ground arith;
            })
    ]
  where
    cut_chain :
        size + 48 < b.size
        → (low ≤ b.address)
          × (b.magic ≡ heap_magic)
          × (b.address + 32 + size < 2 ^ 63)
          × ((b.address + 32 + size ≤ u64 (b.address + header_size + size))
              × (heap_magic ≡ heap_magic)
              × (u64 (b.address + header_size + size) + 32 + sub64 (sub64 b.size size) header_size
                  < 2 ^ 63)
              × Chain
                  (u64 (b.address + header_size + size)
                    + 32
                    + sub64 (sub64 b.size size) header_size)
                  bs)
    cut_chain wide =
        let e : u64 (b.address + header_size + size) + 32 + sub64 (sub64 b.size size) header_size
            ≡ b.address + 32 + b.size =
          omega (arith, h.2) in
        rw e (h.0, h.1, omega (arith, h.2), (omega (arith, h.2), refl, h.2, h.3))

pub take_block-Taken :
    (low address size : ℕ) (bs : List Block)
    → Chain low bs
    → FreeAt address size bs
    → Taken low address size bs (take_block address size bs)
unfolding take_block owned
take_block-Taken low address size [] h f = absurd (omega arith)
take_block-Taken low address size (b ∷ bs) h (inl (at, free, fits)) =
    take_here low address size b bs h at free fits
take_block-Taken low address size (b ∷ bs) h (inr further) =
    let beyond = FreeAt-low (b.address + 32 + b.size) address size bs h.3 further in
    let other : (b.address == address) ≡ false = ground arith in
    let t = take_block-Taken (b.address + 32 + b.size) address size bs h.3 further in
    rw (other, take_block)
      (record {
        chain = (h.0, h.1, h.2, t.chain);
        room = t.room;
        below = t.below;
        enough = t.enough;
        above = omega (arith, h.0, beyond);
        counted = λ a m. omega (arith, t.counted a m);
      })

-- The search stops at the first free block with room; in a chain no header is broken.
pub find_block-FreeAt :
    (low size : ℕ) (bs : List Block)
    → Chain low bs
    → (find_block size bs ≡ ok 0) ⊎ ((a : ℕ) × (find_block size bs ≡ ok a) × FreeAt a size bs)
unfolding find_block
find_block-FreeAt low size [] h = inl refl
find_block-FreeAt low size (b ∷ bs) h =
    let good : (b.magic == heap_magic) ≡ true = ground (arith, h.1) in
    elim (Bool-cases (not (b.free == 0) && leb size b.size)) [
      | inl here ↦
          rw (good, here, find_block)
            (inr (b.address, refl, inl (refl, ground arith, ground arith)))
      | inr not_here ↦
          rw (good, not_here, find_block)
            (elim (find_block-FreeAt (b.address + 32 + b.size) size bs h.3) [
              | inl none_found ↦ inl none_found
              | inr (a, found, at) ↦ inr (a, found, inr at)
            ])
    ]
