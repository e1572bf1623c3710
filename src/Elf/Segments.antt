-- ===== src/Elf/Segments.antt =====
-- Where load_segment of src/kernel/elf.c writes, and what it writes.
use platinum.Prelude.{
  ℕ, ◌+◌, ◌-◌, ◌^◌, ◌≤◌, ◌<◌, ◌≡◌, ◌⊎◌, inl, inr, refl, true, false, some, List, [], ◌∷◌, arith,
  ltb, ◌==◌, if◌then◌else◌, u64, Bool-cases, ==_iff, All, ◌∙◌,
}
use platinum.Elf.{load_segment, load_segments, memory_zero, memory_copy}
use platinum.Elf.Format.{ProgramHeader, type_load}
use platinum.Elf.Bounds.{IsInside, LoadInside}

-- The byte that a segment puts at an offset from its start: a byte of the file, or 0 behind those.
abbrev pub segment_byte : (ℕ → ℕ) → ProgramHeader → ℕ → ℕ
segment_byte image p i = if ltb i p.filesz then image (p.offset + i) else 0

module _ (image : ℕ → ℕ) (p : ProgramHeader) (dst : ℕ) (m : ℕ → ℕ) where
  bytes_at :
      (i : ℕ)
      → p.filesz ≤ p.memsz
      → i < p.memsz
      → memory_zero
          (dst + p.filesz)
          (p.memsz - p.filesz)
          (memory_copy dst image p.offset p.filesz m)
          (dst + i)
        ≡ segment_byte image p i
  unfolding memory_zero memory_copy
  bytes_at i le lt =
      let e : dst + i - dst ≡ i = omega arith in
      elim (Bool-cases (ltb i p.filesz)) [
        | inl inside ↦ rw (e, inside, memory_zero, memory_copy) (ground arith)
        | inr behind ↦ ground arith
      ]

  bytes_off :
      (a : ℕ)
      → p.filesz ≤ p.memsz
      → (a < dst) ⊎ (dst + p.memsz ≤ a)
      → memory_zero
          (dst + p.filesz)
          (p.memsz - p.filesz)
          (memory_copy dst image p.offset p.filesz m)
          a
        ≡ m a
  unfolding memory_zero memory_copy
  bytes_off a le (inl before) = ground arith
  bytes_off a le (inr behind) = ground arith

module _ (image : ℕ → ℕ) (size low high base : ℕ) (fits : base + (high - low) < 2 ^ 64) where
  outside :
      (p : ProgramHeader) (a : ℕ)
      → IsInside size low high p
      → (a < base) ⊎ (base + (high - low) ≤ a)
      → (a < base + (p.vaddr - low)) ⊎ (base + (p.vaddr - low) + p.memsz ≤ a)
  outside p a i (inl h) = inl (omega arith)
  outside p a i (inr h) = inr (omega (arith, i.from, i.to))

  -- A segment inside the span is loaded: its bytes stand at its place in the window, all other
  -- memory is as before.
  pub load_segment-bytes :
      (p : ProgramHeader) (m : ℕ → ℕ)
      → p.kind ≡ type_load
      → IsInside size low high p
      → (m' : ℕ → ℕ) × (load_segment image p low base m ≡ some m')
        × ((i : ℕ) → i < p.memsz → m' (base + (p.vaddr - low) + i) ≡ segment_byte image p i)
        × ((a : ℕ)
            → (a < base + (p.vaddr - low)) ⊎ (base + (p.vaddr - low) + p.memsz ≤ a)
            → m' a ≡ m a)
  unfolding load_segment
  load_segment-bytes p m load inside =
      let dst : ℕ = base + (p.vaddr - low) in
      let e : u64 dst ≡ dst = omega (arith, inside.from, inside.to, inside.not_empty) in
      let k : (p.kind == type_load) ≡ true = ground arith in
      let n : ltb p.vaddr low ≡ false = ground (arith, inside.from) in
      rw (k, n, e, load_segment)
        (
          _,
          refl,
          λ i lt. bytes_at image p dst m i inside.in_memory lt,
          λ a h. bytes_off image p dst m a inside.in_memory h,
        )

  -- Loading the segments of an image that passed the checks succeeds, and writes nothing outside
  -- the load window.
  pub load_segments-window :
      (ps : List ProgramHeader) (m : ℕ → ℕ)
      → All (LoadInside size low high) ps
      → (m' : ℕ → ℕ) × (load_segments image ps low base m ≡ (true, m'))
        × ((a : ℕ) → (a < base) ⊎ (base + (high - low) ≤ a) → m' a ≡ m a)
  unfolding load_segments
  load_segments-window [] m good = (m, refl, λ a h. refl)
  load_segments-window (p ∷ ps) m good = elim (Bool-cases (p.kind == type_load)) [
    | inr other ↦
        let e : load_segment image p low base m ≡ some m =
          unfold load_segment in rw (other, load_segment) in
        rw (e, load_segments) (load_segments-window ps m good.1)
    | inl load ↦
        let inside = good.0 ((==_iff _ _).0 load) in
        let (m₁, loaded, at, off) = load_segment-bytes p m ((==_iff _ _).0 load) inside in
        let (m', rest, same) = load_segments-window ps m₁ good.1 in
        rw (loaded, load_segments) (m', rest, λ a h. same a h ∙ off a (outside p a inside h))
  ]
