-- ===== src/Memmap/Parse.antt =====
-- The counts of memmap_parse in src/kernel/memmap.c.
use platinum.Prelude.{
  ℕ, zero, suc, ◌+◌, ◌*◌, ◌/◌, ◌^◌, ◌≤◌, ◌<◌, ◌≡◌, refl, ap, ◌∙◌, true, false, some, leb, ◌==◌,
  if◌then◌else◌, u64, arith, Bool-cases, inl, inr,
}
use native.Mathlib.Nat.{add-mul, le-div_iff_mul-le}
use platinum.Memmap.{Descriptor, Memmap, conventional_memory, tally, parse_loop, parse}

-- Of `n` descriptors from the `i`-th on, how many are conventional memory, and their pages.
abbrev pub regions_from : ℕ → (ℕ → Descriptor) → ℕ → ℕ → ℕ
regions_from size at i zero = 0
regions_from size at i (suc n) =
    (if (at (i * size)).kind == conventional_memory then 1 else 0) + regions_from size at (i + 1) n

abbrev pub pages_from : ℕ → (ℕ → Descriptor) → ℕ → ℕ → ℕ
pages_from size at i zero = 0
pages_from size at i (suc n) =
    (if (at (i * size)).kind == conventional_memory then (at (i * size)).number_of_pages else 0)
    + pages_from size at (i + 1) n

tally-counts :
    (d : Descriptor) (m : Memmap)
    → m.conventional_region_count < 2 ^ 64
    → m.conventional_page_count < 2 ^ 64
    → ((tally d m).conventional_region_count
        ≡ u64 (m.conventional_region_count + (if d.kind == conventional_memory then 1 else 0)))
      × ((tally d m).conventional_page_count
          ≡ u64 (
              m.conventional_page_count
              + (if d.kind == conventional_memory then d.number_of_pages else 0)))
unfolding tally
tally-counts d m r p = ground arith

tally-kept :
    (d : Descriptor) (m : Memmap)
    → ((tally d m).at ≡ m.at)
      × ((tally d m).descriptor_size ≡ m.descriptor_size)
      × ((tally d m).size_used ≡ m.size_used)
      × ((tally d m).descriptor_count ≡ m.descriptor_count)
unfolding tally
tally-kept d m = elim (Bool-cases (d.kind == conventional_memory)) [
  | inl e ↦ rw e (refl, refl, refl, refl)
  | inr e ↦ rw e (refl, refl, refl, refl)
]

-- One round of the loop.
parse_round :
    (fuel size used offset : ℕ) (at : ℕ → Descriptor) (m : Memmap)
    → m.descriptor_size ≡ size
    → m.size_used ≡ used
    → m.at ≡ at
    → parse_loop (suc fuel) offset m ≡ (
        if leb (u64 (offset + size)) used
        then parse_loop fuel (u64 (offset + size)) (tally (at offset) m)
        else some m)
unfolding parse_loop
parse_round fuel size used offset at m es eu ea =
    ap
      (λ z.
        if leb (u64 (offset + z)) m.size_used
        then parse_loop fuel (u64 (offset + z)) (tally (m.at offset) m)
        else some m)
      es
    ∙ ap
        (λ z.
          if leb (u64 (offset + size)) z
          then parse_loop fuel (u64 (offset + size)) (tally (m.at offset) m)
          else some m)
        eu
    ∙ ap
        (λ f.
          if leb (u64 (offset + size)) used
          then parse_loop fuel (u64 (offset + size)) (tally (f offset) m)
          else some m)
        ea

parse_loop-Counted :
    (fuel size used i n : ℕ) (at : ℕ → Descriptor) (m : Memmap)
    → m.descriptor_size ≡ size
    → m.size_used ≡ used
    → m.at ≡ at
    → 0 < size
    → used + size < 2 ^ 64
    → m.conventional_region_count < 2 ^ 64
    → m.conventional_page_count < 2 ^ 64
    → i + n ≡ used / size
    → n < fuel
    → (m' : Memmap) × (parse_loop fuel (i * size) m ≡ some m')
      × (m'.conventional_region_count
          ≡ u64 (m.conventional_region_count + regions_from size at i n))
      × (m'.conventional_page_count ≡ u64 (m.conventional_page_count + pages_from size at i n))
      × (m'.descriptor_count ≡ m.descriptor_count)
unfolding parse_loop
parse_loop-Counted zero size used i n at m es eu ea pos fits r p e lt = absurd (omega arith)
parse_loop-Counted (suc fuel) size used i zero at m es eu ea pos fits r p e lt =
    let below : i * size ≤ used = (le-div_iff_mul-le pos).0 (omega arith) in
    let next : u64 (i * size + size) ≡ (i + 1) * size = omega (arith, add-mul i 1 size) in
    let stop : leb ((i + 1) * size) used ≡ false = elim (Bool-cases (leb ((i + 1) * size) used)) [
      | inl h ↦
          let more : i + 1 ≤ used / size = (le-div_iff_mul-le pos).1 (ground arith) in
          absurd (omega arith)
      | inr h ↦ h
    ] in
    rw (parse_round fuel size used (i * size) at m es eu ea, next, stop)
      (m, refl, omega arith, omega arith, refl)
parse_loop-Counted (suc fuel) size used i (suc n) at m es eu ea pos fits r p e lt =
    let here : (i + 1) * size ≤ used = (le-div_iff_mul-le pos).0 (omega arith) in
    let next : u64 (i * size + size) ≡ (i + 1) * size = omega (arith, add-mul i 1 size) in
    let go : leb ((i + 1) * size) used ≡ true = ground arith in
    let (at_kept, size_kept, used_kept, count_kept) = tally-kept (at (i * size)) m in
    let (regions, pages) = tally-counts (at (i * size)) m r p in
    let (m', ends, regions', pages', count') =
      parse_loop-Counted fuel size used (i + 1) n at (tally (at (i * size)) m) (size_kept ∙ es)
        (used_kept ∙ eu) (at_kept ∙ ea) pos fits (omega (arith, regions)) (omega (arith, pages))
        (omega arith) (omega arith) in
    rw (parse_round fuel size used (i * size) at m es eu ea, next, go)
      (
        m',
        ends,
        omega (arith, regions', regions),
        omega (arith, pages', pages),
        count' ∙ count_kept,
      )

-- memmap_parse, for descriptors of at least one byte and sizes that do not reach the end of size_t
-- together, with fuel for one round more than there are descriptors, ends. It counts the whole
-- descriptors of the map, and of these the ones of conventional memory and their pages.
pub parse-counts :
    (fuel used size version : ℕ) (at : ℕ → Descriptor)
    → 0 < size
    → used + size < 2 ^ 64
    → used / size < fuel
    → (m' : Memmap) × (parse fuel used size version at ≡ some m')
      × (m'.conventional_region_count ≡ u64 (regions_from size at 0 (used / size)))
      × (m'.conventional_page_count ≡ u64 (pages_from size at 0 (used / size)))
      × (m'.descriptor_count ≡ used / size)
unfolding parse
parse-counts fuel used size version at pos fits lt =
    let some_size : (size == 0) ≡ false = ground arith in
    let m : Memmap = record {
      at = at;
      size_used = used;
      descriptor_size = size;
      descriptor_version = version;
      descriptor_count = used / size;
      conventional_region_count = 0;
      conventional_page_count = 0;
    } in
    let (m', ends, regions, pages, count) =
      parse_loop-Counted fuel size used 0 (used / size) at m refl refl refl pos fits (omega arith)
        (omega arith) (omega arith) lt in
    let start : 0 * size ≡ 0 = omega arith in
    rw some_size (m', rw start at ends, omega (arith, regions), omega (arith, pages), count)
