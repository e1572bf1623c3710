-- ===== src/Palloc/Setup.antt =====
-- The free list that `palloc_initialize` builds (src/kernel/palloc.c).
use platinum.Prelude.{
  ℕ, zero, suc, ◌+◌, ◌*◌, ◌%◌, ◌^◌, ◌≤◌, ◌<◌, ◌≡◌, refl, inl, inr, arith, leb, leb→le, u64,
  Bool-cases, Option, none, some, [],
}
use platinum.Memmap.{
  Memmap, Descriptor, Region, conventional_memory, get_descriptor, find_largest_conventional_region,
}
use platinum.Memmap.Largest.{AllPlain, LargestSpec, find_largest_conventional_region_lem}
use platinum.Palloc.{Palloc, push, fill, initialize_region, initialize, low_cutoff, high_limit}
use platinum.Palloc.Pages.{IsWf, free_times}

-- The state of the loop before it takes the page at `page`: what is free lies below it.
record Filling (s : Palloc) (page : ℕ) : Type 0 where
  wf : IsWf s
  aligned : page % 4096 ≡ 0
  positive : 0 < page
  above : s.region_begin ≤ page
  lower : (a : ℕ) → 0 < free_times a s → a < page
  full : (a : ℕ) → s.region_begin ≤ a → a < page → a % 4096 ≡ 0 → free_times a s ≡ 1

-- `palloc_initialize` succeeded: the region is recorded and its pages are free, and nothing else.
pub record Filled (b e : ℕ) (s : Palloc) : Type 0 where
  pub wf : IsWf s
  pub begins : s.region_begin ≡ b
  pub ends : s.region_end ≡ e
  pub full : (a : ℕ) → a % 4096 ≡ 0 → b ≤ a → a + 4096 ≤ e → free_times a s ≡ 1

push-Filling :
    (s : Palloc) (page : ℕ)
    → Filling s page
    → page + 4096 ≤ s.region_end
    → Filling (push page s) (page + 4096)
unfolding push
push-Filling s page f h = record {
  wf = record {
    counted = ground (arith, f.wf.counted);
    unique = λ a. ground (arith, f.wf.unique a, f.lower a);
    pages = λ a k. ground (arith, f.wf.pages a);
  };
  aligned = omega (arith, f.aligned);
  positive = omega arith;
  above = omega (arith, f.above);
  lower = λ a k. ground (arith, f.lower a);
  full = λ a k l m. ground (arith, f.full a, f.lower a);
}

fill-Filled :
    (fuel page : ℕ) (s : Palloc)
    → Filling s page
    → page ≤ s.region_end
    → s.region_end < 2 ^ 63
    → s.region_end < page + fuel * 4096
    → (t : Palloc) × (fill fuel page s.region_end s ≡ some t) × Filled s.region_begin s.region_end t
unfolding fill
fill-Filled zero page s f le small enough = absurd (omega arith)
fill-Filled (suc fuel) page s f le small enough =
    let e : u64 (page + 4096) ≡ page + 4096 = omega arith in
    elim (Bool-cases (leb (page + 4096) s.region_end)) [
      | inl more ↦
          let h = leb→le _ _ more in
          rw (e, more)
            (unfold push in
              fill-Filled fuel (page + 4096) (push page s) (push-Filling s page f h) h small
                (omega arith))
      | inr done ↦
          rw (e, done)
            (
              s,
              refl,
              record {
                wf = f.wf;
                begins = refl;
                ends = refl;
                full = λ a al l m. f.full a l (ground (arith, f.aligned)) al;
              },
            )
    ]

-- `palloc_initialize` with a region of whole pages that starts above 0 and ends below 2 ^ 63: with
-- fuel for every page of the region the loop ends, the region is recorded, exactly its pages are
-- free, each of them once, and the count of free pages is right.
pub initialize_region-Filled :
    (fuel b e : ℕ)
    → 0 < b
    → b % 4096 ≡ 0
    → b ≤ e
    → e < 2 ^ 63
    → e < b + fuel * 4096
    → (t : Palloc) × (initialize_region fuel (some (record { begin = b; end = e })) ≡ some t)
      × Filled b e t
unfolding initialize_region
initialize_region-Filled fuel b e pos al le small enough =
    fill-Filled fuel b _
      (record {
        wf = record {
          counted = refl;
          unique = λ a. omega arith;
          pages = λ a h. absurd (omega arith);
        };
        aligned = al;
        positive = pos;
        above = omega arith;
        lower = λ a h. absurd (omega arith);
        full = λ a k l m. absurd (omega arith);
      })
      le small enough

-- Where a free page lies after `palloc_initialize`.
pub record IsConventional (m : Memmap) (page : ℕ) : Type 0 where
  pub index : ℕ
  pub descriptor : Descriptor
  pub listed : get_descriptor index m ≡ some descriptor
  pub conventional : descriptor.kind ≡ conventional_memory
  pub from : descriptor.physical_start ≤ page
  pub to : page + 4096 ≤ descriptor.physical_start + descriptor.number_of_pages * 4096
  pub low : low_cutoff ≤ page
  pub high : page + 4096 ≤ high_limit

abbrev no_pages : Palloc
no_pages = record { free_list = []; region_begin = 0; region_end = 0; free_page_count = 0 }

-- `palloc_initialize` on a memory map whose descriptors stay below the last page of the address
-- space, with fuel for the pages below 4 GB: the loop ends in a well-formed state, and every free
-- page is a page of conventional memory of the map between 32 MB and 4 GB.
pub initialize-IsConventional :
    (fuel : ℕ) (m : Memmap)
    → AllPlain m
    → 2 ^ 20 < fuel
    → (t : Palloc) × (initialize fuel m ≡ some t)
      × IsWf t
      × ((page : ℕ) → 0 < free_times page t → IsConventional m page)
unfolding initialize
initialize-IsConventional fuel m plain enough =
    by_region (find_largest_conventional_region low_cutoff high_limit m)
      (find_largest_conventional_region_lem low_cutoff high_limit m (omega arith) plain)
  where
    by_region :
        (o : Option Region)
        → LargestSpec low_cutoff high_limit m o
        → (t : Palloc) × (initialize_region fuel o ≡ some t)
          × IsWf t
          × ((page : ℕ) → 0 < free_times page t → IsConventional m page)
    by_region none l = (
      no_pages,
      unfold initialize_region in refl,
      record { counted = refl; unique = λ a. omega arith; pages = λ a h. absurd (omega arith) },
      λ a h. absurd (omega arith),
    )
    by_region (some r) ((i, d, listed, lies), _) =
        let (t, done, filled) =
          initialize_region-Filled fuel r.begin r.end (omega (arith, lies.above)) lies.begin_aligned
            (omega (arith, lies.not_empty)) (omega (arith, lies.below))
            (omega (arith, lies.above, lies.below)) in
        (
          t,
          done,
          filled.wf,
          λ page h.
              let p = filled.wf.pages page h in
              record {
                index = i;
                descriptor = d;
                listed = listed;
                conventional = lies.conventional;
                from = omega (arith, lies.from, p.above, filled.begins);
                to = omega (arith, lies.to, p.below, filled.ends);
                low = omega (arith, lies.above, p.above, filled.begins);
                high = omega (arith, lies.below, p.below, filled.ends);
              },
        )
