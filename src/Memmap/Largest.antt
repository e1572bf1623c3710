-- ===== src/Memmap/Largest.antt =====
-- What `memmap_find_largest_conventional_region` finds (src/kernel/memmap.c).
use platinum.Prelude.{
  ℕ, zero, suc, ◌+◌, ◌-◌, ◌*◌, ◌/◌, ◌%◌, ◌^◌, ◌≤◌, ◌<◌, ◌≡◌, ◌⊎◌, inl, inr, refl, Option, none,
  some, arith, ltb, leb, ◌==◌, Option-cases, Bool-cases, ==_iff,
}
use native.Mathlib.Decide.{dec_lt}
use platinum.Memmap.{
  Descriptor, Memmap, Region, Best, conventional_memory, get_descriptor, clip, consider, best_below,
  find_largest_conventional_region,
}

-- No descriptor reaches into the last page of the address space.
pub record IsPlain (d : Descriptor) : Type 0 where
  pub bounded : d.physical_start + d.number_of_pages * 4096 + 4096 ≤ 2 ^ 64

-- A region of whole pages inside the window and inside the memory that a descriptor describes.
pub record Lies (minimum maximum : ℕ) (d : Descriptor) (r : Region) : Type 0 where
  pub conventional : d.kind ≡ conventional_memory
  pub begin_aligned : r.begin % 4096 ≡ 0
  pub end_aligned : r.end % 4096 ≡ 0
  pub not_empty : r.begin < r.end
  pub above : minimum ≤ r.begin
  pub below : r.end ≤ maximum
  pub from : d.physical_start ≤ r.begin
  pub to : r.end ≤ d.physical_start + d.number_of_pages * 4096

clip-Lies :
    (minimum maximum : ℕ) (d : Descriptor)
    → minimum + 4096 ≤ 2 ^ 64
    → IsPlain d
    → d.kind ≡ conventional_memory
    → (clip minimum maximum d).begin < (clip minimum maximum d).end
    → Lies minimum maximum d (clip minimum maximum d)
unfolding clip
clip-Lies minimum maximum d lo plain conv ne = ground arith

-- A region of whole pages in the window and in a conventional descriptor has at most so many pages.
clip_largest :
    (minimum maximum : ℕ) (d : Descriptor) (r : Region)
    → minimum + 4096 ≤ 2 ^ 64
    → IsPlain d
    → Lies minimum maximum d r
    → ((clip minimum maximum d).begin ≤ r.begin) × (r.end ≤ (clip minimum maximum d).end)
unfolding clip
clip_largest minimum maximum d r lo plain l = ground arith

-- What the loop knows of its best region after the descriptors below `n`.
record Leads (minimum maximum n : ℕ) (m : Memmap) (b : Best) : Type 0 where
  measured : b.pages ≡ (b.region.end - b.region.begin) / 4096
  found :
      (b.pages ≡ 0)
      ⊎ ((i : ℕ) × (d : Descriptor) × (i < n)
          × (get_descriptor i m ≡ some d)
          × Lies minimum maximum d b.region)
  best :
      (i : ℕ) (d : Descriptor) (r : Region)
      → i < n
      → get_descriptor i m ≡ some d
      → Lies minimum maximum d r
      → (r.end - r.begin) / 4096 ≤ b.pages

-- Every descriptor of the map is plain.
abbrev pub AllPlain : Memmap → Type 0
AllPlain m = (i : ℕ) (d : Descriptor) → get_descriptor i m ≡ some d → IsPlain d

module _ (minimum maximum : ℕ) (lo : minimum + 4096 ≤ 2 ^ 64) where
  consider_upper :
      (d : Descriptor) (b : Best) (r : Region)
      → IsPlain d
      → Lies minimum maximum d r
      → (r.end - r.begin) / 4096 ≤ (consider minimum maximum (some d) b).pages
  unfolding consider
  consider_upper d b r plain l = ground (arith, clip_largest minimum maximum d r lo plain l)

  consider_mono :
      (o : Option Descriptor) (b : Best) → b.pages ≤ (consider minimum maximum o b).pages
  unfolding consider
  consider_mono none b = omega arith
  consider_mono (some d) b = ground arith

  -- What the body of the loop does to the best region: it keeps it or puts a new one there.
  abbrev Kept : Descriptor → Best → Best → Type 0
  Kept d b b' =
      (b' ≡ b)
      ⊎ (Lies minimum maximum d b'.region × (b'.pages ≡ (b'.region.end - b'.region.begin) / 4096))

  consider-Kept :
      (d : Descriptor) (b : Best) → IsPlain d → Kept d b (consider minimum maximum (some d) b)
  unfolding consider
  consider-Kept d b plain = elim (Bool-cases (d.kind == conventional_memory)) [
    | inr other ↦ rw other (inl refl)
    | inl conv ↦
        let r = clip minimum maximum d in
        rw conv (elim (Bool-cases (leb r.end r.begin)) [
          | inl empty ↦ rw empty (inl refl)
          | inr some_pages ↦
              let lies =
                clip-Lies minimum maximum d lo plain ((==_iff _ _).0 conv) (ground arith) in
              rw some_pages (elim (Bool-cases (ltb b.pages ((r.end - r.begin) / 4096))) [
                | inl larger ↦ rw larger (inr (lies, refl))
                | inr smaller ↦ rw smaller (inl refl)
              ])
        ])
  ]

  module _ (n : ℕ) (m : Memmap) (b : Best) (plain : AllPlain m)
      (l : Leads minimum maximum n m b) where
    Leads-skip :
        get_descriptor n m ≡ none
        → Leads minimum maximum (suc n) m (consider minimum maximum none b)
    unfolding consider
    Leads-skip e = record {
      measured = l.measured;
      found = elim l.found [
        | inl no_pages ↦ inl no_pages
        | inr (i, d, lt, at, lies) ↦ inr (i, d, omega arith, at, lies)
      ];
      best = λ i d r h at lies. elim (dec_lt i n) [
        | yes lt ↦ l.best i d r lt at lies
        | no ge ↦ let e' : i ≡ n = omega arith in absurd (cc (e, e', at))
      ];
    }

    Leads-next :
        (d : Descriptor)
        → get_descriptor n m ≡ some d
        → Leads minimum maximum (suc n) m (consider minimum maximum (some d) b)
    Leads-next d e = record {
      measured = elim (consider-Kept d b (plain n d e)) [
        | inl kept ↦ rw kept l.measured
        | inr (lies, pages) ↦ pages
      ];
      found = elim (consider-Kept d b (plain n d e)) [
        | inr (lies, pages) ↦ inr (n, d, omega arith, e, lies)
        | inl kept ↦ rw kept (elim l.found [
          | inl no_pages ↦ inl no_pages
          | inr (i, d', lt, at, lies) ↦ inr (i, d', omega arith, at, lies)
        ])
      ];
      best = λ i d' r h at lies. elim (dec_lt i n) [
        | yes lt ↦ omega (arith, l.best i d' r lt at lies, consider_mono (some d) b)
        | no ge ↦
            let e' : i ≡ n = omega arith in
            let same : some d ≡ some d' = cc (e, e', at) in
            let same_d : d ≡ d' = cc (same) in
            rw same_d (consider_upper d' b r (plain i d' at) lies)
      ];
    }

  best_below-Leads :
      (n : ℕ) (m : Memmap) → AllPlain m → Leads minimum maximum n m (best_below n minimum maximum m)
  unfolding best_below
  best_below-Leads zero m plain = record {
    measured = omega arith;
    found = inl refl;
    best = λ i d r h e l. absurd (omega arith);
  }
  best_below-Leads (suc n) m plain = elim (Option-cases (get_descriptor n m)) [
    | inl e ↦ rw e (Leads-skip n m _ plain (best_below-Leads n m plain) e)
    | inr (d, e) ↦ rw e (Leads-next n m _ plain (best_below-Leads n m plain) d e)
  ]

-- What a search through the map may answer.
abbrev pub LargestSpec : ℕ → ℕ → Memmap → Option Region → Type 0
LargestSpec minimum maximum m (some r) =
    ((i : ℕ) × (d : Descriptor) × (get_descriptor i m ≡ some d) × Lies minimum maximum d r)
    × ((i : ℕ) (d : Descriptor) (r' : Region)
        → get_descriptor i m ≡ some d
        → Lies minimum maximum d r'
        → (r'.end - r'.begin) / 4096 ≤ (r.end - r.begin) / 4096)
LargestSpec minimum maximum m none =
    (i : ℕ) (d : Descriptor) (r' : Region)
    → get_descriptor i m ≡ some d
    → ¬ (Lies minimum maximum d r')

get_descriptor-lt :
    (i : ℕ) (m : Memmap) (d : Descriptor) → get_descriptor i m ≡ some d → i < m.descriptor_count
unfolding get_descriptor
get_descriptor-lt i m d h = ground arith

-- On a map whose descriptors stay below the last page of the address space, the region found is
-- made of whole pages of one conventional descriptor, lies in the window, and no such region has
-- more pages; 0 is returned only where there is no such region.
pub find_largest_conventional_region_lem :
    (minimum maximum : ℕ) (m : Memmap)
    → minimum + 4096 ≤ 2 ^ 64
    → AllPlain m
    → LargestSpec minimum maximum m (find_largest_conventional_region minimum maximum m)
unfolding find_largest_conventional_region
find_largest_conventional_region_lem minimum maximum m lo plain =
    let l = best_below-Leads minimum maximum lo m.descriptor_count m plain in
    elim (Bool-cases ((best_below m.descriptor_count minimum maximum m).pages == 0)) [
      | inl none_found ↦ rw none_found λ i d r at lies. omega (
        arith,
        l.best i d r (get_descriptor-lt i m d at) at lies,
        (==_iff _ _).0 none_found,
        lies.begin_aligned,
        lies.end_aligned,
        lies.not_empty,
      )
      | inr found ↦ rw found (elim l.found [
        | inl no_pages ↦ absurd (ground arith)
        | inr (i, d, lt, at, lies) ↦ (
          (i, d, at, lies),
          λ j d' r at' lies'.
              omega (arith, l.measured, l.best j d' r (get_descriptor-lt j m d' at') at' lies'),
        )
      ])
    ]
