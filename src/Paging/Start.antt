-- ===== src/Paging/Start.antt =====
-- paging_initialize of src/kernel/paging.c as a whole.
use platinum.Prelude.{
  ℕ, zero, suc, ◌*◌, ◌/◌, ◌%◌, ◌^◌, ◌≤◌, ◌<◌, ◌≡◌, ◌⊎◌, inl, inr, refl, arith, true, false, ◌==◌,
  ltb, ok, halt, ◌>>=◌, Option-cases,
}
use native.Mathlib.Decide.{dec_lt}
use platinum.Memmap.{Memmap, get_descriptor}
use platinum.Palloc
use platinum.Palloc.{Palloc}
use platinum.Palloc.Pages.{alloc-IsWf, alloc-region_end, alloc-length}
use platinum.Palloc.Pages
use platinum.Paging
use platinum.Paging.{
  Paging, entry_address, or_flags, is_present, is_user, fill_page, alloc_table, identity_map,
  highest_below, highest_physical_end,
}
use platinum.Paging.Hierarchy.{child, step, word, leaf, free_pages, Shape, IsTree}
use platinum.Paging.Change.{same-IsTree}
use platinum.Paging.Count.{tables_for, IsIdentity, kernel_entry}
use platinum.Paging.Identity.{identity_map-Finishes}
use platinum.Paging.Empty.{
  only_top, empty_top, empty_top-palloc, empty_top-IsIdentity, only_top-used, empty_top-IsTree,
}

highest_below_bound : (n : ℕ) (m : Memmap) → highest_below n m ≤ 2 ^ 32
unfolding highest_below
highest_below_bound zero m = omega arith
highest_below_bound (suc n) m = elim (Option-cases (get_descriptor n m)) [
  | inl e ↦ rw (highest_below, e) (highest_below_bound n m)
  | inr (d, e) ↦ rw (highest_below, e) (let ih = highest_below_bound n m in ground arith)
]

highest_physical_end_bound :
    (m : Memmap) → (highest_physical_end m ≤ 2 ^ 32) × (highest_physical_end m % 4096 ≡ 0)
unfolding highest_physical_end
highest_physical_end_bound m = let h = highest_below_bound m.descriptor_count m in ground arith

-- What the kernel finds for a page, and what it does not find.
pub record IdentityMapped (root n : ℕ) (s : Paging) : Type 0 where
  pub present : (k : ℕ) → k < n → is_present (leaf root k s) ≡ true
  pub same : (k : ℕ) → k < n → entry_address (leaf root k s) ≡ k * 4096
  pub supervisor : (k : ℕ) → k < n → is_user (leaf root k s) ≡ false
  pub nothing_else : (k : ℕ) → n ≤ k → k < 2 ^ 36 → leaf root k s ≡ 0

IsIdentity-IdentityMapped :
    (root n : ℕ) (s : Paging) → n < 2 ^ 36 → IsIdentity root n s → IdentityMapped root n s
IsIdentity-IdentityMapped root n s small id = record {
  present = λ k lt. rw (mapped k lt) (kernel_entry k (omega arith)).1;
  same = λ k lt. rw (mapped k lt) (kernel_entry k (omega arith)).0;
  supervisor = λ k lt. rw (mapped k lt) (kernel_entry k (omega arith)).2;
  nothing_else = λ k le lt. let above : ltb k n ≡ false = ground arith in rw above at (id k lt);
}
  where
    mapped : (k : ℕ) → k < n → leaf root k s ≡ or_flags (k * 4096) 3
    mapped k lt = let below : ltb k n ≡ true = ground arith in rw below at (id k (omega arith))

-- The state that paging_initialize leaves.
pub record Started (m : Memmap) (root : ℕ) (s' : Paging) : Type 0 where
  pub top : s'.kernel_pml4 ≡ root
  pub active : s'.cr3 ≡ root
  pub shape : Shape
  pub tree : IsTree shape root s'
  pub mapped : IdentityMapped root (highest_physical_end m / 4096) s'

abbrev pub StartSpec : ℕ → Memmap → Paging → Type 0
StartSpec fuel m s =
    ((Paging.initialize fuel m s ≡ halt)
      × ((highest_physical_end m ≡ 0)
          ⊎ (free_pages s ≤ tables_for (highest_physical_end m / 4096))))
    ⊎ ((root : ℕ) × (s' : Paging) × (Paging.initialize fuel m s ≡ ok s') × Started m root s')

activated-Started :
    (m : Memmap) (root : ℕ) (sh : Shape) (s : Paging)
    → s.kernel_pml4 ≡ root
    → IsTree sh root s
    → IsIdentity root (highest_physical_end m / 4096) s
    → Started m root (record s { cr3 = root })
unfolding leaf word step child
activated-Started m root sh s top t id =
    let small = highest_physical_end_bound m in
    record {
      top = top;
      active = refl;
      shape = sh;
      tree = same-IsTree sh root s (record s { cr3 = root }) t refl (λ x j. (refl, refl));
      mapped =
          IsIdentity-IdentityMapped root (highest_physical_end m / 4096) (record s { cr3 = root })
            (omega arith) id;
    }

start_stops :
    (fuel : ℕ) (m : Memmap) (s : Paging)
    → (((Palloc.alloc s.palloc).0 ≡ 0) ⊎ (highest_physical_end m ≡ 0))
    → Paging.initialize fuel m s ≡ halt
unfolding Paging.initialize alloc_table
start_stops fuel m s e = ground (arith, e)

start_loops :
    (fuel : ℕ) (m : Memmap) (s : Paging)
    → 0 < (Palloc.alloc s.palloc).0
    → 0 < highest_physical_end m
    → let root = (Palloc.alloc s.palloc).0 in
      Paging.initialize fuel m s ≡ (
        identity_map fuel 0 (highest_physical_end m) (empty_top root (Palloc.alloc s.palloc).1 s)
        >>= λ s₃. ok (record s₃ { cr3 = root }))
unfolding Paging.initialize alloc_table
start_loops fuel m s pos more =
    let nz : ((Palloc.alloc s.palloc).0 == 0) ≡ false = ground arith in
    let limit : (highest_physical_end m == 0) ≡ false = ground arith in rw (nz, limit) (rw nz refl)

-- paging_initialize, with fuel for the pages below 4 GB and with a well-formed allocator whose region
-- ends at or below 2 ^ 52, ends. It stops the kernel only where the memory map has no end or where no
-- more pages are free than the tables below the top need. Otherwise it activates tables that map every page
-- below the end of memory to itself, for the kernel only, and no other page.
pub initialize-StartSpec :
    (fuel : ℕ) (m : Memmap) (s : Paging)
    → 2 ^ 20 < fuel
    → Pages.IsWf s.palloc
    → s.palloc.region_end ≤ 2 ^ 52
    → StartSpec fuel m s
initialize-StartSpec fuel m s fit w end = elim (dec_lt 0 (highest_physical_end m)) [
  | no empty ↦
      let z : highest_physical_end m ≡ 0 = omega arith in inl (start_stops fuel m s (inr z), inl z)
  | yes more ↦
      let (pages, answer) = alloc-IsWf s.palloc w in
      elim answer [
        | inl (zero_page, none_left, _) ↦
            inl (start_stops fuel m s (inl zero_page), inr (rw none_left (omega arith)))
        | inr (page, taken, others) ↦
            let root = (Palloc.alloc s.palloc).0 in
            let left = (Palloc.alloc s.palloc).1 in
            let kept = alloc-region_end s.palloc in
            let counted = alloc-length s.palloc page.positive in
            let (small, whole) = highest_physical_end_bound m in
            let used = only_top-used s.palloc left root taken others in
            let tree =
              empty_top-IsTree s root left pages (omega arith) (omega (arith, page.below))
                page.aligned page.positive used in
            let loop =
              identity_map-Finishes fuel 0 (highest_physical_end m) (only_top root) root
                (empty_top root left s) tree refl (omega arith) whole (omega arith) small
                (omega arith) (empty_top-IsIdentity root left s) in
            elim loop [
              | inl (stops, few) ↦ inl (
                rw (start_loops fuel m s page.positive more, stops) refl,
                inr (omega (arith, counted, rw (empty_top-palloc root left s) at few)),
              )
              | inr (sh', s', ends, top, t', id) ↦ inr (
                root,
                record s' { cr3 = root },
                rw (start_loops fuel m s page.positive more, ends) refl,
                activated-Started m root sh' s' top t' id,
              )
            ]
      ]
]
