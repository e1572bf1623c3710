-- ===== src/Palloc/Pages.antt =====
-- What the operations of src/kernel/palloc.c do to the set of free pages.
use platinum.Prelude.{
  ℕ, ◌+◌, ◌-◌, ◌%◌, ◌^◌, ◌≤◌, ◌<◌, ◌≡◌, ◌⊎◌, inl, inr, refl, true, false, none, some, List, [], ◌∷◌,
  arith, ◌==◌, if◌then◌else◌, u64, align_down, length, count, Option-cases,
}
use platinum.Palloc.{Palloc, push, alloc, free, unlink, take}

-- How often a page is free: 0 or 1 in a well-formed state.
abbrev pub free_times : ℕ → Palloc → ℕ
free_times page s = count page s.free_list

-- The pages that the allocator may hand out: whole, aligned and inside the region.
pub record IsPage (s : Palloc) (page : ℕ) : Type 0 where
  pub aligned : page % 4096 ≡ 0
  pub positive : 0 < page
  pub above : s.region_begin ≤ page
  pub below : page + 4096 ≤ s.region_end

pub record IsWf (s : Palloc) : Type 0 where
  pub counted : s.free_page_count ≡ u64 (length s.free_list)
  pub unique : (page : ℕ) → free_times page s ≤ 1
  pub pages : (page : ℕ) → 0 < free_times page s → IsPage s page

-- What taking one page off the list means for every page.
abbrev pub Removed : ℕ → List ℕ → List ℕ → Type 0
Removed page xs ys =
    (length xs ≡ length ys + 1) × ((a : ℕ) → count a xs ≡ count a ys + (if page == a then 1 else 0))

unlink-Removed : (page : ℕ) (xs ys : List ℕ) → unlink page xs ≡ some ys → Removed page xs ys
unfolding unlink
unlink-Removed page [] ys h = cc
unlink-Removed page (x ∷ xs) ys h = elim (Option-cases (unlink page xs)) [
  | inl e ↦ (ground (arith), λ a. ground (arith))
  | inr (r, e) ↦
      let ih = unlink-Removed page xs r e in (ground (arith, ih.0), λ a. ground (arith, ih.1 a))
]

unlink-none : (page : ℕ) (xs : List ℕ) → unlink page xs ≡ none → count page xs ≡ 0
unfolding unlink
unlink-none page [] h = refl
unlink-none page (x ∷ xs) h = ground (arith, unlink-none page xs)

Removed-IsWf :
    (s : Palloc) (page : ℕ) (rest : List ℕ)
    → IsWf s
    → Removed page s.free_list rest
    → IsWf
        (record s { free_list = rest; free_page_count = (s.free_page_count + 2 ^ 64 - 1) % 2 ^ 64 })
Removed-IsWf s page rest w r = record {
  counted = omega (arith, w.counted, r.0);
  unique = λ a. omega (arith, w.unique a, r.1 a);
  pages = λ a h. let p = w.pages a (omega (arith, r.1 a)) in omega arith;
}

-- One page more or less in the view of a list.
abbrev pub AllocSpec : Palloc → Type 0
AllocSpec s =
    IsWf (alloc s).1
    × ((((alloc s).0 ≡ 0) × (s.free_list ≡ []) × ((alloc s).1 ≡ s))
        ⊎ (IsPage s (alloc s).0
            × (free_times (alloc s).0 s ≡ 1)
            × ((a : ℕ)
                → free_times a s ≡ free_times a (alloc s).1 + (if (alloc s).0 == a then 1 else 0))))

alloc_by_list :
    (xs : List ℕ) (b e c : ℕ)
    → IsWf (record { free_list = xs; region_begin = b; region_end = e; free_page_count = c })
    → AllocSpec (record { free_list = xs; region_begin = b; region_end = e; free_page_count = c })
unfolding alloc
alloc_by_list [] b e c w = (w, inl (refl, refl, refl))
alloc_by_list (x ∷ xs) b e c w = (
  Removed-IsWf _ x xs w (omega arith, λ a. omega arith),
  inr (w.pages x (ground arith), ground (arith, w.unique x), λ a. omega arith),
)

-- `palloc_alloc` keeps the state well-formed. It returns 0, and changes nothing, when no page is
-- free; otherwise it returns a page of the region that was free, and that page alone is free no
-- more.
pub alloc-IsWf : (s : Palloc) → IsWf s → AllocSpec s
alloc-IsWf s = alloc_by_list s.free_list s.region_begin s.region_end s.free_page_count

alloc_cases :
    (s : Palloc)
    → ((alloc s).1.region_end ≡ s.region_end)
      × (0 < (alloc s).0 → length s.free_list ≡ length (alloc s).1.free_list + 1)
unfolding alloc
alloc_cases s = elim (list_cases s.free_list) [
  | inl e ↦ rw e (refl, λ h. absurd (omega arith))
  | inr (x, xs, e) ↦ rw e (refl, λ h. omega arith)
]
  where
    list_cases : (xs : List ℕ) → (xs ≡ []) ⊎ ((x : ℕ) × (rest : List ℕ) × (xs ≡ x ∷ rest))
    list_cases [] = inl refl
    list_cases (x ∷ xs) = inr (x, xs, refl)

pub alloc-region_end : (s : Palloc) → (alloc s).1.region_end ≡ s.region_end
alloc-region_end s = (alloc_cases s).0

pub alloc-length :
    (s : Palloc) → 0 < (alloc s).0 → length s.free_list ≡ length (alloc s).1.free_list + 1
alloc-length s = (alloc_cases s).1

-- `palloc_free` keeps the state well-formed where it is given a page of the region that is not
-- free, and makes that page alone free.
pub free-IsWf :
    (s : Palloc) (page : ℕ)
    → IsWf s
    → IsPage s page
    → free_times page s ≡ 0
    → IsWf (free page s)
      × ((a : ℕ) → free_times a (free page s) ≡ free_times a s + (if page == a then 1 else 0))
unfolding free push
free-IsWf s page w p out = (
  record {
    counted = ground (arith, w.counted);
    unique = λ a. ground (arith, w.unique a);
    pages = λ a h. ground (arith, w.pages a);
  },
  λ a. ground arith,
)

-- `palloc_take` keeps the state well-formed. It succeeds exactly when the page that holds the
-- address is free, and then takes that page and no other; it changes nothing when it fails.
pub take-IsWf :
    (s : Palloc) (address : ℕ)
    → IsWf s
    → IsWf (take address s).1
      × ((((take address s).0 ≡ false)
            × (free_times (align_down address) s ≡ 0)
            × ((take address s).1 ≡ s))
          ⊎ (((take address s).0 ≡ true)
              × ((a : ℕ)
                  → free_times a s
                    ≡ free_times a (take address s).1
                      + (if align_down address == a then 1 else 0))))
unfolding take
take-IsWf s address w = elim (Option-cases (unlink (align_down address) s.free_list)) [
  | inl e ↦ rw (e, take) (w, inl (refl, unlink-none _ _ e, refl))
  | inr (r, e) ↦
      let removed = unlink-Removed _ _ r e in
      rw (e, take) (Removed-IsWf s _ r w removed, inr (refl, removed.1))
]
