-- ===== src/Elf/Claim.antt =====
-- The pages of the load window of src/kernel/elf.c, and their claim in the page allocator.
use platinum.Prelude.{
  ℕ, zero, suc, ◌+◌, ◌-◌, ◌*◌, ◌/◌, ◌%◌, ◌^◌, ◌≤◌, ◌<◌, ◌≡◌, ◌⊎◌, inl, inr, refl, Bool, true, false,
  ◌&&◌, some, List, [], ◌∷◌, ◌++◌, arith, leb, ltb, ◌==◌, if◌then◌else◌, u64, align_down,
  Bool-cases, All, count,
}
use platinum.Palloc
use platinum.Palloc.{Palloc}
use platinum.Palloc.Pages.{IsWf, free_times, take-IsWf}
use platinum.Elf.{page_in_range, window_loop, window, free_pages, claim_loop, claim_window_pages}

-- The pages from `begin` on, below `end`.
abbrev pub in_window : ℕ → ℕ → ℕ → Bool
in_window begin end a = leb begin a && ltb a end && (a % 4096 == 0)

window_loop-count :
    (fuel page end : ℕ)
    → page % 4096 ≡ 0
    → end + 4096 ≤ 2 ^ 64
    → end ≤ page + (fuel - 1) * 4096
    → 0 < fuel
    → (ps : List ℕ) × (window_loop fuel page end ≡ some ps)
      × ((a : ℕ) → count a ps ≡ (if in_window page end a then 1 else 0))
      × (0 < page → All (λ p. (0 < p) × (p % 4096 ≡ 0)) ps)
unfolding window_loop
window_loop-count zero page end al fits enough pos = absurd (omega arith)
window_loop-count (suc fuel) page end al fits enough pos = elim (Bool-cases (ltb page end)) [
  | inr past ↦ rw (past, window_loop) ([], refl, λ a. ground arith, λ z. tt)
  | inl more ↦
      let e : u64 (page + 4096) ≡ page + 4096 = ground arith in
      let (ps, found, counts, good) =
        window_loop-count fuel (page + 4096) end (omega arith) fits (ground arith) (ground arith) in
      rw (more, e, found, window_loop)
        (page ∷ ps, refl, λ a. ground (arith, counts a), λ z. ((z, al), good (omega arith)))
]

-- The loop over the pages of a window that ends below the last page of the address space ends, and
-- visits exactly the pages of the window, each once.
pub window-count :
    (begin end : ℕ)
    → begin % 4096 ≡ 0
    → end + 4096 ≤ 2 ^ 64
    → (ps : List ℕ) × (window begin end ≡ some ps)
      × ((a : ℕ) → count a ps ≡ (if in_window begin end a then 1 else 0))
      × (0 < begin → All (λ p. (0 < p) × (p % 4096 ≡ 0)) ps)
unfolding window
window-count begin end al fits =
    window_loop-count ((end - begin + 4095) / 4096 + 1) begin end al fits (omega arith)
      (omega arith)

module _ (rb re : ℕ) where
  -- How often a page of a list is to be claimed: not at all where it lies in the reusable range.
  unfoldable pub needed : ℕ → List ℕ → ℕ
  needed a [] = 0
  needed a (p ∷ ps) = (if page_in_range p rb re then 0 else if p == a then 1 else 0) + needed a ps

  needed-append : (a : ℕ) (xs ys : List ℕ) → needed a (xs ++ ys) ≡ needed a xs + needed a ys
  unfolding needed
  needed-append a [] ys = omega arith
  needed-append a (x ∷ xs) ys = omega (arith, needed-append a xs ys)

  -- Giving a list of pages back makes those free that lie outside the reusable range.
  pub free_pages-count :
      (ps : List ℕ) (p : Palloc)
      → All (λ q. (0 < q) × (q % 4096 ≡ 0)) ps
      → (a : ℕ) → free_times a (free_pages rb re ps p) ≡ free_times a p + needed a ps
  unfolding free_pages needed Palloc.free
  free_pages-count [] p good a = omega arith
  free_pages-count (q ∷ ps) p good a =
      let rest =
        free_pages-count ps (if page_in_range q rb re then p else Palloc.free q p) good.1 a in
      ground (arith, rest)

  -- Both outcomes of a claim, against the free pages before it.
  abbrev pub ClaimSpec : List ℕ → List ℕ → Palloc → Bool × Palloc → Type 0
  ClaimSpec taken ps p (done, q) =
      ((done ≡ true) × IsWf q × ((a : ℕ) → free_times a p ≡ free_times a q + needed a ps))
      ⊎ ((done ≡ false)
          × ((a : ℕ) → free_times a q ≡ free_times a p + needed a taken)
          × ((a : ℕ) × (free_times a p < needed a ps)))

  claim_reused :
      (taken : List ℕ) (page : ℕ) (ps : List ℕ) (p : Palloc) (r : Bool × Palloc)
      → page_in_range page rb re ≡ true
      → ClaimSpec (taken ++ page ∷ []) ps p r
      → ClaimSpec taken (page ∷ ps) p r
  unfolding needed
  claim_reused taken page ps p r reused (inl (done, w, counts)) =
      inl (done, w, λ a. ground (arith, counts a))
  claim_reused taken page ps p r reused (inr (failed, counts, (a, missing))) =
      inr (
        failed,
        λ b. ground (arith, counts b, needed-append b taken (page ∷ [])),
        (a, ground arith),
      )

  claim_taken :
      (taken : List ℕ) (page : ℕ) (ps : List ℕ) (p p' : Palloc) (r : Bool × Palloc)
      → page_in_range page rb re ≡ false
      → ((a : ℕ) → free_times a p ≡ free_times a p' + (if page == a then 1 else 0))
      → ClaimSpec (taken ++ page ∷ []) ps p' r
      → ClaimSpec taken (page ∷ ps) p r
  unfolding needed
  claim_taken taken page ps p p' r fresh took (inl (done, w, counts)) =
      inl (done, w, λ a. ground (arith, took a, counts a))
  claim_taken taken page ps p p' r fresh took (inr (failed, counts, (a, missing))) = inr (
    failed,
    λ b. ground (arith, took b, counts b, needed-append b taken (page ∷ [])),
    (a, ground (arith, took a)),
  )

  needs :
      (page : ℕ) (ps : List ℕ) (p : Palloc)
      → page_in_range page rb re ≡ false
      → free_times page p ≡ 0
      → free_times page p < needed page (page ∷ ps)
  unfolding needed
  needs page ps p fresh out = ground arith

  All-append :
      (xs : List ℕ) (x : ℕ)
      → All (λ q. (0 < q) × (q % 4096 ≡ 0)) xs
      → (0 < x) × (x % 4096 ≡ 0)
      → All (λ q. (0 < q) × (q % 4096 ≡ 0)) (xs ++ x ∷ [])
  All-append [] x h good = (good, tt)
  All-append (y ∷ xs) x h good = (h.0, All-append xs x h.1 good)

  claim_loop-ClaimSpec :
      (taken ps : List ℕ) (p : Palloc)
      → IsWf p
      → All (λ q. (0 < q) × (q % 4096 ≡ 0)) taken
      → All (λ q. (0 < q) × (q % 4096 ≡ 0)) ps
      → ClaimSpec taken ps p (claim_loop rb re taken ps p)
  unfolding claim_loop
  claim_loop-ClaimSpec taken [] p w gt good = unfold needed in inl (refl, w, λ a. omega arith)
  claim_loop-ClaimSpec taken (page ∷ ps) p w gt good =
      let gt' = All-append taken page gt good.0 in
      elim (Bool-cases (page_in_range page rb re)) [
        | inl reused ↦
            rw (reused, claim_loop)
              (claim_reused taken page ps p _ reused
                (claim_loop-ClaimSpec (taken ++ page ∷ []) ps p w gt' good.1))
        | inr fresh ↦
            let e : align_down page ≡ page = omega (arith, good.0.1) in
            let (w', cases) = take-IsWf p page w in
            elim cases [
              | inl (failed, out, same) ↦
                  rw (fresh, failed, same, claim_loop)
                    (inr (
                      refl,
                      free_pages-count taken p gt,
                      (page, needs page ps p fresh (rw e at out)),
                    ))
              | inr (done, counts) ↦
                  rw (fresh, done, claim_loop)
                    (claim_taken taken page ps p (Palloc.take page p).1 _ fresh (rw e at counts)
                      (claim_loop-ClaimSpec (taken ++ page ∷ []) ps _ w' gt' good.1))
            ]
      ]

-- claim_window_pages on a window of whole pages that starts above 0 and ends below the last page of
-- the address space, from a well-formed allocator: the loops end, and the claim is all or nothing.
-- Either it succeeds, and it has taken exactly the pages of the window outside the reusable range,
-- each of which was free; or it fails, as many times as before is every page free, and some page of
-- the window outside the reusable range was not free.
pub claim_window_pages-ClaimSpec :
    (begin end rb re : ℕ) (p : Palloc)
    → IsWf p
    → 0 < begin
    → begin % 4096 ≡ 0
    → end + 4096 ≤ 2 ^ 64
    → (ps : List ℕ) × (r : Bool × Palloc) × ((a : ℕ)
        → count a ps ≡ (if in_window begin end a then 1 else 0))
      × (claim_window_pages begin end rb re p ≡ some r)
      × ClaimSpec rb re [] ps p r
unfolding claim_window_pages
claim_window_pages-ClaimSpec begin end rb re p w pos al fits =
    let (ps, found, counts, good) = window-count begin end al fits in
    (
      ps,
      claim_loop rb re [] ps p,
      counts,
      rw (found, claim_window_pages),
      claim_loop-ClaimSpec rb re [] ps p w tt (good pos),
    )
