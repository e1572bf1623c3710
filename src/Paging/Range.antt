-- ===== src/Paging/Range.antt =====
-- paging_user_range_mapped of src/kernel/paging.c and the pages of a range.
use platinum.Prelude.{
  ℕ, zero, suc, ◌+◌, ◌-◌, ◌*◌, ◌/◌, ◌%◌, ◌^◌, ◌≤◌, ◌<◌, ◌≡◌, ◌≢◌, ◌⊎◌, inl, inr, refl, Bool, true,
  false, Option, some, arith, ltb, ◌==◌, u64, align_down, Bool-cases, ==_iff,
}
use native.Mathlib.Decide.{dec_lt}
use platinum.Paging.{Paging, user_page_mapped, range_loop, user_range_mapped}

-- Every page from `page` to `end` is mapped for user code.
abbrev PagesMapped : ℕ → ℕ → ℕ → Paging → Type 0
PagesMapped address_space page end s =
    (q : ℕ) → page ≤ q → q ≤ end → q % 4096 ≡ 0 → user_page_mapped address_space q s ≡ true

-- The loop ends, and says whether all of the pages are mapped.
abbrev pub Decides : Option Bool → Type 0 → Type 0
Decides o P = ((o ≡ some true) × P) ⊎ ((o ≡ some false) × ¬ P)

range_loop-Decides :
    (fuel address_space page end : ℕ) (s : Paging)
    → page % 4096 ≡ 0
    → end % 4096 ≡ 0
    → page ≤ end
    → end < 2 ^ 64
    → end < page + fuel * 4096
    → Decides (range_loop fuel address_space page end s) (PagesMapped address_space page end s)
unfolding range_loop
range_loop-Decides zero a page end s pa ea le small enough = absurd (omega arith)
range_loop-Decides (suc fuel) a page end s pa ea le small enough =
    elim (Bool-cases (user_page_mapped a page s)) [
      | inr unmapped ↦
          rw (unmapped, range_loop) (inr (refl, λ all. cc (all page (omega arith) le pa)))
      | inl mapped ↦ elim (Bool-cases (page == end)) [
        | inl last ↦
            rw (mapped, last, range_loop)
              (inl (refl, λ q l h al. let e : q ≡ page = ground arith in rw e mapped))
        | inr further ↦
            let e : u64 (page + 4096) ≡ page + 4096 = ground arith in
            rw (mapped, further, e, range_loop)
              (elim (range_loop-Decides fuel a (page + 4096) end s (omega arith) ea (ground arith)
                small (omega arith)) [
                  | inl (found, rest) ↦ inl (
                    found,
                    λ q l h al. elim (Bool-cases (q == page)) [
                      | inl same ↦ rw ((==_iff _ _).0 same) mapped
                      | inr other ↦ rest q (ground arith) h al
                    ],
                  )
                  | inr (found, rest) ↦
                      inr (found, λ all. rest (λ q l h al. all q (omega arith) h al))
                ])
      ]
    ]

user_range_mapped-range_loop :
    (a va count : ℕ) (s : Paging)
    → a ≢ 0
    → 0 < count
    → va + count ≤ 2 ^ 64
    → user_range_mapped a va count s
      ≡ range_loop (count / 4096 + 2) a (align_down va) (align_down (va + (count - 1))) s
unfolding user_range_mapped
user_range_mapped-range_loop a va count s ne pos fits =
    let e : u64 (va + (count - 1)) ≡ va + (count - 1) = omega arith in
    let wrap : ltb (va + (count - 1)) va ≡ false = ground arith in
    let ne' : (a == 0) ≡ false = ground arith in
    let pos' : (count == 0) ≡ false = ground arith in rw (ne', pos', e, wrap, user_range_mapped)

-- paging_user_range_mapped on a range that does not wrap around: the loop ends within its fuel, and
-- the answer is yes exactly when every page that holds a byte of the range is mapped and open to
-- user code.
pub user_range_mapped-Decides :
    (address_space va count : ℕ) (s : Paging)
    → address_space ≢ 0
    → 0 < count
    → va + count ≤ 2 ^ 64
    → Decides (user_range_mapped address_space va count s) (
        (address : ℕ)
        → va ≤ address
        → address < va + count
        → user_page_mapped address_space (align_down address) s ≡ true)
user_range_mapped-Decides a va count s ne pos fits =
    let last : ℕ = va + (count - 1) in
    rw (user_range_mapped-range_loop a va count s ne pos fits)
      (elim (range_loop-Decides (count / 4096 + 2) a (align_down va) (align_down last) s
        (omega arith) (omega arith) (omega arith) (omega arith) (omega arith)) [
          | inl (found, all) ↦
              inl (found, λ x lo hi. all (align_down x) (omega arith) (omega arith) (omega arith))
          | inr (found, some_unmapped) ↦ inr (
            found,
            λ all. some_unmapped λ q lo hi al. elim (dec_lt q va) [
              | yes below ↦
                  let e : q ≡ align_down va = omega arith in
                  rw e (all va (omega arith) (omega arith))
              | no above ↦
                  let e : align_down q ≡ q = omega arith in
                  rw e at (all q (omega arith) (omega arith))
            ],
          )
        ])
