-- ===== src/Paging/View.antt =====
-- map_page_4k of src/kernel/paging.c against a map from page numbers to words.
use platinum.Prelude.{
  ℕ, ◌+◌, ◌/◌, ◌%◌, ◌^◌, ◌≤◌, ◌<◌, ◌≡◌, ◌⊎◌, inl, inr, refl, sym, ap, ◌∙◌, arith, Bool, true, false,
  ◌==◌, if◌then◌else◌, length, [],
}
use native.Mathlib.Decide.{dec_lt}
use platinum.Paging.{
  Paging, or_flags, write_entry, get_or_create_next, map_page_4k, pml4_index, pdpt_index, pd_index,
  pt_index,
}
use platinum.Paging.Hierarchy.{
  child, leaf, pdpt_of, pd_of, pt_of, Shape, IsTree, lack, free_pages, step-pos, leaf-Grows,
}
use platinum.Paging.Change.{write_entry-palloc}
use platinum.Paging.Grow.{get_or_create_next-Next}
use platinum.Paging.Leaves.{write-IsTree, leaf-write}
use platinum.Paging.Stay.{Linked-positive, Linked-step, pdpt_of-Grows, pd_of-Grows, pt_of-Grows}

-- The number of the page of an address, in the 48 bits that are translated.
abbrev pub page_number : ℕ → ℕ
page_number va = va / 4096 % 2 ^ 36

-- The map of `s'` is that of `s` with the word `e` at the page `n`.
abbrev pub Updated : ℕ → ℕ → ℕ → Paging → Paging → Type 0
Updated root n e s s' =
    (k : ℕ) → k < 2 ^ 36 → leaf root k s' ≡ (if k == n then e else leaf root k s)

abbrev pub Unchanged : ℕ → Paging → Paging → Type 0
Unchanged root s s' = (k : ℕ) → leaf root k s' ≡ leaf root k s

-- What one call does, where at most `m` tables are missing.
abbrev pub MapSpec : ℕ → ℕ → ℕ → ℕ → Paging → Bool × Paging → Type 0
MapSpec root n e m s r =
    (sh' : Shape) × IsTree sh' root r.1
    × (((r.0 ≡ true) × Updated root n e s r.1 × (free_pages s ≤ free_pages r.1 + m))
        ⊎ ((r.0 ≡ false) × (free_pages r.1 ≡ 0) × Unchanged root s r.1 × (free_pages s < m)))

-- How many tables are missing on the way to the page `n`.
abbrev pub missing : ℕ → ℕ → Paging → ℕ
missing root n s = lack (pdpt_of root n s) + (lack (pd_of root n s) + lack (pt_of root n s))

MapSpec-after :
    (root n e m m' c : ℕ) (s s' : Paging) (r : Bool × Paging)
    → Unchanged root s s'
    → free_pages s ≤ free_pages s' + c
    → c + m' ≤ m
    → MapSpec root n e m' s' r
    → MapSpec root n e m s r
MapSpec-after root n e m m' c s s' r same cost le (sh', t, out) = (
  sh',
  t,
  elim out [
    | inl (done, up, used) ↦ inl (done, λ k lt. let u = same k in rw (up k lt, u) refl, omega arith)
    | inr (failed, full, un, few) ↦ inr (failed, full, λ k. un k ∙ same k, omega arith)
  ],
)

lack_mono : (a b : ℕ) → (0 < a → b ≡ a) → lack b ≤ lack a
lack_mono a b h = elim (dec_lt 0 a) [
  | yes pos ↦ let e = h pos in ground arith
  | no z ↦ ground arith
]

MapSpec-full :
    (sh : Shape) (root n e m p : ℕ) (s : Paging)
    → IsTree sh root s
    → s.palloc.free_list ≡ []
    → p ≡ 0
    → lack p ≤ m
    → MapSpec root n e m s (false, s)
MapSpec-full sh root n e m p s t full z le =
    let none_left : free_pages s ≡ 0 = ap length full in
    let one : 1 ≤ m = ground arith in (sh, t, inr (refl, none_left, λ k. refl, omega arith))

-- The three parts of map_page_4k.
unfoldable map_below_pd : ℕ → ℕ → ℕ → ℕ → Paging → Bool × Paging
map_below_pd pd va pa flags s =
    let (pt, s₁) = get_or_create_next pd (pd_index va) flags s in
    if pt == 0 then (false, s₁) else (true, write_entry pt (pt_index va) (or_flags pa flags) s₁)

unfoldable map_below_pdpt : ℕ → ℕ → ℕ → ℕ → Paging → Bool × Paging
map_below_pdpt pdpt va pa flags s =
    let (pd, s₁) = get_or_create_next pdpt (pdpt_index va) flags s in
    if pd == 0 then (false, s₁) else map_below_pd pd va pa flags s₁

unfoldable map_below_pml4 : ℕ → ℕ → ℕ → ℕ → Paging → Bool × Paging
map_below_pml4 pml4 va pa flags s =
    let (pdpt, s₁) = get_or_create_next pml4 (pml4_index va) flags s in
    if pdpt == 0 then (false, s₁) else map_below_pdpt pdpt va pa flags s₁

map_page_4k-parts :
    (pml4 va pa flags : ℕ) (s : Paging)
    → map_page_4k pml4 va pa flags s ≡ map_below_pml4 pml4 va pa flags s
unfolding map_page_4k map_below_pml4 map_below_pdpt map_below_pd
map_page_4k-parts pml4 va pa flags s = refl

below_pd-MapSpec :
    (sh : Shape) (root va pa flags pd : ℕ) (s : Paging)
    → IsTree sh root s
    → sh.level pd ≡ 2
    → pd_of root (page_number va) s ≡ pd
    → MapSpec root
        (page_number va)
        (or_flags pa flags)
        (lack (pt_of root (page_number va) s))
        s
        (map_below_pd pd va pa flags s)
unfolding map_below_pd
below_pd-MapSpec sh root va pa flags pd s t two here =
    let index : page_number va / 2 ^ 9 % 512 ≡ pd_index va = omega arith in
    let old : pt_of root (page_number va) s ≡ child s pd (pd_index va) =
      rw (here, index) (step-pos s pd (pd_index va) (t.tables pd (omega arith)).positive) in
    elim (get_or_create_next-Next sh root s pd (pd_index va) flags t (omega arith) (omega arith)) [
      | inl (z, e, full, absent) ↦
          rw (z, e)
            (MapSpec-full sh root _ _ _ (pt_of root (page_number va) s) s t full (old ∙ absent)
              (omega arith))
      | inr l ↦ rw (Linked-positive sh root s _ _ _ l (omega arith)) (
          let s₁ = (get_or_create_next pd (pd_index va) flags s).1 in
          let pt = (get_or_create_next pd (pd_index va) flags s).0 in
          let there : pd_of root (page_number va) s₁ ≡ pd =
            pd_of-Grows sh root (page_number va) s s₁ t l.grows
              (rw here (t.tables pd (omega arith)).positive)
            ∙ here in
          let last : page_number va % 512 ≡ pt_index va = omega arith in
          let reached : pt_of root (page_number va) s₁ ≡ pt =
            rw (there, index) (Linked-step sh root s _ _ _ t l (omega arith)) in
          let level : l.shape.level pt ≡ 1 = omega (arith, l.level) in
          (
            l.shape,
            write-IsTree l.shape root s₁ l.tree pt (pt_index va) (or_flags pa flags) level,
            inl (
              refl,
              λ k lt.
                  (let w =
                      leaf-write l.shape root s₁ l.tree k (page_number va) (or_flags pa flags) lt
                        (omega arith) (rw reached level) in
                    rw (sym reached, sym last, w, leaf-Grows sh root k s s₁ t l.grows) refl),
              rw (write_entry-palloc pt (pt_index va) (or_flags pa flags) s₁, old) l.cost,
            ),
          ))
    ]

below_pdpt-MapSpec :
    (sh : Shape) (root va pa flags pdpt : ℕ) (s : Paging)
    → IsTree sh root s
    → sh.level pdpt ≡ 3
    → pdpt_of root (page_number va) s ≡ pdpt
    → MapSpec root
        (page_number va)
        (or_flags pa flags)
        (lack (pd_of root (page_number va) s) + lack (pt_of root (page_number va) s))
        s
        (map_below_pdpt pdpt va pa flags s)
unfolding map_below_pdpt
below_pdpt-MapSpec sh root va pa flags pdpt s t three here =
    let index : page_number va / 2 ^ 18 % 512 ≡ pdpt_index va = omega arith in
    let old : pd_of root (page_number va) s ≡ child s pdpt (pdpt_index va) =
      rw (here, index) (step-pos s pdpt (pdpt_index va) (t.tables pdpt (omega arith)).positive) in
    elim (get_or_create_next-Next sh root s pdpt (pdpt_index va) flags t (omega arith)
      (omega arith)) [
        | inl (z, e, full, absent) ↦
            rw (z, e)
              (MapSpec-full sh root _ _ _ (pd_of root (page_number va) s) s t full (old ∙ absent)
                (omega arith))
        | inr l ↦ rw (Linked-positive sh root s _ _ _ l (omega arith)) (
            let s₁ = (get_or_create_next pdpt (pdpt_index va) flags s).1 in
            let pd = (get_or_create_next pdpt (pdpt_index va) flags s).0 in
            let there : pdpt_of root (page_number va) s₁ ≡ pdpt =
              pdpt_of-Grows sh root (page_number va) s s₁ t l.grows
                (rw here (t.tables pdpt (omega arith)).positive)
              ∙ here in
            let reached : pd_of root (page_number va) s₁ ≡ pd =
              rw (there, index) (Linked-step sh root s _ _ _ t l (omega arith)) in
            let mono =
              lack_mono (pt_of root (page_number va) s) (pt_of root (page_number va) s₁)
                (pt_of-Grows sh root (page_number va) s s₁ t l.grows) in
            MapSpec-after root (page_number va) (or_flags pa flags) _ _
              (lack (pd_of root (page_number va) s)) s s₁ _
              (λ k. leaf-Grows sh root k s s₁ t l.grows) (rw old l.cost) (omega arith)
              (below_pd-MapSpec l.shape root va pa flags pd s₁ l.tree (omega (arith, l.level))
                reached))
      ]

-- map_page_4k below the root of a tree, whatever the address and the page, acts on the map from page
-- numbers to words as an update: where it succeeds, the page of the address has the new word and every
-- other page the word that it had; where it fails, no free page is left and no word has changed. The
-- tables are a tree again.
pub map_page_4k-MapSpec :
    (sh : Shape) (root va pa flags : ℕ) (s : Paging)
    → IsTree sh root s
    → MapSpec root
        (page_number va)
        (or_flags pa flags)
        (missing root (page_number va) s)
        s
        (map_page_4k root va pa flags s)
unfolding map_below_pml4
map_page_4k-MapSpec sh root va pa flags s t =
    rw (map_page_4k-parts root va pa flags s)
      let index : page_number va / 2 ^ 27 % 512 ≡ pml4_index va = omega arith in
        let old : pdpt_of root (page_number va) s ≡ child s root (pml4_index va) =
          rw index
            (step-pos s root (pml4_index va) (t.tables root (omega (arith, t.top))).positive) in
        elim (get_or_create_next-Next sh root s root (pml4_index va) flags t (omega (arith, t.top))
          (omega arith)) [
            | inl (z, e, full, absent) ↦
                rw (z, e)
                  (MapSpec-full sh root _ _ _ (pdpt_of root (page_number va) s) s t full
                    (old ∙ absent) (omega arith))
            | inr l ↦ rw (Linked-positive sh root s _ _ _ l (omega (arith, t.top))) (
                let s₁ = (get_or_create_next root (pml4_index va) flags s).1 in
                let pdpt = (get_or_create_next root (pml4_index va) flags s).0 in
                let reached : pdpt_of root (page_number va) s₁ ≡ pdpt =
                  rw index (Linked-step sh root s _ _ _ t l (omega (arith, t.top))) in
                let mono =
                  lack_mono (pt_of root (page_number va) s) (pt_of root (page_number va) s₁)
                    (pt_of-Grows sh root (page_number va) s s₁ t l.grows) in
                let mono' =
                  lack_mono (pd_of root (page_number va) s) (pd_of root (page_number va) s₁)
                    (pd_of-Grows sh root (page_number va) s s₁ t l.grows) in
                MapSpec-after root (page_number va) (or_flags pa flags) _ _
                  (lack (pdpt_of root (page_number va) s)) s s₁ _
                  (λ k. leaf-Grows sh root k s s₁ t l.grows) (rw old l.cost) (omega arith)
                  (below_pdpt-MapSpec l.shape root va pa flags pdpt s₁ l.tree
                    (omega (arith, l.level, t.top)) reached))
          ]
