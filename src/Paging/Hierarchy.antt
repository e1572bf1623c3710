-- ===== src/Paging/Hierarchy.antt =====
-- The tree of tables below a top-level table of src/kernel/paging.c, and the page that the processor
-- finds at its leaves.
use platinum.Prelude.{
  ℕ, ◌+◌, ◌/◌, ◌%◌, ◌^◌, ◌≤◌, ◌<◌, ◌≡◌, ◌⊎◌, inl, inr, refl, sym, arith, true, ◌==◌, if◌then◌else◌,
  Bool-cases, length,
}
use platinum.Palloc.Pages.{free_times}
use platinum.Palloc.Pages
use platinum.Paging.{Paging, entry_address, is_present}

-- The table that the entry `i` of the table `p` leads to, 0 where it leads nowhere.
unfoldable pub child : Paging → ℕ → ℕ → ℕ
child s p i = if is_present (s.table p i) then entry_address (s.table p i) else 0

unfoldable pub step : Paging → ℕ → ℕ → ℕ
step s p i = if p == 0 then 0 else child s p i

unfoldable pub word : Paging → ℕ → ℕ → ℕ
word s p i = if p == 0 then 0 else s.table p i

pub step-pos : (s : Paging) (p i : ℕ) → 0 < p → step s p i ≡ child s p i
unfolding step
step-pos s p i pos = ground arith

pub step-zero : (s : Paging) (i : ℕ) → step s 0 i ≡ 0
unfolding step
step-zero s i = refl

pub step-empty : (s : Paging) (p i : ℕ) → s.table p i ≡ 0 → step s p i ≡ 0
unfolding step child
step-empty s p i h = rw h (ground arith)

-- How many tables are missing at a place, and how many pages are free.
abbrev pub lack : ℕ → ℕ
lack q = if q == 0 then 1 else 0

abbrev pub free_pages : Paging → ℕ
free_pages s = length s.palloc.free_list

-- The tables on the way to the page with number `n`.
abbrev pub pdpt_of : ℕ → ℕ → Paging → ℕ
pdpt_of root n s = step s root (n / 2 ^ 27 % 512)

abbrev pub pd_of : ℕ → ℕ → Paging → ℕ
pd_of root n s = step s (pdpt_of root n s) (n / 2 ^ 18 % 512)

abbrev pub pt_of : ℕ → ℕ → Paging → ℕ
pt_of root n s = step s (pd_of root n s) (n / 2 ^ 9 % 512)

-- The last word on the way to the page with number `n`, 0 where a table is missing.
unfoldable pub leaf : ℕ → ℕ → Paging → ℕ
leaf root n s = word s (pt_of root n s) (n % 512)

-- The level of each page that is a table (4 for the top, 0 for a page that is no table), the table
-- above it and its index there.
pub record Shape : Type 0 where
  pub level : ℕ → ℕ
  pub up : ℕ → ℕ
  pub index : ℕ → ℕ

pub record IsTable (page : ℕ) : Type 0 where
  pub aligned : page % 4096 ≡ 0
  pub positive : 0 < page
  pub small : page < 2 ^ 52

pub record Leads (sh : Shape) (p i q : ℕ) : Type 0 where
  pub level : sh.level q + 1 ≡ sh.level p
  pub up : sh.up q ≡ p
  pub index : sh.index q ≡ i

-- The tables of `sh` are a tree with the top `root`, and none of them is free.
pub record IsTree (sh : Shape) (root : ℕ) (s : Paging) : Type 0 where
  pub pages : Pages.IsWf s.palloc
  pub end : s.palloc.region_end ≤ 2 ^ 52
  pub used : (p : ℕ) → 0 < free_times p s.palloc → sh.level p ≡ 0
  pub top : sh.level root ≡ 4
  pub tables : (p : ℕ) → 0 < sh.level p → IsTable p
  pub entries :
      (p i : ℕ)
      → 2 ≤ sh.level p
      → i < 512
      → is_present (s.table p i) ≡ true
      → Leads sh p i (entry_address (s.table p i))

pub child-Leads :
    (sh : Shape) (root : ℕ) (s : Paging) (p i : ℕ)
    → IsTree sh root s
    → 2 ≤ sh.level p
    → i < 512
    → (child s p i ≡ 0) ⊎ Leads sh p i (child s p i)
unfolding child
child-Leads sh root s p i t two lt = elim (Bool-cases (is_present (s.table p i))) [
  | inl h ↦ rw (child, h) (inr (t.entries p i two lt h))
  | inr h ↦ rw (child, h) (inl refl)
]

-- A step from a table of level `k + 1`, or from nowhere.
abbrev pub AtLevel : Shape → ℕ → ℕ → Type 0
AtLevel sh k q = (q ≡ 0) ⊎ (sh.level q ≡ k)

-- What `s'` adds to the tree of `s`: its last tables stay as they are, and each entry above them
-- leads where it did or, for the first time, to a page of zeros.
pub record Grows (sh : Shape) (s s' : Paging) : Type 0 where
  pub last : (x j : ℕ) → sh.level x ≡ 1 → s'.table x j ≡ s.table x j
  pub inner :
      (x j : ℕ)
      → 2 ≤ sh.level x
      → j < 512
      → (child s' x j ≡ child s x j)
        ⊎ ((child s x j ≡ 0) × ((i : ℕ) → i < 512 → s'.table (child s' x j) i ≡ 0))

-- Two ways to the same place.
abbrev Beside : Shape → ℕ → Paging → ℕ → ℕ → Type 0
Beside sh k s' q q' =
    ((q ≡ q') × AtLevel sh k q) ⊎ ((q ≡ 0) × ((i : ℕ) → i < 512 → s'.table q' i ≡ 0))

Beside-step :
    (sh : Shape) (root : ℕ) (s s' : Paging) (k q q' i : ℕ)
    → IsTree sh root s
    → Grows sh s s'
    → 1 ≤ k
    → i < 512
    → Beside sh (k + 1) s' q q'
    → Beside sh k s' (step s q i) (step s' q' i)
Beside-step sh root s s' k q q' i t g one lt b = elim b [
  | inr (e, empty) ↦ rw (e, step-zero s i) (inl (sym (step-empty s' q' i (empty i lt)), inl refl))
  | inl (e, inl z) ↦
      let z' : q' ≡ 0 = cc in rw (z, z', step-zero s i, step-zero s' i) (inl (refl, inl refl))
  | inl (e, inr l) ↦
      let pos : 0 < q = (t.tables q (omega arith)).positive in
      let old = step-pos s q i pos in
      let new = step-pos s' q' i (omega arith) in
      rw (old, new, sym e)
        (elim (g.inner q i (omega arith) lt) [
          | inl same ↦ inl (
            sym same,
            elim (child-Leads sh root s q i t (omega arith) lt) [
              | inl z ↦ inl z
              | inr leads ↦ inr (omega (arith, leads.level))
            ],
          )
          | inr (none, empty) ↦ inr (none, empty)
        ])
]

Beside-word :
    (sh : Shape) (root : ℕ) (s s' : Paging) (q q' i : ℕ)
    → IsTree sh root s
    → Grows sh s s'
    → i < 512
    → Beside sh 1 s' q q'
    → word s' q' i ≡ word s q i
unfolding word
Beside-word sh root s s' q q' i t g lt b = elim b [
  | inr (e, empty) ↦ let z = empty i lt in rw (e, z) (ground arith)
  | inl (e, inl z) ↦ let z' : q' ≡ 0 = cc in rw (z, z') refl
  | inl (e, inr l) ↦ rw (sym e, g.last q i l) refl
]

pub leaf-Grows :
    (sh : Shape) (root n : ℕ) (s s' : Paging)
    → IsTree sh root s
    → Grows sh s s'
    → leaf root n s' ≡ leaf root n s
unfolding leaf
leaf-Grows sh root n s s' t g =
    let start : Beside sh 4 s' root root = inl (refl, inr t.top) in
    let pdpt =
      Beside-step sh root s s' 3 root root (n / 2 ^ 27 % 512) t g (omega arith) (omega arith)
        start in
    let pd =
      Beside-step sh root s s' 2 _ _ (n / 2 ^ 18 % 512) t g (omega arith) (omega arith) pdpt in
    let pt = Beside-step sh root s s' 1 _ _ (n / 2 ^ 9 % 512) t g (omega arith) (omega arith) pd in
    Beside-word sh root s s' _ _ (n % 512) t g (omega arith) pt
