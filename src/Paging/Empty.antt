-- ===== src/Paging/Empty.antt =====
-- The tree with which paging_initialize of src/kernel/paging.c starts.
use platinum.Prelude.{ℕ, ◌+◌, ◌/◌, ◌%◌, ◌^◌, ◌≤◌, ◌<◌, ◌≡◌, ◌≢◌, refl, arith, ◌==◌, if◌then◌else◌}
use platinum.Palloc.{Palloc}
use platinum.Palloc.Pages.{alloc-IsWf, alloc-region_end, alloc-length}
use platinum.Palloc.Pages
use platinum.Paging.{Paging, fill_page}
use platinum.Paging.Hierarchy.{word, leaf, Shape, IsTree, step-empty, step-zero}
use platinum.Paging.Count.{IsIdentity}

-- The tree with a top and no other table.
abbrev pub only_top : ℕ → Shape
only_top root = record { level = λ p. if p == root then 4 else 0; up = λ p. 0; index = λ p. 0 }

-- The state in which paging_initialize enters its loop.
abbrev pub empty_top : ℕ → Palloc → Paging → Paging
empty_top root left s = record (fill_page root (λ _. 0) (record s { palloc = left })) {
  kernel_pml4 = root;
}

empty_top-table :
    (root : ℕ) (left : Palloc) (s : Paging) (i : ℕ)
    → i < 512
    → (empty_top root left s).table root i ≡ 0
unfolding fill_page
empty_top-table root left s i lt = ground arith

pub empty_top-palloc :
    (root : ℕ) (left : Palloc) (s : Paging) → (empty_top root left s).palloc ≡ left
unfolding fill_page
empty_top-palloc root left s = refl

pub empty_top-IsIdentity :
    (root : ℕ) (left : Palloc) (s : Paging) → IsIdentity root 0 (empty_top root left s)
unfolding leaf word
empty_top-IsIdentity root left s k lt =
    let s' = empty_top root left s in
    let e = empty_top-table root left s (k / 2 ^ 27 % 512) (omega arith) in
    rw
      (
        step-empty s' root (k / 2 ^ 27 % 512) e,
        step-zero s' (k / 2 ^ 18 % 512),
        step-zero s' (k / 2 ^ 9 % 512),
      )
      (ground arith)

pub only_top-used :
    (before left : Palloc) (root : ℕ)
    → Pages.free_times root before ≡ 1
    → ((a : ℕ) → Pages.free_times a before ≡ Pages.free_times a left + (if root == a then 1 else 0))
    → (p : ℕ) → 0 < Pages.free_times p left
    → (only_top root).level p ≡ 0
only_top-used before left root taken others p h =
    let o = others p in
    let ne : p ≢ root =
      λ eq. (let r = rw eq at o in let r' = rw eq at h in absurd (ground arith)) in
    ground arith

pub empty_top-IsTree :
    (s : Paging) (root : ℕ) (left : Palloc)
    → Pages.IsWf left
    → left.region_end ≤ 2 ^ 52
    → root + 4096 ≤ left.region_end
    → root % 4096 ≡ 0
    → 0 < root
    → ((p : ℕ) → 0 < Pages.free_times p left → (only_top root).level p ≡ 0)
    → IsTree (only_top root) root (empty_top root left s)
empty_top-IsTree s root left w end below al pos used = record {
  pages = rw (empty_top-palloc root left s) w;
  end = rw (empty_top-palloc root left s) end;
  used = rw (empty_top-palloc root left s) used;
  top = ground arith;
  tables = λ p h.
      (let e : p ≡ root = ground arith in
        rw e (record { aligned = al; positive = pos; small = omega arith }));
  entries = λ p i h lt there.
      (let e : p ≡ root = ground arith in
        let z = empty_top-table root left s i lt in
        let wrong = rw (e, z) at there in absurd (ground arith));
}
