-- ===== src/Paging/Stay.antt =====
-- Tables that a growing tree of src/kernel/paging.c keeps on the way to a page.
use platinum.Prelude.{
  ℕ, ◌/◌, ◌%◌, ◌^◌, ◌≤◌, ◌<◌, ◌≡◌, inl, inr, refl, sym, ap, ◌∙◌, arith, false, ◌==◌,
}
use platinum.Paging.{Paging}
use platinum.Paging.Hierarchy.{
  step, pdpt_of, pd_of, pt_of, Shape, IsTree, Grows, step-pos, step-zero,
}
use platinum.Paging.Change.{Linked}
use platinum.Paging.Leaves.{pdpt-AtLevel, pd-AtLevel}

Grows-step :
    (sh : Shape) (root : ℕ) (s s' : Paging) (x j y : ℕ)
    → IsTree sh root s
    → Grows sh s s'
    → 2 ≤ sh.level x
    → j < 512
    → step s x j ≡ y
    → 0 < y
    → step s' x j ≡ y
Grows-step sh root s s' x j y t g two lt e pos =
    let nz : 0 < x = (t.tables x (omega arith)).positive in
    let old = step-pos s x j nz in
    elim (g.inner x j two lt) [
      | inl same ↦ rw (step-pos s' x j nz) (same ∙ sym old ∙ e)
      | inr (none_there, _) ↦ absurd (omega (arith, old, none_there, e))
    ]

pub Linked-positive :
    (sh : Shape) (root : ℕ) (s : Paging) (p i : ℕ) (r : ℕ × Paging)
    → Linked sh root s p i r
    → 2 ≤ sh.level p
    → (r.0 == 0) ≡ false
Linked-positive sh root s p i r l two =
    let pos = (l.tree.tables r.0 (omega (arith, l.level))).positive in ground arith

pub Linked-step :
    (sh : Shape) (root : ℕ) (s : Paging) (p i : ℕ) (r : ℕ × Paging)
    → IsTree sh root s
    → Linked sh root s p i r
    → 2 ≤ sh.level p
    → step r.1 p i ≡ r.0
Linked-step sh root s p i r t l two =
    rw (step-pos r.1 p i (t.tables p (omega arith)).positive) l.here

-- A table that is on the way to a page stays there.
module _ (sh : Shape) (root n : ℕ) (s s' : Paging) (t : IsTree sh root s) (g : Grows sh s s') where
  pub pdpt_of-Grows : 0 < pdpt_of root n s → pdpt_of root n s' ≡ pdpt_of root n s
  pdpt_of-Grows pos =
      Grows-step sh root s s' root (n / 2 ^ 27 % 512) _ t g (omega (arith, t.top)) (omega arith)
        refl pos

  pub pd_of-Grows : 0 < pd_of root n s → pd_of root n s' ≡ pd_of root n s
  pd_of-Grows pos = elim (pdpt-AtLevel sh root s t n) [
    | inl z ↦ absurd (omega (arith, ap (λ q. step s q (n / 2 ^ 18 % 512)) z ∙ step-zero s _))
    | inr l ↦ rw (pdpt_of-Grows (t.tables (pdpt_of root n s) (omega arith)).positive) (
        Grows-step sh root s s' (pdpt_of root n s) (n / 2 ^ 18 % 512) _ t g (omega arith)
          (omega arith) refl pos)
  ]

  pub pt_of-Grows : 0 < pt_of root n s → pt_of root n s' ≡ pt_of root n s
  pt_of-Grows pos = elim (pd-AtLevel sh root s t n) [
    | inl z ↦ absurd (omega (arith, ap (λ q. step s q (n / 2 ^ 9 % 512)) z ∙ step-zero s _))
    | inr l ↦ rw (pd_of-Grows (t.tables (pd_of root n s) (omega arith)).positive) (
        Grows-step sh root s s' (pd_of root n s) (n / 2 ^ 9 % 512) _ t g (omega arith) (omega arith)
          refl pos)
  ]
