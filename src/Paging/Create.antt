-- ===== src/Paging/Create.antt =====
-- A new table in a tree of tables of src/kernel/paging.c.
use platinum.Prelude.{
  ℕ, ◌+◌, ◌-◌, ◌≤◌, ◌<◌, ◌≡◌, ◌≢◌, ◌⊎◌, inl, inr, refl, arith, true, false, ◌==◌, if◌then◌else◌,
  Bool-cases, length,
}
use platinum.Palloc.{Palloc}
use platinum.Palloc.Pages.{free_times, alloc-IsWf, alloc-region_end, alloc-length}
use platinum.Palloc.Pages
use platinum.Paging.{Paging, entry_address, is_present, write_entry, fill_page}
use platinum.Paging.Hierarchy.{child, Shape, IsTable, Leads, IsTree}
use platinum.Paging.Change.{Linked}

-- A new table of zeros at the page `q`, with the word `e` that leads to it.
abbrev pub created : (p i q e : ℕ) → Palloc → Paging → Paging
created p i q e left s = write_entry p i e (fill_page q (λ _. 0) (record s { palloc = left }))

created-new :
    (p i q e : ℕ) (left : Palloc) (s : Paging) (j : ℕ)
    → p ≢ q
    → j < 512
    → (created p i q e left s).table q j ≡ 0
unfolding write_entry fill_page
created-new p i q e left s j ne lt = ground arith

created-old :
    (p i q e : ℕ) (left : Palloc) (s : Paging) (x j : ℕ)
    → x ≢ q
    → ((x ≡ p) × (j ≡ i) × ((created p i q e left s).table x j ≡ e))
      ⊎ (((x ≢ p) ⊎ (j ≢ i)) × ((created p i q e left s).table x j ≡ s.table x j))
unfolding write_entry fill_page
created-old p i q e left s x j ne = ground arith

created-palloc : (p i q e : ℕ) (left : Palloc) (s : Paging) → (created p i q e left s).palloc ≡ left
unfolding write_entry fill_page
created-palloc p i q e left s = refl

-- The tree with the new table.
abbrev add_table : (p i q : ℕ) → Shape → Shape
add_table p i q sh = record {
  level = λ x. if x == q then sh.level p - 1 else sh.level x;
  up = λ x. if x == q then p else sh.up x;
  index = λ x. if x == q then i else sh.index x;
}

-- What palloc_alloc grants.
pub record Granted (before after : Palloc) (q : ℕ) : Type 0 where
  pub page : Pages.IsPage before q
  pub pages : Pages.IsWf after
  pub end : after.region_end ≡ before.region_end
  pub taken : free_times q before ≡ 1
  pub counted : length before.free_list ≡ length after.free_list + 1
  pub others : (a : ℕ) → free_times a before ≡ free_times a after + (if q == a then 1 else 0)

Leads-add_table :
    (sh : Shape) (p i q x j y : ℕ)
    → y ≢ q
    → x ≢ q
    → Leads sh x j y
    → Leads (add_table p i q sh) x j y
Leads-add_table sh p i q x j y ny nx l = record {
  level = ground (arith, l.level);
  up = ground (arith, l.up);
  index = ground (arith, l.index);
}

Granted-ne :
    (sh : Shape) (root : ℕ) (s : Paging) (q : ℕ) (left : Palloc)
    → IsTree sh root s
    → Granted s.palloc left q
    → (x : ℕ) → 0 < sh.level x
    → x ≢ q
Granted-ne sh root s q left t g x pos e =
    let free : sh.level q ≡ 0 = t.used q (omega (arith, g.taken)) in
    let r = rw e at pos in absurd (omega arith)

created-IsTree :
    (sh : Shape) (root : ℕ) (s : Paging) (p i q e : ℕ) (left : Palloc)
    → IsTree sh root s
    → 2 ≤ sh.level p
    → i < 512
    → Granted s.palloc left q
    → is_present e ≡ true
    → entry_address e ≡ q
    → IsTree (add_table p i q sh) root (created p i q e left s)
created-IsTree sh root s p i q e left t two lt g ep ea = record {
  pages = rw (created-palloc p i q e left s) g.pages;
  end = rw (created-palloc p i q e left s) omega (arith, g.end, t.end);
  used = rw (created-palloc p i q e left s) used;
  top = let ne = new root (omega (arith, t.top)) in ground (arith, t.top);
  tables = tables;
  entries = λ x j h k. entries x j h k;
}
  where
    new : (x : ℕ) → 0 < sh.level x → x ≢ q
    new = Granted-ne sh root s q left t g

    used : (a : ℕ) → 0 < free_times a left → (add_table p i q sh).level a ≡ 0
    used a h =
        let o = g.others a in
        let taken = g.taken in
        let ne : a ≢ q =
          λ eq. (let r = rw eq at o in let r' = rw eq at h in absurd (ground arith)) in
        let was = t.used a (ground arith) in ground arith

    tables : (x : ℕ) → 0 < (add_table p i q sh).level x → IsTable x
    tables x h = elim (Bool-cases (x == q)) [
      | inl e ↦
          let eq : x ≡ q = ground arith in
          let page = g.page in
          record {
            aligned = rw eq page.aligned;
            positive = rw eq page.positive;
            small = omega (arith, page.below, t.end);
          }
      | inr ne ↦ t.tables x (rw ne at h)
    ]

    entries :
        (x j : ℕ)
        → 2 ≤ (add_table p i q sh).level x
        → j < 512
        → is_present ((created p i q e left s).table x j) ≡ true
        → Leads (add_table p i q sh) x j (entry_address ((created p i q e left s).table x j))
    entries x j h k pres = elim (Bool-cases (x == q)) [
      | inl eq ↦
          let eq' : x ≡ q = ground arith in
          let z = created-new p i q e left s j (new p (omega arith)) k in
          let pres' = rw (eq', z) at pres in absurd (ground arith)
      | inr ne ↦ elim (created-old p i q e left s x j (ground arith)) [
        | inl (ex, ej, w) ↦
            let np = new p (omega arith) in
            rw (w, ea) (record { level = ground arith; up = ground arith; index = ground arith })
        | inr (_, w) ↦
            let old = t.entries x j (rw ne at h) k (rw w at pres) in
            let above = new (entry_address (s.table x j)) (omega (arith, old.level, rw ne at h)) in
            rw w
              (Leads-add_table sh p i q x j (entry_address (s.table x j)) above (ground arith) old)
      ]
    ]

pub created-Linked :
    (sh : Shape) (root : ℕ) (s : Paging) (p i q e : ℕ) (left : Palloc)
    → IsTree sh root s
    → 2 ≤ sh.level p
    → i < 512
    → is_present (s.table p i) ≡ false
    → Granted s.palloc left q
    → is_present e ≡ true
    → entry_address e ≡ q
    → Linked sh root s p i (q, created p i q e left s)
unfolding child
created-Linked sh root s p i q e left t two lt absent g ep ea = record {
  shape = add_table p i q sh;
  tree = created-IsTree sh root s p i q e left t two lt g ep ea;
  grows = record { last = last; inner = inner };
  kept = λ x h. let ne = new x h in ground arith;
  level = ground arith;
  here = elim (created-old p i q e left s p i (new p (omega arith))) [
    | inl (_, _, w) ↦ rw (w, ep) ea
    | inr (other, w) ↦ elim other [ inl ne ↦ absurd (ne refl) | inr ne ↦ absurd (ne refl) ]
  ];
  cost = let c = g.counted in rw (created-palloc p i q e left s, absent) (omega arith);
}
  where
    new : (x : ℕ) → 0 < sh.level x → x ≢ q
    new = Granted-ne sh root s q left t g

    last : (x j : ℕ) → sh.level x ≡ 1 → (created p i q e left s).table x j ≡ s.table x j
    last x j one = elim (created-old p i q e left s x j (new x (omega arith))) [
      | inl (ex, _, _) ↦ let r = rw ex at one in absurd (omega arith)
      | inr (_, w) ↦ w
    ]

    inner :
        (x j : ℕ)
        → 2 ≤ sh.level x
        → j < 512
        → (child (created p i q e left s) x j ≡ child s x j)
          ⊎ ((child s x j ≡ 0)
              × ((k : ℕ)
                  → k < 512
                  → (created p i q e left s).table (child (created p i q e left s) x j) k ≡ 0))
    inner x j two' lt' = elim (created-old p i q e left s x j (new x (omega arith))) [
      | inl (ex, ej, w) ↦
          rw (w, ep, ea, ex, ej, absent)
            (inr (refl, λ k lk. created-new p i q e left s k (new p (omega arith)) lk))
      | inr (_, w) ↦ rw w (inl refl)
    ]
