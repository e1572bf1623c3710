-- ===== src/Paging/Grow.antt =====
-- get_or_create_next of src/kernel/paging.c on a tree of tables.
use platinum.Prelude.{
  ℕ, ◌%◌, ◌^◌, ◌≤◌, ◌<◌, ◌≡◌, inl, inr, refl, ◌∙◌, arith, true, false, ◌==◌, if◌then◌else◌,
  Bool-cases,
}
use platinum.Palloc
use platinum.Palloc.{Palloc}
use platinum.Palloc.Pages.{alloc-IsWf, alloc-region_end, alloc-length}
use platinum.Paging.{
  Paging, entry_address, or_flags, is_present, is_user, write_entry, alloc_table,
  get_or_create_next, paging_user, paging_flags_table,
}
use platinum.Paging.Entries.{set_user, set_nothing, page_entry}
use platinum.Paging.Hierarchy.{child, Shape, IsTree}
use platinum.Paging.Change.{Next, redirected-Linked, same-Linked}
use platinum.Paging.Create.{created, created-Linked}

-- The word that get_or_create_next puts into an entry that was not present.
abbrev new_entry : ℕ → ℕ → ℕ
new_entry q flags =
    or_flags (or_flags q paging_flags_table) (if is_user flags then paging_user else 0)

new_entry-word :
    (q flags : ℕ)
    → q % 4096 ≡ 0
    → q < 2 ^ 52
    → (is_present (new_entry q flags) ≡ true) × (entry_address (new_entry q flags) ≡ q)
new_entry-word q flags al small = elim (Bool-cases (is_user flags)) [
  | inl u ↦
      let (address, present, _) = page_entry q 3 al small (omega arith) in
      let (address', present', _) = set_user (or_flags q 3) in
      rw u (present' ∙ present, address' ∙ address)
  | inr u ↦
      let (address, present, _) = page_entry q 3 al small (omega arith) in
      rw (u, set_nothing (or_flags q 3)) (present, address)
]

==_self : (n : ℕ) → (n == n) ≡ true
==_self n = ground arith

absent-child : (s : Paging) (p i : ℕ) → is_present (s.table p i) ≡ false → child s p i ≡ 0
unfolding child
absent-child s p i absent = rw absent refl

present_user :
    (s : Paging) (p i flags : ℕ)
    → is_present (s.table p i) ≡ true
    → is_user flags ≡ true
    → get_or_create_next p i flags s
      ≡ (entry_address (or_flags (s.table p i) 4), write_entry p i (or_flags (s.table p i) 4) s)
unfolding get_or_create_next write_entry
present_user s p i flags present user = rw (present, user, ==_self p, ==_self i) refl

present_other :
    (s : Paging) (p i flags : ℕ)
    → is_present (s.table p i) ≡ true
    → is_user flags ≡ false
    → get_or_create_next p i flags s ≡ (entry_address (s.table p i), s)
unfolding get_or_create_next
present_other s p i flags present user = rw (present, user) refl

absent_full :
    (s : Paging) (p i flags : ℕ)
    → is_present (s.table p i) ≡ false
    → (Palloc.alloc s.palloc).0 ≡ 0
    → (Palloc.alloc s.palloc).1 ≡ s.palloc
    → get_or_create_next p i flags s ≡ (0, s)
unfolding get_or_create_next alloc_table
absent_full s p i flags absent zero same = rw (absent, zero, same) refl

absent_granted :
    (s : Paging) (p i flags : ℕ)
    → is_present (s.table p i) ≡ false
    → 0 < (Palloc.alloc s.palloc).0
    → let q = (Palloc.alloc s.palloc).0 in
      get_or_create_next p i flags s
      ≡ (q, created p i q (new_entry q flags) (Palloc.alloc s.palloc).1 s)
unfolding get_or_create_next alloc_table
absent_granted s p i flags absent pos =
    let nz : ((Palloc.alloc s.palloc).0 == 0) ≡ false = ground arith in rw (absent, nz) (rw nz refl)

-- get_or_create_next at the entry `i` below 512 of a table that is not of the last level: it answers
-- with a table below that entry in a tree that only grows, or with 0 where no page is free, and then
-- nothing changes.
pub get_or_create_next-Next :
    (sh : Shape) (root : ℕ) (s : Paging) (p i flags : ℕ)
    → IsTree sh root s
    → 2 ≤ sh.level p
    → i < 512
    → Next sh root s p i (get_or_create_next p i flags s)
get_or_create_next-Next sh root s p i flags t two lt =
    elim (Bool-cases (is_present (s.table p i))) [
      | inl present ↦ elim (Bool-cases (is_user flags)) [
        | inl user ↦
            let (address, kept, _) = set_user (s.table p i) in
            rw (present_user s p i flags present user)
              (inr (redirected-Linked sh root s p i _ t two lt present (kept ∙ present) address))
        | inr plain ↦
            rw (present_other s p i flags present plain)
              (inr (same-Linked sh root s p i t two lt present))
      ]
      | inr absent ↦
          let (pages, answer) = alloc-IsWf s.palloc t.pages in
          elim answer [
            | inl (zero, none_left, same) ↦
                rw (absent_full s p i flags absent zero same)
                  (inl (refl, refl, none_left, absent-child s p i absent))
            | inr (page, taken, others) ↦
                let (present, address) =
                  new_entry-word (Palloc.alloc s.palloc).0 flags page.aligned
                    (omega (arith, page.below, t.end)) in
                rw (absent_granted s p i flags absent page.positive) (
                  inr (
                    created-Linked sh root s p i _ _ _ t two lt absent
                      (record {
                        page = page;
                        pages = pages;
                        end = alloc-region_end s.palloc;
                        taken = taken;
                        counted = alloc-length s.palloc page.positive;
                        others = others;
                      })
                      present address))
          ]
    ]
