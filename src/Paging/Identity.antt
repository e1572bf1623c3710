-- ===== src/Paging/Identity.antt =====
-- paging_initialize of src/kernel/paging.c: the loop that maps every page below the end of memory to
-- itself.
use platinum.Prelude.{
  ℕ, zero, suc, ◌+◌, ◌-◌, ◌*◌, ◌/◌, ◌%◌, ◌^◌, ◌≤◌, ◌<◌, ◌≡◌, ◌⊎◌, inl, inr, refl, sym, ap, ◌∙◌,
  arith, true, not, ◌==◌, ltb, if◌then◌else◌, Bool-cases, Exec, ok, halt, u64, page_size,
}
use platinum.Paging.{
  Paging, or_flags, write_entry, fill_page, alloc_table, get_or_create_next, map_page_4k,
  identity_map,
}
use platinum.Paging.Hierarchy.{free_pages, Shape, IsTree}
use platinum.Paging.View.{Updated, page_number, map_page_4k-MapSpec}
use platinum.Paging.Count.{tables_for, IsIdentity, missing-IsIdentity}

get_or_create_next-kernel_pml4 :
    (p i flags : ℕ) (s : Paging) → (get_or_create_next p i flags s).1.kernel_pml4 ≡ s.kernel_pml4
unfolding get_or_create_next alloc_table write_entry fill_page
get_or_create_next-kernel_pml4 p i flags s = ground arith

map_page_4k-kernel_pml4 :
    (root va pa flags : ℕ) (s : Paging)
    → (map_page_4k root va pa flags s).1.kernel_pml4 ≡ s.kernel_pml4
unfolding map_page_4k write_entry
map_page_4k-kernel_pml4 root va pa flags s =
    let r₁ = get_or_create_next root (va / 2 ^ 39 % 512) flags s in
    let e₁ = get_or_create_next-kernel_pml4 root (va / 2 ^ 39 % 512) flags s in
    let r₂ = get_or_create_next r₁.0 (va / 2 ^ 30 % 512) flags r₁.1 in
    let e₂ = get_or_create_next-kernel_pml4 r₁.0 (va / 2 ^ 30 % 512) flags r₁.1 in
    let e₃ = get_or_create_next-kernel_pml4 r₂.0 (va / 2 ^ 21 % 512) flags r₂.1 in ground arith

-- What is left to do for the pages from `n` up to `stop`: it is done, or too few pages are free.
abbrev pub Finishes : ℕ → ℕ → ℕ → Paging → Exec Paging → Type 0
Finishes root n stop s result =
    ((result ≡ halt) × (free_pages s + tables_for n < tables_for stop))
    ⊎ ((sh : Shape) × (s' : Paging) × (result ≡ ok s')
        × (s'.kernel_pml4 ≡ root)
        × IsTree sh root s'
        × IsIdentity root stop s')

IsIdentity-next :
    (root address : ℕ) (s s' : Paging)
    → address % 4096 ≡ 0
    → address < 2 ^ 48
    → IsIdentity root (address / 4096) s
    → Updated root (page_number address) (or_flags address 3) s s'
    → IsIdentity root (address / 4096 + 1) s'
IsIdentity-next root address s s' al small id up k lt =
    let n : page_number address ≡ address / 4096 = omega arith in
    let e = rw n at (up k lt) in
    let before = id k lt in
    elim (Bool-cases (k == address / 4096)) [
      | inl here ↦
          let a : address ≡ k * 4096 = ground arith in
          let below : ltb k (address / 4096 + 1) ≡ true = ground arith in
          let e' = rw here at e in rw (e', below) (ap (λ x. or_flags x 3) a)
      | inr there ↦ let e' = rw there at e in rw (e', before) (ground arith)
    ]

-- One round of the loop.
identity_map-round :
    (fuel address limit root : ℕ) (s : Paging)
    → ltb address limit ≡ true
    → s.kernel_pml4 ≡ root
    → identity_map (suc fuel) address limit s ≡ (
        if not (map_page_4k root address address 3 s).0
        then halt
        else identity_map fuel
            (u64 (address + page_size))
            limit
            (map_page_4k root address address 3 s).1)
unfolding identity_map
identity_map-round fuel address limit root s more top = rw more (
    ap
      (λ p.
        if not (map_page_4k p address address 3 s).0
        then halt
        else identity_map fuel (u64 (address + page_size)) limit
            (map_page_4k p address address 3 s).1)
      top)

Finishes-after :
    (root n stop : ℕ) (s s' : Paging) (result : Exec Paging)
    → free_pages s + tables_for n ≤ free_pages s' + tables_for (n + 1)
    → Finishes root (n + 1) stop s' result
    → Finishes root n stop s result
Finishes-after root n stop s s' result le f = elim f [
  | inl (stopped, few) ↦ inl (stopped, omega arith)
  | inr finished ↦ inr finished
]

pub identity_map-Finishes :
    (fuel address limit : ℕ) (sh : Shape) (root : ℕ) (s : Paging)
    → IsTree sh root s
    → s.kernel_pml4 ≡ root
    → address % 4096 ≡ 0
    → limit % 4096 ≡ 0
    → address ≤ limit
    → limit ≤ 2 ^ 32
    → (limit - address) / 4096 < fuel
    → IsIdentity root (address / 4096) s
    → Finishes root (address / 4096) (limit / 4096) s (identity_map fuel address limit s)
unfolding identity_map
identity_map-Finishes zero address limit sh root s t top al ll le small fit id =
    absurd (omega arith)
identity_map-Finishes (suc fuel) address limit sh root s t top al ll le small fit id =
    elim (Bool-cases (ltb address limit)) [
      | inr done ↦
          let e : address ≡ limit = ground arith in
          rw done (inr (sh, s, refl, top, t, rw (sym e) id))
      | inl more ↦
          let lt : address < limit = ground arith in
          let (sh', t', out) = map_page_4k-MapSpec sh root address address 3 s t in
          let lack_here = missing-IsIdentity root (address / 4096) s (omega arith) id in
          let n : page_number address ≡ address / 4096 = omega arith in
          let next : u64 (address + page_size) ≡ address + 4096 = omega arith in
          let number : (address + 4096) / 4096 ≡ address / 4096 + 1 = omega arith in
          rw (identity_map-round fuel address limit root s more top) (elim out [
            | inl (done, up, used) ↦
                let s' = (map_page_4k root address address 3 s).1 in
                let mapped = IsIdentity-next root address s s' al (omega arith) id up in
                let rest =
                  identity_map-Finishes fuel (address + 4096) limit sh' root s' t'
                    (map_page_4k-kernel_pml4 root address address 3 s ∙ top) (omega arith) ll
                    (omega arith) small (omega arith) (rw number mapped) in
                rw (done, next)
                  (Finishes-after root (address / 4096) (limit / 4096) s s' _
                    (omega (arith, rw n at used, lack_here)) (rw number at rest))
            | inr (failed, full, un, few) ↦
                rw failed (inl (refl, omega (arith, rw n at few, lack_here)))
          ])
    ]
