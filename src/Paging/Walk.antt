-- ===== src/Paging/Walk.antt =====
-- The walks of src/kernel/paging.c along the tables, against the map from page numbers to words.
use platinum.Prelude.{
  ℕ, ◌+◌, ◌/◌, ◌%◌, ◌^◌, ◌≤◌, ◌<◌, ◌≡◌, ◌≢◌, inl, inr, refl, sym, ◌∙◌, arith, Bool, true, false,
  not, ◌==◌, ◌&&◌, if◌then◌else◌, Bool-cases, align_down,
}
use platinum.Paging.{
  Paging, entry_address, is_present, is_user, walk_to_pt, mapping_matches, user_page_mapped,
  map_page_4k, pml4_index, pdpt_index, pd_index, pt_index,
}
use platinum.Paging.Entries.{page_entry}
use platinum.Paging.Hierarchy.{child, step, word, leaf, pt_of, Shape, IsTree, step-pos, step-zero}
use platinum.Paging.View.{page_number, map_page_4k-MapSpec}

step-absent : (s : Paging) (p i : ℕ) → is_present (s.table p i) ≡ false → step s p i ≡ 0
unfolding step child
step-absent s p i h = rw h (ground arith)

three_tests : (a b c : Bool) → (if not a then false else if not b then false else c) ≡ (a && b && c)
three_tests true true c = refl
three_tests true false c = refl
three_tests false b c = refl

module _ (sh : Shape) (root : ℕ) (s : Paging) (t : IsTree sh root s) where
  -- A present entry of a table leads to a table one level below.
  step-present :
      (k p i : ℕ)
      → sh.level p ≡ k + 1
      → 1 ≤ k
      → i < 512
      → is_present (s.table p i) ≡ true
      → (step s p i ≡ entry_address (s.table p i)) × (sh.level (step s p i) ≡ k)
  unfolding child
  step-present k p i l one lt h =
      let leads = t.entries p i (omega arith) lt h in
      rw (step-pos s p i (t.tables p (omega arith)).positive, h) (refl, omega (arith, leads.level))

  walk_to_pt-pt_of : (va : ℕ) → walk_to_pt root va s ≡ pt_of root (page_number va) s
  unfolding walk_to_pt
  walk_to_pt-pt_of va =
      let i₃ : page_number va / 2 ^ 27 % 512 ≡ pml4_index va = omega arith in
      let i₂ : page_number va / 2 ^ 18 % 512 ≡ pdpt_index va = omega arith in
      let i₁ : page_number va / 2 ^ 9 % 512 ≡ pd_index va = omega arith in
      rw (i₃, i₂, i₁)
        (elim (Bool-cases (is_present (s.table root (pml4_index va)))) [
          | inr h ↦
              rw
                (
                  h,
                  step-absent s root (pml4_index va) h,
                  step-zero s (pdpt_index va),
                  step-zero s (pd_index va),
                )
                refl
          | inl h ↦
              let (e₃, l₃) =
                step-present 3 root (pml4_index va) t.top (omega arith) (omega arith) h in
              let pdpt = entry_address (s.table root (pml4_index va)) in
              let l₃' : sh.level pdpt ≡ 3 = rw e₃ at l₃ in
              rw (h, e₃)
                (elim (Bool-cases (is_present (s.table pdpt (pdpt_index va)))) [
                  | inr h' ↦
                      rw (h', step-absent s pdpt (pdpt_index va) h', step-zero s (pd_index va)) refl
                  | inl h' ↦
                      let (e₂, l₂) =
                        step-present 2 pdpt (pdpt_index va) l₃' (omega arith) (omega arith) h' in
                      let pd = entry_address (s.table pdpt (pdpt_index va)) in
                      let l₂' : sh.level pd ≡ 2 = rw e₂ at l₂ in
                      rw (h', e₂)
                        (elim (Bool-cases (is_present (s.table pd (pd_index va)))) [
                          | inr h'' ↦ rw (h'', step-absent s pd (pd_index va) h'') refl
                          | inl h'' ↦
                              let (e₁, _) =
                                step-present 1 pd (pd_index va) l₂' (omega arith) (omega arith)
                                  h'' in
                              rw (h'', e₁) refl
                        ])
                ])
        ])

  -- paging_mapping_matches asks whether the word of the page is present, has the address, and is for
  -- user code or not as wanted; what paging_user_range_mapped asks of a page is whether its word is
  -- present and for user code.
  pub mapping_matches-leaf :
      (va pa : ℕ) (user : Bool)
      → let e = leaf root (page_number va) s in
        (mapping_matches root va pa user s ≡ (
          is_present e
          && (entry_address e == align_down pa)
          && (if user then is_user e else not (is_user e))))
        × (user_page_mapped root (align_down va) s ≡ (is_present e && is_user e))
  unfolding mapping_matches user_page_mapped leaf word
  mapping_matches-leaf va pa user =
      let pos : (root == 0) ≡ false =
        let p = (t.tables root (omega (arith, t.top))).positive in ground arith in
      let n : page_number (align_down va) ≡ page_number va = omega arith in
      let last : pt_index (align_down va) ≡ page_number va % 512 = omega arith in
      let pt = pt_of root (page_number va) s in
      let e : leaf root (page_number va) s
          ≡ (if pt == 0 then 0 else s.table pt (page_number va % 512)) =
        refl in
      rw (walk_to_pt-pt_of (align_down va), n, pos, last, e)
        (elim (Bool-cases (pt == 0)) [
          | inl z ↦ rw z (refl, refl)
          | inr there ↦
              let w = s.table pt (page_number va % 512) in
              rw there (
                three_tests (is_present w) (entry_address w == align_down pa)
                    (if user then is_user w else not (is_user w)),
                refl,
              )
        ])

-- After map_page_4k has mapped the page of `va` to a whole page below 2 ^ 52, with flags that say
-- present, paging_mapping_matches answers yes for that page and that address, and for user code as the
-- flags say.
pub map_page_4k-mapping_matches :
    (sh : Shape) (root va pa flags : ℕ) (s : Paging)
    → IsTree sh root s
    → pa % 4096 ≡ 0
    → pa < 2 ^ 52
    → flags < 8
    → is_present flags ≡ true
    → (map_page_4k root va pa flags s).0 ≡ true
    → mapping_matches root va pa (is_user flags) (map_page_4k root va pa flags s).1 ≡ true
map_page_4k-mapping_matches sh root va pa flags s t al small low present done =
    let (sh', t', out) = map_page_4k-MapSpec sh root va pa flags s t in
    let (address, kept, user) = page_entry pa flags al small low in
    elim out [
      | inr (failed, _, _, _) ↦ absurd (true-ne-false (sym done ∙ failed))
      | inl (_, up, _) ↦
          let self : (page_number va == page_number va) ≡ true = ground arith in
          let word_is = rw self at (up (page_number va) (omega arith)) in
          let (matches, _) =
            mapping_matches-leaf sh' root (map_page_4k root va pa flags s).1 t' va pa
              (is_user flags) in
          let whole : align_down pa ≡ pa = omega arith in
          let same : (pa == pa) ≡ true = ground arith in
          rw (matches, word_is, address, kept, user, present, whole, same) (twice (is_user flags))
    ]
  where
    true-ne-false : true ≢ false
    true-ne-false e = cc

    twice : (b : Bool) → (if b then b else not b) ≡ true
    twice true = refl
    twice false = refl
