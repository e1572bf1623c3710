-- ===== src/Paging/Count.antt =====
-- The tables that a map of the lowest pages to themselves needs, for paging_initialize of
-- src/kernel/paging.c.
use platinum.Prelude.{
  ℕ, ◌+◌, ◌-◌, ◌*◌, ◌/◌, ◌%◌, ◌^◌, ◌≤◌, ◌<◌, ◌≡◌, ◌≢◌, refl, sym, ◌∙◌, arith, true, false, ltb,
  if◌then◌else◌,
}
use native.Mathlib.Decide.{dec_lt}
use platinum.Paging.{Paging, entry_address, or_flags, is_present, is_user}
use platinum.Paging.Entries.{page_entry}
use platinum.Paging.Hierarchy.{word, leaf, lack, pdpt_of, pd_of, pt_of, step-zero}
use platinum.Paging.View.{missing}

-- The number of tables below the top that the pages below `n` need.
abbrev pub tables_for : ℕ → ℕ
tables_for n = (n + 511) / 512 + (n + (2 ^ 18 - 1)) / 2 ^ 18 + (n + (2 ^ 27 - 1)) / 2 ^ 27

-- The pages below `n` are mapped to themselves, for the kernel only, and no other page is mapped.
abbrev pub IsIdentity : ℕ → ℕ → Paging → Type 0
IsIdentity root n s =
    (k : ℕ) → k < 2 ^ 36 → leaf root k s ≡ (if ltb k n then or_flags (k * 4096) 3 else 0)

-- A mapped page has all its tables, and so have the pages beside it.
near :
    (root n m : ℕ) (s : Paging)
    → leaf root m s ≢ 0
    → (n / 512 ≡ m / 512 → lack (pt_of root n s) ≡ 0)
      × (n / 2 ^ 18 ≡ m / 2 ^ 18 → lack (pd_of root n s) ≡ 0)
      × (n / 2 ^ 27 ≡ m / 2 ^ 27 → lack (pdpt_of root n s) ≡ 0)
unfolding leaf word
near root n m s mapped =
    let pt : pt_of root m s ≢ 0 = λ z. mapped (rw z refl) in
    let pd : pd_of root m s ≢ 0 = λ z. pt (rw z (step-zero s _)) in
    let pdpt : pdpt_of root m s ≢ 0 = λ z. pd (rw z (step-zero s _)) in
    (
      λ e.
          (let i₃ : n / 2 ^ 27 % 512 ≡ m / 2 ^ 27 % 512 = omega arith in
            let i₂ : n / 2 ^ 18 % 512 ≡ m / 2 ^ 18 % 512 = omega arith in
            let i₁ : n / 2 ^ 9 % 512 ≡ m / 2 ^ 9 % 512 = omega arith in
            rw (i₃, i₂, i₁) (ground arith)),
      λ e.
          (let i₃ : n / 2 ^ 27 % 512 ≡ m / 2 ^ 27 % 512 = omega arith in
            let i₂ : n / 2 ^ 18 % 512 ≡ m / 2 ^ 18 % 512 = omega arith in
            rw (i₃, i₂) (ground arith)),
      λ e. (let i₃ : n / 2 ^ 27 % 512 ≡ m / 2 ^ 27 % 512 = omega arith in rw i₃ (ground arith)),
    )

tables_for_next :
    (n a b c : ℕ)
    → a ≤ 1
    → b ≤ 1
    → c ≤ 1
    → (0 < n % 512 → a ≡ 0)
    → (0 < n % 2 ^ 18 → b ≡ 0)
    → (0 < n % 2 ^ 27 → c ≡ 0)
    → tables_for n + (c + (b + a)) ≤ tables_for (n + 1)
tables_for_next n a b c ha hb hc za zb zc =
    let at : (n + 511) / 512 + a ≤ (n + 1 + 511) / 512 = elim (dec_lt 0 (n % 512)) [
      | yes h ↦ let z = za h in omega arith
      | no h ↦ omega arith
    ] in
    let bt : (n + (2 ^ 18 - 1)) / 2 ^ 18 + b ≤ (n + 1 + (2 ^ 18 - 1)) / 2 ^ 18 =
      elim (dec_lt 0 (n % 2 ^ 18)) [ yes h ↦ let z = zb h in omega arith | no h ↦ omega arith ] in
    let ct : (n + (2 ^ 27 - 1)) / 2 ^ 27 + c ≤ (n + 1 + (2 ^ 27 - 1)) / 2 ^ 27 =
      elim (dec_lt 0 (n % 2 ^ 27)) [ yes h ↦ let z = zc h in omega arith | no h ↦ omega arith ] in
    omega arith

lack_le : (q : ℕ) → lack q ≤ 1
lack_le q = ground arith

pub kernel_entry :
    (k : ℕ)
    → k < 2 ^ 36
    → (entry_address (or_flags (k * 4096) 3) ≡ k * 4096)
      × (is_present (or_flags (k * 4096) 3) ≡ true)
      × (is_user (or_flags (k * 4096) 3) ≡ false)
kernel_entry k lt = page_entry (k * 4096) 3 (omega arith) (omega arith) (omega arith)

IsIdentity-mapped :
    (root n k : ℕ) (s : Paging) → IsIdentity root n s → k < n → k < 2 ^ 36 → leaf root k s ≢ 0
IsIdentity-mapped root n k s id below lt z =
    let (_, present, _) = kernel_entry k lt in
    let here : ltb k n ≡ true = ground arith in
    let e = rw here at (id k lt) in
    let zero : or_flags (k * 4096) 3 ≡ 0 = sym e ∙ z in
    let wrong = rw zero at present in absurd (ground arith)

pub missing-IsIdentity :
    (root n : ℕ) (s : Paging)
    → n < 2 ^ 36
    → IsIdentity root n s
    → tables_for n + missing root n s ≤ tables_for (n + 1)
missing-IsIdentity root n s lt id =
    tables_for_next n (lack (pt_of root n s)) (lack (pd_of root n s)) (lack (pdpt_of root n s))
      (lack_le _) (lack_le _) (lack_le _) (λ h. (beside (omega arith)).0 (omega arith))
      (λ h. (beside (omega arith)).1 (omega arith)) (λ h. (beside (omega arith)).2 (omega arith))
  where
    beside :
        0 < n
        → (n / 512 ≡ (n - 1) / 512 → lack (pt_of root n s) ≡ 0)
          × (n / 2 ^ 18 ≡ (n - 1) / 2 ^ 18 → lack (pd_of root n s) ≡ 0)
          × (n / 2 ^ 27 ≡ (n - 1) / 2 ^ 27 → lack (pdpt_of root n s) ≡ 0)
    beside pos =
        near root n (n - 1) s (IsIdentity-mapped root n (n - 1) s id (omega arith) (omega arith))
