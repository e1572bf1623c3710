-- ===== src/Paging/Leaves.antt =====
-- A write to a table of the last level, seen from the top of the tree.
use platinum.Prelude.{
  ℕ, ◌+◌, ◌/◌, ◌%◌, ◌^◌, ◌≤◌, ◌<◌, ◌≡◌, ◌≢◌, ◌⊎◌, inl, inr, refl, sym, ap, ◌∙◌, arith, true, false,
  ◌==◌, if◌then◌else◌,
}
use platinum.Paging.{Paging, write_entry}
use platinum.Paging.Hierarchy.{
  child, step, word, leaf, pdpt_of, pd_of, pt_of, Shape, Leads, IsTree, AtLevel, child-Leads,
  step-pos, step-zero,
}
use platinum.Paging.Change.{write_entry-cases}

module _ (sh : Shape) (root : ℕ) (s : Paging) (t : IsTree sh root s) where
  pub step-Leads :
      (k q i : ℕ)
      → AtLevel sh (k + 1) q
      → 1 ≤ k
      → i < 512
      → (step s q i ≡ 0) ⊎ Leads sh q i (step s q i)
  step-Leads k q i at one lt = elim at [
    | inl z ↦ rw z (inl (step-zero s i))
    | inr l ↦
        rw (step-pos s q i ((t.tables q (omega arith)).positive))
          (child-Leads sh root s q i t (omega arith) lt)
  ]

  pub step-AtLevel :
      (k q i : ℕ) → AtLevel sh (k + 1) q → 1 ≤ k → i < 512 → AtLevel sh k (step s q i)
  step-AtLevel k q i at one lt = elim (step-Leads k q i at one lt) [
    | inl z ↦ inl z
    | inr leads ↦ elim at [
      | inl z ↦ rw z (inl (step-zero s i))
      | inr l ↦ inr (omega (arith, leads.level))
    ]
  ]

  pub pdpt-AtLevel : (n : ℕ) → AtLevel sh 3 (pdpt_of root n s)
  pdpt-AtLevel n = step-AtLevel 3 root (n / 2 ^ 27 % 512) (inr t.top) (omega arith) (omega arith)

  pub pd-AtLevel : (n : ℕ) → AtLevel sh 2 (pd_of root n s)
  pd-AtLevel n =
      step-AtLevel 2 (pdpt_of root n s) (n / 2 ^ 18 % 512) (pdpt-AtLevel n) (omega arith)
        (omega arith)

  pub pt-AtLevel : (n : ℕ) → AtLevel sh 1 (pt_of root n s)
  pt-AtLevel n =
      step-AtLevel 1 (pd_of root n s) (n / 2 ^ 9 % 512) (pd-AtLevel n) (omega arith) (omega arith)

  -- One table is below one entry only.
  step-inj :
      (k q i q' i' : ℕ)
      → AtLevel sh (k + 1) q
      → AtLevel sh (k + 1) q'
      → 1 ≤ k
      → i < 512
      → i' < 512
      → step s q i ≡ step s q' i'
      → 0 < sh.level (step s q i)
      → (q ≡ q') × (i ≡ i') × (0 < sh.level q)
  step-inj k q i q' i' at at' one lt lt' e pos = elim (step-Leads k q i at one lt) [
    | inl z ↦ nowhere z
    | inr l ↦ elim (step-Leads k q' i' at' one lt') [
      | inl z ↦ nowhere (e ∙ z)
      | inr l' ↦ (
        sym l.up ∙ ap sh.up e ∙ l'.up,
        sym l.index ∙ ap sh.index e ∙ l'.index,
        omega (arith, l.level),
      )
    ]
  ]
    where
      nowhere : step s q i ≡ 0 → (q ≡ q') × (i ≡ i') × (0 < sh.level q)
      nowhere z = absurd (omega (arith, (t.tables 0 (rw z at pos)).positive))

  -- Two pages with the same last table have the same number but for the last nine bits.
  pt_of-inj :
      (n m : ℕ)
      → n < 2 ^ 36
      → m < 2 ^ 36
      → pt_of root n s ≡ pt_of root m s
      → 0 < sh.level (pt_of root n s)
      → n / 512 ≡ m / 512
  pt_of-inj n m hn hm e pos =
      let (e₁, i₁, pos₁) =
        step-inj 1 _ _ _ _ (pd-AtLevel n) (pd-AtLevel m) (omega arith) (omega arith) (omega arith) e
          pos in
      let (e₂, i₂, pos₂) =
        step-inj 2 _ _ _ _ (pdpt-AtLevel n) (pdpt-AtLevel m) (omega arith) (omega arith)
          (omega arith) e₁ pos₁ in
      let (_, i₃, _) =
        step-inj 3 root _ root _ (inr t.top) (inr t.top) (omega arith) (omega arith) (omega arith)
          e₂ pos₂ in
      omega arith

  pub write-IsTree : (p i e : ℕ) → sh.level p ≡ 1 → IsTree sh root (write_entry p i e s)
  unfolding write_entry
  write-IsTree p i e one = record {
    pages = t.pages;
    end = t.end;
    used = t.used;
    top = t.top;
    tables = t.tables;
    entries = λ x j two lt. elim (write_entry-cases p i e s x j) [
      | inl (ex, _, _) ↦ let r = rw ex at two in absurd (omega arith)
      | inr (_, w) ↦ rw w (t.entries x j two lt)
    ];
  }

  step-write :
      (p i e k q j : ℕ)
      → sh.level p ≡ 1
      → AtLevel sh (k + 1) q
      → 1 ≤ k
      → step (write_entry p i e s) q j ≡ step s q j
  unfolding step child
  step-write p i e k q j one at pos = elim at [
    | inl z ↦ rw z refl
    | inr l ↦ elim (write_entry-cases p i e s q j) [
      | inl (ex, _, _) ↦ let r = rw ex at l in absurd (omega arith)
      | inr (_, w) ↦ rw w refl
    ]
  ]

  pt_of-write : (p i e n : ℕ) → sh.level p ≡ 1 → pt_of root n (write_entry p i e s) ≡ pt_of root n s
  pt_of-write p i e n one =
      let e₃ = step-write p i e 3 root (n / 2 ^ 27 % 512) one (inr t.top) (omega arith) in
      let e₂ = step-write p i e 2 _ (n / 2 ^ 18 % 512) one (pdpt-AtLevel n) (omega arith) in
      let e₁ = step-write p i e 1 _ (n / 2 ^ 9 % 512) one (pd-AtLevel n) (omega arith) in
      rw (e₃, e₂, e₁) refl

  pub leaf-write :
      (n m e : ℕ)
      → n < 2 ^ 36
      → m < 2 ^ 36
      → sh.level (pt_of root m s) ≡ 1
      → leaf root n (write_entry (pt_of root m s) (m % 512) e s)
        ≡ (if n == m then e else leaf root n s)
  unfolding leaf word
  leaf-write n m e hn hm one =
      let pos : 0 < pt_of root m s = (t.tables (pt_of root m s) (omega arith)).positive in
      rw (pt_of-write (pt_of root m s) (m % 512) e n one)
        (elim (write_entry-cases (pt_of root m s) (m % 512) e s (pt_of root n s) (n % 512)) [
          | inl (ep, ei, w) ↦
              let high = pt_of-inj n m hn hm ep (rw ep (omega arith)) in
              let here : (n == m) ≡ true = ground arith in
              let there : (pt_of root n s == 0) ≡ false = ground arith in rw (w, here, there) refl
          | inr (other, w) ↦
              let ne : n ≢ m = λ eq. elim other [
                | inl no_table ↦ no_table (ap (λ k. pt_of root k s) eq)
                | inr no_index ↦ no_index (ap (λ k. k % 512) eq)
              ] in
              let there : (n == m) ≡ false = ground arith in rw (w, there) refl
        ])
