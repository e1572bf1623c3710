-- ===== src/Fd/Duplicate.antt =====
-- fd_dup and fd_close of src/kernel/fd.c on the count of references of an open file.
use platinum.Prelude.{
  ℕ, ◌+◌, ◌-◌, ◌^◌, ◌<◌, ◌≡◌, ◌≢◌, ◌⊎◌, inl, inr, refl, sym, false, ◌∙◌, ap, none, some, arith, leb,
  ◌==◌, if◌then◌else◌, length, set, Bool-cases, lookup, insert, lookup-insert, u32, Exec, ok, ◌>>=◌,
  get_elem?-set_self,
}
use platinum.Vfs
use platinum.Vfs.Objects.{Vfs, File, minus_one}
use platinum.Fd.{Entry, FdTable, capacity, is_unused, empty_entry, install, get, dup, close}
use platinum.Fd.Table.{InstallSpec, full, installed, install-InstallSpec, get-set_ne, get-unused}

-- The file at `p` has one reference more or less, every other file is the same.
pub record Counted (p : ℕ) (f : File) (refs : ℕ) (s s' : Vfs) : Type 0 where
  pub here : lookup p s'.files ≡ some (record f { refs = refs })
  pub elsewhere : (q : ℕ) → q ≢ p → lookup q s'.files ≡ lookup q s.files

abbrev with_file : ℕ → File → Vfs → Vfs
with_file p f s = record s { files = insert p f s.files }

with_file-Counted :
    (p : ℕ) (f : File) (refs : ℕ) (s : Vfs)
    → Counted p f refs s (with_file p (record f { refs = refs }) s)
with_file-Counted p f refs s = record {
  here = rw (lookup-insert p p (record f { refs = refs }) s.files) (ground arith);
  elsewhere = λ q ne. rw (lookup-insert p q (record f { refs = refs }) s.files) (ground arith);
}

module _ (p : ℕ) (f : File) (s : Vfs) (live : lookup p s.files ≡ some f) (ne : p ≢ 0)
    (node : f.node ≢ 0) where
  file_retain-ok :
      0 < f.refs
      → f.refs + 1 < 2 ^ 32
      → Vfs.file_retain p s ≡ ok (0, with_file p (record f { refs = f.refs + 1 }) s)
  unfolding Vfs.file_retain
  file_retain-ok pos small =
      let e : u32 (f.refs + 1) ≡ f.refs + 1 = omega arith in
      let a : (p == 0) ≡ false = ground arith in
      let b : (f.refs == 0) ≡ false = ground arith in
      let c : (f.node == 0) ≡ false = ground arith in rw (a, live, b, c, e, Vfs.file_retain)

  -- vfs_file_close of a file that has other references.
  file_close-ok :
      1 < f.refs → Vfs.file_close p s ≡ ok (0, with_file p (record f { refs = f.refs - 1 }) s)
  unfolding Vfs.file_close
  file_close-ok more =
      let a : (p == 0) ≡ false = ground arith in
      let b : (f.refs == 0) ≡ false = ground arith in
      let c : (f.node == 0) ≡ false = ground arith in
      let d : (f.refs - 1 == 0) ≡ false = ground arith in rw (a, live, b, c, d, Vfs.file_close)

  -- Counting up and down again.
  Counted-back :
      (refs : ℕ)
      → refs ≡ f.refs
      → Counted p f f.refs s
          (with_file p (record f { refs = refs }) (with_file p (record f { refs = f.refs + 1 }) s))
  Counted-back refs e =
      let s₁ = with_file p (record f { refs = f.refs + 1 }) s in
      let c₁ = with_file-Counted p f (f.refs + 1) s in
      let c₂ = with_file-Counted p f refs s₁ in
      record {
        here = c₂.here ∙ ap (λ n. some (record f { refs = n })) e;
        elsewhere = λ q ne'. c₂.elsewhere q ne' ∙ c₁.elsewhere q ne';
      }

-- The entry that fd_install makes of a kind and a file.
abbrev pub new_entry : Entry → Entry
new_entry e = record { used = 1; kind = e.kind; file = e.file }

-- What fd_dup makes of a descriptor with the entry `e` that refers to the file `f`.
pub record Duplicated (e : Entry) (f : File) (t : FdTable) (s : Vfs) (copy : ℕ) (t' : FdTable)
    (s' : Vfs) : Type 0 where
  pub bounded : copy < capacity
  pub fresh : get copy t ≡ none
  pub copied : get copy t' ≡ some (new_entry e)
  pub others : (other : ℕ) → other ≢ copy → get other t' ≡ get other t
  pub counted : Counted e.file f (f.refs + 1) s s'

-- Closing the copy leads back to the table and the counts before fd_dup.
abbrev pub Reverted : Entry → File → FdTable → Vfs → Exec (ℕ × FdTable × Vfs) → Type 0
Reverted e f t s r =
    (t' : FdTable) × (s' : Vfs) × (r ≡ ok (0, t', s'))
    × ((fd : ℕ) → get fd t' ≡ get fd t)
    × Counted e.file f f.refs s s'

abbrev pub DupSpec : ℕ → Entry → File → FdTable → Vfs → Type 0
DupSpec fd e f t s =
    (((other : ℕ) → other < capacity → (e' : Entry) × (get other t ≡ some e'))
      × ((s' : Vfs) × (dup fd t s ≡ ok (minus_one, t, s')) × Counted e.file f f.refs s s'))
    ⊎ ((copy : ℕ) × (t' : FdTable) × (s' : Vfs) × (dup fd t s ≡ ok (copy, t', s'))
        × Duplicated e f t s copy t' s'
        × Reverted e f t s (close copy t' s'))

module _ (fd : ℕ) (e : Entry) (f : File) (t : FdTable) (s : Vfs) (entry : get fd t ≡ some e)
    (live : lookup e.file s.files ≡ some f) (ne : e.file ≢ 0) (node : f.node ≢ 0) (pos : 0 < f.refs)
    (small : f.refs + 1 < 2 ^ 32) (len : length t ≡ capacity) where
  counted_up : Vfs
  counted_up = with_file e.file (record f { refs = f.refs + 1 }) s

  open_copy : dup fd t s ≡ (
      let (copy, t') = install e.kind e.file t in
      if leb (2 ^ 31) copy
      then (Vfs.file_close e.file counted_up >>= λ r. ok (minus_one, t', r.1))
      else ok (copy, t', counted_up))
  unfolding dup counted_up
  open_copy = rw (entry, file_retain-ok e.file f s live ne node pos small, dup)

  close_again :
      Vfs.file_close e.file counted_up
      ≡ ok (0, with_file e.file (record f { refs = f.refs + 1 - 1 }) counted_up)
  unfolding counted_up
  close_again =
      file_close-ok e.file (record f { refs = f.refs + 1 }) counted_up
        (with_file-Counted e.file f (f.refs + 1) s).here ne node (omega (arith, pos))

  back :
      Counted e.file f f.refs s (with_file e.file (record f { refs = f.refs + 1 - 1 }) counted_up)
  unfolding counted_up
  back = Counted-back e.file f s live ne node (f.refs + 1 - 1) (omega arith)

  -- Emptying the entry of a copy gives the table before.
  emptied :
      (copy : ℕ) (t' : FdTable)
      → copy < capacity
      → length t' ≡ length t
      → get copy t ≡ none
      → ((other : ℕ) → other ≢ copy → get other t' ≡ get other t)
      → (k : ℕ) → get k (set t' copy empty_entry) ≡ get k t
  emptied copy t' lt same fresh others k = elim (Bool-cases (k == copy)) [
    | inl here ↦
        let eq : k ≡ copy = ground arith in
        rw eq (
          get-unused (set t' copy empty_entry) copy empty_entry
            (get_elem?-set_self t' copy empty_entry (omega (arith, len))) refl
          ∙ sym fresh)
    | inr there ↦
        let ne' : k ≢ copy = ground arith in get-set_ne t' copy k empty_entry ne' ∙ others k ne'
  ]

  below_limit : (copy : ℕ) → copy < capacity → leb (2 ^ 31) copy ≡ false
  below_limit copy lt = ground arith

  dup-by_install :
      (copy : ℕ) (t' : FdTable)
      → install e.kind e.file t ≡ (copy, t')
      → InstallSpec e.kind e.file t copy t'
      → DupSpec fd e f t s
  unfolding close
  dup-by_install copy t' h (full all) = inl (all, (_, open_copy ∙ rw (h, close_again) refl, back))
  dup-by_install copy t' h (installed c u lt fresh lower copied others len') = inr (
    copy,
    t',
    counted_up,
    open_copy ∙ rw (h, below_limit copy lt) refl,
    record {
      bounded = lt;
      fresh = fresh;
      copied = copied;
      others = others;
      counted = unfold counted_up in with_file-Counted e.file f (f.refs + 1) s;
    },
    (
      set t' copy empty_entry,
      _,
      rw (copied, close_again, close) refl,
      emptied copy t' lt len' fresh others,
      back,
    ),
  )

-- fd_dup of an open descriptor, in a table of sixteen entries, that refers to a live file whose count
-- of references does not overflow. If all descriptors are open it fails and leaves the table and all
-- counts as they were. Otherwise a descriptor that was not open now has the same file, the file has
-- one reference more, and no other descriptor or file changes; and closing the new descriptor then
-- succeeds and leads back to the table and the counts before.
pub dup-DupSpec :
    (fd : ℕ) (e : Entry) (f : File) (t : FdTable) (s : Vfs)
    → get fd t ≡ some e
    → is_unused e.kind ≡ false
    → e.file ≢ 0
    → length t ≡ capacity
    → lookup e.file s.files ≡ some f
    → f.node ≢ 0
    → 0 < f.refs
    → f.refs + 1 < 2 ^ 32
    → DupSpec fd e f t s
dup-DupSpec fd e f t s entry used ne len live node pos small =
    dup-by_install fd e f t s entry live ne node pos small len _ _ refl
      (install-InstallSpec e.kind e.file t used ne len)
