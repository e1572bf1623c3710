-- ===== src/Fd/SelfTest.antt =====
-- fd_self_test of src/kernel/fd.c, with the placeholder files that it opens.
use platinum.Prelude.{
  ℕ, zero, suc, ◌+◌, ◌^◌, Bool, true, false, not, ◌&&◌, ◌||◌, none, some, [], leb, ◌==◌,
  if◌then◌else◌, Exec, ok, ◌>>=◌,
}
use platinum.Prelude.Text.{written_line}
use platinum.Vfs
use platinum.Vfs.Objects.{Vfs, placeholder, placeholder_ops, counted, kfree, minus_one}
use platinum.Vfs.SelfTest.{node_size, is_byte, say}
use platinum.Fd
use platinum.Fd.{FdTable, FdKind, initialized, capacity, kzalloc}

-- `placeholder_a_released` and `placeholder_b_released`
abbrev pub counter_a : ℕ
counter_a = 0

abbrev pub counter_b : ℕ
counter_b = 1

abbrev pub set_counter : ℕ → ℕ → Vfs → Vfs
set_counter counter value s = record s {
  released = λ i. if i == counter then value else s.released i;
}

-- sizeof(struct fd_placeholder)
abbrev pub placeholder_size : ℕ
placeholder_size = 8

unfoldable pub make_placeholder_file : (counter : ℕ) → Vfs → Exec (ℕ × Vfs)
make_placeholder_file counter s = do
  (at, s₁) ← kzalloc placeholder_size s
  (node, s₂) ← kzalloc node_size s₁
  if (at == 0) || (node == 0)
      then (do s₃ ← kfree at s₂; s₄ ← kfree node s₃; ok (0, s₄))
      else Vfs.file_open node 2
          (Vfs.node_initialize node placeholder placeholder_ops (counted at counter) s₂)

unfoldable pub install_placeholder : (counter : ℕ) → FdTable → Vfs → Exec (ℕ × FdTable × Vfs)
unfolding make_placeholder_file
install_placeholder counter t s = do
  (file, s₁) ← make_placeholder_file counter s
  let (fd, t') = Fd.install FdKind.placeholder file t
  ok (fd, t', s₁)

abbrev pub is_open : ℕ → FdTable → Bool
is_open fd t = elim (Fd.get fd t) [ none ↦ false | some e ↦ true ]

abbrev pub Outcome : Type 0
Outcome = Bool × Vfs

-- Two placeholder files, closed one by one and all together.
unfoldable pub close_part : Vfs → Exec Outcome
unfolding install_placeholder
close_part s = do
  let s₀ = set_counter counter_b 0 (set_counter counter_a 0 s)
  (first, t₁, s₁) ← install_placeholder counter_a initialized s₀
  (second, t₂, s₂) ← install_placeholder counter_b t₁ s₁
  if not (first == 0) || not (second == 1) then ok (false, s₂) else (do
    (closed, t₃, s₃) ← Fd.close first t₂ s₂
    if not (closed == 0) || not (s₃.released counter_a == 1) then ok (false, s₃) else (do
      (t₄, s₄) ← Fd.close_all t₃ s₃
      ok ((s₄.released counter_b == 1) && not (is_open second t₄), s₄)))

-- The three console files, one of them duplicated.
unfoldable pub console_part : Vfs → Exec Outcome
console_part s = do
  (seeded, t₁, s₁) ← Fd.seed_console initialized s
  if not seeded then ok (false, s₁) else (do
    (got, bytes, s₂) ← Fd.read 0 false 1 t₁ s₁
    if not (got == 1) || not (is_byte b'@' bytes) then ok (false, s₂) else (do
      (copy, t₃, s₃) ← Fd.dup 1 t₁ s₂
      if leb (2 ^ 31) copy then ok (false, s₃) else (do
        (sent, s₄) ← Fd.write copy false [] t₃ s₃
        if not (sent == 0) then ok (false, s₄) else (do
          (closed, t₅, s₅) ← Fd.close copy t₃ s₄
          if not (closed == 0) then ok (false, s₅) else (do
            (closed', t₆, s₆) ← Fd.close 1 t₅ s₅
            if not (closed' == 0)
                then ok (false, s₆)
                else (do (t₇, s₇) ← Fd.close_all t₆ s₆; ok (true, s₇)))))))

-- The loop that installs placeholder files as the `rounds` descriptors from `index` on.
unfoldable pub fill_rest : (rounds index : ℕ) → FdTable → Vfs → Exec (Bool × FdTable × Vfs)
unfolding install_placeholder
fill_rest zero index t s = ok (true, t, s)
fill_rest (suc rounds) index t s = do
  (fd, t', s') ← install_placeholder counter_b t s
  let later = fill_rest rounds (index + 1) t' s'
  if fd == index then later else ok (false, t', s')

-- A full table, in which a descriptor cannot be duplicated.
unfoldable pub full_part : Vfs → Exec Outcome
unfolding install_placeholder fill_rest
full_part s = do
  (first, t₁, s₁) ← install_placeholder counter_a initialized (set_counter counter_a 0 s)
  if not (first == 0) then ok (false, s₁) else (do
    (filled, t₂, s₂) ← fill_rest 15 1 t₁ s₁
    if not filled then ok (false, s₂) else (do
      (copy, t₃, s₃) ← Fd.dup first t₂ s₂
      if not (copy == minus_one) || not (s₃.released counter_a == 0) then ok (false, s₃) else (do
        (closed, t₄, s₄) ← Fd.close first t₃ s₃
        if not (closed == 0) || not (s₄.released counter_a == 1)
            then ok (false, s₄)
            else (do (t₅, s₅) ← Fd.close_all t₄ s₄; ok (true, s₅)))))

-- The parts one after the other; the first that fails ends the test.
unfoldable pub parts : Vfs → Exec Outcome
unfolding close_part console_part full_part
parts s = do
  (good, s₁) ← close_part s
  if not good
      then ok (false, s₁)
      else (do (good', s₂) ← console_part s₁; if not good' then ok (false, s₂) else full_part s₂)

-- Whether it reported success, and the state behind its message.
unfoldable pub self_test : Vfs → Exec Outcome
unfolding parts
self_test s = do
  (good, s') ← parts s
  ok (good, say (if good then written_line "fd ok" else written_line "fd fail") s')
