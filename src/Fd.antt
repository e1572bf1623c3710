-- ===== src/Fd.antt =====
-- src/kernel/fd.c, the descriptor table of a task: sixteen entries that refer to open files of the
-- virtual file system. Descriptors are `int`, taken as 32-bit patterns.
pub mod Duplicate
pub mod SelfTest
pub mod Table
mod Tests
use platinum.Prelude.{
  ℕ, zero, suc, ◌+◌, ◌^◌, Bool, true, false, not, ◌||◌, Option, none, some, List, [], ◌∷◌, leb, ltb,
  ◌==◌, if◌then◌else◌, get_elem?, set, replicate, Exec, ok, ◌>>=◌,
}
use platinum.Heap
use platinum.Vfs
use platinum.Vfs.{deref}
use platinum.Vfs.Objects.{
  Vfs, minus_one, console, fd_input, fd_output, input, output, access_read, access_write, kfree,
}

pub data FdKind : Type 0 where
  unused placeholder console_fd : FdKind

pub record Entry : Type 0 where
  pub used : ℕ
  pub kind : FdKind
  pub file : ℕ

abbrev pub FdTable : Type 0
FdTable = List Entry

abbrev pub capacity : ℕ
capacity = 16

abbrev pub empty_entry : Entry
empty_entry = record { used = 0; kind = unused; file = 0 }

-- fd_table_initialize
abbrev pub initialized : FdTable
initialized = replicate capacity empty_entry

abbrev pub is_unused : FdKind → Bool
is_unused unused = true
is_unused _ = false

-- The first entry that is not in use, counted from `index`.
unfoldable pub find_free : ℕ → FdTable → Option ℕ
find_free index [] = none
find_free index (e ∷ rest) =
    let later = find_free (index + 1) rest in if e.used == 0 then some index else later

-- The descriptor, or -1 where the table is full or there is nothing to install.
unfoldable pub install : FdKind → ℕ → FdTable → ℕ × FdTable
unfolding find_free
install kind file t =
    if is_unused kind || (file == 0) then (minus_one, t) else (elim (find_free 0 t) [
      | none ↦ (minus_one, t)
      | some index ↦ (index, set t index (record { used = 1; kind = kind; file = file }))
    ])

-- `fd < 0 || fd >= fd_table_capacity` on an int: a negative one has a pattern of 2 ^ 31 or more.
abbrev pub in_table : ℕ → Bool
in_table fd = ltb fd capacity

unfoldable pub get : ℕ → FdTable → Option Entry
get fd t =
    if not (in_table fd)
    then none
    else (elim (get_elem? t fd) [ none ↦ none | some e ↦ if e.used == 0 then none else some e ])

unfoldable pub dup : ℕ → FdTable → Vfs → Exec (ℕ × FdTable × Vfs)
dup fd t s = elim (get fd t) [
  | none ↦ ok (minus_one, t, s)
  | some e ↦ (do
    (retained, s₁) ← Vfs.file_retain e.file s
    if not (retained == 0)
        then ok (minus_one, t, s₁)
        else (let (copy, t') = install e.kind e.file t in
            if leb (2 ^ 31) copy
            then (do (_, s₂) ← Vfs.file_close e.file s₁; ok (minus_one, t', s₂))
            else ok (copy, t', s₁)))
]

unfoldable pub read : ℕ → Bool → ℕ → FdTable → Vfs → Exec (ℕ × List ℕ × Vfs)
unfolding get
read fd null count t s = elim (get fd t) [
  | none ↦ ok (minus_one, [], s)
  | some e ↦ Vfs.file_read e.file null count s
]

unfoldable pub write : ℕ → Bool → List ℕ → FdTable → Vfs → Exec (ℕ × Vfs)
unfolding get
write fd null bytes t s = elim (get fd t) [
  | none ↦ ok (minus_one, s)
  | some e ↦ Vfs.file_write e.file null bytes s
]

unfoldable pub close : ℕ → FdTable → Vfs → Exec (ℕ × FdTable × Vfs)
close fd t s = elim (get fd t) [
  | none ↦ ok (minus_one, t, s)
  | some e ↦ (do (result, s') ← Vfs.file_close e.file s; ok (result, set t fd empty_entry, s'))
]

-- The loop of fd_table_close_all for the `rounds` descriptors from `fd` on. Where the code skips an
-- entry that is not in use, `close` changes nothing.
unfoldable pub close_from : ℕ → ℕ → FdTable → Vfs → Exec (FdTable × Vfs)
unfolding close
close_from zero fd t s = ok (t, s)
close_from (suc rounds) fd t s =
    close fd t s >>= λ r. let (_, t', s') = r in close_from rounds (fd + 1) t' s'

unfoldable pub close_all : FdTable → Vfs → Exec (FdTable × Vfs)
unfolding close_from
close_all t s = close_from capacity 0 t s

-- kzalloc on the heap of the file system.
unfoldable pub kzalloc : ℕ → Vfs → Exec (ℕ × Vfs)
kzalloc size s = do (p, heap) ← Heap.kmalloc size s.heap; ok (p, record s { heap = heap })

-- The end of fd_table_seed_console: the three files become descriptors 0, 1 and 2, or are closed.
unfoldable pub seed_files : ℕ → ℕ → ℕ → FdTable → Vfs → Exec (Bool × FdTable × Vfs)
unfolding install
seed_files input_file stdout_file stderr_file t s =
    let (a, t₁) = install console_fd input_file t in
    let (b, t₂) = install console_fd stdout_file t₁ in
    let (c, t₃) = install console_fd stderr_file t₂ in
    let reached = if not (a == 0) then t₁ else if not (b == 1) then t₂ else t₃ in
    if (input_file == 0)
      || (stdout_file == 0)
      || (stderr_file == 0)
      || not (a == 0)
      || not (b == 1)
      || not (c == 2)
    then (do
      (_, s₁) ← Vfs.file_close input_file s
      (_, s₂) ← Vfs.file_close stdout_file s₁
      (_, s₃) ← Vfs.file_close stderr_file s₂
      ok (
        false,
        if (input_file == 0) || (stdout_file == 0) || (stderr_file == 0) then t else reached,
        s₃,
      ))
    else ok (true, t₃, s)

-- Whether the console was seeded. The sizes are those of fd_console_input, fd_console_output and
-- vfs_node.
unfoldable pub seed_console : FdTable → Vfs → Exec (Bool × FdTable × Vfs)
unfolding kzalloc seed_files
seed_console t s = do
  (input_data, s₁) ← kzalloc 12 s
  (output_data, s₂) ← kzalloc 4 s₁
  (input_node, s₃) ← kzalloc 24 s₂
  (output_node, s₄) ← kzalloc 24 s₃
  if (input_data == 0) || (output_data == 0) || (input_node == 0) || (output_node == 0)
      then (do
        s₅ ← kfree input_data s₄
        s₆ ← kfree output_data s₅
        s₇ ← kfree input_node s₆
        s₈ ← kfree output_node s₇
        ok (false, t, s₈))
      else (do
        let s₅ = Vfs.node_initialize input_node console fd_input (input input_data b'@' 0) s₄
        let s₆ = Vfs.node_initialize output_node console fd_output (output output_data) s₅
        (input_file, s₇) ← Vfs.file_open input_node access_read s₆
        (stdout_file, s₈) ← Vfs.file_open output_node access_write s₇
        (stderr_file, s₉) ← Vfs.file_open output_node access_write s₈
        seed_files input_file stdout_file stderr_file t s₉)
