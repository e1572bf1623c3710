-- ===== src/Vfs/SelfTest.antt =====
-- vfs_self_test of src/kernel/vfs.c.
use platinum.Prelude.{
  ℕ, Bool, false, ◌&&◌, ◌||◌, none, some, List, [], ◌∷◌, ◌++◌, ◌==◌, if◌then◌else◌, Exec, ok, ◌>>=◌,
}
use platinum.Prelude.Text.{codes, written_line}
use platinum.Vfs
use platinum.Vfs.Objects.{Vfs, placeholder, self_test_ops, input, kfree}
use platinum.Fd.{kzalloc}

-- A part of the test: whether it passed, and the state.
abbrev pub Part : Type 0
Part = Vfs → Exec (Bool × Vfs)

-- The next part where the part before it has passed, as `||` and the early returns go on.
abbrev pub and_then : Exec (Bool × Vfs) → Part → Exec (Bool × Vfs)
and_then m next = m >>= λ r. let (good, s) = r in if good then next s else ok (false, s)

-- sizeof(struct vfs_self_test_data)
abbrev pub self_test_data_size : ℕ
self_test_data_size = 12

-- sizeof(struct vfs_node)
abbrev pub node_size : ℕ
node_size = 24

abbrev pub is_byte : ℕ → List ℕ → Bool
is_byte byte (b ∷ []) = b == byte
is_byte byte _ = false

-- `ch = 0; vfs_file_read(file, &ch, 1u) != 1 || ch != byte`, as a part that passes otherwise.
unfoldable pub reads : (file byte : ℕ) → Part
reads file byte s = do
  (result, bytes, s') ← Vfs.file_read file false 1 s
  ok ((result == 1) && is_byte byte bytes, s')

unfoldable pub writes_nothing : (file : ℕ) → Part
writes_nothing file s = do (result, s') ← Vfs.file_write file false [] s; ok (result == 0, s')

unfoldable pub retains : (file : ℕ) → Part
retains file s = do (result, s') ← Vfs.file_retain file s; ok (result == 0, s')

unfoldable pub closes : (file : ℕ) → Part
closes file s = do (result, s') ← Vfs.file_close file s; ok (result == 0, s')

-- The file of a call that opens one is not NULL.
abbrev pub opened : Exec (ℕ × Vfs) → (ℕ → Part) → Exec (Bool × Vfs)
opened m next = m >>= λ r. let (file, s) = r in if file == 0 then ok (false, s) else next file s

abbrev pub refused : Exec (ℕ × Vfs) → Exec (Bool × Vfs)
refused m = m >>= λ r. let (file, s) = r in ok (file == 0, s)

-- A node of its own, opened for reading and writing.
unfoldable pub node_part : Part
unfolding reads writes_nothing retains closes
node_part s = do
  (at, s₁) ← kzalloc self_test_data_size s
  (node, s₂) ← kzalloc node_size s₁
  if (at == 0) || (node == 0)
      then (do s₃ ← kfree at s₂; s₄ ← kfree node s₃; ok (false, s₄))
      else opened
          (Vfs.file_open node 3
            (Vfs.node_initialize node placeholder self_test_ops (input at b'#' 0) s₂))
          (λ file s₃. and_then (reads file b'#' s₃) (λ s₄.
            and_then (writes_nothing file s₄)
              (λ s₅. and_then (retains file s₅) (λ s₆. and_then (closes file s₆) (closes file)))))

-- The text of /etc/banner and the console.
unfoldable pub namespace_part : Part
unfolding reads writes_nothing closes
namespace_part s =
    and_then
      (opened (Vfs.open_path (codes "/etc/banner") 1 s)
        (λ file s₁. and_then (reads file b'p' s₁) (closes file)))
      (λ s₂.
        opened (Vfs.open_path (codes "/dev/console") 2 s₂)
          (λ file s₃. and_then (writes_nothing file s₃) (closes file)))

-- A program with an image.
unfoldable pub program_part : List ℕ → Part
unfolding closes
program_part path s = opened (Vfs.open_exec_path path s) (λ file s₁.
    Vfs.executable_image file s₁ >>= λ found. elim found [
      | none ↦ ok (false, s₁)
      | some (image, size) ↦ if (image == 0) || (size == 0) then ok (false, s₁) else closes file s₁
    ])

-- The paths that are refused.
unfoldable pub refused_part : Part
refused_part s = and_then (refused (Vfs.open_path (codes "/dev") 1 s)) (λ s₁.
    and_then (refused (Vfs.open_path (codes "etc/banner") 1 s₁)) (λ s₂.
      and_then (refused (Vfs.open_path (codes "/etc/missing") 1 s₂)) (λ s₃.
        and_then (refused (Vfs.open_path (codes "/etc/banner") 2 s₃)) (λ s₄.
          and_then (refused (Vfs.open_path (codes "/dev/console") 1 s₄)) (λ s₅.
            and_then (refused (Vfs.open_exec_path (codes "/bin/missing") s₅))
              (λ s₆. refused (Vfs.open_exec_path (codes "/etc/banner") s₆)))))))

abbrev pub say : List ℕ → Vfs → Vfs
say text s = record s { serial = s.serial ++ text }

-- Whether it reported success, and the state behind its message.
unfoldable pub self_test : Vfs → Exec (Bool × Vfs)
unfolding node_part namespace_part program_part refused_part
self_test s = do
  (good, s') ← and_then (node_part s) (λ s₁. and_then (namespace_part s₁) (λ s₂.
      and_then (program_part (codes "/bin/pulse") s₂)
        (λ s₃. and_then (program_part (codes "/bin/echo") s₃) refused_part)))
  ok (good, say (if good then written_line "vfs ok" else written_line "vfs fail") s')
