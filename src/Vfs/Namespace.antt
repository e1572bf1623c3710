-- ===== src/Vfs/Namespace.antt =====
-- vfs_namespace_initialize of src/kernel/vfs.c. The programs are the registry that the build embeds:
-- an argument. The nodes and the data of the console are static objects, whose addresses the linker
-- gives.
use platinum.Prelude.{
  ℕ, ◌+◌, Bool, true, false, ◌||◌, Option, none, some, List, [], ◌∷◌, ltb, ◌==◌, if◌then◌else◌,
  length, Exec, ok, halt, ◌>>=◌,
}
use platinum.Vfs.Path.{Entries, end, leaf, dir, string_equal}
use platinum.Prelude.Text.{codes}
use platinum.Vfs.Objects.{
  Vfs, console, static_text, executable, directory, namespace_input, namespace_output,
  static_text_ops, plain_ops, no_data, input, text, program,
}
use platinum.Vfs.{node_initialize}

-- struct embedded_user_program
pub record Program : Type 0 where
  pub name : List ℕ
  pub image : ℕ
  pub size : ℕ

-- `&namespace_root_node` and so on; `executables i` is `&namespace_executable_nodes[i]`. `bad_exec` is
-- whether USER_TEST_BAD_EXEC_IMAGE is defined.
pub record Statics : Type 0 where
  pub root_node : ℕ
  pub dev_node : ℕ
  pub etc_node : ℕ
  pub bin_node : ℕ
  pub input_node : ℕ
  pub output_node : ℕ
  pub banner_node : ℕ
  pub input_data : ℕ
  pub executables : ℕ → ℕ
  pub bad_exec : Bool
  pub bad_exec_image : ℕ

-- "platinum\n"
abbrev pub banner : List ℕ
banner = b'p' ∷ b'l' ∷ b'a' ∷ b't' ∷ b'i' ∷ b'n' ∷ b'u' ∷ b'm' ∷ 10 ∷ []

-- namespace_root_entries, with the entries of /bin.
abbrev pub namespace_root : Statics → Entries → Entries
namespace_root p bin =
    dir (b'd' ∷ b'e' ∷ b'v' ∷ []) p.dev_node
      (leaf (b'c' ∷ b'o' ∷ b'n' ∷ b's' ∷ b'o' ∷ b'l' ∷ b'e' ∷ []) p.output_node end)
      (dir (b'e' ∷ b't' ∷ b'c' ∷ []) p.etc_node
        (leaf (b'b' ∷ b'a' ∷ b'n' ∷ b'n' ∷ b'e' ∷ b'r' ∷ []) p.banner_node end)
        (dir (b'b' ∷ b'i' ∷ b'n' ∷ []) p.bin_node bin end))

-- sizeof(bad_exec_image)
abbrev pub bad_exec_size : ℕ
bad_exec_size = 4

-- `string_equal(program->name, "pulse")` where USER_TEST_BAD_EXEC_IMAGE is defined.
unfoldable pub is_replaced : Statics → Program → Bool
is_replaced p g = if p.bad_exec then string_equal g.name (codes "pulse") else false

-- vfs_program_image
unfoldable pub program_image : Statics → Program → Option (ℕ × ℕ)
unfolding is_replaced
program_image p g =
    if is_replaced p g
    then some (p.bad_exec_image, bad_exec_size)
    else if (g.image == 0) || (g.size == 0)
    then none
    else some (g.image, g.size)

-- The loop over the registry from `index` on, with the entries of /bin that it writes.
unfoldable pub add_programs : Statics → ℕ → List Program → Vfs → Exec (Entries × Vfs)
unfolding program_image
add_programs p index [] s = ok (end, s)
add_programs p index (g ∷ gs) s = elim (program_image p g) [
  | none ↦ halt
  | some (image, size) ↦ (do
    (bin, s') ←
        add_programs p (index + 1) gs
          (node_initialize (p.executables index) executable plain_ops (program image size) s)
    ok (leaf g.name (p.executables index) bin, s'))
]

-- The nodes that are there whatever the registry is.
unfoldable pub fixed_nodes : Statics → Vfs → Vfs
fixed_nodes p s = node_initialize p.banner_node static_text static_text_ops (text banner) (
    node_initialize p.output_node console namespace_output no_data (
      node_initialize p.input_node console namespace_input (input p.input_data b'@' 0) (
        node_initialize p.bin_node directory plain_ops no_data (
          node_initialize p.etc_node directory plain_ops no_data (
            node_initialize p.dev_node directory plain_ops no_data
              (node_initialize p.root_node directory plain_ops no_data s))))))

unfoldable pub namespace_initialize : Statics → List Program → Vfs → Exec Vfs
namespace_initialize p registry s =
    if ltb 6 (length registry + 1) || ltb 5 (length registry) then halt else (do
      (bin, s') ← add_programs p 0 registry (fixed_nodes p s)
      ok (record s' { root = namespace_root p bin; ready = true }))
