-- ===== src/Vfs.antt =====
-- src/kernel/vfs.c, open files over nodes. `Path` has the walk along a path, `Objects` the data and the
-- callbacks. A pointer to no live object is a `fault`; a result `int` is a 32-bit pattern.
pub mod Objects
pub mod Lifetime
pub mod Namespace
pub mod Programs
pub mod Reach
pub mod Path
pub mod Resolve
pub mod SelfTest
mod Tests
use Objects.{
  NodeKind, directory, executable, console, NodeOps, NodeData, no_data, program, Node, File, Vfs,
  minus_one, may_read, may_write, has_read, has_write, kfree, release_node, Taken, read_node, Put,
  write_node,
}
use Path.{walk_path}
use platinum.Prelude.{
  ℕ, zero, suc, ◌+◌, ◌-◌, ◌*◌, ◌/◌, ◌%◌, ◌^◌, ◌≤◌, ◌<◌, ◌≡◌, Bool, true, false, not, ◌&&◌, ◌||◌,
  Option, none, some, List, [], ◌∷◌, ◌++◌, leb, ltb, ◌==◌, if◌then◌else◌, length, u32, u64, Store,
  lookup, erase, insert, Exec, ok, halt, fault, ◌>>=◌, ◌>>◌,
}
use platinum.Heap
use platinum.Heap.{Heap}

-- `*p` for a pointer to a live object.
abbrev pub deref {ℓ} : {A : Type ℓ} → Option A → Exec A
deref none = fault
deref (some a) = ok a

-- sizeof(struct vfs_file)
abbrev pub file_size : ℕ
file_size = 32

-- vfs_node_initialize on a node that has memory; its kind is never VFS_NODE_NONE here.
unfoldable pub node_initialize : ℕ → NodeKind → NodeOps → NodeData → Vfs → Vfs
node_initialize p kind ops content s = record s {
  nodes = insert p (record { kind = kind; refs = 0; ops = ops; content = content }) s.nodes;
}

unfoldable pub open_flags_valid : ℕ → Bool
open_flags_valid access = (access == 1) || (access == 2) || (access == 3)

-- `file->refs = 1u` to `++node->refs`, on the memory at `q` that kzalloc returned.
unfoldable pub attach : ℕ → ℕ → Node → ℕ → Vfs → Vfs
attach q node n access s = record s {
  files = insert q (record { refs = 1; node = node; offset = 0; access = access }) s.files;
  nodes = insert node (record n { refs = u32 (n.refs + 1) }) s.nodes;
}

-- The bytes that kzalloc clears are the file's fields, which are all written here.
unfoldable pub make_file : ℕ → ℕ → Vfs → Exec (ℕ × Vfs)
make_file node access s = do
  (q, heap) ← Heap.kmalloc file_size s.heap
  let s' : Vfs = record s { heap = heap }
  if q == 0
      then ok (0, s')
      else (do n ← deref (lookup node s.nodes); ok (q, attach q node n access s'))

abbrev pub is_directory : NodeKind → Bool
is_directory directory = true
is_directory _ = false

abbrev pub is_executable : NodeKind → Bool
is_executable executable = true
is_executable _ = false

-- `node->ops` is set by vfs_node_initialize before a node can be reached, and is not NULL.
unfoldable pub file_open : ℕ → ℕ → Vfs → Exec (ℕ × Vfs)
file_open node access s = if node == 0 then ok (0, s) else do
  n ← deref (lookup node s.nodes)
  let refused =
      is_directory n.kind
      || not (open_flags_valid access)
      || (may_read access && not (has_read n.ops))
      || (may_write access && not (has_write n.ops))
  if refused then ok (0, s) else make_file node access s

unfoldable pub file_retain : ℕ → Vfs → Exec (ℕ × Vfs)
file_retain p s = if p == 0 then ok (minus_one, s) else do
  f ← deref (lookup p s.files)
  let s' : Vfs = record s { files = insert p (record f { refs = u32 (f.refs + 1) }) s.files }
  if (f.refs == 0) || (f.node == 0) then ok (minus_one, s) else ok (0, s')

-- vfs_file_close once the last reference to the file is gone. The file's memory is given back, so
-- what its fields were does not matter.
unfoldable pub detach : ℕ → ℕ → Vfs → Exec (ℕ × Vfs)
detach p node s = do
  s₁ ← kfree p (record s { files = erase p s.files })
  n ← deref (lookup node s₁.nodes)
  let n' : Node = record n { refs = n.refs - 1 }
  let s₂ : Vfs = record s₁ { nodes = insert node n' s₁.nodes }
  if n.refs == 0
      then ok (minus_one, s₁)
      else if n.refs - 1 == 0
      then release_node node n' s₂
      else ok (0, s₂)

unfoldable pub file_close : ℕ → Vfs → Exec (ℕ × Vfs)
file_close p s = if p == 0 then ok (minus_one, s) else do
  f ← deref (lookup p s.files)
  let s' : Vfs = record s { files = insert p (record f { refs = f.refs - 1 }) s.files }
  if (f.refs == 0) || (f.node == 0)
      then ok (minus_one, s)
      else if f.refs - 1 == 0
      then detach p f.node s
      else ok (0, s')

-- The result, the bytes that go into the buffer, and the state.
unfoldable pub file_read : ℕ → Bool → ℕ → Vfs → Exec (ℕ × List ℕ × Vfs)
unfolding read_node
file_read p null count s = if p == 0 then ok (minus_one, [], s) else do
  f ← deref (lookup p s.files)
  if f.node == 0 then ok (minus_one, [], s) else do
    n ← deref (lookup f.node s.nodes)
    if not (has_read n.ops) || not (may_read f.access) then ok (minus_one, [], s) else do
      t ← deref (read_node n.ops n.content null f.offset count)
      ok (
        t.result,
        t.bytes,
        record s {
          files = insert p (record f { offset = t.offset }) s.files;
          nodes = insert f.node (record n { content = t.content }) s.nodes;
        },
      )

unfoldable pub file_write : ℕ → Bool → List ℕ → Vfs → Exec (ℕ × Vfs)
unfolding write_node
file_write p null bytes s = if p == 0 then ok (minus_one, s) else do
  f ← deref (lookup p s.files)
  if f.node == 0 then ok (minus_one, s) else do
    n ← deref (lookup f.node s.nodes)
    if not (has_write n.ops) || not (may_write f.access) then ok (minus_one, s) else do
      w ← deref (write_node n.ops n.content null bytes)
      ok (
        w.result,
        record s {
          files = insert p (record f { offset = u64 (f.offset + w.moved) }) s.files;
          serial = s.serial ++ w.sent;
        },
      )

-- vfs_file_executable_image, called with places for both results: the address and the size of the
-- image, or `none` for -1.
unfoldable pub executable_image : ℕ → Vfs → Exec (Option (ℕ × ℕ))
executable_image p s = if p == 0 then ok none else do
  f ← deref (lookup p s.files)
  if f.node == 0 then ok none else do
    n ← deref (lookup f.node s.nodes)
    if not (is_executable n.kind) then ok none else (elim n.content [
      | program image size ↦
          if (image == 0) || (size == 0) then ok none else ok (some (image, size))
      | no_data ↦ ok none
      | _ ↦ fault
    ])

unfoldable pub open_path : List ℕ → ℕ → Vfs → Exec (ℕ × Vfs)
unfolding walk_path file_open
open_path path flags s = elim (walk_path s.ready s.root path) [
  | none ↦ ok (0, s)
  | some node ↦ file_open node flags s
]

unfoldable pub open_exec_path : List ℕ → Vfs → Exec (ℕ × Vfs)
unfolding walk_path make_file
open_exec_path path s = elim (walk_path s.ready s.root path) [
  | none ↦ ok (0, s)
  | some node ↦ deref (lookup node s.nodes) >>= λ n.
      if is_executable n.kind then make_file node 0 s else ok (0, s)
]
