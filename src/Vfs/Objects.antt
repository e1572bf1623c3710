-- ===== src/Vfs/Objects.antt =====
-- The nodes and open files of src/kernel/vfs.h, and the callbacks that src/kernel/vfs.c and
-- src/kernel/fd.c put into `struct vfs_node_ops`. Objects are known by their addresses, 0 is NULL.
-- An `int` is the 32-bit pattern of its two's complement.
use platinum.Prelude.{
  ℕ, zero, suc, ◌+◌, ◌-◌, ◌/◌, ◌%◌, ◌^◌, Bool, true, false, not, ◌&&◌, ◌||◌, Option, none, some,
  List, [], ◌∷◌, leb, ltb, ◌==◌, if◌then◌else◌, length, u32, u64, Store, erase, Exec, ok, fault,
  ◌>>=◌,
}
use platinum.Heap
use platinum.Heap.{Heap}
use platinum.Vfs.Path.{Entries}

pub data NodeKind : Type 0 where
  placeholder console static_text executable directory : NodeKind

-- The tables of callbacks: `namespace_input`, `namespace_output`, `static_text_ops` and
-- `plain_ops` (no read and no write) of vfs_namespace_initialize, `fd_input` and `fd_output` of
-- fd_table_seed_console; `self_test_ops` of vfs_self_test, and `placeholder_ops` of
-- fd_make_placeholder_file.
pub data NodeOps : Type 0 where
  namespace_input namespace_output static_text_ops plain_ops fd_input fd_output : NodeOps
  self_test_ops placeholder_ops : NodeOps

-- What `node->data` points to. The data of a node is used by that node alone. A placeholder has the
-- number of the counter that `released` points to.
pub data NodeData : Type 0 where
  no_data : NodeData
  input : (address byte used : ℕ) → NodeData
  output : (address : ℕ) → NodeData
  text : List ℕ → NodeData
  program : (image size : ℕ) → NodeData
  counted : (address counter : ℕ) → NodeData

pub record Node : Type 0 where
  pub kind : NodeKind
  pub refs : ℕ
  pub ops : NodeOps
  pub content : NodeData

pub record File : Type 0 where
  pub refs : ℕ
  pub node : ℕ
  pub offset : ℕ
  pub access : ℕ

-- `released` holds the counters of fd_self_test.
pub record Vfs : Type 0 where
  pub heap : Heap
  pub files : Store File
  pub nodes : Store Node
  pub serial : List ℕ
  pub root : Entries
  pub ready : Bool
  pub released : ℕ → ℕ

abbrev pub minus_one : ℕ
minus_one = 2 ^ 32 - 1

abbrev pub access_read : ℕ
access_read = 1

abbrev pub access_write : ℕ
access_write = 2

-- `access & VFS_ACCESS_READ`, `access & VFS_ACCESS_WRITE`
abbrev pub may_read : ℕ → Bool
may_read access = access % 2 == 1

abbrev pub may_write : ℕ → Bool
may_write access = access / 2 % 2 == 1

-- `ops->read != 0` and `ops->write != 0`
abbrev pub has_read : NodeOps → Bool
has_read namespace_input = true
has_read static_text_ops = true
has_read fd_input = true
has_read self_test_ops = true
has_read _ = false

abbrev pub has_write : NodeOps → Bool
has_write namespace_output = true
has_write fd_output = true
has_write self_test_ops = true
has_write placeholder_ops = true
has_write _ = false

unfoldable pub kfree : ℕ → Vfs → Exec Vfs
kfree ptr s = do heap ← Heap.kfree ptr s.heap; ok (record s { heap = heap })

-- fd_console_input_release, fd_console_output_release, vfs_self_test_release, whose count of releases
-- goes with its data, and fd_placeholder_release; a node of the namespace is kept.
unfoldable pub release_node : ℕ → Node → Vfs → Exec (ℕ × Vfs)
unfolding kfree
release_node p n s = elim n.ops [
  | fd_input ↦ (elim n.content [
    | input address byte used ↦ (do
      s₁ ← kfree address s
      s₂ ← kfree p (record s₁ { nodes = erase p s₁.nodes })
      ok (0, s₂))
    | _ ↦ fault
  ])
  | fd_output ↦ (elim n.content [
    | output address ↦ (do
      s₁ ← kfree address s
      s₂ ← kfree p (record s₁ { nodes = erase p s₁.nodes })
      ok (0, s₂))
    | _ ↦ fault
  ])
  | self_test_ops ↦ (elim n.content [
    | input address byte used ↦ (do
      s₁ ← kfree p (record s { nodes = erase p s.nodes })
      s₂ ← kfree address s₁
      ok (0, s₂))
    | _ ↦ fault
  ])
  | placeholder_ops ↦ (elim n.content [
    | counted address counter ↦ (do
      let s₀ : Vfs = record s {
        released = λ i. if i == counter then u32 (s.released i + 1) else s.released i;
      }
      s₁ ← kfree address s₀
      s₂ ← kfree p (record s₁ { nodes = erase p s₁.nodes })
      ok (0, s₂))
    | _ ↦ fault
  ])
  | _ ↦ ok (0, s)
]

-- Which bytes a read takes, what it returns, and the data and the offset behind it. `null` says
-- whether the buffer is NULL.
pub record Taken : Type 0 where
  pub result : ℕ
  pub bytes : List ℕ
  pub content : NodeData
  pub offset : ℕ

-- `text[offset]` to `text[offset + count - 1]`
unfoldable pub slice : List ℕ → ℕ → ℕ → List ℕ
slice [] offset count = []
slice (c ∷ cs) (suc offset) count = slice cs offset count
slice (c ∷ cs) zero zero = []
slice (c ∷ cs) zero (suc count) = c ∷ slice cs zero count

-- vfs_static_text_read
unfoldable pub read_text : List ℕ → ℕ → ℕ → Taken
unfolding slice
read_text t offset count =
    let available = length t - offset in
    let n = if ltb available count then available else count in
    if (count == 0) || leb (length t) offset
    then record { result = 0; bytes = []; content = text t; offset = offset }
    else record {
      result = u32 n;
      bytes = slice t offset n;
      content = text t;
      offset = u64 (offset + n);
    }

-- vfs_console_input_read, vfs_self_test_read and, behind its check of the buffer,
-- fd_console_input_read
unfoldable pub read_input : (address byte used offset count : ℕ) → Taken
read_input address byte used offset count =
    if (count == 0) || not (used == 0)
    then record { result = 0; bytes = []; content = input address byte used; offset = offset }
    else record {
      result = 1;
      bytes = byte ∷ [];
      content = input address byte 1;
      offset = u64 (offset + 1);
    }

-- The call of `node->ops->read`; `none` where the data is not what the callback casts it to.
unfoldable pub read_node : NodeOps → NodeData → Bool → ℕ → ℕ → Option Taken
unfolding read_text read_input
read_node namespace_input (input a b used) null offset count =
    some (read_input a b used offset count)
read_node static_text_ops (text t) null offset count = some (read_text t offset count)
read_node fd_input (input a b used) null offset count =
    if null && not (count == 0)
    then some (record { result = minus_one; bytes = []; content = input a b used; offset = offset })
    else some (read_input a b used offset count)
read_node fd_input no_data null offset count =
    some (record { result = minus_one; bytes = []; content = no_data; offset = offset })
read_node self_test_ops (input a b used) null offset count = some (read_input a b used offset count)
read_node _ _ null offset count = none

-- What the callbacks for writing return, the bytes that go to the serial
-- line, and how far the offset moves. `bytes` is what the buffer holds.
pub record Put : Type 0 where
  pub result : ℕ
  pub sent : List ℕ
  pub moved : ℕ

unfoldable pub write_node : NodeOps → NodeData → Bool → List ℕ → Option Put
write_node namespace_output content null bytes =
    if null && not (length bytes == 0)
    then some (record { result = minus_one; sent = []; moved = 0 })
    else some (record { result = u32 (length bytes); sent = bytes; moved = 0 })
write_node fd_output no_data null bytes = some (record { result = minus_one; sent = []; moved = 0 })
write_node fd_output (output a) null bytes =
    if null && not (length bytes == 0)
    then some (record { result = minus_one; sent = []; moved = 0 })
    else some (record { result = u32 (length bytes); sent = bytes; moved = length bytes })
write_node self_test_ops content null bytes =
    some (record { result = u32 (length bytes); sent = []; moved = 0 })
write_node placeholder_ops content null bytes =
    some (record { result = u32 (length bytes); sent = []; moved = 0 })
write_node _ _ null bytes = none
