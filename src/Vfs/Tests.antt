-- ===== src/Vfs/Tests.antt =====
-- The theorems on the namespace and the files of src/kernel/vfs.c at concrete states.
use platinum.Prelude.Text.{codes, written_line}
use platinum.Fd
use platinum.Vfs.SelfTest.{
  self_test, node_part, namespace_part, program_part, refused_part, reads, writes_nothing, retains,
  closes,
}
use platinum.Prelude.{
  Bool, Exec, ok, halt, fault, ◌>>=◌, ℕ, ◌+◌, ◌*◌, refl, lookup, ◌≡◌, ◌≢◌, true, false, none, List,
  [], ◌∷◌, arith,
}
use platinum.Heap.Tests.{two_blocks, two_blocks-Chain, two_blocks-FreshPage}
use platinum.Vfs.{open_flags_valid}
use platinum.Vfs.Objects.{Vfs, Node, console, namespace_input, no_data}
use platinum.Vfs.Lifetime.{MayOpen, OpenSpec, file_open-OpenSpec}
use platinum.Vfs.Namespace.{Program, Statics, namespace_initialize}
use platinum.Vfs.Programs.{Apart}
use platinum.Vfs.Reach.{PopulateSpec, namespace_initialize-PopulateSpec}
use platinum.Vfs.Path.{Entries, leaf, dir, end, walk_path}
use platinum.Vfs.Resolve.{resolve, walk_path-resolve}

-- /bin/init
abbrev small_root : Entries
small_root =
    leaf (b'k' ∷ []) 1
      (dir (b'b' ∷ b'i' ∷ b'n' ∷ []) 2 (leaf (b'i' ∷ b'n' ∷ b'i' ∷ b't' ∷ []) 3 end) end)

abbrev init_path : List ℕ
init_path = b'b' ∷ b'i' ∷ b'n' ∷ b'/' ∷ b'i' ∷ b'n' ∷ b'i' ∷ b't' ∷ []

walk_path-resolve_example :
    (walk_path true small_root (b'/' ∷ init_path) ≡ resolve 9 small_root init_path)
    × (walk_path false small_root init_path ≡ none)
    × (walk_path true small_root [] ≡ none)
    × ((c : ℕ) → c ≢ b'/' → walk_path true small_root (c ∷ init_path) ≡ none)
walk_path-resolve_example = walk_path-resolve 9 true small_root init_path (omega arith)

-- A console that has one open file.
abbrev console_node : Node
console_node = record { kind = console; refs = 1; ops = namespace_input; content = no_data }

abbrev one_node : Vfs
one_node = record {
  heap = two_blocks;
  files = [];
  nodes = (0x6000, console_node) ∷ [];
  serial = [];
  root = small_root;
  ready = true;
  released = λ i. 0;
}

console_node-MayOpen : MayOpen console_node 1
unfolding open_flags_valid
console_node-MayOpen = record {
  no_directory = refl;
  valid = refl;
  reads = λ h. refl;
  writes = λ h. cc;
}

file_open-OpenSpec_example : OpenSpec 0x6000 1 console_node one_node
unfolding lookup
file_open-OpenSpec_example =
    file_open-OpenSpec 0x6000 1 console_node one_node (omega arith) refl console_node-MayOpen
      (omega arith) (omega arith) two_blocks-Chain two_blocks-FreshPage

abbrev statics : Statics
statics = record {
  root_node = 0x8000;
  dev_node = 0x8040;
  etc_node = 0x8080;
  bin_node = 0x80c0;
  input_node = 0x8100;
  output_node = 0x8140;
  banner_node = 0x8180;
  input_data = 0x81c0;
  executables = λ i. 0x9000 + i * 64;
  bad_exec = false;
  bad_exec_image = 0x9400;
}

statics-Apart : Apart statics
statics-Apart = record {
  programs = λ i j ne e. absurd (omega arith);
  output = λ i e. absurd (omega arith);
  banner = λ i e. absurd (omega arith);
  fixed = λ e. absurd (omega arith);
}

abbrev registry : List Program
registry =
    record { name = b'i' ∷ b'n' ∷ b'i' ∷ b't' ∷ []; image = 0x10000; size = 4096 }
    ∷ record { name = b'e' ∷ b'c' ∷ b'h' ∷ b'o' ∷ []; image = 0x11000; size = 2048 }
    ∷ []

namespace_initialize-PopulateSpec_example : PopulateSpec statics registry one_node
namespace_initialize-PopulateSpec_example =
    namespace_initialize-PopulateSpec statics registry one_node statics-Apart

-- vfs_self_test on the namespace, with an empty heap and a free page.
abbrev fresh : Vfs
fresh = record one_node {
  heap = record {
    blocks = [];
    palloc = record {
      free_list = 0x2000000 ∷ [];
      region_begin = 0x2000000;
      region_end = 0x2001000;
      free_page_count = 1;
    };
  };
  nodes = [];
}

abbrev programs : List Program
programs =
    record { name = codes "pulse"; image = 0x10000; size = 4096 }
    ∷ record { name = codes "echo"; image = 0x11000; size = 2048 }
    ∷ []

abbrev outcome_of : Exec (Bool × Vfs) → Bool × List ℕ
outcome_of (ok (good, s)) = (good, s.serial)
outcome_of halt = (false, [])
outcome_of fault = (false, [])

self_test_passes :
    outcome_of (namespace_initialize statics programs fresh >>= self_test)
    ≡ (true, written_line "vfs ok")
unfolding self_test node_part namespace_part program_part refused_part reads writes_nothing retains
    closes platinum.Fd.kzalloc platinum.Heap.kmalloc platinum.Heap.find_block platinum.Heap.place
    platinum.Heap.grow_heap platinum.Heap.align_size platinum.Palloc.alloc
    platinum.Heap.insert_block_sorted platinum.Heap.take_block platinum.Heap.split_block
    platinum.Vfs.file_open lookup platinum.Vfs.node_initialize platinum.Prelude.insert
    platinum.Vfs.open_flags_valid platinum.Vfs.make_file platinum.Vfs.attach
    platinum.Heap.coalesce_forward platinum.Heap.free_behind platinum.Heap.free_block
    platinum.Heap.insert_behind platinum.Heap.kfree platinum.Heap.merge_back platinum.Heap.release
    platinum.Heap.settle platinum.Prelude.erase platinum.Vfs.Objects.kfree
    platinum.Vfs.Objects.read_input platinum.Vfs.Objects.read_node platinum.Vfs.Objects.read_text
    platinum.Vfs.Objects.release_node platinum.Vfs.Objects.slice platinum.Vfs.Objects.write_node
    platinum.Vfs.detach platinum.Vfs.file_close platinum.Vfs.file_read platinum.Vfs.file_retain
    platinum.Vfs.file_write namespace_initialize platinum.Vfs.Namespace.add_programs
    platinum.Vfs.Namespace.program_image platinum.Vfs.Namespace.is_replaced
    platinum.Vfs.Namespace.fixed_nodes platinum.Vfs.open_path platinum.Vfs.open_exec_path
    platinum.Vfs.executable_image
self_test_passes = refl
