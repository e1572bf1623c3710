-- ===== src/Fd/Tests.antt =====
-- The theorems on src/kernel/fd.c at a concrete table.
use platinum.Prelude.{
  Exec, ok, halt, fault, Bool, false, List, ℕ, ◌≡◌, refl, arith, true, [], ◌∷◌, set, lookup,
}
use platinum.Vfs.Objects.{Vfs, File, fd_input, console, no_data}
use platinum.Vfs.Path.{end}
use platinum.Fd.{Entry, FdTable, console_fd, initialized, install, get}
use platinum.Fd.SelfTest as SelfTest
use platinum.Prelude.Text.{written_line}
use platinum.Fd.Table.{InstallSpec, install-InstallSpec}
use platinum.Fd.Duplicate.{DupSpec, dup-DupSpec}

install-InstallSpec_example :
    InstallSpec console_fd 0x5000 initialized
      (install console_fd 0x5000 initialized).0
      (install console_fd 0x5000 initialized).1
install-InstallSpec_example =
    install-InstallSpec console_fd 0x5000 initialized refl (omega arith) refl

abbrev console_entry : Entry
console_entry = record { used = 1; kind = console_fd; file = 0x5000 }

abbrev one_open : FdTable
one_open = set initialized 0 console_entry

abbrev console_file : File
console_file = record { refs = 1; node = 0x6000; offset = 0; access = 1 }

abbrev one_file : Vfs
one_file = record {
  heap = record {
    blocks = [];
    palloc = record { free_list = []; region_begin = 0; region_end = 0; free_page_count = 0 };
  };
  files = (0x5000, console_file) ∷ [];
  nodes = (0x6000, record { kind = console; refs = 1; ops = fd_input; content = no_data }) ∷ [];
  serial = [];
  root = end;
  ready = true;
  released = λ i. 0;
}

dup-DupSpec_example : DupSpec 0 console_entry console_file one_open one_file
unfolding get lookup
dup-DupSpec_example =
    dup-DupSpec 0 console_entry console_file one_open one_file refl refl (omega arith) refl refl
      (omega arith) (omega arith) (omega arith)

-- fd_self_test with an empty heap and two free pages.
abbrev fresh : Vfs
fresh = record one_file {
  heap = record {
    blocks = [];
    palloc = record {
      free_list = 0x2000000 ∷ 0x2001000 ∷ [];
      region_begin = 0x2000000;
      region_end = 0x2002000;
      free_page_count = 2;
    };
  };
  files = [];
  nodes = [];
}

abbrev outcome_of : Exec (Bool × Vfs) → Bool × List ℕ
outcome_of (ok (good, s)) = (good, s.serial)
outcome_of halt = (false, [])
outcome_of fault = (false, [])

self_test_passes : outcome_of (SelfTest.self_test fresh) ≡ (true, written_line "fd ok")
unfolding SelfTest.self_test platinum.Fd.kzalloc platinum.Heap.kmalloc platinum.Heap.find_block
    platinum.Heap.place platinum.Heap.grow_heap platinum.Heap.align_size platinum.Palloc.alloc
    platinum.Heap.insert_block_sorted platinum.Heap.take_block platinum.Heap.split_block
    platinum.Vfs.file_open lookup platinum.Vfs.node_initialize platinum.Prelude.insert
    platinum.Vfs.open_flags_valid platinum.Vfs.make_file platinum.Vfs.attach SelfTest.close_part
    SelfTest.console_part SelfTest.fill_rest SelfTest.full_part SelfTest.install_placeholder
    SelfTest.make_placeholder_file SelfTest.parts platinum.Fd.close platinum.Fd.close_all
    platinum.Fd.close_from platinum.Fd.dup platinum.Fd.find_free get install platinum.Fd.read
    platinum.Fd.seed_console platinum.Fd.seed_files platinum.Fd.write platinum.Heap.coalesce_forward
    platinum.Heap.free_behind platinum.Heap.free_block platinum.Heap.insert_behind
    platinum.Heap.kfree platinum.Heap.merge_back platinum.Heap.release platinum.Heap.settle
    platinum.Prelude.erase platinum.Vfs.Objects.kfree platinum.Vfs.Objects.read_input
    platinum.Vfs.Objects.read_node platinum.Vfs.Objects.read_text platinum.Vfs.Objects.release_node
    platinum.Vfs.Objects.slice platinum.Vfs.Objects.write_node platinum.Vfs.detach
    platinum.Vfs.file_close platinum.Vfs.file_read platinum.Vfs.file_retain platinum.Vfs.file_write
self_test_passes = refl
