-- ===== src/User/Tests.antt =====
-- The theorems on the programs of src/user at concrete values.
use platinum.Prelude.{
  ℕ, ◌+◌, ◌/◌, ◌≤◌, ◌≡◌, refl, true, false, arith, lookup, some, [], ◌∷◌, ◌==◌, if◌then◌else◌, List,
}
use platinum.Paging.{user_page_mapped, walk_to_pt, entry_address}
use platinum.Vfs.Objects.{File, Node, console, fd_output, output}
use platinum.Fd
use platinum.Fd.{Entry, empty_entry, console_fd}
use platinum.Sched
use platinum.Sched.Tasks.{task0, user, Bootstrap, no_bootstrap}
use platinum.Sched.Tests.{two_tasks}
use platinum.Syscall.User.{System}
use platinum.Syscall.Program.{first_user_layout, ExecBuild}
use platinum.Syscall.{syscall_entry}
use platinum.User.{beats, start_pulse, init_period, user_sys_write}
use platinum.Prelude.Text.{line}
use platinum.User.InitFiles.{bad_pointers, fd_invalid, rw_invalid, bad_syscall}
use platinum.User.Report.{CanReport}
use platinum.User.Messages
use platinum.User.Messages.{
  bad_pointers-Prints, fd_invalid-Prints, rw_invalid-Prints, bad_syscall-Prints,
}
use platinum.User.Beat.{calls_of, changes, beats-yields}
use platinum.User.Dispatch.{write, Saved}
use platinum.User.Reached.{effect, syscall_entry-effect}
use platinum.User.Program.{can_access}

abbrev some_ticks : List ℕ
some_ticks = 5 ∷ 5 ∷ 6 ∷ 6 ∷ 7 ∷ []

beats-yields_example :
    let calls = (beats init_period b'u' some_ticks (start_pulse init_period 5)).1 in
    (calls_of 1 calls ≡ changes 5 some_ticks) × (calls_of 0 calls ≡ changes 5 some_ticks / 16)
beats-yields_example = beats-yields init_period b'u' 5 some_ticks (omega arith) (omega arith)

abbrev plain_build : ExecBuild
plain_build = record { program_entry = 0x100000; transfer_fails = false }

abbrev small_program : Bootstrap
small_program = record no_bootstrap { address_space = 0x2000 }

-- A program that runs writes four bytes to descriptor 1.
abbrev writing : System
writing = record {
  kernel = record two_tasks {
    first = record (two_tasks.first) { kind = user; user_bootstrap = small_program };
    words = λ a.
        if a == 0x2ffef70 + 112
        then 5
        else if a == 0x2ffef70 + 64
        then 1
        else if a == 0x2ffef70 + 72
        then 0x40010000
        else if a == 0x2ffef70 + 88
        then 4
        else 0;
  };
  memory = λ a. 0;
  ticks = 0;
}

program_runs : Sched.current_user_bootstrap writing.kernel ≡ some small_program
unfolding Sched.current_user_bootstrap
program_runs = refl

writing-Saved : Saved (user_sys_write 1 0x40010000 4) 0x2ffef70 writing.kernel
unfolding user_sys_write
writing-Saved = (refl, (refl, refl, refl))

syscall_entry-effect_example :
    syscall_entry plain_build 0 0 0x2ffef70 writing
    ≡ effect plain_build 0 0 (write 1 0x40010000 4) task0 small_program 0x2ffef70 writing
syscall_entry-effect_example =
    syscall_entry-effect plain_build 0 0 0x2ffef70 writing task0 small_program
      (write 1 0x40010000 4) refl program_runs (omega arith) writing-Saved

-- A program that runs with the layout of the first program and descriptor 1 on the console.
abbrev console_file : File
console_file = record { refs = 1; node = 0x6000; offset = 0; access = 2 }

abbrev console_node : Node
console_node = record { kind = console; refs = 1; ops = fd_output; content = output 0x7000 }

abbrev console_entry : Entry
console_entry = record { used = 1; kind = console_fd; file = 0x5000 }

abbrev first_program : Bootstrap
first_program = record no_bootstrap { layout = first_user_layout; address_space = 0x2000 }

abbrev testing : System
testing = record {
  kernel = record two_tasks {
    first = record (two_tasks.first) {
      kind = user;
      user_bootstrap = first_program;
      fd_table = empty_entry ∷ console_entry ∷ [];
    };
    vfs = record two_tasks.vfs {
      files = (0x5000, console_file) ∷ [];
      nodes = (0x6000, console_node) ∷ [];
    };
    cr3 = 0x2000;
  };
  memory = λ a. 0;
  ticks = 0;
}

testing-runs : Sched.current_user_bootstrap testing.kernel ≡ some first_program
unfolding Sched.current_user_bootstrap
testing-runs = refl

testing-CanReport : (size : ℕ) → size ≤ 100 → CanReport testing.kernel 0x40010010 size
unfolding Fd.get lookup user_page_mapped walk_to_pt entry_address
testing-CanReport size small = record {
  task = task0;
  bootstrap = first_program;
  current = refl;
  running = testing-runs;
  active = refl;
  top = omega arith;
  there = omega arith;
  word = omega arith;
  fits = omega arith;
  usable = λ address lo hi. (omega arith, omega arith, refl);
  prints = record {
    entry = console_entry;
    file = console_file;
    node = console_node;
    address = 0x7000;
    held = refl;
    file_there = omega arith;
    opened = refl;
    node_there = omega arith;
    lives = refl;
    ops = refl;
    content = refl;
    writable = refl;
  };
}

testing-can_access : can_access 0x40010100 1 testing ≡ true
unfolding can_access user_page_mapped walk_to_pt entry_address
testing-can_access = refl

bad_pointers-Prints_example :
    Messages.Prints plain_build 0 0 0x2ffef70 (bad_pointers 0x40010010) (line "ptr ok") testing
bad_pointers-Prints_example =
    bad_pointers-Prints plain_build 0 0 0x2ffef70 testing first_program 0x40010010 testing-runs refl
      (testing-CanReport 7 (omega arith))

fd_invalid-Prints_example :
    Messages.Prints plain_build 0 0 0x2ffef70 (fd_invalid 0x40010010) (line "fdinvalid ok") testing
fd_invalid-Prints_example =
    fd_invalid-Prints plain_build 0 0 0x2ffef70 testing 0x40010010
      (testing-CanReport 13 (omega arith))

rw_invalid-Prints_example :
    Messages.Prints plain_build 0 0 0x2ffef70
      (rw_invalid 0x40010100 0x40010010)
      (line "rwinvalid ok")
      testing
rw_invalid-Prints_example =
    rw_invalid-Prints plain_build 0 0 0x2ffef70 testing 0x40010100 0x40010010
      (testing-CanReport 13 (omega arith)) (omega arith) testing-can_access

bad_syscall-Prints_example :
    Messages.Prints plain_build 0 0 0x2ffef70 bad_syscall (b'V' ∷ []) testing
bad_syscall-Prints_example = bad_syscall-Prints plain_build 0 0 0x2ffef70 testing
