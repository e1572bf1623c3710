-- ===== src/Syscall/Tests.antt =====
-- The theorems on the checks and the output of src/kernel/core.c at concrete states.
use platinum.Prelude.{
  ℕ, false, ◌+◌, ◌≡◌, ◌≢◌, ◌≤◌, ◌<◌, refl, arith, inr, some, List, [], ◌∷◌, ok, length, ◌==◌,
  if◌then◌else◌,
}
use platinum.Paging.{
  Layout, walk_to_pt, entry_address, user_page_mapped, user_range_mapped, range_loop,
}
use platinum.Paging.Range.{Decides}
use platinum.Paging.Tests.{open_tables}
use platinum.Sched.Tests.{two_tasks}
use platinum.Syscall.User.{
  System, user_range_in_layout, user_buffer_valid, user_byte, path_byte_valid, copy_loop, copy_path,
  translate, path_size,
}
use platinum.Syscall.Checks.{IsUserByte, Copied, user_buffer_valid-Decides, copy_path-Copied}
use platinum.Sched
use platinum.Sched.Tasks.{Bootstrap, no_bootstrap, user}
use platinum.Syscall.Program.{ExecBuild}
use platinum.Syscall.Frame.{result_error, syscall_return}
use platinum.Syscall.Refuse.{bad_buffer, syscall_entry-Refusal}
use platinum.Syscall.{syscall_entry}
use platinum.Syscall.Decimal.{write_decimal, read_decimal, write_decimal-read_decimal}

abbrev layout : Layout
layout = record { trampoline_base = 0x40000000; image_base = 0x40010000; stack_top = 0x40200000 }

abbrev user_buffer : ℕ
user_buffer = 0x40010010

user_buffer_valid-Decides_example :
    Decides (user_buffer_valid 0x2000 layout 0x40010010 64 open_tables) (
      (user_buffer ≢ 0)
      × ((address : ℕ)
          → 0x40010010 ≤ address
          → address < 0x40010010 + 64
          → IsUserByte 0x2000 layout open_tables address))
user_buffer_valid-Decides_example =
    user_buffer_valid-Decides 0x2000 layout 0x40010010 64 open_tables (omega arith) (omega arith)
      (omega arith) (omega arith) (omega arith)

-- The program has the path `/a` at 0x40010010; its pages are at 0x2000.
abbrev small_system : System
small_system = record {
  kernel = record two_tasks { cr3 = 0x2000 };
  memory = λ a. if a == 0x2010 then b'/' else if a == 0x2011 then b'a' else 0;
  ticks = 0;
}

abbrev small_path : List ℕ
small_path = b'/' ∷ b'a' ∷ []

copy_small : copy_path 0x40010010 0x2000 layout small_system ≡ ok (some small_path)
unfolding copy_path copy_loop path_byte_valid user_range_in_layout user_range_mapped range_loop
    user_page_mapped walk_to_pt entry_address user_byte translate
copy_small = refl

copy_path-Copied_example :
    Copied 0x2000 0x40010010 layout small_system small_path
    × (length small_path < path_size)
    × (user_byte 0x40010010 small_system ≡ b'/')
copy_path-Copied_example =
    copy_path-Copied 0x2000 0x40010010 layout small_system small_path (omega arith) (omega arith)
      (omega arith) copy_small

write_decimal-read_decimal_example :
    (text : List ℕ) × (write_decimal 18446744073709551615 ≡ some text)
    × (read_decimal 0 text ≡ 18446744073709551615)
    × (length text ≤ 20)
write_decimal-read_decimal_example = write_decimal-read_decimal 18446744073709551615 (omega arith)

-- A program that runs calls SYS_WRITE with four bytes from the top of its stack on.
abbrev running_program : Bootstrap
running_program = record no_bootstrap { layout = layout; address_space = 0x2000 }

abbrev plain_build : ExecBuild
plain_build = record { program_entry = 0x100000; transfer_fails = false }

abbrev calling : System
calling = record small_system {
  kernel = record two_tasks {
    first = record (two_tasks.first) { kind = user; user_bootstrap = running_program };
    cr3 = 0x2000;
    words = λ a.
        if a == 0x2ffef70 + 112
        then 5
        else if a == 0x2ffef70 + 72
        then 0x40200000
        else if a == 0x2ffef70 + 88
        then 4
        else 0;
  };
}

program_runs : Sched.current_user_bootstrap calling.kernel ≡ some running_program
unfolding Sched.current_user_bootstrap
program_runs = refl

syscall_entry-Refusal_example :
    syscall_entry plain_build 0 0 0x2ffef70 calling
    ≡ ok (0x2ffef70, syscall_return 0x2ffef70 result_error calling)
syscall_entry-Refusal_example = syscall_entry-Refusal plain_build 0 0 0x2ffef70 calling (
    bad_buffer running_program 0x40200000 (inr refl) program_runs (omega arith) (omega arith)
      (omega arith) (omega arith) (omega arith) (λ p. absurd (omega (arith, p.1))))
