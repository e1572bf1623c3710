-- ===== src/User.antt =====
-- The programs of src/user that run on the kernel: the system calls of src/user/syscall.h, and the loop
-- that init.c, echo.c, pulse.c and pulse2.c run when no test is compiled in.
pub mod Beat
pub mod Dispatch
pub mod Reached
pub mod Program
pub mod Runs
pub mod Passes
pub mod Invalid
pub mod Report
pub mod Messages
pub mod InitFiles
pub mod InitExec
mod Tests
use platinum.Prelude.{
  ℕ, ◌+◌, ◌-◌, ◌%◌, ◌^◌, Bool, true, false, List, [], ◌∷◌, ◌++◌, ◌==◌, if◌then◌else◌, u32,
}
use platinum.Syscall.Frame.{sign_extend}

-- What `int 0x80` is executed with: rax, and then as many of rdi, rsi and rdx as there are arguments.
pub record Trap : Type 0 where
  pub number : ℕ
  pub arguments : List ℕ

abbrev pub user_syscall0 : ℕ → Trap
user_syscall0 number = record { number = number; arguments = [] }

abbrev pub user_syscall1 : ℕ → ℕ → Trap
user_syscall1 number arg0 = record { number = number; arguments = arg0 ∷ [] }

abbrev pub user_syscall2 : ℕ → ℕ → ℕ → Trap
user_syscall2 number arg0 arg1 = record { number = number; arguments = arg0 ∷ arg1 ∷ [] }

abbrev pub user_syscall3 : ℕ → ℕ → ℕ → ℕ → Trap
user_syscall3 number arg0 arg1 arg2 = record {
  number = number;
  arguments = arg0 ∷ arg1 ∷ arg2 ∷ [];
}

unfoldable pub user_sys_putc : ℕ → Trap
user_sys_putc ch = user_syscall1 0 (ch % 256)

unfoldable pub user_sys_yield : Trap
user_sys_yield = user_syscall0 1

unfoldable pub user_sys_get_ticks : Trap
user_sys_get_ticks = user_syscall0 2

unfoldable pub user_sys_exit : Trap
user_sys_exit = user_syscall0 3

-- `fd` is the 32-bit pattern of an int.
unfoldable pub user_sys_read : ℕ → ℕ → ℕ → Trap
user_sys_read fd buffer count = user_syscall3 4 (sign_extend fd) buffer count

unfoldable pub user_sys_write : ℕ → ℕ → ℕ → Trap
user_sys_write fd buffer count = user_syscall3 5 (sign_extend fd) buffer count

unfoldable pub user_sys_close : ℕ → Trap
user_sys_close fd = user_syscall1 6 (sign_extend fd)

unfoldable pub user_sys_dup : ℕ → Trap
user_sys_dup fd = user_syscall1 7 (sign_extend fd)

unfoldable pub user_sys_open_mode : ℕ → ℕ → Trap
user_sys_open_mode path flags = user_syscall2 8 path flags

-- SYS_OPEN_READ is 1.
unfoldable pub user_sys_open : ℕ → Trap
user_sys_open path = user_syscall2 8 path 1

unfoldable pub user_sys_exec : ℕ → Trap
user_sys_exec path = user_syscall1 9 path

-- The variables of the loop.
pub record Pulse : Type 0 where
  pub previous : ℕ
  pub budget : ℕ

-- One round, for the `ticks` that its call of user_sys_get_ticks returns: the variables behind it and
-- the calls that it makes then. `period` and `letter` are the constants of the program.
unfoldable pub beat : ℕ → ℕ → ℕ → Pulse → Pulse × List Trap
unfolding user_sys_putc user_sys_yield
beat period letter ticks v =
    let budget = u32 (v.budget + 2 ^ 32 - 1) in
    if ticks == v.previous
    then (v, [])
    else if budget == 0
    then (record { previous = ticks; budget = period }, user_sys_putc letter ∷ user_sys_yield ∷ [])
    else (record { previous = ticks; budget = budget }, user_sys_yield ∷ [])

-- The rounds for what the calls of user_sys_get_ticks return, one after the other.
unfoldable pub beats : ℕ → ℕ → List ℕ → Pulse → Pulse × List Trap
beats period letter [] v = (v, [])
beats period letter (ticks ∷ later) v =
    let (v', calls) = beat period letter ticks v in
    let (v'', calls') = beats period letter later v' in (v'', calls ++ calls')

-- The values from the first call of user_sys_get_ticks on.
unfoldable pub start_pulse : ℕ → ℕ → Pulse
start_pulse period first = record { previous = first; budget = period }

abbrev pub init_period : ℕ
init_period = 16

abbrev pub echo_period : ℕ
echo_period = 8

abbrev pub pulse2_period : ℕ
pulse2_period = 8
