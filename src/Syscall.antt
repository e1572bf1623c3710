-- ===== src/Syscall.antt =====
-- kernel_syscall_entry of src/kernel/core.c, the entry of `int 0x80`. `User` has the checks of user
-- memory, `Frame` the saved registers, `Files` the calls on files and `Program` SYS_EXEC.
pub mod User
pub mod Checks
pub mod Memory
pub mod Decimal
pub mod Frame
pub mod Files
pub mod Program
pub mod Refuse
mod Tests
use User.{System}
use Frame.{result_ok, result_error, frame_rax, frame_rdi, resume, with_kernel, syscall_return}
use Files.{sys_read, sys_write, sys_open, sys_close, sys_dup}
use Program.{ExecBuild, sys_exec}
use Decimal.{write_decimal}
use platinum.Prelude.{
  ℕ, ◌+◌, ◌%◌, Bool, true, false, Option, none, some, List, [], ◌∷◌, ◌++◌, leb, ltb, ◌==◌,
  if◌then◌else◌, Exec, ok, halt, fault, ◌>>=◌, ◌>>◌, u64,
}
use platinum.Sched
use platinum.Sched.Tasks.{TaskRef, Kernel, task_at, Bootstrap}

-- `serial_write(&ch, 1u)`
unfoldable pub put_char : ℕ → Kernel → Kernel
put_char ch k = record k { vfs = record k.vfs { serial = k.vfs.serial ++ (ch % 256) ∷ [] } }

-- SYS_READ, SYS_WRITE, SYS_OPEN and SYS_EXEC, which want a running user task.
unfoldable pub user_call :
    (build : ExecBuild) (stale_begin stale_end : ℕ) → ℕ → TaskRef → ℕ → System → Exec (ℕ × System)
user_call build stale_begin stale_end number r rsp s =
    elim (Sched.current_user_bootstrap s.kernel) [
      | none ↦ resume rsp result_error s
      | some b ↦
          if number == 4
          then sys_read r b rsp s
          else if number == 5
          then sys_write r b rsp s
          else if number == 8
          then sys_open r b rsp s
          else sys_exec build stale_begin stale_end b rsp s
    ]

abbrev pub is_user_call : ℕ → Bool
is_user_call number = elim (number == 4) [
  | true ↦ true
  | false ↦ elim (number == 5) [
    | true ↦ true
    | false ↦ elim (number == 8) [ true ↦ true | false ↦ number == 9 ]
  ]
]

-- The calls that need the table of the current task.
unfoldable pub task_call :
    (build : ExecBuild) (stale_begin stale_end : ℕ) → ℕ → TaskRef → ℕ → System → Exec (ℕ × System)
unfolding user_call
task_call build stale_begin stale_end number r rsp s =
    if is_user_call number
    then user_call build stale_begin stale_end number r rsp s
    else if number == 6
    then sys_close r rsp s
    else if number == 7
    then sys_dup r rsp s
    else resume rsp result_error s

-- The stack pointer to go on with, and the system. The stale values are
-- those of Sched.
unfoldable pub syscall_entry :
    (build : ExecBuild) (stale_begin stale_end : ℕ) → ℕ → System → Exec (ℕ × System)
unfolding put_char task_call
syscall_entry build stale_begin stale_end rsp s =
    let number = frame_rax rsp s.kernel in
    let returned = syscall_return rsp result_ok s in
    if number == 0
    then resume rsp result_ok (with_kernel (put_char (frame_rdi rsp s.kernel) s.kernel) s)
    else if number == 1
    then (Sched.tick rsp returned.kernel >>= λ r. ok (r.0, with_kernel r.1 returned))
    else if number == 2
    then resume rsp s.ticks s
    else if number == 3
    then (Sched.exit_current stale_begin stale_end returned.kernel >>= λ r.
        ok (r.0, with_kernel r.1 returned))
    else (elim s.kernel.current [
      | none ↦ resume rsp result_error s
      | some r ↦ task_call build stale_begin stale_end number r rsp s
    ])

-- What kernel_timer_tick writes: "worker ", the counter and a line end; `none` where write_decimal_u64
-- does not end.
unfoldable pub worker_message : ℕ → Option (List ℕ)
worker_message counter = elim (write_decimal counter) [
  | none ↦ none
  | some text ↦ some (b'w' ∷ b'o' ∷ b'r' ∷ b'k' ∷ b'e' ∷ b'r' ∷ b' ' ∷ (text ++ 13 ∷ 10 ∷ []))
]

-- The condition of kernel_timer_tick.
abbrev pub worker_runs : ℕ → Kernel → Bool
worker_runs ticks k = elim (ticks % 100 == 0) [
  | false ↦ false
  | true ↦ elim (Sched.current_task_kind k) [
    | Sched.Tasks.user ↦ false
    | Sched.Tasks.kernel ↦ Sched.current_task_id k == 1
  ]
]

-- kernel_timer_tick; `counter` is what sched_debug_worker_counter returns, which the worker task
-- increments.
unfoldable pub timer_tick : ℕ → ℕ → System → Exec (ℕ × System)
unfolding worker_message
timer_tick counter rsp s =
    let ticks = u64 (s.ticks + 1) in
    let k = s.kernel in
    let tick : Kernel → Exec (ℕ × System) =
      λ k'. Sched.tick rsp k' >>= λ r. ok (r.0, record s { kernel = r.1; ticks = ticks }) in
    if worker_runs ticks k
    then (elim (worker_message counter) [
      | none ↦ fault
      | some text ↦ tick (record k { vfs = record k.vfs { serial = k.vfs.serial ++ text } })
    ])
    else tick k
