-- ===== src/Syscall/Frame.antt =====
-- The frame of a system call of src/kernel/core.c, and the parts of the system that the calls hand
-- to the other components. The frame that the interrupt stub saved stands at `rsp`, as words of the
-- kernel's `words`.
use platinum.Syscall.User.{System}
use platinum.Prelude.{ℕ, ◌+◌, ◌-◌, ◌^◌, leb, ◌==◌, if◌then◌else◌, Exec, ok}
use platinum.Elf
use platinum.Elf.{LoadedImage}
use platinum.Vfs.Objects.{Vfs}
use platinum.Fd.{FdTable}
use platinum.Sched.Tasks.{TaskRef, Kernel, paging_of, with_paging, task_at, put_task}

abbrev pub result_ok : ℕ
result_ok = 0

-- (uint64_t)-1
abbrev pub result_error : ℕ
result_error = 2 ^ 64 - 1

-- (uint64_t)(int64_t) of an int
abbrev pub sign_extend : ℕ → ℕ
sign_extend n = if leb (2 ^ 31) n then n + (2 ^ 64 - 2 ^ 32) else n

-- `frame->rax`, `frame->rdi`, `frame->rsi` and `frame->rdx`
abbrev pub frame_rax : ℕ → Kernel → ℕ
frame_rax rsp k = k.words (rsp + 112)

abbrev pub frame_rdi : ℕ → Kernel → ℕ
frame_rdi rsp k = k.words (rsp + 64)

abbrev pub frame_rsi : ℕ → Kernel → ℕ
frame_rsi rsp k = k.words (rsp + 72)

abbrev pub frame_rdx : ℕ → Kernel → ℕ
frame_rdx rsp k = k.words (rsp + 88)

-- syscall_return
unfoldable pub syscall_return : ℕ → ℕ → System → System
syscall_return rsp result s = record s {
  kernel = record s.kernel { words = λ a. if a == rsp + 112 then result else s.kernel.words a };
}

-- `syscall_return(frame, result); return current_rsp;`
abbrev pub resume : ℕ → ℕ → System → Exec (ℕ × System)
resume rsp result s = ok (rsp, syscall_return rsp result s)

abbrev pub with_kernel : Kernel → System → System
with_kernel k s = record s { kernel = k }

-- What a call on the current task's table leaves behind.
abbrev pub with_files : TaskRef → FdTable → Vfs → System → System
with_files r t vfs s =
    with_kernel
      (put_task r (record (task_at r s.kernel) { fd_table = t }) (record s.kernel { vfs = vfs })) s

-- The machine that the loader works on, and back.
abbrev pub machine_of : System → Elf.Machine
machine_of s = record { paging = paging_of s.kernel; memory = s.memory }

abbrev pub with_machine : Elf.Machine → System → System
with_machine m s = record s { kernel = with_paging m.paging s.kernel; memory = m.memory }
