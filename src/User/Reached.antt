-- ===== src/User/Reached.antt =====
-- What the system calls of src/user/syscall.h do in src/kernel/core.c, told by the arguments that the
-- program gives to the wrapper, without the frame in which the kernel finds them.
use platinum.Prelude.{
  ℕ, Option, List, ◌^◌, ◌≡◌, refl, ap, ◌∙◌, true, false, none, some, leb, ◌==◌, if◌then◌else◌, u32,
  Exec, ok, fault, ◌>>=◌,
}
use platinum.Vfs
use platinum.Fd
use platinum.Sched
use platinum.Sched.Tasks.{TaskRef, Bootstrap, paging_of, task_at}
use platinum.Syscall.User.{System, user_buffer_valid, read_user, write_user, copy_path}
use platinum.Syscall.Frame.{
  sign_extend, result_ok, result_error, frame_rsi, frame_rdx, resume, with_kernel, with_files,
  syscall_return,
}
use platinum.Syscall.Files.{sys_read, sys_write, sys_open, sys_close, sys_dup, kind_of}
use platinum.Syscall.Program.{ExecBuild, sys_exec, exec_copied}
use platinum.Syscall.{put_char, syscall_entry}
use platinum.User.Dispatch.{
  UserCall, putc, yield, get_ticks, exit, read, write, close, dup, open_mode, exec, trap_of, IsCall,
  Saved, syscall_entry-handler,
}

-- SYS_OPEN with the path that was copied, if it could be.
abbrev opened : (flags : ℕ) → TaskRef → ℕ → System → Option (List ℕ) → Exec (ℕ × System)
opened flags r rsp s copied = elim copied [
  | none ↦ resume rsp result_error s
  | some name ↦ Vfs.open_path name (flags) s.kernel.vfs >>= λ (file, vfs).
      let tried = with_kernel (record s.kernel { vfs = vfs }) s in
      if file == 0
      then resume rsp result_error tried
      else (kind_of file vfs >>= λ kind.
          let (fd, table) = Fd.install kind file (task_at r s.kernel).fd_table in
          if leb (2 ^ 31) fd
          then (Vfs.file_close file vfs >>= λ (_, vfs').
              resume rsp result_error (with_files r table vfs' s))
          else resume rsp (sign_extend fd) (with_files r table vfs s))
]

-- The effect of a call of the program `b`, which is the task `r`: a buffer is checked before the
-- descriptor is used, a path is copied before it is opened, and of the flags the lower 32 bits count.
abbrev pub effect :
    (build : ExecBuild) (stale_begin stale_end : ℕ)
    → UserCall
    → TaskRef
    → Bootstrap
    → ℕ
    → System
    → Exec (ℕ × System)
effect e b₁ b₂ (putc ch) r b rsp s = resume rsp result_ok (with_kernel (put_char ch s.kernel) s)
effect e b₁ b₂ yield r b rsp s =
    let returned = syscall_return rsp result_ok s in
    Sched.tick rsp returned.kernel >>= λ t. ok (t.0, with_kernel t.1 returned)
effect e b₁ b₂ get_ticks r b rsp s = resume rsp s.ticks s
effect e b₁ b₂ exit r b rsp s =
    let returned = syscall_return rsp result_ok s in
    Sched.exit_current b₁ b₂ returned.kernel >>= λ t. ok (t.0, with_kernel t.1 returned)
effect e b₁ b₂ (read fd buffer count) r b rsp s =
    elim (user_buffer_valid b.address_space b.layout buffer count (paging_of s.kernel)) [
      | none ↦ fault
      | some false ↦ resume rsp result_error s
      | some true ↦
          Fd.read fd (buffer == 0) count (task_at r s.kernel).fd_table s.kernel.vfs
          >>= λ (result, bytes, vfs).
              resume rsp (sign_extend result)
                (write_user buffer bytes (with_kernel (record s.kernel { vfs = vfs }) s))
    ]
effect e b₁ b₂ (write fd buffer count) r b rsp s =
    elim (user_buffer_valid b.address_space b.layout buffer count (paging_of s.kernel)) [
      | none ↦ fault
      | some false ↦ resume rsp result_error s
      | some true ↦
          Fd.write fd (buffer == 0) (read_user count buffer s) (task_at r s.kernel).fd_table
            s.kernel.vfs
          >>= λ (result, vfs).
              resume rsp (sign_extend result) (with_kernel (record s.kernel { vfs = vfs }) s)
    ]
effect e b₁ b₂ (close fd) r b rsp s =
    Fd.close fd (task_at r s.kernel).fd_table s.kernel.vfs >>= λ (result, table, vfs).
    resume rsp (sign_extend result) (with_files r table vfs s)
effect e b₁ b₂ (dup fd) r b rsp s =
    Fd.dup fd (task_at r s.kernel).fd_table s.kernel.vfs >>= λ (result, table, vfs).
    resume rsp (sign_extend result) (with_files r table vfs s)
effect e b₁ b₂ (open_mode path flags) r b rsp s =
    copy_path path b.address_space b.layout s >>= opened (u32 flags) r rsp s
effect e b₁ b₂ (exec path) r b rsp s =
    copy_path path b.address_space b.layout s >>= λ copied. exec_copied e b₁ b₂ copied rsp s

-- A call of a program that runs, whose frame holds what the wrapper passes, has the effect for the
-- arguments that the program gave, for each of the ten calls; of the flags of an open the lower 32
-- bits count.
pub syscall_entry-effect :
    (e : ExecBuild) (b₁ b₂ rsp : ℕ) (s : System) (r : TaskRef) (b : Bootstrap) (c : UserCall)
    → s.kernel.current ≡ some r
    → Sched.current_user_bootstrap s.kernel ≡ some b
    → IsCall c
    → Saved (trap_of c) rsp s.kernel
    → syscall_entry e b₁ b₂ rsp s ≡ effect e b₁ b₂ c r b rsp s
unfolding sys_read sys_write sys_open sys_close sys_dup sys_exec put_char
syscall_entry-effect e b₁ b₂ rsp s r b (putc ch) current running is saved =
    let (d, found) = syscall_entry-handler e b₁ b₂ rsp s r b (putc ch) current running is saved in
    found ∙ rw d refl
syscall_entry-effect e b₁ b₂ rsp s r b yield current running is saved =
    (syscall_entry-handler e b₁ b₂ rsp s r b yield current running is saved).1
syscall_entry-effect e b₁ b₂ rsp s r b get_ticks current running is saved =
    (syscall_entry-handler e b₁ b₂ rsp s r b get_ticks current running is saved).1
syscall_entry-effect e b₁ b₂ rsp s r b exit current running is saved =
    (syscall_entry-handler e b₁ b₂ rsp s r b exit current running is saved).1
syscall_entry-effect e b₁ b₂ rsp s r b (read fd buffer count) current running is saved =
    let ((f, g, h), found) =
      syscall_entry-handler e b₁ b₂ rsp s r b (read fd buffer count) current running is saved in
    found
    ∙ ap (λ x. effect e b₁ b₂ (read x (frame_rsi rsp s.kernel) (frame_rdx rsp s.kernel)) r b rsp s)
        f
    ∙ ap (λ x. effect e b₁ b₂ (read fd x (frame_rdx rsp s.kernel)) r b rsp s) g
    ∙ ap (λ x. effect e b₁ b₂ (read fd buffer x) r b rsp s) h
syscall_entry-effect e b₁ b₂ rsp s r b (write fd buffer count) current running is saved =
    let ((f, g, h), found) =
      syscall_entry-handler e b₁ b₂ rsp s r b (write fd buffer count) current running is saved in
    found
    ∙ ap (λ x. effect e b₁ b₂ (write x (frame_rsi rsp s.kernel) (frame_rdx rsp s.kernel)) r b rsp s)
        f
    ∙ ap (λ x. effect e b₁ b₂ (write fd x (frame_rdx rsp s.kernel)) r b rsp s) g
    ∙ ap (λ x. effect e b₁ b₂ (write fd buffer x) r b rsp s) h
syscall_entry-effect e b₁ b₂ rsp s r b (close fd) current running is saved =
    let (f, found) = syscall_entry-handler e b₁ b₂ rsp s r b (close fd) current running is saved in
    found ∙ ap (λ x. effect e b₁ b₂ (close x) r b rsp s) f
syscall_entry-effect e b₁ b₂ rsp s r b (dup fd) current running is saved =
    let (f, found) = syscall_entry-handler e b₁ b₂ rsp s r b (dup fd) current running is saved in
    found ∙ ap (λ x. effect e b₁ b₂ (dup x) r b rsp s) f
syscall_entry-effect e b₁ b₂ rsp s r b (open_mode path flags) current running is saved =
    let ((f, g), found) =
      syscall_entry-handler e b₁ b₂ rsp s r b (open_mode path flags) current running is saved in
    found
    ∙ ap
        (λ x.
          copy_path x b.address_space b.layout s >>= opened (u32 (frame_rsi rsp s.kernel)) r rsp s)
        f
    ∙ ap (λ x. copy_path path b.address_space b.layout s >>= opened x r rsp s) g
syscall_entry-effect e b₁ b₂ rsp s r b (exec path) current running is saved =
    let (f, found) = syscall_entry-handler e b₁ b₂ rsp s r b (exec path) current running is saved in
    found ∙ ap (λ x. effect e b₁ b₂ (exec x) r b rsp s) f
