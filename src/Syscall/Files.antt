-- ===== src/Syscall/Files.antt =====
-- The system calls of src/kernel/core.c on files: SYS_READ, SYS_WRITE, SYS_OPEN, SYS_CLOSE and
-- SYS_DUP, each behind the checks that the entry shares between them.
use platinum.Syscall.User.{System, user_buffer_valid, read_user, write_user, copy_path}
use platinum.Syscall.Frame.{
  result_error, sign_extend, frame_rdi, frame_rsi, frame_rdx, resume, with_kernel, with_files,
}
use platinum.Prelude.{
  ℕ, Bool, true, false, none, some, ◌^◌, leb, ◌==◌, if◌then◌else◌, Exec, ok, fault, ◌>>=◌, u32,
  lookup,
}
use platinum.Vfs
use platinum.Vfs.{deref}
use platinum.Vfs.Objects.{Vfs, NodeKind, console as console_node}
use platinum.Fd
use platinum.Fd.{FdKind, placeholder, console_fd, FdTable}
use platinum.Sched.Tasks.{TaskRef, Bootstrap, paging_of, task_at}

unfoldable pub sys_read : TaskRef → Bootstrap → ℕ → System → Exec (ℕ × System)
sys_read r b rsp s =
    let buffer = frame_rsi rsp s.kernel in
    let count = frame_rdx rsp s.kernel in
    let fd = u32 (frame_rdi rsp s.kernel) in
    let table = (task_at r s.kernel).fd_table in
    elim (user_buffer_valid b.address_space b.layout buffer count (paging_of s.kernel)) [
      | none ↦ fault
      | some false ↦ resume rsp result_error s
      | some true ↦ (do
        (result, bytes, vfs) ← Fd.read fd (buffer == 0) count table s.kernel.vfs
        resume rsp (sign_extend result)
            (write_user buffer bytes (with_kernel (record s.kernel { vfs = vfs }) s)))
    ]

unfoldable pub sys_write : TaskRef → Bootstrap → ℕ → System → Exec (ℕ × System)
sys_write r b rsp s =
    let buffer = frame_rsi rsp s.kernel in
    let count = frame_rdx rsp s.kernel in
    let fd = u32 (frame_rdi rsp s.kernel) in
    let table = (task_at r s.kernel).fd_table in
    elim (user_buffer_valid b.address_space b.layout buffer count (paging_of s.kernel)) [
      | none ↦ fault
      | some false ↦ resume rsp result_error s
      | some true ↦ (do
        (result, vfs) ← Fd.write fd (buffer == 0) (read_user count buffer s) table s.kernel.vfs
        resume rsp (sign_extend result) (with_kernel (record s.kernel { vfs = vfs }) s))
    ]

abbrev pub is_console : NodeKind → Bool
is_console console_node = true
is_console _ = false

-- `file->node->kind == VFS_NODE_CONSOLE ? FD_KIND_CONSOLE : FD_KIND_PLACEHOLDER`
unfoldable pub kind_of : ℕ → Vfs → Exec FdKind
kind_of file vfs = do
  f ← deref (lookup file vfs.files)
  n ← deref (lookup f.node vfs.nodes)
  ok (if is_console n.kind then console_fd else placeholder)

unfoldable pub sys_open : TaskRef → Bootstrap → ℕ → System → Exec (ℕ × System)
unfolding kind_of
sys_open r b rsp s = do
  let t = task_at r s.kernel
  copied ← copy_path (frame_rdi rsp s.kernel) b.address_space b.layout s
  elim copied [
    | none ↦ resume rsp result_error s
    | some path ↦ (do
      (file, vfs) ← Vfs.open_path path (u32 (frame_rsi rsp s.kernel)) s.kernel.vfs
      let s₁ = with_kernel (record s.kernel { vfs = vfs }) s
      if file == 0 then resume rsp result_error s₁ else (do
        kind ← kind_of file vfs
        let (fd, table) = Fd.install kind file t.fd_table
        if leb (2 ^ 31) fd
            then (do
              (_, vfs') ← Vfs.file_close file vfs
              resume rsp result_error (with_files r table vfs' s))
            else resume rsp (sign_extend fd) (with_files r table vfs s)))
  ]

unfoldable pub sys_close : TaskRef → ℕ → System → Exec (ℕ × System)
sys_close r rsp s = do
  let t = task_at r s.kernel
  (result, table, vfs) ← Fd.close (u32 (frame_rdi rsp s.kernel)) t.fd_table s.kernel.vfs
  resume rsp (sign_extend result) (with_files r table vfs s)

unfoldable pub sys_dup : TaskRef → ℕ → System → Exec (ℕ × System)
sys_dup r rsp s = do
  let t = task_at r s.kernel
  (result, table, vfs) ← Fd.dup (u32 (frame_rdi rsp s.kernel)) t.fd_table s.kernel.vfs
  resume rsp (sign_extend result) (with_files r table vfs s)
