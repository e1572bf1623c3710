-- ===== src/User/Report.antt =====
-- The end of the tests of src/user/init.c: the message of a program on the serial line.
use platinum.Prelude.{
  ℕ, zero, suc, ◌+◌, ◌^◌, ◌%◌, ◌≡◌, ◌≢◌, ◌<◌, ◌≤◌, ◌==◌, inl, inr, refl, ap, ◌∙◌, arith, align_down,
  true, false, some, List, ◌∷◌, ◌++◌, map, length, ok, u32, u64, lookup, insert,
}
use platinum.Fd
use platinum.Fd.{FdTable, Entry}
use platinum.Vfs
use platinum.Vfs.Objects.{Vfs, Node, File, fd_output, output, may_write, write_node}
use platinum.Syscall.Program.{ExecBuild}
use platinum.Paging.{user_page_mapped}
use platinum.Sched
use platinum.Sched.Tasks.{Kernel, Bootstrap, TaskRef, task0, task1, task_at, paging_of}
use platinum.Syscall.User.{System, user_buffer_valid, user_byte, read_user, write_user}
use platinum.Syscall.Checks.{IsUserByte, user_buffer_valid-Decides}
use platinum.Syscall.Memory.{write_user-kernel, read_user-write_user}
use platinum.Syscall.Refuse.{running_program}
use platinum.Syscall.Frame.{
  frame_rdi, frame_rsi, frame_rdx, syscall_return, sign_extend, with_kernel,
}
use platinum.Syscall.Files.{sys_write}
use platinum.User.{user_sys_write, user_sys_exit}
use platinum.User.Dispatch.{write, syscall_entry-handler}
use platinum.User.Program.{finish, trap, with_words, pushed, enter, can_access, report, require}
use platinum.User.Runs.{Runs, here, stores, traps}
use platinum.User.Passes.{==-refl, pushed3, still_running}

-- A descriptor of the table is open for writing on the console.
pub record Prints (fd : ℕ) (t : FdTable) (v : Vfs) : Type 0 where
  pub entry : Entry
  pub file : File
  pub node : Node
  pub address : ℕ
  pub held : Fd.get fd t ≡ some entry
  pub file_there : entry.file ≢ 0
  pub opened : lookup entry.file v.files ≡ some file
  pub node_there : file.node ≢ 0
  pub lives : lookup file.node v.nodes ≡ some node
  pub ops : node.ops ≡ fd_output
  pub content : node.content ≡ output address
  pub writable : may_write file.access ≡ true

write-Prints :
    (fd : ℕ) (bytes : List ℕ) (t : FdTable) (v : Vfs)
    → Prints fd t v
    → (v' : Vfs) × (Fd.write fd false bytes t v ≡ ok (u32 (length bytes), v'))
      × (v'.serial ≡ v.serial ++ bytes)
unfolding Fd.write Vfs.file_write write_node
write-Prints fd bytes t v p =
    let a : (p.entry.file == 0) ≡ false = ground (arith, p.file_there) in
    let b : (p.file.node == 0) ≡ false = ground (arith, p.node_there) in
    let v' : Vfs = record v {
      files =
          insert p.entry.file (record p.file { offset = u64 (p.file.offset + length bytes) })
            v.files;
      serial = v.serial ++ bytes;
    } in
    (
      v',
      rw
          (
            p.held, Fd.write, a, Vfs.file_write, p.opened, b, p.lives, p.ops, p.content, p.writable,
            write_node,
          )
          refl,
      refl,
    )

read_user-with_words :
    (n va : ℕ) (s : System) (words : ℕ → ℕ) → read_user n va (with_words words s) ≡ read_user n va s
unfolding read_user user_byte
read_user-with_words zero va s words = refl
read_user-with_words (suc n) va s words =
    ap (λ l. user_byte va s ∷ l) (read_user-with_words n (va + 1) s words)

task_at-words :
    (r : TaskRef) (k : Kernel) (words : ℕ → ℕ)
    → task_at r (record k { words = words }) ≡ task_at r k
task_at-words task0 k words = refl
task_at-words task1 k words = refl

-- SYS_WRITE to such a descriptor, from a buffer that the program may hand over.
sys_write-Prints :
    (rsp fd buffer count : ℕ) (bytes : List ℕ) (s : System) (r : TaskRef) (b : Bootstrap)
    → (u32 (frame_rdi rsp s.kernel) ≡ fd)
      × (frame_rsi rsp s.kernel ≡ buffer)
      × (frame_rdx rsp s.kernel ≡ count)
    → user_buffer_valid b.address_space b.layout buffer count (paging_of s.kernel) ≡ some true
    → buffer ≢ 0
    → read_user count buffer s ≡ bytes
    → length bytes ≡ count
    → count < 2 ^ 31
    → Prints fd (task_at r s.kernel).fd_table s.kernel.vfs
    → (s' : System) × (sys_write r b rsp s ≡ ok (rsp, syscall_return rsp count s'))
      × (s'.kernel.vfs.serial ≡ s.kernel.vfs.serial ++ bytes)
unfolding sys_write
sys_write-Prints rsp fd buffer count bytes s r b (f, g, h) valid there held size small p =
    let (v', written, sent) = write-Prints fd bytes (task_at r s.kernel).fd_table s.kernel.vfs p in
    let null : (buffer == 0) ≡ false = ground (arith, there) in
    let result : sign_extend (u32 (length bytes)) ≡ count = ground (arith, size) in
    (
      with_kernel (record s.kernel { vfs = v' }) s,
      rw (g, h, sys_write, valid, f, g, h, null, held, written, result) refl,
      sent,
    )

-- The program of the current task runs with its own tables in use, can use the `size` bytes at `buffer` of
-- one page, and has the console as descriptor 1.
pub record CanReport (k : Kernel) (buffer size : ℕ) : Type 0 where
  pub task : TaskRef
  pub bootstrap : Bootstrap
  pub current : k.current ≡ some task
  pub running : Sched.current_user_bootstrap k ≡ some bootstrap
  pub active : k.cr3 ≡ bootstrap.address_space
  pub top : bootstrap.layout.stack_top < 2 ^ 64
  pub there : buffer ≢ 0
  pub word : buffer < 2 ^ 64
  pub fits : buffer % 4096 + size ≤ 4096
  pub usable :
      (address : ℕ)
      → buffer ≤ address
      → address < buffer + size
      → IsUserByte bootstrap.address_space bootstrap.layout (paging_of k) address
  pub prints : Prints 1 (task_at task k).fd_table k.vfs

-- Bytes that the program may hand over can be accessed by the program itself.
can_access-IsUserByte :
    (n at : ℕ) (s : System) (b : Bootstrap)
    → s.kernel.cr3 ≡ b.address_space
    → ((address : ℕ)
        → at ≤ address
        → address < at + n
        → IsUserByte b.address_space b.layout (paging_of s.kernel) address)
    → can_access at n s ≡ true
unfolding can_access
can_access-IsUserByte zero at s b active usable = refl
can_access-IsUserByte (suc n) at s b active usable =
    let (_, _, mapped) = usable at (omega arith) (omega arith) in
    let later =
      can_access-IsUserByte n (at + 1) s b active
        (λ address lo hi. usable address (omega arith) (omega arith)) in
    let accessible =
      ap (λ a. user_page_mapped a (align_down at) (paging_of s.kernel)) active ∙ mapped in
    rw accessible later

pub CanReport-words :
    (s : System) (buffer size : ℕ) (words : ℕ → ℕ)
    → CanReport s.kernel buffer size
    → CanReport (with_words words s).kernel buffer size
CanReport-words s buffer size words c = record {
  task = c.task;
  bootstrap = c.bootstrap;
  current = c.current;
  running = still_running s c.bootstrap c.running words;
  active = c.active;
  top = c.top;
  there = c.there;
  word = c.word;
  fits = c.fits;
  usable = c.usable;
  prints = rw (task_at-words c.task s.kernel words) c.prints;
}

-- The message of a test: the program comes to its exit, with the bytes on the serial line.
pub report-prints :
    (e : ExecBuild) (b₁ b₂ rsp : ℕ) (s : System) (buffer : ℕ) (text : List ℕ)
    → CanReport s.kernel buffer (length text)
    → 0 < length text
    → map (λ c. c % 256) text ≡ text
    → (s' : System) × Runs e b₁ b₂ rsp
        (report buffer (length text) text)
        s
        (trap user_sys_exit λ _. finish)
        s'
      × (s'.kernel.vfs.serial ≡ s.kernel.vfs.serial ++ text)
unfolding report enter require user_sys_write syscall_return
report-prints e b₁ b₂ rsp s buffer text c pos plain =
    let r = c.task in
    let b = c.bootstrap in
    let stored = write_user buffer text s in
    let trapped =
      with_words (pushed rsp (user_sys_write 1 buffer (length text)) stored.kernel.words) stored in
    let same = write_user-kernel buffer text s in
    let frame = pushed3 rsp 5 (sign_extend 1) buffer (length text) stored.kernel.words in
    let current = ap (λ k. k.current) same ∙ c.current in
    let program = ap Sched.current_user_bootstrap same ∙ c.running in
    let (d, found) =
      syscall_entry-handler e b₁ b₂ rsp trapped r b (write 1 buffer (length text)) current
        (still_running stored b program _) (omega arith) (frame.0, (frame.1, frame.2, frame.3)) in
    let (_, _, tables) = running_program s.kernel b c.running in
    let checked : user_buffer_valid b.address_space b.layout buffer (length text)
          (paging_of s.kernel)
        ≡ some true =
      elim (user_buffer_valid-Decides b.address_space b.layout buffer (length text)
        (paging_of s.kernel) tables c.top c.word (omega (arith, c.fits)) pos) [
          | inl (passed, _) ↦ passed
          | inr (_, refused) ↦ absurd (refused (c.there, c.usable))
        ] in
    let files : (task_at r trapped.kernel).fd_table ≡ (task_at r s.kernel).fd_table =
      ap (λ t. t.fd_table) (task_at-words r stored.kernel trapped.kernel.words)
      ∙ ap (λ k. (task_at r k).fd_table) same in
    let (s', written, sent) =
      sys_write-Prints rsp 1 buffer (length text) text trapped r b d
        (ap (λ k. user_buffer_valid b.address_space b.layout buffer (length text) (paging_of k))
            same
          ∙ checked)
        c.there
        (read_user-with_words (length text) buffer stored _
          ∙ read_user-write_user buffer text s c.fits
          ∙ plain)
        refl (omega (arith, c.fits)) (rw (files, ap (λ k. k.vfs) same) c.prints) in
    (
      syscall_return rsp (length text) s',
      stores (can_access-IsUserByte (length text) buffer s b c.active c.usable)
          (traps (found ∙ written) (rw (==-refl (rsp + 112), ==-refl (length text)) here)),
      sent ∙ ap (λ k. k.vfs.serial ++ text) same,
    )
