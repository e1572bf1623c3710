-- ===== src/User/Dispatch.antt =====
-- The system calls of src/user/syscall.h, and the function of src/kernel/core.c that handles each.
use platinum.Prelude.{
  ℕ, ◌%◌, ◌^◌, ◌≡◌, refl, ap, ◌∙◌, arith, true, false, some, List, [], ◌∷◌, ◌==◌, u32, ◌<◌, Exec,
  ok, ◌>>=◌,
}
use platinum.Sched
use platinum.Sched.Tasks.{TaskRef, Kernel, Bootstrap}
use platinum.Syscall.User.{System}
use platinum.Syscall.Frame.{
  sign_extend, result_ok, frame_rax, frame_rdi, frame_rsi, frame_rdx, resume, with_kernel,
  syscall_return,
}
use platinum.Syscall.Files.{sys_read, sys_write, sys_open, sys_close, sys_dup}
use platinum.Syscall.Program.{ExecBuild, sys_exec}
use platinum.Syscall.Refuse.{entry-task_call}
use platinum.Syscall.{put_char, syscall_entry, task_call, user_call}
use platinum.User.{
  Trap, user_sys_putc, user_sys_yield, user_sys_get_ticks, user_sys_exit, user_sys_read,
  user_sys_write, user_sys_close, user_sys_dup, user_sys_open_mode, user_sys_exec,
}

-- The first registers of the frame hold the arguments.
abbrev pub HoldsArguments : List ℕ → ℕ → Kernel → Type 0
HoldsArguments [] rsp k = Unit
HoldsArguments (a ∷ []) rsp k = frame_rdi rsp k ≡ a
HoldsArguments (a ∷ b ∷ []) rsp k = (frame_rdi rsp k ≡ a) × (frame_rsi rsp k ≡ b)
HoldsArguments (a ∷ b ∷ c ∷ _) rsp k =
    (frame_rdi rsp k ≡ a) × (frame_rsi rsp k ≡ b) × (frame_rdx rsp k ≡ c)

-- The interrupt stub has saved the registers of the trap at `rsp`.
abbrev pub Saved : Trap → ℕ → Kernel → Type 0
Saved t rsp k = (frame_rax rsp k ≡ t.number) × HoldsArguments t.arguments rsp k

-- The calls of src/user/syscall.h.
pub data UserCall : Type 0 where
  putc : (ch : ℕ) → UserCall
  yield get_ticks exit : UserCall
  read write : (fd buffer count : ℕ) → UserCall
  close dup : (fd : ℕ) → UserCall
  open_mode : (path flags : ℕ) → UserCall
  exec : (path : ℕ) → UserCall

abbrev pub trap_of : UserCall → Trap
trap_of (putc ch) = user_sys_putc ch
trap_of yield = user_sys_yield
trap_of get_ticks = user_sys_get_ticks
trap_of exit = user_sys_exit
trap_of (read fd buffer count) = user_sys_read fd buffer count
trap_of (write fd buffer count) = user_sys_write fd buffer count
trap_of (close fd) = user_sys_close fd
trap_of (dup fd) = user_sys_dup fd
trap_of (open_mode path flags) = user_sys_open_mode path flags
trap_of (exec path) = user_sys_exec path

-- The descriptor of a call is a 32-bit pattern.
abbrev pub IsCall : UserCall → Type 0
IsCall (read fd buffer count) = fd < 2 ^ 32
IsCall (write fd buffer count) = fd < 2 ^ 32
IsCall (close fd) = fd < 2 ^ 32
IsCall (dup fd) = fd < 2 ^ 32
IsCall _ = Unit

-- The arguments as the kernel decodes them from the frame.
abbrev pub Decoded : UserCall → ℕ → Kernel → Type 0
Decoded (putc ch) rsp k = frame_rdi rsp k % 256 ≡ ch % 256
Decoded (read fd buffer count) rsp k =
    (u32 (frame_rdi rsp k) ≡ fd) × (frame_rsi rsp k ≡ buffer) × (frame_rdx rsp k ≡ count)
Decoded (write fd buffer count) rsp k =
    (u32 (frame_rdi rsp k) ≡ fd) × (frame_rsi rsp k ≡ buffer) × (frame_rdx rsp k ≡ count)
Decoded (close fd) rsp k = u32 (frame_rdi rsp k) ≡ fd
Decoded (dup fd) rsp k = u32 (frame_rdi rsp k) ≡ fd
Decoded (open_mode path flags) rsp k =
    (frame_rdi rsp k ≡ path) × (u32 (frame_rsi rsp k) ≡ u32 flags)
Decoded (exec path) rsp k = frame_rdi rsp k ≡ path
Decoded _ rsp k = Unit

-- The function of the kernel for a call.
abbrev pub handler :
    (build : ExecBuild) (stale_begin stale_end : ℕ)
    → UserCall
    → TaskRef
    → Bootstrap
    → ℕ
    → System
    → Exec (ℕ × System)
handler e b₁ b₂ (putc ch) r b rsp s =
    resume rsp result_ok (with_kernel (put_char (frame_rdi rsp s.kernel) s.kernel) s)
handler e b₁ b₂ yield r b rsp s =
    let returned = syscall_return rsp result_ok s in
    Sched.tick rsp returned.kernel >>= λ t. ok (t.0, with_kernel t.1 returned)
handler e b₁ b₂ get_ticks r b rsp s = resume rsp s.ticks s
handler e b₁ b₂ exit r b rsp s =
    let returned = syscall_return rsp result_ok s in
    Sched.exit_current b₁ b₂ returned.kernel >>= λ t. ok (t.0, with_kernel t.1 returned)
handler e b₁ b₂ (read fd buffer count) r b rsp s = sys_read r b rsp s
handler e b₁ b₂ (write fd buffer count) r b rsp s = sys_write r b rsp s
handler e b₁ b₂ (close fd) r b rsp s = sys_close r rsp s
handler e b₁ b₂ (dup fd) r b rsp s = sys_dup r rsp s
handler e b₁ b₂ (open_mode path flags) r b rsp s = sys_open r b rsp s
handler e b₁ b₂ (exec path) r b rsp s = sys_exec e b₁ b₂ b rsp s

sign_extend-u32 : (fd at : ℕ) → fd < 2 ^ 32 → at ≡ sign_extend fd → u32 at ≡ fd
sign_extend-u32 fd at small e = ground arith

module _ (e : ExecBuild) (b₁ b₂ rsp : ℕ) (s : System) (r : TaskRef) (b : Bootstrap) where
  task_calls :
      Sched.current_user_bootstrap s.kernel ≡ some b
      → (task_call e b₁ b₂ 4 r rsp s ≡ sys_read r b rsp s)
        × (task_call e b₁ b₂ 5 r rsp s ≡ sys_write r b rsp s)
        × (task_call e b₁ b₂ 6 r rsp s ≡ sys_close r rsp s)
        × (task_call e b₁ b₂ 7 r rsp s ≡ sys_dup r rsp s)
        × (task_call e b₁ b₂ 8 r rsp s ≡ sys_open r b rsp s)
        × (task_call e b₁ b₂ 9 r rsp s ≡ sys_exec e b₁ b₂ b rsp s)
  unfolding task_call user_call
  task_calls running = (
    rw (user_call, running) refl,
    rw (user_call, running) refl,
    refl,
    refl,
    rw (user_call, running) refl,
    rw (user_call, running) refl,
  )

  first_calls :
      (number : ℕ)
      → frame_rax rsp s.kernel ≡ number
      → (number ≡ 0 → syscall_entry e b₁ b₂ rsp s ≡ handler e b₁ b₂ (putc 0) r b rsp s)
        × (number ≡ 1 → syscall_entry e b₁ b₂ rsp s ≡ handler e b₁ b₂ yield r b rsp s)
        × (number ≡ 2 → syscall_entry e b₁ b₂ rsp s ≡ handler e b₁ b₂ get_ticks r b rsp s)
        × (number ≡ 3 → syscall_entry e b₁ b₂ rsp s ≡ handler e b₁ b₂ exit r b rsp s)
  unfolding syscall_entry
  first_calls number n = (
    λ z. (let t₀ : (frame_rax rsp s.kernel == 0) ≡ true = ground arith in rw t₀ refl),
    λ z.
        (let t₀ : (frame_rax rsp s.kernel == 0) ≡ false = ground arith in
          let t₁ : (frame_rax rsp s.kernel == 1) ≡ true = ground arith in rw (t₀, t₁) refl),
    λ z.
        (let t₀ : (frame_rax rsp s.kernel == 0) ≡ false = ground arith in
          let t₁ : (frame_rax rsp s.kernel == 1) ≡ false = ground arith in
          let t₂ : (frame_rax rsp s.kernel == 2) ≡ true = ground arith in rw (t₀, t₁, t₂) refl),
    λ z.
        (let t₀ : (frame_rax rsp s.kernel == 0) ≡ false = ground arith in
          let t₁ : (frame_rax rsp s.kernel == 1) ≡ false = ground arith in
          let t₂ : (frame_rax rsp s.kernel == 2) ≡ false = ground arith in
          let t₃ : (frame_rax rsp s.kernel == 3) ≡ true = ground arith in rw (t₀, t₁, t₂, t₃) refl),
  )

-- A call of a program that runs, whose frame holds what the wrapper passes: the frame has the arguments
-- that the program gave, and the call comes to its function.
pub syscall_entry-handler :
    (e : ExecBuild) (b₁ b₂ rsp : ℕ) (s : System) (r : TaskRef) (b : Bootstrap) (c : UserCall)
    → s.kernel.current ≡ some r
    → Sched.current_user_bootstrap s.kernel ≡ some b
    → IsCall c
    → Saved (trap_of c) rsp s.kernel
    → Decoded c rsp s.kernel × (syscall_entry e b₁ b₂ rsp s ≡ handler e b₁ b₂ c r b rsp s)
unfolding user_sys_putc user_sys_yield user_sys_get_ticks user_sys_exit user_sys_read user_sys_write
    user_sys_close user_sys_dup user_sys_open_mode user_sys_exec
syscall_entry-handler e b₁ b₂ rsp s r b (putc ch) current running is (n, a) =
    (omega arith, (first_calls e b₁ b₂ rsp s r b _ n).0 refl)
syscall_entry-handler e b₁ b₂ rsp s r b yield current running is (n, _) =
    (tt, (first_calls e b₁ b₂ rsp s r b _ n).1 refl)
syscall_entry-handler e b₁ b₂ rsp s r b get_ticks current running is (n, _) =
    (tt, (first_calls e b₁ b₂ rsp s r b _ n).2 refl)
syscall_entry-handler e b₁ b₂ rsp s r b exit current running is (n, _) =
    (tt, (first_calls e b₁ b₂ rsp s r b _ n).3 refl)
syscall_entry-handler e b₁ b₂ rsp s r b (read fd buffer count) current running is (n, a) = (
  (sign_extend-u32 fd _ is a.0, a.1, a.2),
  entry-task_call e b₁ b₂ rsp s r 4 current n (omega arith)
      ∙ (task_calls e b₁ b₂ rsp s r b running).0,
)
syscall_entry-handler e b₁ b₂ rsp s r b (write fd buffer count) current running is (n, a) = (
  (sign_extend-u32 fd _ is a.0, a.1, a.2),
  entry-task_call e b₁ b₂ rsp s r 5 current n (omega arith)
      ∙ (task_calls e b₁ b₂ rsp s r b running).1,
)
syscall_entry-handler e b₁ b₂ rsp s r b (close fd) current running is (n, a) = (
  sign_extend-u32 fd _ is a,
  entry-task_call e b₁ b₂ rsp s r 6 current n (omega arith)
      ∙ (task_calls e b₁ b₂ rsp s r b running).2,
)
syscall_entry-handler e b₁ b₂ rsp s r b (dup fd) current running is (n, a) = (
  sign_extend-u32 fd _ is a,
  entry-task_call e b₁ b₂ rsp s r 7 current n (omega arith)
      ∙ (task_calls e b₁ b₂ rsp s r b running).3,
)
syscall_entry-handler e b₁ b₂ rsp s r b (open_mode path flags) current running is (n, a) = (
  (a.0, ap (λ x. u32 x) a.1),
  entry-task_call e b₁ b₂ rsp s r 8 current n (omega arith)
      ∙ (task_calls e b₁ b₂ rsp s r b running).4,
)
syscall_entry-handler e b₁ b₂ rsp s r b (exec path) current running is (n, a) = (
  a,
  entry-task_call e b₁ b₂ rsp s r 9 current n (omega arith)
      ∙ (task_calls e b₁ b₂ rsp s r b running).5,
)
