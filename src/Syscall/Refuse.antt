-- ===== src/Syscall/Refuse.antt =====
-- The calls that kernel_syscall_entry of src/kernel/core.c refuses.
use platinum.Prelude.{
  ℕ, suc, ◌+◌, ◌^◌, ◌≤◌, ◌<◌, ◌≡◌, ◌≢◌, ◌⊎◌, inl, inr, refl, ap, ◌∙◌, true, false, Option, none,
  some, arith, ◌==◌, u64, Bool-cases, Option-cases, Exec, ok,
}
use platinum.Paging.{Layout}
use platinum.Paging.Range.{user_range_mapped-Decides}
use platinum.Sched
use platinum.Sched.Tasks.{paging_of, Kernel, Bootstrap, TaskRef}
use platinum.Syscall.User.{
  System, user_buffer_valid, user_byte, path_byte_valid, copy_loop, copy_path,
}
use platinum.Syscall.Checks.{IsUserByte, user_buffer_valid-Decides, byte_valid-IsUserByte}
use platinum.Syscall.Frame.{
  result_error, frame_rax, frame_rdi, frame_rsi, frame_rdx, syscall_return,
}
use platinum.Syscall.Files.{sys_read, sys_write, sys_open}
use platinum.Syscall.Program.{ExecBuild, sys_exec}
use platinum.Syscall.{syscall_entry, task_call, user_call, is_user_call}

-- Why a call with the frame at `rsp` is refused: its number is none of the ten; the calls from
-- SYS_READ on need a current task; SYS_READ, SYS_WRITE, SYS_OPEN and SYS_EXEC need a running program;
-- the buffer of SYS_READ or SYS_WRITE has a byte that is not the program's; the path of SYS_OPEN or
-- SYS_EXEC does not start with a slash of the program.
pub data Refusal (rsp : ℕ) (s : System) : Type 0 where
  unknown : 10 ≤ frame_rax rsp s.kernel → Refusal rsp s
  no_task : 4 ≤ frame_rax rsp s.kernel → s.kernel.current ≡ none → Refusal rsp s
  no_program :
      is_user_call (frame_rax rsp s.kernel) ≡ true
      → Sched.current_user_bootstrap s.kernel ≡ none
      → Refusal rsp s
  bad_buffer :
      (b : Bootstrap) (address : ℕ)
      → (frame_rax rsp s.kernel ≡ 4) ⊎ (frame_rax rsp s.kernel ≡ 5)
      → Sched.current_user_bootstrap s.kernel ≡ some b
      → b.layout.stack_top < 2 ^ 64
      → frame_rsi rsp s.kernel < 2 ^ 64
      → frame_rdx rsp s.kernel < 2 ^ 64
      → frame_rsi rsp s.kernel ≤ address
      → address < frame_rsi rsp s.kernel + frame_rdx rsp s.kernel
      → ¬ IsUserByte b.address_space b.layout (paging_of s.kernel) address
      → Refusal rsp s
  bad_path :
      (b : Bootstrap)
      → (frame_rax rsp s.kernel ≡ 8) ⊎ (frame_rax rsp s.kernel ≡ 9)
      → Sched.current_user_bootstrap s.kernel ≡ some b
      → b.layout.stack_top < 2 ^ 64
      → frame_rdi rsp s.kernel < 2 ^ 64
      → (¬ IsUserByte b.address_space b.layout (paging_of s.kernel) (frame_rdi rsp s.kernel))
        ⊎ (user_byte (frame_rdi rsp s.kernel) s ≢ b'/')
      → Refusal rsp s

-- A running program is that of the current task, and has tables.
pub running_program :
    (k : Kernel) (b : Bootstrap)
    → Sched.current_user_bootstrap k ≡ some b
    → (r : TaskRef) × (k.current ≡ some r) × (b.address_space ≢ 0)
unfolding Sched.current_user_bootstrap
running_program k b h = elim (Option-cases k.current) [
  | inl e ↦ let wrong = rw e at h in absurd (ground arith)
  | inr (r, e) ↦ (r, e, let found = rw e at h in λ z. ground arith)
]

-- The check of the first byte of a path ends.
byte_decided :
    (a src : ℕ) (l : Layout) (s : System)
    → a ≢ 0
    → src < 2 ^ 64
    → (path_byte_valid l a src 0 (paging_of s.kernel) ≡ some true)
      ⊎ (path_byte_valid l a src 0 (paging_of s.kernel) ≡ some false)
unfolding path_byte_valid
byte_decided a src l s ne small =
    let e : u64 (src + 0) ≡ src = omega arith in
    rw e
      (elim (user_range_mapped-Decides a src 1 (paging_of s.kernel) ne (omega arith)
        (omega arith)) [
          | inl (found, _) ↦ rw found (ground arith)
          | inr (found, _) ↦ rw found (ground arith)
        ])

-- A path whose first byte is not a slash of the program is not copied.
bad_round :
    (rounds a src : ℕ) (l : Layout) (s : System)
    → a ≢ 0
    → l.stack_top < 2 ^ 64
    → src < 2 ^ 64
    → (¬ IsUserByte a l (paging_of s.kernel) src) ⊎ (user_byte src s ≢ b'/')
    → copy_loop (suc rounds) 0 src a l s ≡ ok none
unfolding copy_loop
bad_round rounds a src l s ne top small bad =
    let plus : src + 0 ≡ src = omega arith in
    elim (byte_decided a src l s ne small) [
      | inr e ↦ rw (copy_loop, e) refl
      | inl e ↦ elim bad [
        | inl outside ↦
            absurd (
              outside (rw plus at (byte_valid-IsUserByte a src l s ne top 0 small (omega arith) e)))
        | inr no_slash ↦
            let at_first : user_byte (src + 0) s ≢ b'/' = rw plus no_slash in
            let test : (user_byte (src + 0) s == b'/') ≡ false = ground arith in
            rw (copy_loop, e) (rw test refl)
      ]
    ]

bad_start :
    (a src : ℕ) (l : Layout) (s : System)
    → a ≢ 0
    → l.stack_top < 2 ^ 64
    → src < 2 ^ 64
    → (¬ IsUserByte a l (paging_of s.kernel) src) ⊎ (user_byte src s ≢ b'/')
    → copy_path src a l s ≡ ok none
unfolding copy_path
bad_start a src l s ne top small bad = elim (Bool-cases (src == 0)) [
  | inl null ↦ rw null refl
  | inr there ↦ rw there (bad_round 62 a src l s ne top small bad)
]

user_calls_last : (number : ℕ) → is_user_call number ≡ true → 4 ≤ number
user_calls_last number h = ground arith

module _ (build : ExecBuild) (stale_begin stale_end rsp : ℕ) (s : System) where
  abbrev by_task : Option TaskRef → Exec (ℕ × System)
  by_task none = ok (rsp, syscall_return rsp result_error s)
  by_task (some r) = task_call build stale_begin stale_end (frame_rax rsp s.kernel) r rsp s

  entry_to_task :
      4 ≤ frame_rax rsp s.kernel
      → syscall_entry build stale_begin stale_end rsp s ≡ by_task s.kernel.current
  unfolding syscall_entry
  entry_to_task h =
      let t₀ : (frame_rax rsp s.kernel == 0) ≡ false = ground arith in
      let t₁ : (frame_rax rsp s.kernel == 1) ≡ false = ground arith in
      let t₂ : (frame_rax rsp s.kernel == 2) ≡ false = ground arith in
      let t₃ : (frame_rax rsp s.kernel == 3) ≡ false = ground arith in rw (t₀, t₁, t₂, t₃) refl

  pub entry-task_call :
      (r : TaskRef) (number : ℕ)
      → s.kernel.current ≡ some r
      → frame_rax rsp s.kernel ≡ number
      → 4 ≤ number
      → syscall_entry build stale_begin stale_end rsp s
        ≡ task_call build stale_begin stale_end number r rsp s
  entry-task_call r number e n h =
      entry_to_task (omega arith)
      ∙ ap by_task e
      ∙ ap (λ k. task_call build stale_begin stale_end k r rsp s) n

  no_current :
      4 ≤ frame_rax rsp s.kernel
      → s.kernel.current ≡ none
      → syscall_entry build stale_begin stale_end rsp s
        ≡ ok (rsp, syscall_return rsp result_error s)
  no_current h n = entry_to_task h ∙ ap by_task n

  unknown_call :
      (r : TaskRef) (number : ℕ)
      → 10 ≤ number
      → task_call build stale_begin stale_end number r rsp s
        ≡ ok (rsp, syscall_return rsp result_error s)
  unfolding task_call
  unknown_call r number h = ground arith

  call_without_program :
      (r : TaskRef) (number : ℕ)
      → is_user_call number ≡ true
      → Sched.current_user_bootstrap s.kernel ≡ none
      → task_call build stale_begin stale_end number r rsp s
        ≡ ok (rsp, syscall_return rsp result_error s)
  unfolding task_call user_call
  call_without_program r number u e = rw (u, user_call, e) refl

  refused_buffer :
      (b : Bootstrap) (r : TaskRef)
      → Sched.current_user_bootstrap s.kernel ≡ some b
      → user_buffer_valid b.address_space b.layout
          (frame_rsi rsp s.kernel)
          (frame_rdx rsp s.kernel)
          (paging_of s.kernel)
        ≡ some false
      → (task_call build stale_begin stale_end 4 r rsp s
          ≡ ok (rsp, syscall_return rsp result_error s))
        × (task_call build stale_begin stale_end 5 r rsp s
            ≡ ok (rsp, syscall_return rsp result_error s))
  unfolding task_call user_call sys_read sys_write
  refused_buffer b r e no_buffer =
      (rw (user_call, e, sys_read, no_buffer) refl, rw (user_call, e, sys_write, no_buffer) refl)

  refused_path :
      (b : Bootstrap) (r : TaskRef)
      → Sched.current_user_bootstrap s.kernel ≡ some b
      → copy_path (frame_rdi rsp s.kernel) b.address_space b.layout s ≡ ok none
      → (task_call build stale_begin stale_end 8 r rsp s
          ≡ ok (rsp, syscall_return rsp result_error s))
        × (task_call build stale_begin stale_end 9 r rsp s
            ≡ ok (rsp, syscall_return rsp result_error s))
  unfolding task_call user_call sys_open sys_exec
  refused_path b r e no_path =
      (rw (user_call, e, sys_open, no_path) refl, rw (user_call, e, sys_exec, no_path) refl)

-- A refused call changes nothing but the register for its result, which says error, and goes on with
-- the same stack.
pub syscall_entry-Refusal :
    (build : ExecBuild) (stale_begin stale_end rsp : ℕ) (s : System)
    → Refusal rsp s
    → syscall_entry build stale_begin stale_end rsp s ≡ ok (rsp, syscall_return rsp result_error s)
syscall_entry-Refusal e b₁ b₂ rsp s (unknown h) = elim (Option-cases s.kernel.current) [
  | inl n ↦ no_current e b₁ b₂ rsp s (omega arith) n
  | inr (r, n) ↦
      entry-task_call e b₁ b₂ rsp s r _ n refl (omega arith) ∙ unknown_call e b₁ b₂ rsp s r _ h
]
syscall_entry-Refusal e b₁ b₂ rsp s (no_task h n) = no_current e b₁ b₂ rsp s h n
syscall_entry-Refusal e b₁ b₂ rsp s (no_program h n) = elim (Option-cases s.kernel.current) [
  | inl none_runs ↦ no_current e b₁ b₂ rsp s (user_calls_last _ h) none_runs
  | inr (r, runs) ↦
      entry-task_call e b₁ b₂ rsp s r _ runs refl (user_calls_last _ h)
      ∙ call_without_program e b₁ b₂ rsp s r _ h n
]
syscall_entry-Refusal e b₁ b₂ rsp s (bad_buffer b address number running top x y lo hi bad) =
    let (r, current, tables) = running_program s.kernel b running in
    let (read, write) =
      refused_buffer e b₁ b₂ rsp s b r running
        (elim (user_buffer_valid-Decides b.address_space b.layout (frame_rsi rsp s.kernel)
          (frame_rdx rsp s.kernel) (paging_of s.kernel) tables top x y (omega arith)) [
            | inl (_, all) ↦ absurd (bad (all.1 address lo hi))
            | inr (refused, _) ↦ refused
          ]) in
    elim number [
      | inl n ↦ entry-task_call e b₁ b₂ rsp s r 4 current n (omega arith) ∙ read
      | inr n ↦ entry-task_call e b₁ b₂ rsp s r 5 current n (omega arith) ∙ write
    ]
syscall_entry-Refusal e b₁ b₂ rsp s (bad_path b number running top x bad) =
    let (r, current, tables) = running_program s.kernel b running in
    let (open_call, exec_call) =
      refused_path e b₁ b₂ rsp s b r running
        (bad_start b.address_space (frame_rdi rsp s.kernel) b.layout s tables top x bad) in
    elim number [
      | inl n ↦ entry-task_call e b₁ b₂ rsp s r 8 current n (omega arith) ∙ open_call
      | inr n ↦ entry-task_call e b₁ b₂ rsp s r 9 current n (omega arith) ∙ exec_call
    ]
