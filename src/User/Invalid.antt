-- ===== src/User/Invalid.antt =====
-- The tests of src/user/init.c that use descriptors outside the table, on the kernel.
use platinum.Prelude.{
  ℕ, Bool, ◌^◌, ◌≡◌, ◌<◌, ◌≤◌, ◌⊎◌, ◌==◌, inl, inr, refl, ap, ◌∙◌, arith, true, false, none, some,
  List, [], ◌∷◌, ok, u32,
}
use platinum.Fd
use platinum.Fd.{FdTable}
use platinum.Vfs.Objects.{Vfs, minus_one}
use platinum.Syscall.Program.{ExecBuild}
use platinum.Sched
use platinum.Sched.Tasks.{Kernel, Bootstrap, TaskRef, task0, task1, task_at, put_task, paging_of}
use platinum.Syscall.User.{System, user_buffer_valid, read_user, write_user}
use platinum.Syscall.Checks.{user_buffer_valid-Decides}
use platinum.Syscall.Refuse.{running_program}
use platinum.Syscall.Frame.{
  result_error, frame_rdi, frame_rsi, frame_rdx, syscall_return, sign_extend, with_kernel,
}
use platinum.Syscall.Files.{sys_read, sys_write, sys_close, sys_dup}
use platinum.User.{user_sys_read, user_sys_write, user_sys_close, user_sys_dup}
use platinum.User.Dispatch.{read, write, close, dup, syscall_entry-handler}
use platinum.Syscall.Memory.{write_user-kernel}
use platinum.User.Runs.{Runs, stores}
use platinum.User.Program.{with_words, pushed, can_access, report}
use platinum.User.Passes.{Refused, expect_all-AllRefused, pushed3, pushed1, still_running}
use platinum.Prelude.Text.{line}
use platinum.User.InitFiles.{invalid_descriptors, fd_invalid, invalid_transfers, rw_invalid}

get_outside : (fd : ℕ) (t : FdTable) → 16 ≤ fd → Fd.get fd t ≡ none
unfolding Fd.get
get_outside fd t h = ground arith

outside_table :
    (fd : ℕ) (t : FdTable) (v : Vfs) (null : Bool) (count : ℕ) (bytes : List ℕ)
    → 16 ≤ fd
    → (Fd.close fd t v ≡ ok (minus_one, t, v))
      × (Fd.dup fd t v ≡ ok (minus_one, t, v))
      × (Fd.read fd null count t v ≡ ok (minus_one, [], v))
      × (Fd.write fd null bytes t v ≡ ok (minus_one, v))
unfolding Fd.close Fd.dup Fd.read Fd.write
outside_table fd t v null count bytes h =
    let e = get_outside fd t h in
    (rw (e, Fd.close) refl, rw (e, Fd.dup) refl, rw (e, Fd.read) refl, rw (e, Fd.write) refl)

same_task : (r : TaskRef) (k : Kernel) → put_task r (task_at r k) k ≡ k
same_task task0 k = refl
same_task task1 k = refl

-- The calls on a descriptor outside the table return -1 and change nothing.
module _ (rsp fd : ℕ) (s : System) (r : TaskRef) (decoded : u32 (frame_rdi rsp s.kernel) ≡ fd)
    (outside : 16 ≤ fd) where
  sys_close-outside : sys_close r rsp s ≡ ok (rsp, syscall_return rsp result_error s)
  unfolding sys_close
  sys_close-outside =
      let q = (outside_table fd (task_at r s.kernel).fd_table s.kernel.vfs false 0 [] outside).0 in
      rw (decoded, q, sys_close)
        (ap (λ k. ok (rsp, syscall_return rsp result_error (with_kernel k s)))
          (same_task r s.kernel))

  sys_dup-outside : sys_dup r rsp s ≡ ok (rsp, syscall_return rsp result_error s)
  unfolding sys_dup
  sys_dup-outside =
      let q = (outside_table fd (task_at r s.kernel).fd_table s.kernel.vfs false 0 [] outside).1 in
      rw (decoded, q, sys_dup)
        (ap (λ k. ok (rsp, syscall_return rsp result_error (with_kernel k s)))
          (same_task r s.kernel))

  transfers-outside :
      (b : Bootstrap)
      → (user_buffer_valid b.address_space b.layout
            (frame_rsi rsp s.kernel)
            (frame_rdx rsp s.kernel)
            (paging_of s.kernel)
          ≡ some true)
        ⊎ (user_buffer_valid b.address_space b.layout
              (frame_rsi rsp s.kernel)
              (frame_rdx rsp s.kernel)
              (paging_of s.kernel)
            ≡ some false)
      → (sys_read r b rsp s ≡ ok (rsp, syscall_return rsp result_error s))
        × (sys_write r b rsp s ≡ ok (rsp, syscall_return rsp result_error s))
  unfolding sys_read sys_write write_user
  transfers-outside b (inr bad) = (rw (sys_read, bad) refl, rw (sys_write, bad) refl)
  transfers-outside b (inl good) =
      let q =
        outside_table fd (task_at r s.kernel).fd_table s.kernel.vfs (frame_rsi rsp s.kernel == 0)
          (frame_rdx rsp s.kernel) (read_user (frame_rdx rsp s.kernel) (frame_rsi rsp s.kernel) s)
          outside in
      (rw (good, decoded, q.2, sys_read) refl, rw (good, decoded, q.3, sys_write) refl)

module _ (e : ExecBuild) (b₁ b₂ rsp : ℕ) (s : System) (r : TaskRef) (b : Bootstrap)
    (current : s.kernel.current ≡ some r)
    (running : Sched.current_user_bootstrap s.kernel ≡ some b) where
  close-Refused : (fd : ℕ) → fd < 2 ^ 32 → 16 ≤ fd → Refused e b₁ b₂ rsp (user_sys_close fd) s
  unfolding user_sys_close
  close-Refused fd is h words =
      let trapped = with_words (pushed rsp (user_sys_close fd) words) s in
      let (d, found) =
        syscall_entry-handler e b₁ b₂ rsp trapped r b (close fd) current
          (still_running s b running _) is (pushed1 rsp 6 (sign_extend fd) words) in
      found ∙ sys_close-outside rsp fd trapped r d h

  dup-Refused : (fd : ℕ) → fd < 2 ^ 32 → 16 ≤ fd → Refused e b₁ b₂ rsp (user_sys_dup fd) s
  unfolding user_sys_dup
  dup-Refused fd is h words =
      let trapped = with_words (pushed rsp (user_sys_dup fd) words) s in
      let (d, found) =
        syscall_entry-handler e b₁ b₂ rsp trapped r b (dup fd) current (still_running s b running _)
          is (pushed1 rsp 7 (sign_extend fd) words) in
      found ∙ sys_dup-outside rsp fd trapped r d h

  -- The check of the buffer of a transfer ends.
  buffer_decided :
      (buffer count : ℕ)
      → b.layout.stack_top < 2 ^ 64
      → buffer < 2 ^ 64
      → count < 2 ^ 64
      → 0 < count
      → (user_buffer_valid b.address_space b.layout buffer count (paging_of s.kernel) ≡ some true)
        ⊎ (user_buffer_valid b.address_space b.layout buffer count (paging_of s.kernel)
            ≡ some false)
  buffer_decided buffer count top x y pos =
      let (_, _, tables) = running_program s.kernel b running in
      elim (user_buffer_valid-Decides b.address_space b.layout buffer count (paging_of s.kernel)
        tables top x y pos) [ inl p ↦ inl p.0 | inr p ↦ inr p.0 ]

  transfer-Refused :
      (fd buffer count : ℕ)
      → b.layout.stack_top < 2 ^ 64
      → fd < 2 ^ 32
      → 16 ≤ fd
      → buffer < 2 ^ 64
      → count < 2 ^ 64
      → 0 < count
      → Refused e b₁ b₂ rsp (user_sys_read fd buffer count) s
        × Refused e b₁ b₂ rsp (user_sys_write fd buffer count) s
  unfolding user_sys_read user_sys_write
  transfer-Refused fd buffer count top is h x y pos = (
    λ words.
        let trapped = with_words (pushed rsp (user_sys_read fd buffer count) words) s in
        let (n, f, g, k) = pushed3 rsp 4 (sign_extend fd) buffer count words in
        let (d, found) =
          syscall_entry-handler e b₁ b₂ rsp trapped r b (read fd buffer count) current
            (still_running s b running _) is (n, (f, g, k)) in
        found
        ∙ (transfers-outside rsp fd trapped r d.0 h b (
            buffer_decided (frame_rsi rsp trapped.kernel) (frame_rdx rsp trapped.kernel) top
              (omega (arith, g, x)) (omega (arith, k, y)) (omega (arith, k, pos)))).0,
    λ words.
        let trapped = with_words (pushed rsp (user_sys_write fd buffer count) words) s in
        let (n, f, g, k) = pushed3 rsp 5 (sign_extend fd) buffer count words in
        let (d, found) =
          syscall_entry-handler e b₁ b₂ rsp trapped r b (write fd buffer count) current
            (still_running s b running _) is (n, (f, g, k)) in
        found
        ∙ (transfers-outside rsp fd trapped r d.0 h b (
            buffer_decided (frame_rsi rsp trapped.kernel) (frame_rdx rsp trapped.kernel) top
              (omega (arith, g, x)) (omega (arith, k, y)) (omega (arith, k, pos)))).1,
  )

-- USER_TEST_FD_INVALID in any running program: closing and duplicating the descriptors -1 and 99 fails
-- and changes nothing but words of the kernel stack, so the program comes to its message.
pub fd_invalid-report :
    (e : ExecBuild) (b₁ b₂ rsp : ℕ) (s : System) (b : Bootstrap) (text_at : ℕ)
    → Sched.current_user_bootstrap s.kernel ≡ some b
    → (words : ℕ → ℕ) × Runs e b₁ b₂ rsp
        (fd_invalid text_at)
        s
        (report text_at 13 (line "fdinvalid ok"))
        (with_words words s)
unfolding fd_invalid
fd_invalid-report e b₁ b₂ rsp s b text_at running =
    let (r, current, _) = running_program s.kernel b running in
    let closed = close-Refused e b₁ b₂ rsp s r b current running in
    let duplicated = dup-Refused e b₁ b₂ rsp s r b current running in
    expect_all-AllRefused e b₁ b₂ rsp s invalid_descriptors _ s.kernel.words (
      refl,
      closed minus_one (omega arith) (omega arith),
      (
        refl,
        closed 99 (omega arith) (omega arith),
        (
          refl,
          duplicated minus_one (omega arith) (omega arith),
          (refl, duplicated 99 (omega arith) (omega arith), tt),
        ),
      ),
    )

-- USER_TEST_RW_INVALID in any running program: reading and writing the descriptors -1 and 99 fails,
-- wherever in its memory the byte for it is, and changes nothing but words of the kernel stack; so the program
-- comes to its message.
pub rw_invalid-report :
    (e : ExecBuild) (b₁ b₂ rsp : ℕ) (s : System) (b : Bootstrap) (value text_at : ℕ)
    → Sched.current_user_bootstrap s.kernel ≡ some b
    → b.layout.stack_top < 2 ^ 64
    → value < 2 ^ 64
    → can_access value 1 s ≡ true
    → (words : ℕ → ℕ) × Runs e b₁ b₂ rsp
        (rw_invalid value text_at)
        s
        (report text_at 13 (line "rwinvalid ok"))
        (with_words words (write_user value (b'R' ∷ []) s))
unfolding rw_invalid
rw_invalid-report e b₁ b₂ rsp s b value text_at running top x usable =
    let (r, current, _) = running_program s.kernel b running in
    let s' = write_user value (b'R' ∷ []) s in
    let same = write_user-kernel value (b'R' ∷ []) s in
    let refused =
      transfer-Refused e b₁ b₂ rsp s' r b (ap (λ k. k.current) same ∙ current)
        (ap Sched.current_user_bootstrap same ∙ running) in
    let first =
      refused minus_one value 1 top (omega arith) (omega arith) x (omega arith) (omega arith) in
    let second = refused 99 value 1 top (omega arith) (omega arith) x (omega arith) (omega arith) in
    let (words, later) =
      expect_all-AllRefused e b₁ b₂ rsp s' (invalid_transfers value)
        (report text_at 13 (line "rwinvalid ok")) s'.kernel.words
        (refl, first.0, (refl, second.0, (refl, first.1, (refl, second.1, tt)))) in
    (words, stores usable later)
