-- ===== src/User/Messages.antt =====
-- What the tests of src/user/init.c write on the serial line of the kernel: the tests of bad pointers,
-- of invalid descriptors and of an unknown system call as a whole.
use platinum.Prelude.{
  ℕ, ◌+◌, ◌%◌, ◌^◌, ◌≡◌, ◌<◌, refl, ap, ◌∙◌, arith, List, [], ◌∷◌, ◌++◌, some, true,
}
use platinum.Sched
use platinum.Sched.Tasks.{Bootstrap}
use platinum.Syscall.User.{System, write_user}
use platinum.Syscall.Memory.{write_user-kernel}
use platinum.Syscall.Program.{ExecBuild, first_user_layout}
use platinum.Syscall.Frame.{result_ok, result_error, frame_rdi, syscall_return, with_kernel}
use platinum.Syscall.Refuse.{unknown, syscall_entry-Refusal}
use platinum.Syscall.{syscall_entry, put_char}
use platinum.User.{user_syscall1, user_sys_putc, user_sys_exit}
use platinum.User.Program.{Program, finish, trap, can_access, enter, with_words, pushed, set_word}
use platinum.Prelude.Text.{line}
use platinum.User.InitFiles.{bad_pointers, fd_invalid, rw_invalid, bad_syscall}
use platinum.User.Runs.{Runs, Runs-trans, here, traps}
use platinum.User.Passes.{Refused, ==-refl, pushed1, Refused-Runs, bad_pointers-report}
use platinum.User.Invalid.{fd_invalid-report, rw_invalid-report}
use platinum.User.Report.{CanReport, CanReport-words, report-prints}

-- The program comes to its last call, user_sys_exit, by steps that succeed, and then the text is on the
-- serial line behind what was there.
abbrev pub Prints :
    (build : ExecBuild) (stale_begin stale_end rsp : ℕ) → Program → List ℕ → System → Type 0
Prints e b₁ b₂ rsp p text s =
    (s' : System) × Runs e b₁ b₂ rsp p s (trap user_sys_exit λ _. finish) s'
    × (s'.kernel.vfs.serial ≡ s.kernel.vfs.serial ++ text)

-- USER_TEST_BAD_POINTERS in a program that can report and has the layout of first_user_layout: all six
-- calls with pointers that are not the program's return -1, every step succeeds, and the program comes
-- to its exit with "ptr ok" on the serial line.
pub bad_pointers-Prints :
    (e : ExecBuild) (b₁ b₂ rsp : ℕ) (s : System) (b : Bootstrap) (buffer : ℕ)
    → Sched.current_user_bootstrap s.kernel ≡ some b
    → b.layout ≡ first_user_layout
    → CanReport s.kernel buffer 7
    → Prints e b₁ b₂ rsp (bad_pointers buffer) (line "ptr ok") s
bad_pointers-Prints e b₁ b₂ rsp s b buffer running placed c =
    let (words, comes) = bad_pointers-report e b₁ b₂ rsp s b buffer running placed in
    let (s', prints, serial) =
      report-prints e b₁ b₂ rsp (with_words words s) buffer (line "ptr ok")
        (CanReport-words s buffer 7 words c) (omega arith) refl in
    (s', Runs-trans comes prints, serial)

-- USER_TEST_FD_INVALID in a program that can report: closing and duplicating the descriptors -1 and 99
-- return -1, every step succeeds, and the program comes to its exit with "fdinvalid ok" on the serial line.
pub fd_invalid-Prints :
    (e : ExecBuild) (b₁ b₂ rsp : ℕ) (s : System) (buffer : ℕ)
    → CanReport s.kernel buffer 13
    → Prints e b₁ b₂ rsp (fd_invalid buffer) (line "fdinvalid ok") s
fd_invalid-Prints e b₁ b₂ rsp s buffer c =
    let (words, comes) = fd_invalid-report e b₁ b₂ rsp s c.bootstrap buffer c.running in
    let (s', prints, serial) =
      report-prints e b₁ b₂ rsp (with_words words s) buffer (line "fdinvalid ok")
        (CanReport-words s buffer 13 words c) (omega arith) refl in
    (s', Runs-trans comes prints, serial)

-- USER_TEST_RW_INVALID in a program that can report: reading and writing the descriptors -1 and 99
-- return -1, wherever in its memory the byte `value` is, every step succeeds, and the program comes to
-- its exit with "rwinvalid ok" on the serial line.
pub rw_invalid-Prints :
    (e : ExecBuild) (b₁ b₂ rsp : ℕ) (s : System) (value buffer : ℕ)
    → CanReport s.kernel buffer 13
    → value < 2 ^ 64
    → can_access value 1 s ≡ true
    → Prints e b₁ b₂ rsp (rw_invalid value buffer) (line "rwinvalid ok") s
rw_invalid-Prints e b₁ b₂ rsp s value buffer c x usable =
    let stored = write_user value (b'R' ∷ []) s in
    let same = write_user-kernel value (b'R' ∷ []) s in
    let (words, comes) =
      rw_invalid-report e b₁ b₂ rsp s c.bootstrap value buffer c.running c.top x usable in
    let (s', prints, serial) =
      report-prints e b₁ b₂ rsp (with_words words stored) buffer (line "rwinvalid ok")
        (CanReport-words stored buffer 13 words (rw same c)) (omega arith) refl in
    (s', Runs-trans comes prints, serial ∙ ap (λ k. k.vfs.serial ++ line "rwinvalid ok") same)

-- `user_sys_putc` writes its character and returns.
putc-returns :
    (e : ExecBuild) (b₁ b₂ rsp ch : ℕ) (s : System) (next : ℕ → Program)
    → (s' : System) × Runs e b₁ b₂ rsp (trap (user_sys_putc ch) next) s (next 0) s'
      × (s'.kernel.vfs.serial ≡ s.kernel.vfs.serial ++ (ch % 256) ∷ [])
unfolding enter user_sys_putc syscall_entry put_char syscall_return
putc-returns e b₁ b₂ rsp ch s next =
    let (n, a) = pushed1 rsp 0 (ch % 256) s.kernel.words in
    let same : ch % 256 % 256 ≡ ch % 256 = omega arith in
    let trapped = with_words (pushed rsp (user_syscall1 0 (ch % 256)) s.kernel.words) s in
    let k = put_char (frame_rdi rsp trapped.kernel) trapped.kernel in
    (
      syscall_return rsp result_ok (with_kernel k trapped),
      traps {s₁ = syscall_return rsp result_ok (with_kernel k trapped)} (rw n refl)
          (rw (==-refl (rsp + 112)) here),
      rw (a, same) refl,
    )

-- USER_TEST_BAD_SYSCALL on any system: both calls succeed, the one with an unknown number returns -1,
-- and the program comes to its exit with "V" on the serial line.
pub bad_syscall-Prints :
    (e : ExecBuild) (b₁ b₂ rsp : ℕ) (s : System) → Prints e b₁ b₂ rsp bad_syscall (b'V' ∷ []) s
unfolding bad_syscall
bad_syscall-Prints e b₁ b₂ rsp s =
    let t = user_syscall1 0xffff 0 in
    let refused : Refused e b₁ b₂ rsp t s = λ words.
      let (n, _) = pushed1 rsp 0xffff 0 words in
      syscall_entry-Refusal e b₁ b₂ rsp (with_words (pushed rsp t words) s)
        (unknown (omega (arith, n))) in
    let words = set_word (rsp + 112) result_error (pushed rsp t s.kernel.words) in
    let (s', prints, serial) = putc-returns e b₁ b₂ rsp b'V' (with_words words s) _ in
    (s', Refused-Runs e b₁ b₂ rsp s t _ s.kernel.words refused prints, serial)
