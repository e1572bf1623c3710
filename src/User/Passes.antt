-- ===== src/User/Passes.antt =====
-- What the tests of src/user/init.c find on the kernel: a call that the kernel refuses leaves no trace
-- but the words of its frame, so a chain of such calls passes.
use platinum.Prelude.{
  ℕ, ◌+◌, ◌^◌, ◌≡◌, ◌<◌, ◌≤◌, ◌⊎◌, inl, inr, refl, ap, ◌∙◌, arith, true, some, List, [], ◌∷◌, ◌==◌,
  ok,
}
use platinum.Sched
use platinum.Sched.Tasks.{Bootstrap}
use platinum.Syscall.User.{System}
use platinum.Syscall.Frame.{result_error, syscall_return}
use platinum.Syscall.Refuse.{bad_buffer, bad_path, syscall_entry-Refusal}
use platinum.Syscall.{syscall_entry}
use platinum.Syscall.Program.{ExecBuild, first_user_layout}
use platinum.User.{
  Trap, user_syscall1, user_syscall2, user_syscall3, user_sys_read, user_sys_write, user_sys_open,
  user_sys_exec,
}
use platinum.Prelude.Text.{line}
use platinum.User.InitFiles.{bad_pointer_calls, bad_pointers}
use platinum.User.Runs.{Runs, here, traps}
use platinum.User.Program.{Program, trap, with_words, set_word, pushed, enter, expect_all, report}

pub ==-refl : (n : ℕ) → (n == n) ≡ true
==-refl n = ground arith

-- The kernel returns -1 for the trap whatever the words of the frame were, and changes nothing else.
abbrev pub Refused : (build : ExecBuild) (stale_begin stale_end rsp : ℕ) → Trap → System → Type 0
Refused e b₁ b₂ rsp t s =
    (words : ℕ → ℕ)
    → syscall_entry e b₁ b₂ rsp (with_words (pushed rsp t words) s)
      ≡ ok (rsp, syscall_return rsp result_error (with_words (pushed rsp t words) s))

-- Two systems that differ in the words of the kernel stack at most.
abbrev pub Unchanged : System → System → Type 0
Unchanged s s' = (words : ℕ → ℕ) × (s' ≡ with_words words s)

module _ (e : ExecBuild) (b₁ b₂ rsp : ℕ) (s : System) where
  -- A program that makes the call goes on with -1.
  pub Refused-Runs :
      (t : Trap) (next : ℕ → Program) (words : ℕ → ℕ)
      → Refused e b₁ b₂ rsp t s
      → {q : Program} {s' : System}
      → Runs e b₁ b₂ rsp
          (next result_error)
          (with_words (set_word (rsp + 112) result_error (pushed rsp t words)) s)
          q
          s'
      → Runs e b₁ b₂ rsp (trap t next) (with_words words s) q s'
  unfolding enter syscall_return
  Refused-Runs t next words refused later = traps (refused words) (rw (==-refl (rsp + 112)) later)

  -- Every call of the chain is expected to fail, and does.
  abbrev pub AllRefused : List (Trap × ℕ) → Type 0
  AllRefused [] = Unit
  AllRefused ((t, expected) ∷ more) =
      (expected ≡ result_error) × Refused e b₁ b₂ rsp t s × AllRefused more

  pub expect_all-AllRefused :
      (chain : List (Trap × ℕ)) (rest : Program) (words : ℕ → ℕ)
      → AllRefused chain
      → (words' : ℕ → ℕ) × Runs e b₁ b₂ rsp
          (expect_all chain rest)
          (with_words words s)
          rest
          (with_words words' s)
  unfolding expect_all
  expect_all-AllRefused [] rest words all = (words, here)
  expect_all-AllRefused ((t, expected) ∷ more) rest words (e₁, refused, all) =
      let words₁ = set_word (rsp + 112) result_error (pushed rsp t words) in
      let (words₂, later) = expect_all-AllRefused more rest words₁ all in
      let matches : (result_error == expected) ≡ true = ground (arith, e₁) in
      (words₂, Refused-Runs t _ words refused (rw matches later))

-- The frame of a trap with three arguments, two or one.
pub pushed3 :
    (rsp n a b c : ℕ) (words : ℕ → ℕ)
    → let w = pushed rsp (user_syscall3 n a b c) words in
      (w (rsp + 112) ≡ n) × (w (rsp + 64) ≡ a) × (w (rsp + 72) ≡ b) × (w (rsp + 88) ≡ c)
pushed3 rsp n a b c words = (ground arith, ground arith, ground arith, ground arith)

pub pushed2 :
    (rsp n a b : ℕ) (words : ℕ → ℕ)
    → let w = pushed rsp (user_syscall2 n a b) words in
      (w (rsp + 112) ≡ n) × (w (rsp + 64) ≡ a) × (w (rsp + 72) ≡ b)
pushed2 rsp n a b words = (ground arith, ground arith, ground arith)

pub pushed1 :
    (rsp n a : ℕ) (words : ℕ → ℕ)
    → let w = pushed rsp (user_syscall1 n a) words in (w (rsp + 112) ≡ n) × (w (rsp + 64) ≡ a)
pushed1 rsp n a words = (ground arith, ground arith)

pub still_running :
    (s : System) (b : Bootstrap)
    → Sched.current_user_bootstrap s.kernel ≡ some b
    → (words : ℕ → ℕ) → Sched.current_user_bootstrap (with_words words s).kernel ≡ some b
unfolding Sched.current_user_bootstrap
still_running s b running words = ground (arith, running)

module _ (e : ExecBuild) (b₁ b₂ rsp : ℕ) (s : System) (b : Bootstrap)
    (running : Sched.current_user_bootstrap s.kernel ≡ some b) where
  -- A transfer of bytes of which one is outside the layout.
  transfer-Refused :
      (number fd buffer count address : ℕ)
      → (number ≡ 4) ⊎ (number ≡ 5)
      → b.layout.stack_top < 2 ^ 64
      → buffer < 2 ^ 64
      → count < 2 ^ 64
      → buffer ≤ address
      → address < buffer + count
      → (b.layout.trampoline_base ≤ address → b.layout.stack_top ≤ address)
      → Refused e b₁ b₂ rsp (user_syscall3 number fd buffer count) s
  transfer-Refused number fd buffer count address n top x y lo hi outside words =
      let (n', f', x', y') = pushed3 rsp number fd buffer count words in
      syscall_entry-Refusal e b₁ b₂ rsp
        (with_words (pushed rsp (user_syscall3 number fd buffer count) words) s)
        (bad_buffer b address (elim n [ inl h ↦ inl (n' ∙ h) | inr h ↦ inr (n' ∙ h) ])
          (still_running s b running _) top (omega (arith, x', x)) (omega (arith, y', y))
          (omega (arith, x', lo)) (omega (arith, x', y', hi))
          λ p. absurd (omega (arith, p.0, p.1, outside p.0)))

  -- A path outside the layout.
  path-Refused :
      (t : Trap) (at : ℕ)
      → ((words : ℕ → ℕ)
          → ((pushed rsp t words (rsp + 112) ≡ 8) ⊎ (pushed rsp t words (rsp + 112) ≡ 9))
            × (pushed rsp t words (rsp + 64) ≡ at))
      → b.layout.stack_top < 2 ^ 64
      → at < 2 ^ 64
      → (b.layout.trampoline_base ≤ at → b.layout.stack_top ≤ at)
      → Refused e b₁ b₂ rsp t s
  path-Refused t at frame top x outside words =
      let (n', x') = frame words in
      syscall_entry-Refusal e b₁ b₂ rsp (with_words (pushed rsp t words) s) (
        bad_path b n' (still_running s b running _) top (omega (arith, x', x))
          (inl λ p. absurd (omega (arith, x', p.0, p.1, outside (rw x' at p.0)))))

-- USER_TEST_BAD_POINTERS in any running program with the layout of first_user_layout: all six calls
-- fail, and change nothing but words of the kernel stack; so the program comes to its message.
pub bad_pointers-report :
    (e : ExecBuild) (b₁ b₂ rsp : ℕ) (s : System) (b : Bootstrap) (text_at : ℕ)
    → Sched.current_user_bootstrap s.kernel ≡ some b
    → b.layout ≡ first_user_layout
    → (words : ℕ → ℕ) × Runs e b₁ b₂ rsp
        (bad_pointers text_at)
        s
        (report text_at 7 (line "ptr ok"))
        (with_words words s)
unfolding bad_pointers user_sys_read user_sys_write user_sys_open user_sys_exec
bad_pointers-report e b₁ b₂ rsp s b text_at running placed =
    let top : b.layout.stack_top ≡ 0x40200000 = ap (λ l. l.stack_top) placed in
    let base : b.layout.trampoline_base ≡ 0x40000000 = ap (λ l. l.trampoline_base) placed in
    expect_all-AllRefused e b₁ b₂ rsp s bad_pointer_calls _ s.kernel.words (
      refl,
      transfer-Refused e b₁ b₂ rsp s b running 4 _ 0 1 0 (inl refl) (omega arith) (omega arith)
          (omega arith) (omega arith) (omega arith) (λ h. omega arith),
      (
        refl,
        transfer-Refused e b₁ b₂ rsp s b running 5 _ 0 1 0 (inr refl) (omega arith) (omega arith)
            (omega arith) (omega arith) (omega arith) (λ h. omega arith),
        (
          refl,
          transfer-Refused e b₁ b₂ rsp s b running 4 _ 0x50000000 1 0x50000000 (inl refl)
              (omega arith) (omega arith) (omega arith) (omega arith) (omega arith)
              (λ h. omega arith),
          (
            refl,
            transfer-Refused e b₁ b₂ rsp s b running 5 _ 0x401fffff 2 0x40200000 (inr refl)
                (omega arith) (omega arith) (omega arith) (omega arith) (omega arith)
                (λ h. omega arith),
            (
              refl,
              path-Refused e b₁ b₂ rsp s b running (user_sys_open 0x50000000) 0x50000000
                  (λ words. let f = pushed2 rsp 8 0x50000000 1 words in (inl f.0, f.1))
                  (omega arith) (omega arith) (λ h. omega arith),
              (
                refl,
                path-Refused e b₁ b₂ rsp s b running (user_sys_exec 0x50000000) 0x50000000
                    (λ words. let f = pushed1 rsp 9 0x50000000 words in (inr f.0, f.1))
                    (omega arith) (omega arith) (λ h. omega arith),
                tt,
              ),
            ),
          ),
        ),
      ),
    )
