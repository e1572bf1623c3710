-- ===== src/User/Program.antt =====
-- A program of src/user on the kernel: what it stores in its memory, what it reads from there and
-- which traps it makes, and arch_syscall_entry of src/arch/x86_64/boot.S around each trap.
use platinum.Prelude.{
  ℕ, zero, suc, ◌+◌, Bool, true, ◌&&◌, List, [], ◌∷◌, length, ◌==◌, if◌then◌else◌, Exec, ok, halt,
  ◌>>=◌, align_down,
}
use platinum.Paging.{user_page_mapped}
use platinum.Sched.Tasks.{paging_of}
use platinum.Syscall.Program.{ExecBuild}
use platinum.Syscall.User.{System, user_byte, write_user}
use platinum.Syscall.Frame.{frame_rax}
use platinum.Syscall.{syscall_entry}
use platinum.User.{Trap, user_sys_putc, user_sys_exit, user_sys_write}

-- What a function of the program does, up to its return; `looping` stands where it goes on in a loop.
pub data Program : Type 0 where
  finish looping : Program
  store : (at : ℕ) (bytes : List ℕ) (next : Program) → Program
  load : (at : ℕ) (next : ℕ → Program) → Program
  trap : (t : Trap) (next : ℕ → Program) → Program

abbrev pub set_word : ℕ → ℕ → (ℕ → ℕ) → ℕ → ℕ
set_word at value words a = if a == at then value else words a

-- The words of the saved rdi, rsi and rdx; a register that the trap does not use keeps its word.
abbrev pub push_arguments : ℕ → List ℕ → (ℕ → ℕ) → ℕ → ℕ
push_arguments rsp [] words = words
push_arguments rsp (a ∷ []) words = set_word (rsp + 64) a words
push_arguments rsp (a ∷ b ∷ []) words = set_word (rsp + 64) a (set_word (rsp + 72) b words)
push_arguments rsp (a ∷ b ∷ c ∷ _) words =
    set_word (rsp + 64) a (set_word (rsp + 72) b (set_word (rsp + 88) c words))

abbrev pub with_words : (ℕ → ℕ) → System → System
with_words words s = record s { kernel = record s.kernel { words = words } }

-- The words of the stack once arch_syscall_entry has pushed the registers.
abbrev pub pushed : ℕ → Trap → (ℕ → ℕ) → ℕ → ℕ
pushed rsp t words = set_word (rsp + 112) t.number (push_arguments rsp t.arguments words)

unfoldable pub enter : ℕ → Trap → System → System
enter rsp t s = with_words (pushed rsp t s.kernel.words) s

-- The tables that are in use map each of the `n` bytes from `at` on for user code.
unfoldable pub can_access : (at n : ℕ) → System → Bool
can_access at zero s = true
can_access at (suc n) s =
    user_page_mapped s.kernel.cr3 (align_down at) (paging_of s.kernel) && can_access (at + 1) n s

-- How a run ends: the function returns, is left in a loop, or the kernel goes on with another stack.
pub data Stop : Type 0 where
  returned still_looping : System → Stop
  switched : ℕ → System → Stop

module _ (build : ExecBuild) (stale_begin stale_end rsp : ℕ) where
  -- The run of a program that no timer interrupts; its frames stand at `rsp`, as the processor takes
  -- the same kernel stack for each trap. After a page fault of the program the kernel stops.
  unfoldable pub run : Program → System → Exec Stop
  unfolding enter can_access
  run finish s = ok (returned s)
  run looping s = ok (still_looping s)
  run (store at bytes next) s =
      let rest = run next (write_user at bytes s) in
      if can_access at (length bytes) s then rest else halt
  run (load at next) s =
      let rest = run (next (user_byte at s)) s in if can_access at 1 s then rest else halt
  run (trap t next) s = syscall_entry build stale_begin stale_end rsp (enter rsp t s) >>= λ r.
      let (rsp', s') = r in
      let rest = run (next (frame_rax rsp s'.kernel)) s' in
      if rsp' == rsp then rest else ok (switched rsp' s')

-- `user_sys_putc('!'); user_sys_exit();`, and what follows should that return.
unfoldable pub give_up : Program → Program
give_up rest = trap (user_sys_putc b'!') λ _. trap user_sys_exit λ _. rest

-- `if (condition) { user_sys_putc('!'); user_sys_exit(); }`, where `good` is that it fails.
unfoldable pub require : Bool → Program → Program
unfolding give_up
require good rest = if good then rest else give_up rest

-- The chain `call != expected || ...` as such a condition: the first call that returns something else
-- ends it.
unfoldable pub expect_all : List (Trap × ℕ) → Program → Program
unfolding give_up
expect_all [] rest = rest
expect_all ((t, expected) ∷ more) rest =
    trap t λ result.
      let later = expect_all more rest in if result == expected then later else give_up rest

-- The end of a test: the `size` bytes of its message, filled into the array at `buffer`, go to descriptor 1.
unfoldable pub report : (buffer size : ℕ) → List ℕ → Program
unfolding require
report buffer size message = store buffer message (
    trap (user_sys_write 1 buffer size)
      λ result. require (result == size) (trap user_sys_exit λ _. finish))
