-- ===== src/User/Runs.antt =====
-- The steps of a program of src/user on the kernel, each of which succeeds: no page fault, and each trap
-- comes back to the program from its call of src/kernel/core.c.
use platinum.Prelude.{ℕ, ◌≡◌, refl, arith, true, List, length, ◌==◌, ok}
use platinum.Syscall.User.{System, user_byte, write_user}
use platinum.Syscall.Frame.{frame_rax}
use platinum.Syscall.Program.{ExecBuild}
use platinum.Syscall.{syscall_entry}
use platinum.User.{Trap}
use platinum.User.Program.{Program, store, load, trap, enter, can_access, run}

-- From a program in a system to what is left of it in the system that its steps have made.
pub data Runs (build : ExecBuild) (stale_begin stale_end rsp : ℕ)
    : Program → System → Program → System → Type 0 where
  here : {p : Program} {s : System} → Runs build stale_begin stale_end rsp p s p s
  stores :
      {at : ℕ} {bytes : List ℕ} {next q : Program} {s s' : System}
      → can_access at (length bytes) s ≡ true
      → Runs build stale_begin stale_end rsp next (write_user at bytes s) q s'
      → Runs build stale_begin stale_end rsp (store at bytes next) s q s'
  loads :
      {at : ℕ} {next : ℕ → Program} {q : Program} {s s' : System}
      → can_access at 1 s ≡ true
      → Runs build stale_begin stale_end rsp (next (user_byte at s)) s q s'
      → Runs build stale_begin stale_end rsp (load at next) s q s'
  traps :
      {t : Trap} {next : ℕ → Program} {q : Program} {s s₁ s' : System}
      → syscall_entry build stale_begin stale_end rsp (enter rsp t s) ≡ ok (rsp, s₁)
      → Runs build stale_begin stale_end rsp (next (frame_rax rsp s₁.kernel)) s₁ q s'
      → Runs build stale_begin stale_end rsp (trap t next) s q s'

module _ {e : ExecBuild} {b₁ b₂ rsp : ℕ} where
  pub Runs-trans :
      {p q r : Program} {s s' s'' : System}
      → Runs e b₁ b₂ rsp p s q s'
      → Runs e b₁ b₂ rsp q s' r s''
      → Runs e b₁ b₂ rsp p s r s''
  Runs-trans here later = later
  Runs-trans (stores h first) later = stores h (Runs-trans first later)
  Runs-trans (loads h first) later = loads h (Runs-trans first later)
  Runs-trans (traps h first) later = traps h (Runs-trans first later)

  -- The run of the program as a whole goes through these steps.
  pub Runs-run :
      {p q : Program} {s s' : System}
      → Runs e b₁ b₂ rsp p s q s'
      → run e b₁ b₂ rsp p s ≡ run e b₁ b₂ rsp q s'
  unfolding run
  Runs-run here = refl
  Runs-run (stores h later) = rw (h, run) (Runs-run later)
  Runs-run (loads h later) = rw (h, run) (Runs-run later)
  Runs-run (traps h later) =
      let same : (rsp == rsp) ≡ true = ground arith in rw (h, same) (Runs-run later)
