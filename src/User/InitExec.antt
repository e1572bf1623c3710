-- ===== src/User/InitExec.antt =====
-- user_init_main of src/user/init.c as it is compiled for the tests of SYS_EXEC, and the test variants
-- of echo.c, pulse.c and pulse2.c, which the tests start.
use platinum.Prelude.{
  ℕ, zero, suc, ◌+◌, ◌-◌, ◌^◌, not, List, [], ◌∷◌, ltb, ◌==◌, if◌then◌else◌, u32,
}
use platinum.Syscall.Frame.{result_error}
use platinum.User.{
  Trap, user_sys_putc, user_sys_yield, user_sys_get_ticks, user_sys_exit, user_sys_exec,
}
use platinum.User.Program.{
  Program, finish, looping, store, trap, give_up, require, expect_all, report,
}
use platinum.Prelude.Text.{path, line, terminated_line}

-- `if (user_sys_exec(path) == -1) { user_sys_putc('!'); user_sys_exit(); }`, and the program that
-- follows.
unfoldable pub replace_by : (path_at : ℕ) → Program → Program
unfolding require
replace_by path_at rest =
    trap (user_sys_exec path_at) λ result. require (not (result == result_error)) rest

-- `user_sys_putc('!'); user_sys_exit();` at the end of a test that SYS_EXEC should have left.
abbrev pub not_replaced : Program
not_replaced = give_up finish

-- USER_TEST_EXEC_LOOP
unfoldable pub exec_loop : (path_at : ℕ) → Program
unfolding replace_by give_up
exec_loop path_at = store path_at (path "/bin/pulse") (replace_by path_at not_replaced)

-- The loop of USER_TEST_EXEC_BAD_LOOP, watched for `rounds` rounds, and the program that follows.
unfoldable pub while_early : (rounds path_at : ℕ) → Program → Program
unfolding require
while_early zero path_at rest = looping
while_early (suc rounds) path_at rest = trap user_sys_get_ticks λ ticks.
    let again = trap (user_sys_exec path_at) λ result.
      let later = while_early rounds path_at rest in require (result == result_error) later in
    if ltb ticks 4 then again else rest

-- USER_TEST_EXEC_BAD_LOOP
unfoldable pub exec_bad_loop : (rounds path_at text_at : ℕ) → Program
unfolding while_early report
exec_bad_loop rounds path_at text_at =
    store path_at (path "/bin/pulse")
      (while_early rounds path_at (report text_at 11 (terminated_line "execbad ok")))

-- A test that wants SYS_EXEC to fail for a chain of paths, which have been stored.
unfoldable pub exec_fails : List ℕ → (text_at size : ℕ) → List ℕ → Program
unfolding expect_all report
exec_fails paths text_at size message = expect_all (calls paths) (report text_at size message)
  where
    calls : List ℕ → List (Trap × ℕ)
    calls [] = []
    calls (p ∷ ps) = (user_sys_exec p, result_error) ∷ calls ps

-- USER_TEST_EXEC_TRANSFER_FAIL
unfoldable pub exec_transfer_fail : (path_at text_at : ℕ) → Program
unfolding exec_fails
exec_transfer_fail path_at text_at =
    store path_at (path "/bin/pulse")
      (exec_fails (path_at ∷ []) text_at 12 (terminated_line "execxfer ok"))

-- USER_TEST_EXEC_REGISTRY
unfoldable pub exec_registry : (pulse missing : ℕ) → Program
unfolding expect_all replace_by give_up
exec_registry pulse missing = store missing (path "/bin/missing") (
    store pulse (path "/bin/pulse")
      (expect_all ((user_sys_exec missing, result_error) ∷ []) (replace_by pulse not_replaced)))

-- USER_TEST_EXEC_PATHS
unfoldable pub exec_paths : (trailing doubled text_at : ℕ) → Program
unfolding exec_fails
exec_paths trailing doubled text_at = store trailing (path "/bin/pulse/") (
    store doubled (path "/bin//pulse")
      (exec_fails (trailing ∷ doubled ∷ []) text_at 12 (terminated_line "execpath ok")))

-- USER_TEST_EXEC_DIR_ROOT
unfoldable pub exec_dir_root : (root text_at : ℕ) → Program
unfolding exec_fails
exec_dir_root root text_at =
    store root (path "/") (exec_fails (root ∷ []) text_at 12 (terminated_line "execroot ok"))

-- USER_TEST_EXEC_NOENT
unfoldable pub exec_noent : (path_at text_at : ℕ) → Program
unfolding exec_fails
exec_noent path_at text_at =
    store path_at (path "/bin/nope")
      (exec_fails (path_at ∷ []) text_at 13 (terminated_line "execnoent ok"))

-- USER_TEST_EXEC_NONEXEC
unfoldable pub exec_nonexec : (path_at text_at : ℕ) → Program
unfolding exec_fails
exec_nonexec path_at text_at =
    store path_at (path "/etc/banner")
      (exec_fails (path_at ∷ []) text_at 15 (terminated_line "execnonexec ok"))

-- USER_TEST_EXEC_BAD_ELF2
unfoldable pub exec_bad_elf2 : (path_at text_at : ℕ) → Program
unfolding exec_fails
exec_bad_elf2 path_at text_at =
    store path_at (path "/bin/badelf2")
      (exec_fails (path_at ∷ []) text_at 15 (terminated_line "execbadelf2 ok"))

-- USER_TEST_EXEC_BAD_PATHS
unfoldable pub exec_bad_paths :
    (relative empty doubleslash tripleslash trailing text_at : ℕ) → Program
unfolding exec_fails
exec_bad_paths relative empty doubleslash tripleslash trailing text_at =
    store relative (path "bin/pulse") (
      store empty (path "") (
        store doubleslash (path "//") (
          store tripleslash (path "///") (
            store trailing (path "/bin/") (
              exec_fails (relative ∷ empty ∷ doubleslash ∷ tripleslash ∷ trailing ∷ []) text_at 16
                (terminated_line "execbadpaths ok"))))))

-- USER_TEST_EXEC_SECOND
unfoldable pub exec_second : (path_at : ℕ) → Program
unfolding replace_by
exec_second path_at =
    store path_at (path "/bin/pulse2") (replace_by path_at (trap user_sys_exit λ _. finish))

-- USER_TEST_EXEC
unfoldable pub exec_test : (path_at bad : ℕ) → Program
unfolding expect_all replace_by give_up
exec_test path_at bad = store bad (path "/etc/banner") (
    store path_at (path "/bin/pulse")
      (expect_all ((user_sys_exec bad, result_error) ∷ []) (replace_by path_at not_replaced)))

-- The first `rounds` rounds of the loop of USER_TEST_YIELD_STRESS.
unfoldable pub yields : (rounds budget : ℕ) → Program
yields zero budget = looping
yields (suc rounds) budget =
    let left = u32 (budget + 2 ^ 32 - 1) in
    let at_zero = yields rounds 128 in
    let later = yields rounds left in
    trap user_sys_yield λ _. if left == 0 then (trap (user_sys_putc b'y') λ _. at_zero) else later

-- USER_TEST_YIELD_STRESS
unfoldable pub yield_stress : (rounds : ℕ) → Program
unfolding yields
yield_stress rounds = trap (user_sys_putc b'Y') λ _. yields rounds 128

-- USER_TEST_EXEC_REGISTRY of src/user/echo.c
unfoldable pub echo_exec_registry : (text_at : ℕ) → Program
unfolding report
echo_exec_registry text_at = report text_at 11 (line "execreg ok")

-- USER_TEST_EXEC_LOOP of src/user/pulse.c
unfoldable pub pulse_exec_loop : (path_at text_at : ℕ) → Program
unfolding replace_by give_up report
pulse_exec_loop path_at text_at = trap user_sys_get_ticks λ ticks.
    let ending = report text_at 12 (line "execloop ok") in
    if ltb ticks 4
    then store path_at (path "/bin/pulse") (replace_by path_at (give_up ending))
    else ending

-- USER_TEST_EXEC_REGISTRY of src/user/pulse.c
unfoldable pub pulse_exec_registry : (path_at : ℕ) → Program
unfolding replace_by give_up
pulse_exec_registry path_at = store path_at (path "/bin/echo") (replace_by path_at not_replaced)

-- USER_TEST_EXEC_SECOND of src/user/pulse2.c
unfoldable pub pulse2_exec_second : (text_at : ℕ) → Program
unfolding report
pulse2_exec_second text_at = report text_at 10 (line "pulse2 ok")
