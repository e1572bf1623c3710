-- ===== src/User/InitFiles.antt =====
-- user_init_main of src/user/init.c as it is compiled for the tests of descriptors and files. Each
-- definition is one variant; its arguments are the addresses of the local arrays and variables.
use platinum.Prelude.{
  ℕ, Bool, zero, suc, ◌^◌, not, List, [], ◌∷◌, ◌++◌, leb, ◌==◌, if◌then◌else◌, u32,
}
use platinum.Vfs.Objects.{minus_one}
use platinum.Syscall.Frame.{result_error}
use platinum.User.{
  Trap, user_syscall1, user_sys_putc, user_sys_exit, user_sys_read, user_sys_write, user_sys_close,
  user_sys_dup, user_sys_open, user_sys_open_mode, user_sys_exec,
}
use platinum.User.Program.{Program, finish, store, load, trap, give_up, require, expect_all, report}
use platinum.Prelude.Text.{path, line}

-- `fd < 0` on an int64_t
abbrev pub is_negative : ℕ → Bool
is_negative n = leb (2 ^ 63) n

-- The loop of USER_TEST_DUP_FULL that duplicates descriptor 1 `rounds` times, and then the program
-- `next` of the array `duplicates`.
unfoldable pub fill_table : ℕ → List ℕ → (List ℕ → Program) → Program
unfolding give_up
fill_table zero duplicates next = next duplicates
fill_table (suc rounds) duplicates next = trap (user_sys_dup 1) λ fd.
    let rest = fill_table rounds (duplicates ++ fd ∷ []) next in
    if is_negative fd then give_up rest else rest

-- The loop that closes the duplicates.
unfoldable pub close_table : List ℕ → Program → Program
unfolding require
close_table [] next = next
close_table (fd ∷ duplicates) next =
    trap (user_sys_close (u32 fd))
      λ result. let rest = close_table duplicates next in require (result == 0) rest

-- USER_TEST_DUP_FULL
unfoldable pub dup_full : (text_at : ℕ) → Program
unfolding fill_table close_table require report
dup_full text_at = fill_table 13 [] λ duplicates. trap (user_sys_dup 1) λ result.
    require (result == result_error)
      (close_table duplicates (report text_at 11 (line "dupfull ok")))

-- USER_TEST_FD_INVALID
abbrev pub invalid_descriptors : List (Trap × ℕ)
invalid_descriptors =
    (user_sys_close minus_one, result_error)
    ∷ (user_sys_close 99, result_error)
    ∷ (user_sys_dup minus_one, result_error)
    ∷ (user_sys_dup 99, result_error)
    ∷ []

unfoldable pub fd_invalid : (text_at : ℕ) → Program
unfolding expect_all report
fd_invalid text_at = expect_all invalid_descriptors (report text_at 13 (line "fdinvalid ok"))

-- USER_TEST_RW_INVALID
abbrev pub invalid_transfers : (value : ℕ) → List (Trap × ℕ)
invalid_transfers value =
    (user_sys_read minus_one value 1, result_error)
    ∷ (user_sys_read 99 value 1, result_error)
    ∷ (user_sys_write minus_one value 1, result_error)
    ∷ (user_sys_write 99 value 1, result_error)
    ∷ []

unfoldable pub rw_invalid : (value text_at : ℕ) → Program
unfolding expect_all report
rw_invalid value text_at =
    store value (b'R' ∷ [])
      (expect_all (invalid_transfers value) (report text_at 13 (line "rwinvalid ok")))

-- USER_TEST_FD_CLOSED
unfoldable pub fd_closed : (banner value text_at : ℕ) → Program
unfolding give_up require expect_all report
fd_closed banner value text_at = store banner (path "/etc/banner") (
    trap (user_sys_open banner) λ fd.
      let used = store value (b'C' ∷ []) (
        expect_all
          ((user_sys_read (u32 fd) value 1, result_error)
            ∷ (user_sys_write (u32 fd) value 1, result_error)
            ∷ (user_sys_dup (u32 fd), result_error)
            ∷ (user_sys_close (u32 fd), result_error)
            ∷ [])
          (report text_at 12 (line "fdclosed ok"))) in
      if is_negative fd
      then give_up used
      else trap (user_sys_close (u32 fd)) λ result. require (result == 0) used)

-- USER_TEST_BAD_POINTERS
abbrev pub bad_pointer_calls : List (Trap × ℕ)
bad_pointer_calls =
    (user_sys_read 0 0 1, result_error)
    ∷ (user_sys_write 1 0 1, result_error)
    ∷ (user_sys_read 0 0x50000000 1, result_error)
    ∷ (user_sys_write 1 0x401fffff 2, result_error)
    ∷ (user_sys_open 0x50000000, result_error)
    ∷ (user_sys_exec 0x50000000, result_error)
    ∷ []

unfoldable pub bad_pointers : (text_at : ℕ) → Program
unfolding expect_all report
bad_pointers text_at = expect_all bad_pointer_calls (report text_at 7 (line "ptr ok"))

-- USER_TEST_FD_WRITE
unfoldable pub fd_write : (out1 out2 : ℕ) → Program
unfolding give_up require expect_all
fd_write out1 out2 = store out1 (b'F' ∷ []) (
    store out2 (b'D' ∷ []) (
      trap (user_sys_write 1 out1 1) λ result. require (result == 1) (
        trap (user_sys_dup 1) λ dup_fd. require (not (is_negative dup_fd)) (
          expect_all
            ((user_sys_write (u32 dup_fd) out2 1, 1) ∷ (user_sys_close (u32 dup_fd), 0) ∷ [])
            (trap user_sys_exit λ _. finish)))))

-- USER_TEST_FD_READ
unfoldable pub fd_read : (ch : ℕ) → Program
unfolding give_up require
fd_read ch =
    let ending = trap user_sys_exit λ _. finish in
    store ch (0 ∷ []) (
      trap (user_sys_read 0 ch 1) λ got.
        if not (got == 1)
        then give_up ending
        else load ch λ byte.
          if not (byte == b'@')
          then give_up ending
          else trap (user_sys_write 1 ch 1) λ sent. require (sent == 1) ending)

-- `fd < 0 || user_sys_read(fd, &ch, 1) != 1 || ch != 'p' || user_sys_close(fd) != 0` as the condition
-- that ends USER_TEST_OPEN and USER_TEST_OPEN_FLAGS.
unfoldable pub first_byte : (fd ch : ℕ) → Program → Program
unfolding give_up require
first_byte fd ch rest =
    if is_negative fd
    then give_up rest
    else trap (user_sys_read (u32 fd) ch 1) λ got.
      if not (got == 1)
      then give_up rest
      else load ch λ byte.
        if not (byte == b'p')
        then give_up rest
        else trap (user_sys_close (u32 fd)) λ result. require (result == 0) rest

-- USER_TEST_OPEN
unfoldable pub open_test : (banner ch letter : ℕ) → Program
unfolding first_byte expect_all
open_test banner ch letter = store banner (path "/etc/banner") (
    trap (user_sys_open banner) λ fd. store letter (b'O' ∷ []) (
      store ch (0 ∷ []) (
        first_byte fd ch (
          expect_all ((user_sys_write 1 letter 1, 1) ∷ (user_sys_write 1 ch 1, 1) ∷ [])
            (trap user_sys_exit λ _. finish)))))

-- USER_TEST_OPEN_FLAGS
unfoldable pub open_flags : (banner console devdir ch letter : ℕ) → Program
unfolding first_byte expect_all require
open_flags banner console devdir ch letter = store banner (path "/etc/banner") (
    store console (path "/dev/console") (
      store devdir (path "/dev") (
        expect_all
          ((user_sys_open_mode banner 2, result_error)
            ∷ (user_sys_open_mode console 1, result_error)
            ∷ (user_sys_open_mode devdir 1, result_error)
            ∷ (user_sys_open_mode banner 3, result_error)
            ∷ [])
          (trap (user_sys_open_mode banner 1) λ fd. store ch (0 ∷ []) (
            store letter (b'A' ∷ []) (
              first_byte fd ch (
                trap (user_sys_write 1 letter 1)
                  λ sent. require (sent == 1) (trap user_sys_exit λ _. finish))))))))

-- USER_TEST_OPEN_INVALID
unfoldable pub open_invalid : (banner text_at : ℕ) → Program
unfolding expect_all report
open_invalid banner text_at = store banner (path "/etc/banner") (
    expect_all
      ((user_sys_open_mode banner 0, result_error)
        ∷ (user_sys_open_mode banner 0x80000000, result_error)
        ∷ [])
      (report text_at 15 (line "openinvalid ok")))

-- USER_TEST_BAD_SYSCALL
unfoldable pub bad_syscall : Program
bad_syscall = trap (user_syscall1 0xffff 0) λ result.
    trap (user_sys_putc (if result == result_error then b'V' else b'X'))
      λ _. trap user_sys_exit λ _. finish
