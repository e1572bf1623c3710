-- ===== src/Console/Tests.antt =====
-- The theorem on the report of an exception at a concrete page fault.
use platinum.Prelude.{ℕ, ◌≡◌, arith, some, List, ◌++◌, [], length}
use platinum.Prelude.Text.{codes}
use platinum.Console.{read_hex}
use platinum.Console.Trap.{line_end, kernel_trap_error, kernel_trap_error-reads_back}
use platinum.Syscall.Decimal.{read_decimal}

kernel_trap_error-reads_back_example :
    (number : List ℕ) × (code : List ℕ) × (address : List ℕ) × (kernel_trap_error 14 7 0xdeadbeef
      ≡ some (
          codes "trap "
          ++ (number
              ++ (codes " ec " ++ (code ++ ((codes " cr2 0x" ++ address) ++ (line_end ++ [])))))))
    × (read_decimal 0 number ≡ 14)
    × (read_decimal 0 code ≡ 7)
    × (length address ≡ 16)
    × (read_hex 0 address ≡ 0xdeadbeef)
kernel_trap_error-reads_back_example =
    kernel_trap_error-reads_back 14 7 0xdeadbeef (omega arith) (omega arith) (omega arith)
