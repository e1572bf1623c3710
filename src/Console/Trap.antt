-- ===== src/Console/Trap.antt =====
-- kernel_trap and kernel_trap_error of src/kernel/core.c, which report an exception; their callers in
-- src/arch/x86_64/boot.S halt behind them.
use platinum.Prelude.{
  ℕ, ◌^◌, ◌<◌, ◌≡◌, refl, arith, Option, some, List, [], ◌∷◌, ◌++◌, length, ◌==◌, if◌then◌else◌,
}
use platinum.Prelude.Text.{codes}
use platinum.Console.{write_hex, write_all, read_hex, write_hex-read_hex}
use platinum.Syscall.Decimal.{write_decimal, read_decimal, write_decimal-read_decimal}

-- `"\r\n"`
abbrev pub line_end : List ℕ
line_end = 13 ∷ 10 ∷ []

unfoldable pub kernel_trap : (vector : ℕ) → Option (List ℕ)
kernel_trap vector = write_all (some (codes "trap ") ∷ write_decimal vector ∷ some line_end ∷ [])

-- What is written behind the error code; 14 is a page fault, and `cr2` what arch_read_cr2 returns.
unfoldable pub fault_address : (vector cr2 : ℕ) → List ℕ
fault_address vector cr2 = if vector == 14 then codes " cr2 " ++ write_hex cr2 else []

unfoldable pub kernel_trap_error : (vector error_code cr2 : ℕ) → Option (List ℕ)
unfolding fault_address
kernel_trap_error vector error_code cr2 = write_all (
    some (codes "trap ")
    ∷ write_decimal vector
    ∷ some (codes " ec ")
    ∷ write_decimal error_code
    ∷ some (fault_address vector cr2)
    ∷ some line_end
    ∷ [])

-- For a vector below 2 ^ 32 and an error code and an address below 2 ^ 64 kernel_trap_error writes a whole
-- message, with digits from which the vector and the error code read back, and for vector 14 with
-- sixteen digits from which the address reads back.
pub kernel_trap_error-reads_back :
    (vector error_code cr2 : ℕ)
    → vector < 2 ^ 32
    → error_code < 2 ^ 64
    → cr2 < 2 ^ 64
    → (number : List ℕ) × (code : List ℕ) × (address : List ℕ) × (kernel_trap_error vector
          error_code cr2
        ≡ some (
            codes "trap "
            ++ (number
                ++ (codes " ec "
                    ++ (code
                        ++ ((if vector == 14 then codes " cr2 0x" ++ address else [])
                            ++ (line_end ++ [])))))))
      × (read_decimal 0 number ≡ vector)
      × (read_decimal 0 code ≡ error_code)
      × (length address ≡ 16)
      × (read_hex 0 address ≡ cr2)
unfolding kernel_trap_error write_all fault_address
kernel_trap_error-reads_back vector error_code cr2 hv hc ha =
    let (number, found, back, _) = write_decimal-read_decimal vector (omega (arith, hv)) in
    let (code, found', back', _) = write_decimal-read_decimal error_code hc in
    let (address, text, size, back'') = write_hex-read_hex cr2 ha in
    (
      number,
      code,
      address,
      rw (found, found', kernel_trap_error, text) refl,
      back,
      back',
      size,
      back'',
    )
