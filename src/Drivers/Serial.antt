-- ===== src/Drivers/Serial.antt =====
-- src/drivers/serial.c, the serial line. The line status register is read again and again until the
-- transmitter is empty: `status n` is the value of its read number `n`.
use platinum.Prelude.{
  ℕ, zero, suc, ◌+◌, ◌/◌, ◌%◌, Option, none, some, Bool, List, [], ◌∷◌, ◌==◌, if◌then◌else◌,
}
use platinum.Drivers.Timer.{PortWrite}

abbrev pub serial_com1 : ℕ
serial_com1 = 0x3F8

abbrev to_com1 : ℕ → ℕ → PortWrite
to_com1 offset value = record { port = serial_com1 + offset; value = value }

abbrev pub serial_init : List PortWrite
serial_init =
    to_com1 1 0x00
    ∷ to_com1 3 0x80
    ∷ to_com1 0 0x03
    ∷ to_com1 1 0x00
    ∷ to_com1 3 0x03
    ∷ to_com1 2 0xC7
    ∷ to_com1 4 0x0B
    ∷ []

-- `(io_read8(serial_com1 + 5) & 0x20) == 0` is the loop's condition; this is its negation.
abbrev pub is_ready : ℕ → Bool
is_ready value = value / 32 % 2 == 1

-- The waiting loop, on fuel: the number of reads so far when it ends.
unfoldable pub wait_ready : ℕ → (ℕ → ℕ) → ℕ → Option ℕ
wait_ready zero status n = none
wait_ready (suc fuel) status n =
    let later = wait_ready fuel status (suc n) in
    if is_ready (status n) then some (suc n) else later

-- serial_write of `buffer[0]` to `buffer[length - 1]`: the reads so far and the bytes written to the
-- data port; `none` where a waiting loop does not end within its fuel.
unfoldable pub serial_write : ℕ → (ℕ → ℕ) → List ℕ → ℕ → Option (ℕ × List PortWrite)
serial_write fuel status [] n = some (n, [])
serial_write fuel status (b ∷ buffer) n = elim (wait_ready fuel status n) [
  | none ↦ none
  | some n' ↦ elim (serial_write fuel status buffer n') [
    | none ↦ none
    | some (last, sent) ↦ some (last, record { port = serial_com1; value = b % 256 } ∷ sent)
  ]
]
