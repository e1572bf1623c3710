-- ===== src/Drivers/Tests.antt =====
-- The theorems on the drivers at concrete values.
use platinum.Prelude.{
  ℕ, ◌+◌, ◌*◌, ◌%◌, ◌≡◌, ◌≤◌, ◌<◌, ◌⊎◌, inl, inr, arith, some, [], ◌∷◌, List, length, map, ◌==◌,
  if◌then◌else◌,
}
use platinum.Drivers.Timer.{pit_initialize, pit_input_hz}
use platinum.Drivers.Setup.{written, number_of, pit_initialize-exact}
use platinum.Drivers.Serial.{serial_com1, serial_write}
use platinum.Drivers.Polling.{BecomesReady, serial_write-sends}

pit_initialize-exact_example :
    (number_of (written 0x40 (pit_initialize 100)) * 100 ≤ pit_input_hz)
    × (pit_input_hz < (number_of (written 0x40 (pit_initialize 100)) + 1) * 100)
pit_initialize-exact_example = pit_initialize-exact 100 (omega arith) (omega arith)

-- A line that is ready at every third read.
abbrev third : ℕ → ℕ
third n = if n % 3 == 2 then 0x60 else 0x40

third-BecomesReady : BecomesReady 3 third
third-BecomesReady n = elim (mod_cases n) [
  | inl e ↦ (2, omega arith, ground arith)
  | inr (inl e) ↦ (1, omega arith, ground arith)
  | inr (inr e) ↦ (0, omega arith, ground arith)
]
  where
    mod_cases : (n : ℕ) → (n % 3 ≡ 0) ⊎ ((n % 3 ≡ 1) ⊎ (n % 3 ≡ 2))
    mod_cases n = ground arith

abbrev text : List ℕ
text = b'o' ∷ b'k' ∷ []

serial_write-sends_example :
    (n' : ℕ) × (serial_write 3 third text 0
      ≡ some (n', map (λ b. record { port = serial_com1; value = b % 256 }) text))
    × (n' ≤ 0 + length text * 3)
serial_write-sends_example = serial_write-sends 3 third text 0 third-BecomesReady
