-- ===== src/Drivers/Timer.antt =====
-- src/drivers/pic.c, the interrupt controllers, and src/drivers/pit.c, the timer chip.
use Prim.Native.Nat.{bit_and, bit_or}
use platinum.Prelude.{ℕ, ◌/◌, ◌%◌, ◌^◌, List, [], ◌∷◌, ◌++◌, ltb, leb, ◌==◌, if◌then◌else◌}

-- `io_write8(port, value)`
pub record PortWrite : Type 0 where
  pub port : ℕ
  pub value : ℕ

abbrev pub pic1_command : ℕ
pic1_command = 0x20

abbrev pub pic1_data : ℕ
pic1_data = 0x21

abbrev pub pic2_command : ℕ
pic2_command = 0xA0

abbrev pub pic2_data : ℕ
pic2_data = 0xA1

-- io_wait
abbrev pub io_wait : PortWrite
io_wait = record { port = 0x80; value = 0 }

-- `io_write8(port, value); io_wait();`
abbrev pub slowly : ℕ → ℕ → List PortWrite → List PortWrite
slowly port value rest = record { port = port; value = value } ∷ io_wait ∷ rest

-- The value that pic_initialize writes as the mask of the first controller. ~0x01 and ~0x04 are cut to
-- a byte.
unfoldable pub new_master_mask : ℕ → ℕ
new_master_mask master_mask = bit_and (bit_and (bit_or master_mask 0xFF) 0xFE) 0xFB

-- pic_initialize; the arguments are the bytes that it reads from the two data ports, of which the
-- second is not used.
unfoldable pub pic_initialize : ℕ → ℕ → List PortWrite
pic_initialize master_mask slave_mask = slowly pic1_command 0x11 (
    slowly pic2_command 0x11 (
      slowly pic1_data 0x20 (
        slowly pic2_data 0x28 (
          slowly pic1_data 0x04 (
            slowly pic2_data 0x02 (
              slowly pic1_data 0x01 (
                slowly pic2_data 0x01 (
                  record { port = pic1_data; value = new_master_mask master_mask }
                  ∷ record { port = pic2_data; value = 0xFF }
                  ∷ []))))))))

unfoldable pub pic_eoi : ℕ → List PortWrite
pic_eoi irq =
    (if leb 8 irq then record { port = pic2_command; value = 0x20 } ∷ [] else [])
    ++ record { port = pic1_command; value = 0x20 } ∷ []

abbrev pub pit_input_hz : ℕ
pit_input_hz = 1193182

-- `divisor` of pit_initialize
unfoldable pub pit_divisor : ℕ → ℕ
pit_divisor frequency_hz =
    let divisor = pit_input_hz / (if frequency_hz == 0 then 100 else frequency_hz) in
    let at_least_one = if divisor == 0 then 1 else divisor in
    if ltb 65535 at_least_one then 65535 else at_least_one

unfoldable pub pit_initialize : ℕ → List PortWrite
pit_initialize frequency_hz =
    let divisor = pit_divisor frequency_hz in
    record { port = 0x43; value = 0x36 }
    ∷ record { port = 0x40; value = divisor % 256 }
    ∷ record { port = 0x40; value = divisor / 2 ^ 8 % 256 }
    ∷ []
