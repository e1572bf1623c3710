-- ===== src/Descriptors/Bytes.antt =====
-- Byte buffers of src/kernel/gdt.c and src/kernel/idt.c, as functions from the index to the byte.
use platinum.Prelude.{ℕ, ◌+◌, ◌/◌, ◌%◌, ◌^◌, ◌==◌, if◌then◌else◌}

abbrev pub Bytes : Type 0
Bytes = ℕ → ℕ

abbrev pub zeros : Bytes
zeros i = 0

-- `buffer[index] = value`
abbrev pub put : ℕ → ℕ → Bytes → Bytes
put index value buffer i = if i == index then value else buffer i

-- write_le16(&buffer[at], value)
unfoldable pub write_le16 : ℕ → ℕ → Bytes → Bytes
write_le16 at value buffer = put (at + 1) (value / 2 ^ 8 % 256) (put at (value % 256) buffer)

-- write_le64(&buffer[at], value)
unfoldable pub write_le64 : ℕ → ℕ → Bytes → Bytes
write_le64 at value buffer = put (at + 7) (value / 2 ^ 56 % 256) (
    put (at + 6) (value / 2 ^ 48 % 256) (
      put (at + 5) (value / 2 ^ 40 % 256) (
        put (at + 4) (value / 2 ^ 32 % 256) (
          put (at + 3) (value / 2 ^ 24 % 256) (
            put (at + 2) (value / 2 ^ 16 % 256)
              (put (at + 1) (value / 2 ^ 8 % 256) (put at (value % 256) buffer)))))))
