-- ===== src/Prelude/Words.antt =====
-- Machine words, and the page arithmetic that several files of the kernel repeat.
use Prim.Native.Nat.{ℕ, ◌+◌, ◌-◌, ◌*◌, ◌/◌, ◌%◌, ◌^◌}

abbrev pub u64 : ℕ → ℕ
u64 n = n % 2 ^ 64

abbrev pub u32 : ℕ → ℕ
u32 n = n % 2 ^ 32

-- `a - b` on uint64_t
abbrev pub sub64 : ℕ → ℕ → ℕ
sub64 a b = (a + 2 ^ 64 - b) % 2 ^ 64

abbrev pub page_size : ℕ
page_size = 4096

-- `value & ~(uintptr_t)4095u`
abbrev pub align_down : ℕ → ℕ
align_down v = v / 4096 * 4096

-- `(value + 4095u) & ~(uintptr_t)4095u`
abbrev pub align_up : ℕ → ℕ
align_up v = align_down (u64 (v + 4095))
