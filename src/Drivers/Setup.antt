-- ===== src/Drivers/Setup.antt =====
-- What the set-up of the interrupt controllers and of the timer chip programs into them.
use platinum.Prelude.{
  ℕ, ◌+◌, ◌-◌, ◌*◌, ◌/◌, ◌%◌, ◌^◌, ◌≤◌, ◌<◌, ◌≡◌, refl, true, List, [], ◌∷◌, ◌==◌, if◌then◌else◌,
  arith, ==_iff, holds_below, holds_below-at,
}
use native.Mathlib.Nat.{
  mul_comm, div-mul-le_self, lt-mul-div-succ, le-div_iff_mul-le, div-lt_iff_lt-mul,
}
use platinum.Drivers.Timer.{
  PortWrite, pic1_data, pic2_data, pic1_command, pic2_command, new_master_mask, pic_initialize,
  pit_divisor, pit_initialize, pit_input_hz,
}

-- The bytes written to a port, in order.
unfoldable pub written : ℕ → List PortWrite → List ℕ
written port [] = []
written port (w ∷ ws) =
    let rest = written port ws in if w.port == port then w.value ∷ rest else rest

masks : holds_below 256 (λ m. new_master_mask m == 0xFA) ≡ true
unfolding holds_below new_master_mask
masks = refl

-- Each controller gets its four words of initialisation in order, the interrupts 0 to 15 go to the
-- vectors 32 to 47, and, whatever the masks were, of the sixteen only interrupt 0, the timer, and
-- interrupt 2, the second controller, are open.
pub pic_initialize-written :
    (master slave : ℕ)
    → master < 256
    → (written pic1_command (pic_initialize master slave) ≡ 0x11 ∷ [])
      × (written pic2_command (pic_initialize master slave) ≡ 0x11 ∷ [])
      × (written pic1_data (pic_initialize master slave) ≡ 32 ∷ 4 ∷ 1 ∷ (255 - 2 ^ 0 - 2 ^ 2) ∷ [])
      × (written pic2_data (pic_initialize master slave) ≡ 40 ∷ 2 ∷ 1 ∷ 255 ∷ [])
unfolding written pic_initialize
pic_initialize-written master slave h =
    let e : new_master_mask master ≡ 0xFA =
      (==_iff _ _).0 (holds_below-at 256 (λ m. new_master_mask m == 0xFA) masks master h) in
    rw e (refl, refl, refl, refl)

-- The number that two bytes, low one first, stand for.
abbrev pub number_of : List ℕ → ℕ
number_of (low ∷ high ∷ []) = low + high * 256
number_of _ = 0

-- Where neither limit is reached, the divisor is the quotient.
pit_divisor-eq :
    (f : ℕ)
    → 19 ≤ f
    → f ≤ pit_input_hz
    → (pit_divisor f ≡ pit_input_hz / f) × (pit_divisor f ≤ 65535)
unfolding pit_divisor
pit_divisor-eq f lo hi =
    let pos : 0 < f = omega arith in
    let low : 1 ≤ pit_input_hz / f = (le-div_iff_mul-le pos).1 (omega arith) in
    let high : pit_input_hz / f < 65535 = (div-lt_iff_lt-mul pos).1 (omega arith) in ground arith

-- pit_initialize programs a divisor between 1 and 65535, in two bytes, behind one command.
pub pit_initialize-written :
    (frequency : ℕ)
    → (1 ≤ number_of (written 0x40 (pit_initialize frequency)))
      × (number_of (written 0x40 (pit_initialize frequency)) ≤ 65535)
      × (written 0x43 (pit_initialize frequency) ≡ 0x36 ∷ [])
unfolding written pit_initialize pit_divisor
pit_initialize-written frequency = (ground arith, ground arith, refl)

-- For a frequency of 19 Hz up to that of the chip, pit_initialize programs the largest divisor that
-- does not make the timer slower than the frequency: the chip's frequency divided by it is at least
-- the one that is wanted, and divided by the next divisor is less.
pub pit_initialize-exact :
    (frequency : ℕ)
    → 19 ≤ frequency
    → frequency ≤ pit_input_hz
    → (number_of (written 0x40 (pit_initialize frequency)) * frequency ≤ pit_input_hz)
      × (pit_input_hz < (number_of (written 0x40 (pit_initialize frequency)) + 1) * frequency)
unfolding written pit_initialize
pit_initialize-exact frequency lo hi =
    let (e, small) = pit_divisor-eq frequency lo hi in
    let whole : pit_divisor frequency % 256 + pit_divisor frequency / 256 % 256 * 256
        ≡ pit_input_hz / frequency =
      omega arith in
    rw whole (
      div-mul-le_self pit_input_hz frequency,
      rw (mul_comm (pit_input_hz / frequency + 1) frequency)
          (lt-mul-div-succ pit_input_hz (omega arith)),
    )
