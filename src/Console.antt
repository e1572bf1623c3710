-- ===== src/Console.antt =====
-- How the kernel writes numbers on the serial line, beside write_decimal_u64: write_hex_uintptr of
-- src/kernel/palloc.c, which is write_hex_u64 of src/kernel/core.c, and write_decimal_u32. The text of a
-- function is a list of bytes; `none` where a loop does not end.
pub mod Trap
mod Tests
use platinum.Prelude.{
  ℕ, zero, suc, ◌+◌, ◌-◌, ◌*◌, ◌/◌, ◌%◌, ◌^◌, ◌<◌, ◌≤◌, ◌≡◌, refl, sym, ◌∙◌, ap, arith, Option,
  none, some, List, [], ◌∷◌, ◌++◌, ltb, if◌then◌else◌, length,
}
use native.Mathlib.Nat.{
  pow-succ', pow-le-pow_right, mod-lt, div-add-mod', add-mul, mul_assoc, mul-le-mul_right,
  add-mul-mod_self_right, mod-eq_of_lt,
}
use platinum.Prelude.Text.{codes}
use platinum.Syscall.Decimal.{write_decimal, write_decimal-read_decimal}

-- `digits[nibble]`
unfoldable pub hex_digit : ℕ → ℕ
hex_digit nibble = if ltb nibble 10 then b'0' + nibble else b'a' + (nibble - 10)

-- The last `left` digits, the most significant first: `>> (left * 4)` is a division by 16 ^ left.
unfoldable pub hex_digits : ℕ → ℕ → List ℕ
unfolding hex_digit
hex_digits zero value = []
hex_digits (suc left) value = hex_digit (value / 16 ^ left % 16) ∷ hex_digits left value

unfoldable pub write_hex : ℕ → List ℕ
unfolding hex_digits
write_hex value = b'0' ∷ b'x' ∷ hex_digits 16 value

-- `write_text(label); write_decimal_u64(value); write_text("\r\n");`
unfoldable pub write_number : List ℕ → ℕ → Option (List ℕ)
write_number label value = elim (write_decimal value) [
  | none ↦ none
  | some text ↦ some (label ++ (text ++ 13 ∷ 10 ∷ []))
]

pub write_number-ends :
    (label : List ℕ) (value : ℕ)
    → value < 2 ^ 64
    → (text : List ℕ) × (write_number label value ≡ some text)
unfolding write_number
write_number-ends label value h =
    let (text, found, _, _) = write_decimal-read_decimal value h in
    (label ++ (text ++ 13 ∷ 10 ∷ []), rw (found, write_number) refl)

-- `write_text(label); write_hex(value); write_text("\r\n");`
unfoldable pub write_address : List ℕ → ℕ → List ℕ
write_address label value = label ++ (write_hex value ++ 13 ∷ 10 ∷ [])

-- What the calls of a list write one after the other.
unfoldable pub write_all : List (Option (List ℕ)) → Option (List ℕ)
write_all [] = some []
write_all (none ∷ calls) = none
write_all (some text ∷ calls) = elim (write_all calls) [
  | none ↦ none
  | some later ↦ some (text ++ later)
]

unfoldable pub hex_value : ℕ → ℕ
hex_value c = if ltb c b'a' then c - b'0' else c - b'a' + 10

-- The number behind `value` that hexadecimal digits stand for.
unfoldable pub read_hex : ℕ → List ℕ → ℕ
unfolding hex_value
read_hex value [] = value
read_hex value (c ∷ text) = read_hex (value * 16 + hex_value c) text

hex_digit-value : (n : ℕ) → n < 16 → hex_value (hex_digit n) ≡ n
unfolding hex_digit hex_value
hex_digit-value n h = ground arith

hex_digits-length : (left v : ℕ) → length (hex_digits left v) ≡ left
unfolding hex_digits
hex_digits-length zero v = refl
hex_digits-length (suc left) v = ap (λ n. suc n) (hex_digits-length left v)

-- One digit more.
mod-digit : (v p : ℕ) → 0 < p → v % (16 * p) ≡ v / p % 16 * p + v % p
mod-digit v p pos =
    let k = v / p / 16 in
    let d = v / p % 16 in
    let below : v % p < p = mod-lt v pos in
    let whole : v / p ≡ k * 16 + d = omega arith in
    let parts : v / p * p + v % p ≡ v = div-add-mod' v p in
    let spread : v / p * p ≡ k * (16 * p) + d * p =
      ap (λ t. t * p) whole ∙ add-mul (k * 16) d p ∙ ap (λ t. t + d * p) (mul_assoc k 16 p) in
    let digit : d * p ≤ 15 * p = mul-le-mul_right p (omega arith) in
    let e : v ≡ d * p + v % p + k * (16 * p) = omega (arith, parts, spread) in
    ap (λ t. t % (16 * p)) e
    ∙ add-mul-mod_self_right (d * p + v % p) k (16 * p)
    ∙ mod-eq_of_lt (omega (arith, digit, below))

hex_digits-value :
    (left v acc : ℕ) → read_hex acc (hex_digits left v) ≡ acc * 16 ^ left + v % 16 ^ left
unfolding hex_digits read_hex
hex_digits-value zero v acc = omega arith
hex_digits-value (suc left) v acc =
    let p = 16 ^ left in
    let digit = hex_digit-value (v / p % 16) (omega arith) in
    let ih = hex_digits-value left v (acc * 16 + v / p % 16) in
    let power : 16 ^ suc left ≡ 16 * p = pow-succ' 16 left in
    let positive : 1 ≤ p =
      pow-le-pow_right {n = 16} (omega arith) {i = 0} {j = left} (omega arith) in
    let split = mod-digit v p (omega (arith, positive)) in
    let spread : (acc * 16 + v / p % 16) * p ≡ acc * (16 * p) + v / p % 16 * p =
      add-mul (acc * 16) (v / p % 16) p ∙ ap (λ t. t + v / p % 16 * p) (mul_assoc acc 16 p) in
    let moved : (acc * 16 + v / p % 16) * p + v % p ≡ acc * (16 * p) + v % (16 * p) =
      omega (arith, split, spread) in
    ap (λ d. read_hex (acc * 16 + d) (hex_digits left v)) digit
    ∙ ih
    ∙ moved
    ∙ ap (λ t. acc * t + v % t) (sym power)

-- write_hex writes "0x" and sixteen digits, which read back as the number.
pub write_hex-read_hex :
    (n : ℕ)
    → n < 2 ^ 64
    → (digits : List ℕ) × (write_hex n ≡ b'0' ∷ b'x' ∷ digits)
      × (length digits ≡ 16)
      × (read_hex 0 digits ≡ n)
unfolding write_hex
write_hex-read_hex n h =
    let e : 16 ^ 16 ≡ 2 ^ 64 = refl in
    let value = hex_digits-value 16 n 0 in
    (hex_digits 16 n, refl, hex_digits-length 16 n, omega (arith, value, h))
