-- ===== src/Syscall/Decimal.antt =====
-- write_decimal_u64 of src/kernel/core.c, which writes a number to the serial line in decimal.
use platinum.Prelude.{
  ℕ, zero, suc, ◌+◌, ◌-◌, ◌*◌, ◌/◌, ◌%◌, ◌^◌, ◌≤◌, ◌<◌, ◌≡◌, inl, inr, refl, Option, none, some,
  List, [], ◌∷◌, ◌++◌, arith, ◌==◌, if◌then◌else◌, length, Bool-cases,
}
use native.Mathlib.Nat.{pow-suc}

-- The loop that fills `digits`, least significant digit first, on fuel.
unfoldable pub digits : ℕ → ℕ → Option (List ℕ)
digits zero current = none
digits (suc fuel) current =
    let rest = digits fuel (current / 10) in
    if current == 0
    then some []
    else (elim rest [ none ↦ none | some ds ↦ some ((b'0' + current % 10) ∷ ds) ])

-- The loop that writes `digits` from its last element back.
unfoldable pub backwards : List ℕ → List ℕ
backwards [] = []
backwards (d ∷ ds) = backwards ds ++ d ∷ []

-- A uint64_t has at most twenty digits.
abbrev pub decimal_fuel : ℕ
decimal_fuel = 21

-- The bytes that write_decimal_u64 writes.
unfoldable pub write_decimal : ℕ → Option (List ℕ)
write_decimal value =
    if value == 0
    then some (b'0' ∷ [])
    else (elim (digits decimal_fuel value) [ none ↦ none | some ds ↦ some (backwards ds) ])

-- The number that a text in decimal stands for, behind the digits that gave `value`.
unfoldable pub read_decimal : ℕ → List ℕ → ℕ
read_decimal value [] = value
read_decimal value (c ∷ text) = read_decimal (value * 10 + (c - b'0')) text

read_decimal-last :
    (value d : ℕ) (text : List ℕ)
    → read_decimal value (text ++ d ∷ []) ≡ read_decimal value text * 10 + (d - b'0')
unfolding read_decimal
read_decimal-last value d [] = refl
read_decimal-last value d (c ∷ text) = read_decimal-last (value * 10 + (c - b'0')) d text

length-last : (d : ℕ) (text : List ℕ) → length (text ++ d ∷ []) ≡ length text + 1
length-last d [] = refl
length-last d (c ∷ text) = omega (arith, length-last d text)

digits-value :
    (fuel n : ℕ)
    → n < 10 ^ fuel
    → (ds : List ℕ) × (digits (suc fuel) n ≡ some ds)
      × (read_decimal 0 (backwards ds) ≡ n)
      × (length (backwards ds) ≤ fuel)
unfolding digits backwards
digits-value zero n h =
    let e : n ≡ 0 = omega arith in rw e ([], refl, unfold read_decimal in refl, omega arith)
digits-value (suc fuel) n h = elim (Bool-cases (n == 0)) [
  | inl nul ↦ rw (nul, digits) ([], refl, unfold read_decimal in ground arith, omega arith)
  | inr more ↦
      let p = pow-suc 10 fuel in
      let (ds, found, value, short) = digits-value fuel (n / 10) (omega (arith, p)) in
      rw (more, found, digits)
        (
          (b'0' + n % 10) ∷ ds,
          refl,
          omega (arith, read_decimal-last 0 (b'0' + n % 10) (backwards ds)),
          omega (arith, length-last (b'0' + n % 10) (backwards ds)),
        )
]

-- write_decimal_u64 ends on every uint64_t, writes at most 20 bytes (its buffer has 32), and what it
-- writes reads back as the number.
pub write_decimal-read_decimal :
    (n : ℕ)
    → n < 2 ^ 64
    → (text : List ℕ) × (write_decimal n ≡ some text)
      × (read_decimal 0 text ≡ n)
      × (length text ≤ 20)
unfolding write_decimal
write_decimal-read_decimal n h = elim (Bool-cases (n == 0)) [
  | inl nul ↦
      rw (nul, write_decimal) (b'0' ∷ [], refl, unfold read_decimal in ground arith, omega arith)
  | inr more ↦
      let (ds, found, value, short) = digits-value 20 n (omega arith) in
      rw (more, found, write_decimal) (backwards ds, refl, value, short)
]
