-- ===== src/Prelude/Outcome.antt =====
-- The outcome of a kernel operation.

-- `halt`: the kernel writes a message and stops for ever (arch_halt_forever, or `cli; hlt` in a
-- loop). `fault`: it follows a pointer to no object of the kind that the code expects.
pub data Exec {ℓ} (A : Type ℓ) : Type ℓ where
  ok : A → Exec A
  halt : Exec A
  fault : Exec A

infixl 5 ◌>>=◌ ◌>>◌
abbrev pub ◌>>=◌ {ℓ κ} : {A : Type ℓ} {B : Type κ} → Exec A → (A → Exec B) → Exec B
ok a >>= f = f a
halt >>= f = halt
fault >>= f = fault

abbrev pub ◌>>◌ {ℓ} : {B : Type ℓ} → Exec (Unit {0}) → Exec B → Exec B
m >> k = m >>= λ _. k
