-- ===== src/Drivers/Polling.antt =====
-- serial_write of src/drivers/serial.c and a line that becomes ready again and again.
use platinum.Prelude.{
  ℕ, zero, suc, ◌+◌, ◌*◌, ◌%◌, ◌≤◌, ◌<◌, ◌≡◌, refl, true, inl, inr, some, List, [], ◌∷◌, map,
  length, ◌-◌, arith, Bool-cases,
}
use native.Mathlib.Decide.{dec_lt}
use platinum.Drivers.Serial.{serial_com1, is_ready, wait_ready, serial_write}

-- Of any `patience` reads of the status, one finds the line ready.
abbrev pub BecomesReady : ℕ → (ℕ → ℕ) → Type 0
BecomesReady patience status =
    (n : ℕ) → (k : ℕ) × (k < patience) × (is_ready (status (n + k)) ≡ true)

wait_ready-ends :
    (fuel n k : ℕ) (status : ℕ → ℕ)
    → k < fuel
    → is_ready (status (n + k)) ≡ true
    → (n' : ℕ) × (wait_ready fuel status n ≡ some n') × (n' ≤ n + k + 1)
unfolding wait_ready
wait_ready-ends zero n k status lt ready = absurd (omega arith)
wait_ready-ends (suc fuel) n k status lt ready = elim (Bool-cases (is_ready (status n))) [
  | inl now ↦ rw now (suc n, refl, omega arith)
  | inr later ↦ elim (dec_lt 0 k) [
    | no z ↦ let e : n + k ≡ n = omega arith in let r = rw e at ready in cc
    | yes pos ↦
        let e : n + k ≡ suc n + (k - 1) = omega arith in
        let (n', found, hi) =
          wait_ready-ends fuel (suc n) (k - 1) status (omega arith) (rw e at ready) in
        rw later (n', found, omega arith)
  ]
]

-- serial_write on a line that becomes ready again and again: every waiting loop ends, the bytes go to
-- the data port in their order, each cut to eight bits and none twice, and the status is read at most
-- `patience` times for each byte.
pub serial_write-sends :
    (patience : ℕ) (status : ℕ → ℕ) (buffer : List ℕ) (n : ℕ)
    → BecomesReady patience status
    → (n' : ℕ) × (serial_write patience status buffer n
        ≡ some (n', map (λ b. record { port = serial_com1; value = b % 256 }) buffer))
      × (n' ≤ n + length buffer * patience)
unfolding serial_write
serial_write-sends patience status [] n ready = (n, refl, omega arith)
serial_write-sends patience status (b ∷ buffer) n ready =
    let (k, lt, at) = ready n in
    let (n₁, waited, hi) = wait_ready-ends patience n k status lt at in
    let (n', sent, le) = serial_write-sends patience status buffer n₁ ready in
    rw (waited, serial_write, sent) (n', refl, grind arith)
