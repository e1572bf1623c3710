-- ===== src/User/Beat.antt =====
-- How often the loop of the programs of src/user yields and prints.
use platinum.Prelude.{
  ℕ, ◌+◌, ◌-◌, ◌*◌, ◌/◌, ◌^◌, ◌≤◌, ◌<◌, ◌≡◌, ◌≢◌, refl, sym, ◌⊎◌, true, false, List, [], ◌∷◌, ◌++◌,
  ◌==◌, if◌then◌else◌, u32, arith, Bool-cases, inl, inr,
}
use native.Mathlib.Decide.{dec_lt}
use native.Mathlib.Nat.{add-mul, div-eq_of_lt-le}
use platinum.User.{Trap, Pulse, user_sys_putc, user_sys_yield, beat, beats, start_pulse}

-- How many of the calls have the number `n`.
abbrev pub calls_of : ℕ → List Trap → ℕ
calls_of n [] = 0
calls_of n (t ∷ ts) = (if t.number == n then 1 else 0) + calls_of n ts

-- How often the ticks are other than those before them.
abbrev pub changes : ℕ → List ℕ → ℕ
changes previous [] = 0
changes previous (t ∷ ts) = (if t == previous then 0 else 1) + changes t ts

calls_of-append :
    (n : ℕ) (xs ys : List Trap) → calls_of n (xs ++ ys) ≡ calls_of n xs + calls_of n ys
calls_of-append n [] ys = omega arith
calls_of-append n (x ∷ xs) ys = omega (arith, calls_of-append n xs ys)

-- What the rounds do from any budget on.
abbrev Beats : ℕ → List ℕ → Pulse → Pulse × List Trap → Type 0
Beats period ticks v r =
    (calls_of 1 r.1 ≡ changes v.previous ticks)
    × (calls_of 0 r.1 * period + v.budget ≡ calls_of 1 r.1 + r.0.budget)
    × (1 ≤ r.0.budget)
    × (r.0.budget ≤ period)

-- The three kinds of a round.
beat-cases :
    (period letter t : ℕ) (v : Pulse)
    → 1 ≤ v.budget
    → v.budget < 2 ^ 32
    → ((t ≡ v.previous) × (beat period letter t v ≡ (v, [])))
      ⊎ ((t ≢ v.previous)
          × (v.budget ≡ 1)
          × (beat period letter t v ≡ (
            record { previous = t; budget = period },
            user_sys_putc letter ∷ user_sys_yield ∷ [],
          )))
      ⊎ ((t ≢ v.previous)
          × (2 ≤ v.budget)
          × (beat period letter t v
              ≡ (record { previous = t; budget = v.budget - 1 }, user_sys_yield ∷ [])))
unfolding beat
beat-cases period letter t v pos small = elim (Bool-cases (t == v.previous)) [
  | inl same ↦ inl (ground arith, rw same refl)
  | inr other ↦ elim (dec_lt 1 v.budget) [
    | no last ↦
        let z : (u32 (v.budget + 2 ^ 32 - 1) == 0) ≡ true = ground arith in
        inr (inl (ground arith, omega arith, rw (other, z) refl))
    | yes more ↦
        let z : (u32 (v.budget + 2 ^ 32 - 1) == 0) ≡ false = ground arith in
        let e : u32 (v.budget + 2 ^ 32 - 1) ≡ v.budget - 1 = omega arith in
        inr (inr (ground arith, omega arith, rw (other, z, e) refl))
  ]
]

beats-Beats :
    (period letter : ℕ) (ticks : List ℕ) (v : Pulse)
    → 1 ≤ v.budget
    → v.budget ≤ period
    → period < 2 ^ 32
    → Beats period ticks v (beats period letter ticks v)
unfolding beats user_sys_putc user_sys_yield
beats-Beats period letter [] v pos le small = (refl, omega arith, pos, le)
beats-Beats period letter (t ∷ ts) v pos le small =
    elim (beat-cases period letter t v pos (omega arith)) [
      | inl (same, e) ↦
          let ih = beats-Beats period letter ts v pos le small in
          let test : (t == v.previous) ≡ true = ground arith in
          rw (e, test) (rw same (omega (arith, ih.0), ih.1, ih.2, ih.3))
      | inr (inl (other, one, e)) ↦
          let ih =
            beats-Beats period letter ts (record { previous = t; budget = period }) (omega arith)
              (omega arith) small in
          let test : (t == v.previous) ≡ false = ground arith in
          rw (e, test)
            (
              omega (arith, ih.0),
              omega (
                arith,
                ih.1,
                add-mul 1
                    (calls_of 0
                      (beats period letter ts (record { previous = t; budget = period })).1)
                    period,
              ),
              ih.2,
              ih.3,
            )
      | inr (inr (other, more, e)) ↦
          let ih =
            beats-Beats period letter ts (record { previous = t; budget = v.budget - 1 })
              (omega arith) (omega arith) small in
          let test : (t == v.previous) ≡ false = ground arith in
          rw (e, test) (omega (arith, ih.0), omega (arith, ih.1), ih.2, ih.3)
    ]

-- The loop of a program of `period` from 1 to 2 ^ 32 - 1, over any ticks that its calls return: it
-- yields once for each change of the ticks, and has printed once for every `period` changes.
pub beats-yields :
    (period letter first : ℕ) (ticks : List ℕ)
    → 1 ≤ period
    → period < 2 ^ 32
    → let calls = (beats period letter ticks (start_pulse period first)).1 in
      (calls_of 1 calls ≡ changes first ticks) × (calls_of 0 calls ≡ changes first ticks / period)
unfolding start_pulse
beats-yields period letter first ticks pos small =
    let v = start_pulse period first in
    let (yields, count, low, high) = beats-Beats period letter ticks v pos (omega arith) small in
    let calls = (beats period letter ticks v).1 in
    let next = add-mul (calls_of 0 calls) 1 period in
    (yields, sym (div-eq_of_lt-le period (omega arith) (omega arith)))
