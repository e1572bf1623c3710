-- ===== src/Sched/Worker.antt =====
-- task_worker of src/kernel/sched.c, the endless loop of the kernel's own task: what it does in a
-- number of rounds. task_delay, which only counts, has no effect here.
use platinum.Prelude.{
  ℕ, suc, ◌+◌, ◌/◌, ◌%◌, ◌≡◌, refl, arith, Bool, true, false, List, [], ◌∷◌, ◌++◌, ◌==◌,
  if◌then◌else◌, u64, inl, inr, Bool-cases, length,
}

-- `task_syscall(number, arg0)`
pub record Call : Type 0 where
  pub number : ℕ
  pub arg0 : ℕ

abbrev pub task_syscall : ℕ → ℕ → Call
task_syscall number arg0 = record { number = number; arg0 = arg0 }

abbrev pub when : Bool → List Call → List Call
when true calls = calls
when false calls = []

-- The calls of one round. `ticks` is what its call for the ticks returns.
unfoldable pub worker_calls : (counter ticks : ℕ) → List Call
worker_calls counter ticks =
    when (counter % 256 == 0) (task_syscall 0 b'S' ∷ [])
    ++ (when (counter % 64 == 0) (task_syscall 1 0 ∷ [])
        ++ when (counter % 512 == 0)
            (task_syscall 2 0 ∷ (if ticks == 0 then [] else (task_syscall 0 b'K' ∷ []))))

-- The calls of the rounds for which the calls for the ticks return a list of numbers.
unfoldable pub task_worker : (counter : ℕ) → List ℕ → List Call
unfolding worker_calls
task_worker counter [] = []
task_worker counter (ticks ∷ later) =
    let next = u64 (counter + 1) in worker_calls next ticks ++ task_worker next later

-- How many of the calls have a number.
unfoldable pub count_calls : (number : ℕ) → List Call → ℕ
count_calls number [] = 0
count_calls number (c ∷ calls) =
    let n = count_calls number calls in if c.number == number then suc n else n

count_calls-append :
    (number : ℕ) (calls calls' : List Call)
    → count_calls number (calls ++ calls') ≡ count_calls number calls + count_calls number calls'
unfolding count_calls
count_calls-append number [] calls' = omega arith
count_calls-append number (c ∷ calls) calls' =
    let ih = count_calls-append number calls calls' in
    elim (Bool-cases (c.number == number)) [
      | inl e ↦ rw (e) (omega (arith, ih))
      | inr e ↦ rw (e) ih
    ]

yields_of_letter : (b : Bool) (ch : ℕ) → count_calls 1 (when b (task_syscall 0 ch ∷ [])) ≡ 0
unfolding count_calls
yields_of_letter true ch = refl
yields_of_letter false ch = refl

yields_of_yield : (b : Bool) → count_calls 1 (when b (task_syscall 1 0 ∷ [])) ≡ (if b then 1 else 0)
unfolding count_calls
yields_of_yield true = refl
yields_of_yield false = refl

yields_of_ticks :
    (b : Bool) (ticks : ℕ)
    → count_calls 1
        (when b (task_syscall 2 0 ∷ (if ticks == 0 then [] else (task_syscall 0 b'K' ∷ []))))
      ≡ 0
unfolding count_calls
yields_of_ticks true ticks = elim (Bool-cases (ticks == 0)) [
  | inl e ↦ rw (e) refl
  | inr e ↦ rw (e) refl
]
yields_of_ticks false ticks = refl

-- A round yields once where its counter is a multiple of 64.
yields_of_round :
    (counter ticks : ℕ)
    → count_calls 1 (worker_calls counter ticks) ≡ (if counter % 64 == 0 then 1 else 0)
unfolding worker_calls
yields_of_round counter ticks =
    let letter = yields_of_letter (counter % 256 == 0) b'S' in
    let yield = yields_of_yield (counter % 64 == 0) in
    let asked = yields_of_ticks (counter % 512 == 0) ticks in
    rw (count_calls-append, count_calls-append, letter, yield, asked) (omega arith)

-- The worker gives way once every 64 rounds, whatever its counter is, also where the counter wraps.
pub task_worker-yields :
    (counter : ℕ) (answers : List ℕ)
    → count_calls 1 (task_worker counter answers) + counter / 64 ≡ (counter + length answers) / 64
unfolding task_worker count_calls
task_worker-yields counter [] = omega arith
task_worker-yields counter (ticks ∷ later) =
    let next = u64 (counter + 1) in
    let ih = task_worker-yields next later in
    let once = yields_of_round next ticks in
    rw (count_calls-append, once)
      (elim (Bool-cases (next % 64 == 0)) [
        | inl e ↦ rw (e) (ground (arith, ih, e))
        | inr e ↦ rw (e) (ground (arith, ih, e))
      ])
