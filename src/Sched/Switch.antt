-- ===== src/Sched/Switch.antt =====
-- The invariant of the scheduler of src/kernel/sched.c, and the timer tick on it.
use platinum.Prelude.{
  ℕ, ◌≡◌, ◌≢◌, inl, inr, refl, sym, ap, ◌∙◌, true, false, some, arith, ◌==◌, if◌then◌else◌, ok,
  ◌>>=◌, Bool-cases,
}
use platinum.Sched.{task_valid, other_task, select_next, enter_task, tick}
use platinum.Sched.Tasks.{
  runnable, running, kernel, user, TaskRef, task0, task1, Task, Kernel, task_at, put_task,
  is_runnable,
}

-- The address space of a task: the kernel's for a kernel task, another for a user task.
abbrev pub OwnSpace : Task → ℕ → Type 0
OwnSpace t pml4 = elim t.kind [ kernel ↦ t.cr3 ≡ pml4 | user ↦ (t.cr3 ≢ 0) × (t.cr3 ≢ pml4) ]

-- `r` is current and runs with its stack and its address space, which is loaded; the other task
-- does not run.
pub record Runs (k : Kernel) (r : TaskRef) : Type 0 where
  pub current : k.current ≡ some r
  pub started : k.started ≡ true
  pub state : (task_at r k).state ≡ running
  pub stack : (task_at r k).rsp ≢ 0
  pub space : OwnSpace (task_at r k) k.kernel_pml4
  pub loaded : k.cr3 ≡ (task_at r k).cr3
  pub other : (task_at (other_task r) k).state ≢ running

-- A task that waits can be entered: it has a stack and its address space.
pub record Waits (t : Task) (pml4 : ℕ) : Type 0 where
  pub stack : t.rsp ≢ 0
  pub space : OwnSpace t pml4

-- The invariant: the current task runs, and the other one waits if it is runnable.
pub record Inv (k : Kernel) (r : TaskRef) : Type 0 where
  pub runs : Runs k r
  pub waits :
      is_runnable (task_at (other_task r) k).state ≡ true
      → Waits (task_at (other_task r) k) k.kernel_pml4

-- The states in the middle and at the end of sched_tick.
abbrev preempted : TaskRef → ℕ → Kernel → Kernel
preempted r rsp k = put_task r (record (task_at r k) { rsp = rsp; state = runnable }) k

abbrev entered : TaskRef → Kernel → Kernel
entered r k =
    put_task r (record (task_at r k) { state = running })
      (record k { current = some r; cr3 = (task_at r k).cr3 })

Waits-task_valid :
    (t : Task) (pml4 : ℕ) → is_runnable t.state ≡ true → Waits t pml4 → task_valid t pml4 ≡ true
unfolding task_valid
Waits-task_valid t pml4 h w = ground arith

enter_task-entered :
    (r : TaskRef) (k : Kernel)
    → is_runnable (task_at r k).state ≡ true
    → Waits (task_at r k) k.kernel_pml4
    → enter_task r k ≡ ok ((task_at r k).rsp, entered r k)
unfolding enter_task
enter_task-entered r k h w = rw (Waits-task_valid (task_at r k) k.kernel_pml4 h w, enter_task)

-- The task that sched_tick goes on with: the other one if it is runnable.
unfoldable pub next_task : TaskRef → Kernel → TaskRef
next_task r k = if is_runnable (task_at (other_task r) k).state then other_task r else r

-- What a tick leaves: the invariant for the next task, the stack pointer of the task that was
-- interrupted saved, and the files, tables and pages as they were.
pub record Ticked (k k' : Kernel) (r next : TaskRef) (rsp : ℕ) : Type 0 where
  pub inv : Inv k' next
  pub saved : (task_at r k').rsp ≡ rsp
  pub others : (task_at (other_task r) k').rsp ≡ (task_at (other_task r) k).rsp
  pub files : k'.vfs ≡ k.vfs

nonzero : (n : ℕ) → n ≢ 0 → (n == 0) ≡ false
nonzero n h = ground arith

tick-entered :
    (r : TaskRef) (rsp : ℕ) (k : Kernel)
    → Inv k r
    → tick rsp k
      ≡ (select_next r (preempted r rsp k) >>= λ next. enter_task next (preempted r rsp k))
unfolding tick
tick-entered r rsp k inv =
    simp (inv.runs.started, inv.runs.current, inv.runs.state, nonzero _ inv.runs.stack)

select_next-next_task :
    (r : TaskRef) (rsp : ℕ) (k : Kernel) → select_next r (preempted r rsp k) ≡ ok (next_task r k)
unfolding select_next next_task other_task
select_next-next_task task0 rsp k = ground arith
select_next-next_task task1 rsp k = ground arith

preempted-runnable :
    (r : TaskRef) (rsp : ℕ) (k : Kernel)
    → is_runnable (task_at (next_task r k) (preempted r rsp k)).state ≡ true
unfolding next_task other_task
preempted-runnable task0 rsp k = ground arith
preempted-runnable task1 rsp k = ground arith

preempted-Waits :
    (r : TaskRef) (rsp : ℕ) (k : Kernel)
    → Inv k r
    → rsp ≢ 0
    → Waits (task_at (next_task r k) (preempted r rsp k)) (preempted r rsp k).kernel_pml4
unfolding next_task other_task
preempted-Waits task0 rsp k inv ne = elim (Bool-cases (is_runnable k.second.state)) [
  | inl e ↦ rw e (inv.waits e)
  | inr e ↦ rw e (record { stack = ne; space = inv.runs.space })
]
preempted-Waits task1 rsp k inv ne = elim (Bool-cases (is_runnable k.first.state)) [
  | inl e ↦ rw e (inv.waits e)
  | inr e ↦ rw e (record { stack = ne; space = inv.runs.space })
]

entered-Ticked :
    (r next : TaskRef) (rsp : ℕ) (k : Kernel)
    → Inv k r
    → rsp ≢ 0
    → Waits (task_at next (preempted r rsp k)) (preempted r rsp k).kernel_pml4
    → Ticked k (entered next (preempted r rsp k)) r next rsp
unfolding other_task
entered-Ticked task0 task0 rsp k inv ne w = record {
  inv = record {
    runs = record {
      current = refl;
      started = inv.runs.started;
      state = refl;
      stack = w.stack;
      space = w.space;
      loaded = refl;
      other = inv.runs.other;
    };
    waits = inv.waits;
  };
  saved = refl;
  others = refl;
  files = refl;
}
entered-Ticked task0 task1 rsp k inv ne w = record {
  inv = record {
    runs = record {
      current = refl;
      started = inv.runs.started;
      state = refl;
      stack = w.stack;
      space = w.space;
      loaded = refl;
      other = λ e. cc;
    };
    waits = λ e. record { stack = ne; space = inv.runs.space };
  };
  saved = refl;
  others = refl;
  files = refl;
}
entered-Ticked task1 task0 rsp k inv ne w = record {
  inv = record {
    runs = record {
      current = refl;
      started = inv.runs.started;
      state = refl;
      stack = w.stack;
      space = w.space;
      loaded = refl;
      other = λ e. cc;
    };
    waits = λ e. record { stack = ne; space = inv.runs.space };
  };
  saved = refl;
  others = refl;
  files = refl;
}
entered-Ticked task1 task1 rsp k inv ne w = record {
  inv = record {
    runs = record {
      current = refl;
      started = inv.runs.started;
      state = refl;
      stack = w.stack;
      space = w.space;
      loaded = refl;
      other = inv.runs.other;
    };
    waits = inv.waits;
  };
  saved = refl;
  others = refl;
  files = refl;
}

entered-rsp : (r : TaskRef) (k : Kernel) → (task_at r (entered r k)).rsp ≡ (task_at r k).rsp
entered-rsp task0 k = refl
entered-rsp task1 k = refl

tick_eq :
    (r : TaskRef) (rsp : ℕ) (k : Kernel)
    → Inv k r
    → rsp ≢ 0
    → tick rsp k
      ≡ ok (
        (task_at (next_task r k) (entered (next_task r k) (preempted r rsp k))).rsp,
        entered (next_task r k) (preempted r rsp k),
      )
tick_eq r rsp k inv ne =
    rw (tick-entered r rsp k inv, select_next-next_task r rsp k)
      (enter_task-entered _ _ (preempted-runnable r rsp k) (preempted-Waits r rsp k inv ne)
        ∙ ap (λ n. ok (n, entered (next_task r k) (preempted r rsp k)))
            (sym (entered-rsp (next_task r k) (preempted r rsp k))))

-- Where the current task runs and the other one waits, a tick of the timer does not stop the
-- kernel: it saves the stack pointer of the task that it interrupts, goes on with the other task if that
-- is runnable and with the same one if not, and leaves exactly that task running, in its own
-- address space, while the other one waits with the stack pointer it had.
pub tick-Ticked :
    (r : TaskRef) (rsp : ℕ) (k : Kernel)
    → Inv k r
    → rsp ≢ 0
    → (k' : Kernel) × (tick rsp k ≡ ok ((task_at (next_task r k) k').rsp, k'))
      × Ticked k k' r (next_task r k) rsp
tick-Ticked r rsp k inv ne =
    let w = preempted-Waits r rsp k inv ne in
    (
      entered (next_task r k) (preempted r rsp k),
      tick_eq r rsp k inv ne,
      entered-Ticked r (next_task r k) rsp k inv ne w,
    )
