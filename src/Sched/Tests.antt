-- ===== src/Sched/Tests.antt =====
-- The theorem on the switch of tasks in src/kernel/sched.c at a concrete state.
use platinum.Prelude.{◌+◌, ◌/◌, ◌≡◌, refl, arith, true, some, [], ◌∷◌, ok}
use platinum.Vfs.Path.{end}
use platinum.Fd.{initialized}
use platinum.Sched.{tick, other_task}
use platinum.Sched.Tasks.{
  runnable, running, kernel, user, task0, Task, Kernel, task_at, no_bootstrap,
}
use platinum.Sched.Worker.{task_worker, count_calls, task_worker-yields}
use platinum.Sched.Switch.{Inv, next_task, Ticked, tick-Ticked}

abbrev kernel_task : Task
kernel_task = record {
  rsp = 0x2fff000;
  cr3 = 0x1000;
  state = running;
  kind = kernel;
  id = 1;
  fd_table = initialized;
  user_bootstrap = no_bootstrap;
}

abbrev user_task : Task
user_task = record kernel_task {
  rsp = 0x2ffe000;
  cr3 = 0x3000;
  state = runnable;
  kind = user;
  id = 2;
}

-- The first task runs, the second one waits.
abbrev pub two_tasks : Kernel
two_tasks = record {
  vfs = record {
    heap = record {
      blocks = [];
      palloc = record { free_list = []; region_begin = 0; region_end = 0; free_page_count = 0 };
    };
    files = [];
    nodes = [];
    serial = [];
    root = end;
    ready = true;
    released = λ i. 0;
  };
  table = λ p i. 0x2007;
  kernel_pml4 = 0x1000;
  cr3 = 0x1000;
  words = λ a. 0;
  first = kernel_task;
  second = user_task;
  current = some task0;
  started = true;
  user_task_enabled = true;
  user_task_bootstrap = no_bootstrap;
}

two_tasks-Inv : Inv two_tasks task0
unfolding other_task
two_tasks-Inv = record {
  runs = record {
    current = refl;
    started = refl;
    state = refl;
    stack = omega arith;
    space = refl;
    loaded = refl;
    other = λ e. cc;
  };
  waits = λ h. record { stack = omega arith; space = (omega arith, omega arith) };
}

tick-Ticked_example :
    (k' : Kernel) × (tick 0x2ffeff0 two_tasks
      ≡ ok ((task_at (next_task task0 two_tasks) k').rsp, k'))
    × Ticked two_tasks k' task0 (next_task task0 two_tasks) 0x2ffeff0
tick-Ticked_example = tick-Ticked task0 0x2ffeff0 two_tasks two_tasks-Inv (omega arith)

task_worker-yields_example :
    count_calls 1 (task_worker 60 (1 ∷ 2 ∷ 3 ∷ 4 ∷ 5 ∷ 6 ∷ [])) + 60 / 64 ≡ (60 + 6) / 64
task_worker-yields_example = task_worker-yields 60 (1 ∷ 2 ∷ 3 ∷ 4 ∷ 5 ∷ 6 ∷ [])
