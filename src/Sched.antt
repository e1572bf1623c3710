-- ===== src/Sched.antt =====
-- src/kernel/sched.c, the scheduler of two tasks. `Tasks` has its state. A task is stopped and
-- resumed by its stack pointer: the operations return the stack pointer to go on with.
pub mod Tasks
pub mod Switch
pub mod Worker
pub mod Tests
use Tasks.{
  TaskState, unused, runnable, running, done, TaskKind, kernel, user, TaskRef, task0, task1,
  Bootstrap, Task, Kernel, paging_of, with_palloc, with_paging, task_at, put_task, no_bootstrap,
  is_runnable, is_running, is_user_kind, is_current,
}
use platinum.Prelude.{
  ℕ, zero, suc, ◌+◌, ◌-◌, ◌≡◌, Bool, true, false, not, ◌&&◌, ◌||◌, Option, none, some, List, [],
  ◌∷◌, ◌++◌, leb, ltb, ◌==◌, if◌then◌else◌, Exec, ok, halt, fault, ◌>>=◌, ◌>>◌, Store, u64,
  replicate,
}
use platinum.Palloc
use platinum.Paging
use platinum.Elf
use platinum.Elf.{LoadedImage}
use platinum.Fd

-- sched_fail and the endless loops stop the kernel.
abbrev pub require : Bool → Exec (Unit {0})
require true = ok tt
require false = halt

-- sched_validate_task with TASK_RUNNABLE, the one state that it is called with.
unfoldable pub task_valid : Task → ℕ → Bool
task_valid t kernel_pml4 =
    is_runnable t.state
    && not (t.rsp == 0)
    && (if is_user_kind t.kind
        then not (t.cr3 == 0) && not (t.cr3 == kernel_pml4)
        else t.cr3 == kernel_pml4)

-- sched_release_user_bootstrap. The function leaves `reusable_physical_begin` and
-- `reusable_physical_end` of its local `loaded_image` unset: `stale_begin` and `stale_end` are
-- whatever stands there.
unfoldable pub release_user_bootstrap :
    (stale_begin stale_end : ℕ) → Bootstrap → Kernel → Exec Kernel
release_user_bootstrap stale_begin stale_end b k =
    let l : LoadedImage = record {
      load_begin = 0;
      load_end = 0;
      load_physical_begin = b.image_physical_begin;
      load_physical_end = b.image_physical_end;
      reusable_physical_begin = stale_begin;
      reusable_physical_end = stale_end;
      entry = 0;
      stack_page = b.user_stack_page;
      stack_top = b.user_stack_top;
    } in
    if b.address_space == 0
    then ok k
    else (Elf.release_user_image l k.vfs.heap.palloc >>= λ p.
        let k' = with_palloc p k in
        ok (
          with_paging (Paging.release_user_address_space b.address_space b.layout (paging_of k'))
            k'))

unfoldable pub other_task : TaskRef → TaskRef
other_task task0 = task1
other_task task1 = task0

-- The runnable task to go on with; the kernel stops where there is none.
unfoldable pub select_next : TaskRef → Kernel → Exec TaskRef
select_next previous k =
    if is_runnable (task_at (other_task previous) k).state
    then ok (other_task previous)
    else if is_runnable (task_at previous k).state
    then ok previous
    else if is_runnable k.first.state
    then ok task0
    else if is_runnable k.second.state
    then ok task1
    else halt

-- `*--sp = word` for each word of the list in turn, below `sp`.
unfoldable pub push_words : ℕ → List ℕ → (ℕ → ℕ) → ℕ → ℕ
push_words sp [] words a = words a
push_words sp (w ∷ ws) words a = push_words (sp - 8) ws (λ b. if b == sp - 8 then w else words b) a

-- The frame that `iretq` and the pops of the interrupt stub take: ss, rsp, rflags, cs, rip, rax to
-- r15. A kernel stack has `entry` as rip; a user stack has the trampoline, and the entry in r12.
unfoldable pub kernel_frame : (entry page : ℕ) → List ℕ
kernel_frame entry page = 0x10 ∷ (page + 4096 - 8) ∷ 0x202 ∷ 0x08 ∷ entry ∷ replicate 15 0

unfoldable pub user_frame : Bootstrap → List ℕ
user_frame b =
    0x1b
    ∷ b.user_stack_top
    ∷ 0x202
    ∷ 0x23
    ∷ b.trampoline_entry
    ∷ (replicate 11 0 ++ b.user_entry ∷ 0 ∷ 0 ∷ 0 ∷ [])

-- The stack pointer behind the twenty words of a frame, 0 where there is no page.
unfoldable pub build_kernel_stack : ℕ → Kernel → ℕ × Kernel
unfolding kernel_frame push_words
build_kernel_stack entry k =
    let (page, p) = Palloc.alloc k.vfs.heap.palloc in
    let k' = with_palloc p k in
    if page == 0 then (0, k') else (
      page + 4096 - 160,
      record k' { words = push_words (page + 4096) (kernel_frame entry page) k'.words },
    )

unfoldable pub build_user_stack : Bootstrap → Kernel → ℕ × Kernel
unfolding user_frame push_words
build_user_stack b k = if (b.user_stack_top == 0) || (b.user_stack_page == 0) then (0, k) else (
  b.user_stack_page + 4096 - 160,
  record k { words = push_words (b.user_stack_page + 4096) (user_frame b) k.words },
)

-- The fields that task_create_user and sched_exec_current ask for.
unfoldable pub bootstrap_complete : Bootstrap → Bool
bootstrap_complete b = not (
    (b.address_space == 0)
    || (b.trampoline_entry == 0)
    || (b.user_entry == 0)
    || (b.user_stack_page == 0)
    || (b.user_stack_top == 0))

-- fd_table_initialize and fd_table_seed_console on the task that is being set up.
unfoldable pub seed_task : TaskRef → Task → Kernel → Exec (Bool × Kernel)
seed_task r t k = Fd.seed_console Fd.initialized k.vfs >>= λ res.
    let (seeded, table, vfs) = res in
    ok (seeded, put_task r (record t { fd_table = table }) (record k { vfs = vfs }))

unfoldable pub create_kernel : TaskRef → ℕ → ℕ → Kernel → Exec (Bool × Kernel)
unfolding build_kernel_stack seed_task
create_kernel r id entry k =
    let (rsp, k') = build_kernel_stack entry k in
    let t = task_at r k' in
    if rsp == 0
    then ok (false, put_task r (record t { rsp = 0; state = unused }) k')
    else seed_task r
        (record {
          rsp = rsp;
          cr3 = k'.kernel_pml4;
          state = runnable;
          kind = kernel;
          id = id;
          fd_table = t.fd_table;
          user_bootstrap = no_bootstrap;
        })
        k'

unfoldable pub create_user : TaskRef → ℕ → Bootstrap → Kernel → Exec (Bool × Kernel)
unfolding bootstrap_complete build_user_stack seed_task
create_user r id b k =
    let (rsp, k') = build_user_stack b k in
    let t = task_at r k' in
    if not (bootstrap_complete b)
    then ok (false, k)
    else if rsp == 0
    then ok (false, put_task r (record t { rsp = 0; state = unused }) k')
    else seed_task r
        (record {
          rsp = rsp;
          cr3 = b.address_space;
          state = runnable;
          kind = user;
          id = id;
          fd_table = t.fd_table;
          user_bootstrap = b;
        })
        k'

unfoldable pub enable_user_task : Bootstrap → Kernel → Exec Kernel
unfolding bootstrap_complete
enable_user_task b k =
    if not (bootstrap_complete b)
      || (b.layout.trampoline_base == 0)
      || (b.layout.image_base == 0)
      || (b.layout.stack_top == 0)
    then halt
    else ok (record k { user_task_enabled = true; user_task_bootstrap = b })

abbrev pub unused_task : ℕ → Task
unused_task id = record {
  rsp = 0;
  cr3 = 0;
  state = unused;
  kind = kernel;
  id = id;
  fd_table = Fd.initialized;
  user_bootstrap = no_bootstrap;
}

-- `idle_entry` and `worker_entry` are the addresses of task_idle and task_worker.
unfoldable pub initialize : (idle_entry worker_entry : ℕ) → Kernel → Exec Kernel
unfolding create_kernel create_user
initialize idle_entry worker_entry k = do
  let k₀ : Kernel = record k {
    first = unused_task 0;
    second = unused_task 1;
    current = none;
    started = false;
  }
  (made, k₁) ← create_kernel task0 0 idle_entry k₀
  require made
  (made', k₂) ←
      (if k₁.user_task_enabled
        then create_user task1 1 k₁.user_task_bootstrap k₁
        else create_kernel task1 1 worker_entry k₁)
  require made'
  ok k₂

-- The end that sched_tick and sched_exit_current share: the task is checked, its address space is
-- loaded, and it runs.
unfoldable pub enter_task : TaskRef → Kernel → Exec (ℕ × Kernel)
enter_task r k = do
  let t = task_at r k
  require (task_valid t k.kernel_pml4)
  let k' : Kernel = record k { current = some r; cr3 = t.cr3 }
  ok (t.rsp, put_task r (record t { state = running }) k')

unfoldable pub tick : ℕ → Kernel → Exec (ℕ × Kernel)
unfolding select_next
tick current_rsp k =
    if not k.started
    then enter_task (if k.user_task_enabled then task1 else task0) (record k { started = true })
    else (elim k.current [
      | none ↦ fault
      | some r ↦ (do
        let t = task_at r k
        require (is_running t.state)
        require (not (t.rsp == 0))
        let k₁ = put_task r (record t { rsp = current_rsp; state = runnable }) k
        next ← select_next r k₁
        enter_task next k₁)
    ])

unfoldable pub exit_current : (stale_begin stale_end : ℕ) → Kernel → Exec (ℕ × Kernel)
unfolding select_next enter_task release_user_bootstrap
exit_current stale_begin stale_end k = elim k.current [
  | none ↦ halt
  | some r ↦ (do
    require k.started
    let t = task_at r k
    (table, vfs) ← Fd.close_all t.fd_table k.vfs
    let finished = t.user_bootstrap
    let k₁ : Kernel = record k { vfs = vfs }
    let t' : Task = record t {
      rsp = 0;
      state = done;
      fd_table = table;
      user_bootstrap = no_bootstrap;
    }
    let k₂ = put_task r t' k₁
    next ← select_next r k₂
    (rsp, k₃) ← enter_task next k₂
    k₄ ← release_user_bootstrap stale_begin stale_end finished k₃
    ok (rsp, k₄))
]

unfoldable pub current_task_id : Kernel → ℕ
current_task_id k = elim k.current [ none ↦ 0 | some r ↦ (task_at r k).id ]

unfoldable pub current_task_kind : Kernel → TaskKind
current_task_kind k = elim k.current [ none ↦ kernel | some r ↦ (task_at r k).kind ]

-- The bootstrap of a running user task, from which sched_current_user_context takes the layout and
-- the address space; `none` where sched_current_user_context and sched_current_user_bootstrap
-- return 0.
unfoldable pub current_user_bootstrap : Kernel → Option Bootstrap
current_user_bootstrap k = elim k.current [
  | none ↦ none
  | some r ↦
      let t = task_at r k in
      if is_user_kind t.kind && is_running t.state && not (t.user_bootstrap.address_space == 0)
      then some t.user_bootstrap
      else none
]

-- The bootstrap that sched_exec_current gives back: without its image where the new one has the
-- same pages.
unfoldable pub previous_image : Bootstrap → Bootstrap → Bootstrap
previous_image old new =
    if (old.image_physical_begin == new.image_physical_begin)
      && (old.image_physical_end == new.image_physical_end)
    then record old { image_physical_begin = 0; image_physical_end = 0 }
    else old

-- The stack pointer of the new program, 0 where nothing was started.
unfoldable pub exec_current : (stale_begin stale_end : ℕ) → Bootstrap → Kernel → Exec (ℕ × Kernel)
unfolding current_user_bootstrap bootstrap_complete build_user_stack seed_task previous_image
exec_current stale_begin stale_end b k = elim k.current [
  | none ↦ ok (0, k)
  | some r ↦
      let t = task_at r k in
      let (rsp, k₁) = build_user_stack b k in
      if not (k.started && is_user_kind t.kind && is_running t.state)
      then ok (0, k)
      else if not (bootstrap_complete b)
      then ok (0, k)
      else if rsp == 0
      then ok (0, k₁)
      else (do
        (table, vfs) ← Fd.close_all t.fd_table k₁.vfs
        (seeded, k₂) ← seed_task r t (record k₁ { vfs = vfs })
        if not seeded then ok (0, k₂) else (do
          let t' : Task = record (task_at r k₂) {
            rsp = rsp;
            cr3 = b.address_space;
            user_bootstrap = b;
          }
          let k₃ : Kernel = record (put_task r t' k₂) { cr3 = b.address_space }
          k₄ ← release_user_bootstrap stale_begin stale_end (previous_image t.user_bootstrap b) k₃
          ok (rsp, k₄)))
]
