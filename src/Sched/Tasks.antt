-- ===== src/Sched/Tasks.antt =====
-- The tasks of src/kernel/sched.c and the state that the scheduler works on.
use platinum.Prelude.{ℕ, Bool, true, false, Option, none, some}
use platinum.Palloc.{Palloc}
use platinum.Paging.{Paging, Layout}
use platinum.Vfs.Objects.{Vfs}
use platinum.Fd.{FdTable}

pub data TaskState : Type 0 where
  unused runnable running done : TaskState

pub data TaskKind : Type 0 where
  kernel user : TaskKind

-- `&task0` and `&task1`
pub data TaskRef : Type 0 where
  task0 task1 : TaskRef

pub record Bootstrap : Type 0 where
  pub layout : Layout
  pub address_space : ℕ
  pub trampoline_entry : ℕ
  pub user_entry : ℕ
  pub image_physical_begin : ℕ
  pub image_physical_end : ℕ
  pub user_stack_page : ℕ
  pub user_stack_top : ℕ

pub record Task : Type 0 where
  pub rsp : ℕ
  pub cr3 : ℕ
  pub state : TaskState
  pub kind : TaskKind
  pub id : ℕ
  pub fd_table : FdTable
  pub user_bootstrap : Bootstrap

-- `words` are the 64-bit words of the stack pages. The page allocator stands inside `vfs.heap`.
pub record Kernel : Type 0 where
  pub vfs : Vfs
  pub table : ℕ → ℕ → ℕ
  pub kernel_pml4 : ℕ
  pub cr3 : ℕ
  pub words : ℕ → ℕ
  pub first : Task
  pub second : Task
  pub current : Option TaskRef
  pub started : Bool
  pub user_task_enabled : Bool
  pub user_task_bootstrap : Bootstrap

abbrev pub paging_of : Kernel → Paging
paging_of k = record {
  palloc = k.vfs.heap.palloc;
  table = k.table;
  kernel_pml4 = k.kernel_pml4;
  cr3 = k.cr3;
}

abbrev pub with_palloc : Palloc → Kernel → Kernel
with_palloc p k = record k { vfs = record k.vfs { heap = record k.vfs.heap { palloc = p } } }

abbrev pub with_paging : Paging → Kernel → Kernel
with_paging s k = record (with_palloc s.palloc k) {
  table = s.table;
  kernel_pml4 = s.kernel_pml4;
  cr3 = s.cr3;
}

abbrev pub task_at : TaskRef → Kernel → Task
task_at task0 k = k.first
task_at task1 k = k.second

abbrev pub put_task : TaskRef → Task → Kernel → Kernel
put_task task0 t k = record k { first = t }
put_task task1 t k = record k { second = t }

-- sched_clear_user_bootstrap
abbrev pub no_bootstrap : Bootstrap
no_bootstrap = record {
  layout = record { trampoline_base = 0; image_base = 0; stack_top = 0 };
  address_space = 0;
  trampoline_entry = 0;
  user_entry = 0;
  image_physical_begin = 0;
  image_physical_end = 0;
  user_stack_page = 0;
  user_stack_top = 0;
}

abbrev pub is_runnable : TaskState → Bool
is_runnable runnable = true
is_runnable _ = false

abbrev pub is_running : TaskState → Bool
is_running running = true
is_running _ = false

abbrev pub is_user_kind : TaskKind → Bool
is_user_kind user = true
is_user_kind kernel = false

abbrev pub is_current : Option TaskRef → Bool
is_current none = false
is_current (some r) = true
