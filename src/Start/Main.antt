-- ===== src/Start/Main.antt =====
-- kernel_main of src/kernel/core.c: the parts of the kernel in the order in which it starts them.
use platinum.Prelude.{
  ℕ, ◌+◌, Bool, Option, none, some, List, ◌++◌, ◌==◌, if◌then◌else◌, Exec, ok, halt, fault, ◌>>=◌,
  u64,
}
use platinum.Prelude.Text.{written_line}
use platinum.Memmap.{Memmap}
use platinum.Memmap.Capture.{MapAnswer, capture_and_exit, print_summary}
use platinum.Palloc
use platinum.Palloc.{Palloc}
use platinum.Palloc.SelfTest as PallocTest
use platinum.Heap.SelfTest as HeapTest
use platinum.Paging
use platinum.Vfs.Objects.{Vfs}
use platinum.Vfs.Namespace.{Statics, Program, namespace_initialize}
use platinum.Vfs.SelfTest as VfsTest
use platinum.Fd.SelfTest as FdTest
use platinum.Descriptors.Gdt as Gdt
use platinum.Descriptors.Gdt.{Gdt, Places}
use platinum.Descriptors.Idt.{Idt, idt_initialize, set_irq0_gate, set_syscall_gate}
use platinum.Drivers.Timer.{PortWrite, pic_initialize, pit_initialize}
use platinum.Drivers.Serial.{serial_init}
use platinum.Sched
use platinum.Sched.Tasks.{paging_of, with_palloc}
use platinum.Syscall.User.{System}
use platinum.Syscall.Frame.{with_kernel}
use platinum.Start.Configure.{Build, configure_first_user_task, with_tables}

-- A step whose loops may run out of fuel.
abbrev pub ended {ℓ} : {A : Type ℓ} → Option A → Exec A
ended none = fault
ended (some a) = ok a

-- `write_text` and `write_line`
abbrev pub say : List ℕ → System → System
say text s =
    with_kernel
      (record s.kernel { vfs = record s.kernel.vfs { serial = s.kernel.vfs.serial ++ text } }) s

abbrev pub with_vfs : Vfs → System → System
with_vfs vfs s = with_kernel (record s.kernel { vfs = vfs }) s

-- The addresses and data that the build and the machine decide: USER_INIT_ENABLED, where the tables of
-- the processor and the code of the handlers and of the kernel's tasks stand, the objects and the
-- registry of the namespace, and the masks that the interrupt controllers have.
pub record Placement : Type 0 where
  pub enabled : Bool
  pub build : Build
  pub places : Places
  pub idt_at : ℕ
  pub invalid_opcode : ℕ
  pub general_protection : ℕ
  pub page_fault : ℕ
  pub irq0_entry : ℕ
  pub syscall_entry : ℕ
  pub idle_entry : ℕ
  pub worker_entry : ℕ
  pub statics : Statics
  pub registry : List Program
  pub master_mask : ℕ
  pub slave_mask : ℕ

-- The kernel once it waits for interrupts: its state, the tables of the processor, and the writes to
-- ports in order.
pub record Booted : Type 0 where
  pub system : System
  pub gdt : Gdt
  pub idt : Idt
  pub ports : List PortWrite

unfoldable pub make_idt : Placement → Idt
make_idt p = set_syscall_gate p.syscall_entry (
    set_irq0_gate p.irq0_entry
      (idt_initialize p.idt_at p.invalid_opcode p.general_protection p.page_fault))

-- palloc_initialize to fd_self_test.
unfoldable pub start_memory : (fuel : ℕ) → Memmap → Placement → System → Exec System
start_memory fuel m p s = do
  palloc ← ended (Palloc.initialize fuel m)
  (text, palloc') ← ended (PallocTest.self_test palloc)
  let s₁ = say text (with_kernel (with_palloc palloc' s.kernel) s)
  let heap = HeapTest.initialize s₁.kernel.vfs.heap
  (text', heap') ← HeapTest.self_test heap s₁.memory
  let s₂ = say text' (with_vfs (record s₁.kernel.vfs { heap = heap' }) s₁)
  vfs ← namespace_initialize p.statics p.registry s₂.kernel.vfs
  (tested, vfs') ← VfsTest.self_test vfs
  (tested', vfs'') ← FdTest.self_test vfs'
  ok (with_vfs vfs'' s₂)

-- The stack for interrupts: a page of its own, of which the task state segment has the end.
unfoldable pub start_stack : Gdt → System → Exec (Gdt × System)
start_stack g s =
    let (page, palloc) = Palloc.alloc s.kernel.vfs.heap.palloc in
    if page == 0
    then halt
    else ok (
      Gdt.set_tss_rsp0 (u64 (page + 4096)) g,
      say (written_line "tss rsp0 ok") (with_kernel (with_palloc palloc s.kernel) s),
    )

-- paging_initialize to the loop that waits for interrupts.
unfoldable pub start_tasks : (fuel : ℕ) → Memmap → Placement → System → Exec System
start_tasks fuel m p s = do
  paging ← Paging.initialize fuel m (paging_of s.kernel)
  let s₁ =
      say (written_line "paging 4k ok" ++ (written_line "pic ok" ++ written_line "pit ok"))
        (with_tables paging s)
  s₂ ← (if p.enabled then configure_first_user_task p.build s₁ else ok s₁)
  k ← Sched.initialize p.idle_entry p.worker_entry s₂.kernel
  let s₃ = say (written_line "sched ok") (with_kernel k s₂)
  let s₄ = if p.enabled then say (written_line "user init") s₃ else s₃
  ok (say (written_line "irq on" ++ written_line "hello from /p/OS") s₄)

-- The parts behind the exit from the boot services.
unfoldable pub start_kernel : (fuel : ℕ) → Memmap → Placement → System → Exec Booted
unfolding make_idt start_memory start_stack start_tasks
start_kernel fuel m p s = do
  summary ← ended (print_summary m)
  let s₁ = say (summary ++ (written_line "exit ok" ++ written_line "gdt ok")) s
  let idt = make_idt p
  s₂ ← start_memory fuel m p (say (written_line "idt ok") s₁)
  (gdt, s₃) ← start_stack (Gdt.initialize p.places) s₂
  s₄ ← start_tasks fuel m p s₃
  ok (record {
    system = s₄;
    gdt = gdt;
    idt = idt;
    ports = serial_init ++ (pic_initialize p.master_mask p.slave_mask ++ pit_initialize 100);
  })

module _ {F : Type 0} (get_memory_map : F → F × MapAnswer)
    (exit_boot_services : ℕ → F → F × ℕ) where
  -- `s` is the state of the globals before the start.
  unfoldable pub kernel_main : (fuel : ℕ) → F → Memmap → Placement → System → Exec Booted
  unfolding start_kernel
  kernel_main fuel f m p s = do
    let s₁ = say (written_line "kernel_main" ++ written_line "efi live") (record s { ticks = 0 })
    (exited, m', f') ← ended (capture_and_exit get_memory_map exit_boot_services fuel f m)
    if exited then start_kernel fuel m' p s₁ else halt
