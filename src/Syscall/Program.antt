-- ===== src/Syscall/Program.antt =====
-- SYS_EXEC of src/kernel/core.c: a new program in the place of the running one.
use platinum.Syscall.User.{System, copy_path}
use platinum.Syscall.Frame.{result_error, frame_rdi, resume, with_kernel, machine_of, with_machine}
use platinum.Prelude.{
  ℕ, ◌+◌, Bool, List, true, not, ◌||◌, Option, none, some, ◌%◌, ◌==◌, if◌then◌else◌, Exec, ok,
  ◌>>=◌, align_down,
}
use platinum.Paging
use platinum.Paging.{Layout}
use platinum.Elf
use platinum.Elf.{LoadedImage}
use platinum.Vfs
use platinum.Vfs.{deref}
use platinum.Sched
use platinum.Sched.Tasks.{Bootstrap, Kernel, paging_of, with_palloc, with_paging}

abbrev pub first_user_layout : Layout
first_user_layout = record {
  trampoline_base = 0x40000000;
  image_base = 0x40001000;
  stack_top = 0x40200000;
}

-- syscall_release_bootstrap
unfoldable pub release_bootstrap : Bootstrap → Kernel → Exec Kernel
release_bootstrap b k =
    let l : LoadedImage = record Elf.cleared_image {
      load_physical_begin = b.image_physical_begin;
      load_physical_end = b.image_physical_end;
      stack_page = b.user_stack_page;
      stack_top = b.user_stack_top;
    } in
    Elf.release_user_image l k.vfs.heap.palloc >>= λ p.
    let k' = with_palloc p k in
    ok (with_paging (Paging.release_user_address_space b.address_space b.layout (paging_of k')) k')

-- `paging_release_user_address_space(address_space, &bootstrap->layout); return 0;`
unfoldable pub give_up : ℕ → System → Exec (Option Bootstrap × System)
give_up address_space s =
    let paging =
      Paging.release_user_address_space address_space first_user_layout (paging_of s.kernel) in
    ok (none, with_kernel (with_paging paging s.kernel) s)

-- The trampoline of a loaded image: `program_entry` is the address of arch_user_program_entry.
unfoldable pub map_trampoline :
    (program_entry address_space : ℕ) → LoadedImage → System → Exec (Option Bootstrap × System)
unfolding give_up
map_trampoline program_entry address_space l s = do
  let page = align_down program_entry
  paging ←
      Paging.map_user_page address_space first_user_layout.trampoline_base page (paging_of s.kernel)
  let s₁ = with_kernel (with_paging paging s.kernel) s
  let good = Paging.mapping_matches address_space first_user_layout.trampoline_base page true paging
  if not good
      then (do
        p ← Elf.release_user_image l s₁.kernel.vfs.heap.palloc
        give_up address_space (with_kernel (with_palloc p s₁.kernel) s₁))
      else ok (
        some (record {
          layout = first_user_layout;
          address_space = address_space;
          trampoline_entry = first_user_layout.trampoline_base + program_entry % 4096;
          user_entry = l.entry;
          image_physical_begin = l.load_physical_begin;
          image_physical_end = l.load_physical_end;
          user_stack_page = l.stack_page;
          user_stack_top = l.stack_top;
        }),
        s₁,
      )

-- syscall_prepare_exec_bootstrap on the image of `size` bytes at `image`, for the program that runs.
unfoldable pub prepare_exec_bootstrap :
    (program_entry image size : ℕ) → Bootstrap → System → Exec (Option Bootstrap × System)
unfolding give_up map_trampoline
prepare_exec_bootstrap program_entry image size current s = do
  let (address_space, paging) = Paging.create_user_address_space (paging_of s.kernel)
  let s₁ = with_kernel (with_paging paging s.kernel) s
  if (address_space == 0) || not (Paging.address_space_valid address_space paging)
      then ok (none, s₁)
      else (do
        (loaded, l, m) ←
            Elf.load_user_image (λ i. s₁.memory (image + i)) size first_user_layout address_space
              current.image_physical_begin current.image_physical_end (machine_of s₁)
        let s₂ = with_machine m s₁
        if loaded
            then map_trampoline program_entry address_space l s₂
            else give_up address_space s₂)

-- What the build decides for SYS_EXEC: the address of arch_user_program_entry, and whether
-- USER_TEST_EXEC_TRANSFER_FAIL is defined.
pub record ExecBuild : Type 0 where
  pub program_entry : ℕ
  pub transfer_fails : Bool

-- The transfer to the new program, and what is given back where it fails.
unfoldable pub transfer :
    (transfer_fails : Bool) (stale_begin stale_end : ℕ) → Bootstrap → ℕ → System → Exec (ℕ × System)
unfolding release_bootstrap
transfer transfer_fails stale_begin stale_end prepared rsp s = do
  let b = if transfer_fails then record prepared { trampoline_entry = 0 } else prepared
  (next_rsp, k) ← Sched.exec_current stale_begin stale_end b s.kernel
  if next_rsp == 0
      then (do k' ← release_bootstrap b k; resume rsp result_error (with_kernel k' s))
      else ok (next_rsp, with_kernel k s)

-- SYS_EXEC behind syscall_copy_path.
unfoldable pub exec_copied :
    (build : ExecBuild) (stale_begin stale_end : ℕ)
    → Option (List ℕ)
    → ℕ
    → System
    → Exec (ℕ × System)
unfolding prepare_exec_bootstrap transfer
exec_copied build stale_begin stale_end copied rsp s = elim copied [
  | none ↦ resume rsp result_error s
  | some path ↦ (do
    (file, vfs) ← Vfs.open_exec_path path s.kernel.vfs
    let s₁ = with_kernel (record s.kernel { vfs = vfs }) s
    if file == 0 then resume rsp result_error s₁ else (do
      found ← Vfs.executable_image file vfs
      (closed, vfs') ← Vfs.file_close file vfs
      let s₂ = with_kernel (record s.kernel { vfs = vfs' }) s
      elim found [
        | none ↦ resume rsp result_error s₂
        | some (image, size) ↦
            if not (closed == 0)
            then resume rsp result_error s₂
            else elim (Sched.current_user_bootstrap s₂.kernel) [
              | none ↦ resume rsp result_error s₂
              | some current ↦
                  (prepare_exec_bootstrap build.program_entry image size current s₂ >>= λ r.
                  let (prepared, s₃) = r in
                  elim prepared [
                    | none ↦ resume rsp result_error s₃
                    | some new ↦ transfer build.transfer_fails stale_begin stale_end new rsp s₃
                  ])
            ]
      ]))
]

unfoldable pub sys_exec :
    (build : ExecBuild) (stale_begin stale_end : ℕ) → Bootstrap → ℕ → System → Exec (ℕ × System)
unfolding exec_copied
sys_exec build stale_begin stale_end b rsp s = do
  copied ← copy_path (frame_rdi rsp s.kernel) b.address_space b.layout s
  exec_copied build stale_begin stale_end copied rsp s
