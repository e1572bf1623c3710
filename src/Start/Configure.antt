-- ===== src/Start/Configure.antt =====
-- configure_first_user_task of src/kernel/core.c: the first program, before the scheduler starts.
use platinum.Prelude.{
  ℕ, ◌+◌, ◌-◌, ◌%◌, Bool, true, not, ◌&&◌, List, [], ◌∷◌, ◌==◌, if◌then◌else◌, Exec, ok, halt,
  ◌>>=◌, sub64, align_down,
}
use platinum.Palloc
use platinum.Paging
use platinum.Elf
use platinum.Elf.{LoadedImage}
use platinum.Sched
use platinum.Sched.Tasks.{Bootstrap, paging_of, with_palloc, with_paging, no_bootstrap}
use platinum.Syscall.User.{System}
use platinum.Syscall.Frame.{with_kernel, machine_of, with_machine}
use platinum.Syscall.Program.{first_user_layout}

-- What the build decides: the switches USER_INIT_USE_ELF, USER_TEST_BAD_ELF and USER_TEST_BAD_BOOTSTRAP,
-- the image of the first program, and the addresses of arch_user_program_entry and user_init_main.
pub record Build : Type 0 where
  pub use_elf : Bool
  pub bad_elf : Bool
  pub bad_bootstrap : Bool
  pub image : ℕ → ℕ
  pub image_size : ℕ
  pub program_entry : ℕ
  pub init_main : ℕ

-- The four bytes of `bad_user_image`.
unfoldable pub bad_user_image : ℕ → ℕ
bad_user_image i =
    if i == 0
    then 0
    else if i == 1
    then 0x45
    else if i == 2
    then 0x4c
    else if i == 3
    then 0x46
    else 0

-- The pages of a list are mapped for the kernel alone.
unfoldable pub all_supervisor_only : ℕ → List ℕ → Paging.Paging → Bool
all_supervisor_only address_space [] s = true
all_supervisor_only address_space (page ∷ pages) s =
    Paging.mapping_is_supervisor_only address_space page s
    && all_supervisor_only address_space pages s

abbrev pub with_tables : Paging.Paging → System → System
with_tables paging s = with_kernel (with_paging paging s.kernel) s

-- The checks of the mappings of an image.
unfoldable pub image_good : Build → ℕ → LoadedImage → Paging.Paging → Bool
unfolding all_supervisor_only
image_good build address_space l paging =
    let page = align_down build.program_entry in
    Paging.mapping_matches address_space first_user_layout.trampoline_base page true paging
    && all_supervisor_only address_space
        (page ∷ l.load_physical_begin ∷ sub64 l.load_physical_end 4096 ∷ l.stack_page ∷ []) paging

unfoldable pub image_mapped :
    Build → ℕ → LoadedImage → Paging.Paging → System → Exec (Bootstrap × System)
unfolding image_good
image_mapped build address_space l paging s =
    if not (image_good build address_space l paging)
    then halt
    else ok (
      record no_bootstrap {
        layout = first_user_layout;
        address_space = address_space;
        trampoline_entry = first_user_layout.trampoline_base + build.program_entry % 4096;
        user_entry = l.entry;
        image_physical_begin = l.load_physical_begin;
        image_physical_end = l.load_physical_end;
        user_stack_page = l.stack_page;
        user_stack_top = l.stack_top;
      },
      with_tables paging s,
    )

-- What follows the load of an image.
unfoldable pub image_loaded :
    Build → ℕ → Bool × LoadedImage × Elf.Machine → System → Exec (Bootstrap × System)
unfolding image_mapped
image_loaded build address_space (loaded, l, m) s =
    let s₁ = with_machine m s in
    let page = align_down build.program_entry in
    if not loaded then halt else (do
      paging ←
          Paging.map_user_page address_space first_user_layout.trampoline_base page
            (paging_of s₁.kernel)
      image_mapped build address_space l paging s₁)

-- The program from an image.
unfoldable pub configure_image : Build → ℕ → System → Exec (Bootstrap × System)
unfolding bad_user_image image_loaded
configure_image build address_space s =
    let image = if build.bad_elf then bad_user_image else build.image in
    let size = if build.bad_elf then 4 else build.image_size in
    Elf.load_user_image image size first_user_layout address_space 0 0 (machine_of s) >>= λ r.
    image_loaded build address_space r s

-- The checks of the mappings of the program that is compiled into the kernel.
unfoldable pub built_in_good : Build → ℕ → (stack : ℕ) → Paging.Paging → Bool
unfolding all_supervisor_only
built_in_good build address_space stack paging =
    let l = first_user_layout in
    let page = align_down build.program_entry in
    let entry_page = align_down build.init_main in
    Paging.mapping_matches address_space l.trampoline_base page true paging
    && (Paging.mapping_matches address_space l.image_base entry_page true paging
        && (Paging.mapping_matches address_space (l.stack_top - 4096) stack true paging
            && all_supervisor_only address_space (page ∷ entry_page ∷ stack ∷ []) paging))

unfoldable pub built_in_mapped :
    Build → ℕ → (stack : ℕ) → Paging.Paging → System → Exec (Bootstrap × System)
unfolding built_in_good
built_in_mapped build address_space stack paging s =
    let l = first_user_layout in
    if not (built_in_good build address_space stack paging)
    then halt
    else ok (
      record no_bootstrap {
        layout = l;
        address_space = address_space;
        trampoline_entry = l.trampoline_base + build.program_entry % 4096;
        user_entry = l.image_base + build.init_main % 4096;
        user_stack_page = stack;
        user_stack_top = l.stack_top;
      },
      with_tables paging s,
    )

-- Its three pages are mapped.
unfoldable pub built_in_map : Build → ℕ → (stack : ℕ) → System → Exec (Bootstrap × System)
unfolding built_in_mapped
built_in_map build address_space stack s = do
  let l = first_user_layout
  let page = align_down build.program_entry
  let entry_page = align_down build.init_main
  p₁ ← Paging.map_user_page address_space l.trampoline_base page (paging_of s.kernel)
  p₂ ← Paging.map_user_page address_space l.image_base entry_page p₁
  p₃ ← Paging.map_user_page address_space (l.stack_top - 4096) stack p₂
  built_in_mapped build address_space stack p₃ s

-- The program that is compiled into the kernel.
unfoldable pub configure_built_in : Build → ℕ → System → Exec (Bootstrap × System)
unfolding built_in_map
configure_built_in build address_space s =
    let (stack, palloc) = Palloc.alloc s.kernel.vfs.heap.palloc in
    let s₁ = with_kernel (with_palloc palloc s.kernel) s in
    if stack == 0 then halt else built_in_map build address_space stack s₁

-- The bootstrap is handed to the scheduler.
unfoldable pub hand_over : Build → Bootstrap × System → Exec System
hand_over build (b, s) = do
  k ←
      Sched.enable_user_task (if build.bad_bootstrap then record b { trampoline_entry = 0 } else b)
        s.kernel
  ok (with_kernel k s)

-- The program in its address space.
unfoldable pub configure_in : Build → ℕ → System → Exec System
unfolding configure_image configure_built_in hand_over
configure_in build address_space s =
    (if build.use_elf
      then configure_image build address_space s
      else configure_built_in build address_space s)
    >>= λ r. hand_over build r

unfoldable pub configure_first_user_task : Build → System → Exec System
unfolding configure_in
configure_first_user_task build s =
    let (address_space, paging) = Paging.create_user_address_space (paging_of s.kernel) in
    let usable =
      not (address_space == 0)
      && (Paging.address_space_valid address_space paging
          && Paging.mapping_is_supervisor_only address_space 0 paging) in
    if not usable then halt else configure_in build address_space (with_tables paging s)
