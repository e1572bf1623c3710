-- ===== src/Start/Checked.antt =====
-- What configure_first_user_task of src/kernel/core.c has made sure of when it returns.
use platinum.Prelude.{
  ℕ, ◌-◌, ◌≡◌, inl, inr, refl, ap, arith, Bool, true, false, ◌||◌, ◌==◌, if◌then◌else◌, ok, halt,
  Bool-cases, align_down,
}
use platinum.Palloc
use platinum.Paging
use platinum.Elf
use platinum.Elf.Format.{validate_header}
use platinum.Sched
use platinum.Sched.Tasks.{Bootstrap, Kernel, paging_of, with_palloc}
use platinum.Syscall.User.{System}
use platinum.Syscall.Frame.{machine_of, with_machine, with_kernel}
use platinum.Syscall.Program.{first_user_layout}
use platinum.Start.Ensures.{
  Ensures, Ensures-bind, Ensures-check, Ensures-if, Ensures-map, Ensures-returns, Ensures-then,
  Ensures-with,
}
use platinum.Start.Configure.{
  Build, bad_user_image, all_supervisor_only, image_loaded, image_good, built_in_good, image_mapped,
  built_in_mapped, configure_image, configure_built_in, built_in_map, hand_over, configure_in,
  configure_first_user_task, with_tables,
}

-- The program of `b` can be entered: its trampoline is mapped for it, and the pages of the trampoline
-- and of its stack are mapped for the kernel alone where the kernel reaches them.
pub record CanEnter (build : Build) (b : Bootstrap) (s : System) : Type 0 where
  pub layout : b.layout ≡ first_user_layout
  pub trampoline :
      Paging.mapping_matches b.address_space first_user_layout.trampoline_base
        (align_down build.program_entry)
        true
        (paging_of s.kernel)
      ≡ true
  pub code_hidden :
      Paging.mapping_is_supervisor_only b.address_space
        (align_down build.program_entry)
        (paging_of s.kernel)
      ≡ true
  pub stack_hidden :
      Paging.mapping_is_supervisor_only b.address_space b.user_stack_page (paging_of s.kernel)
      ≡ true

abbrev EntersProgram : Build → Bootstrap × System → Type 0
EntersProgram build (b, s) = CanEnter build b s

module _ (build : Build) (a : ℕ) where
  image_mapped-CanEnter :
      (l : Elf.LoadedImage) (p : Paging.Paging) (s : System)
      → Ensures (EntersProgram build) (image_mapped build a l p s)
  unfolding image_mapped
  image_mapped-CanEnter l p s = elim (Bool-cases (image_good build a l p)) [
    | inr bad ↦ rw (bad, image_mapped) tt
    | inl good ↦
        rw (good, image_mapped)
          (record {
            layout = refl;
            trampoline = unfold image_good all_supervisor_only in ground (arith, good);
            code_hidden = unfold image_good all_supervisor_only in ground (arith, good);
            stack_hidden = unfold image_good all_supervisor_only in ground (arith, good);
          })
  ]

  built_in_mapped-CanEnter :
      (stack : ℕ) (p : Paging.Paging) (s : System)
      → Ensures (EntersProgram build) (built_in_mapped build a stack p s)
  unfolding built_in_mapped
  built_in_mapped-CanEnter stack p s = elim (Bool-cases (built_in_good build a stack p)) [
    | inr bad ↦ rw (bad, built_in_mapped) tt
    | inl good ↦
        rw (good, built_in_mapped)
          (record {
            layout = refl;
            trampoline = unfold built_in_good all_supervisor_only in ground (arith, good);
            code_hidden = unfold built_in_good all_supervisor_only in ground (arith, good);
            stack_hidden = unfold built_in_good all_supervisor_only in ground (arith, good);
          })
  ]

  image_loaded-CanEnter :
      (r : Bool × Elf.LoadedImage × Elf.Machine) (s : System)
      → Ensures (EntersProgram build) (image_loaded build a r s)
  unfolding image_loaded
  image_loaded-CanEnter (true, l, m) s =
      Ensures-bind (EntersProgram build) _ _ (λ p. image_mapped-CanEnter l p (with_machine m s))
  image_loaded-CanEnter (false, l, m) s = tt

  -- The image of USER_TEST_BAD_ELF is refused.
  bad_image-refused :
      (m : Elf.Machine)
      → Elf.load_user_image bad_user_image 4 first_user_layout a 0 0 m
        ≡ ok (false, Elf.cleared_image, m)
  unfolding Elf.load_user_image Elf.plan validate_header
  bad_image-refused m = refl

  image-CanEnter :
      (s : System)
      → Ensures (λ r. EntersProgram build r × (build.bad_elf ≡ false)) (configure_image build a s)
  unfolding configure_image
  image-CanEnter s = elim (Bool-cases build.bad_elf) [
    | inl bad ↦ rw (bad, configure_image, bad_image-refused (machine_of s), image_loaded) tt
    | inr fine ↦ Ensures-bind _ (Elf.load_user_image _ _ _ _ _ _ _) _ (λ r.
        Ensures-with (EntersProgram build) (build.bad_elf ≡ false) _ fine
          (image_loaded-CanEnter r s))
  ]

  built_in_map-CanEnter :
      (stack : ℕ) (s : System) → Ensures (EntersProgram build) (built_in_map build a stack s)
  unfolding built_in_map
  built_in_map-CanEnter stack s =
      let l = first_user_layout in
      let page = align_down build.program_entry in
      let entry_page = align_down build.init_main in
      Ensures-bind (EntersProgram build)
        (Paging.map_user_page a l.trampoline_base page (paging_of s.kernel)) _
        (λ p₁.
          Ensures-bind (EntersProgram build) (Paging.map_user_page a l.image_base entry_page p₁) _
            (λ p₂.
              Ensures-bind (EntersProgram build)
                (Paging.map_user_page a (l.stack_top - 4096) stack p₂) _
                (λ p₃. built_in_mapped-CanEnter stack p₃ s)))

  built_in-CanEnter : (s : System) → Ensures (EntersProgram build) (configure_built_in build a s)
  unfolding configure_built_in
  built_in-CanEnter s =
      let (stack, palloc) = Palloc.alloc s.kernel.vfs.heap.palloc in
      let s₁ = with_kernel (with_palloc palloc s.kernel) s in
      elim (Bool-cases (stack == 0)) [
        | inl out ↦ rw (out, configure_built_in) tt
        | inr there ↦ rw (there, configure_built_in) (built_in_map-CanEnter stack s₁)
      ]

-- What the scheduler is given.
pub record Configured (build : Build) (s : System) : Type 0 where
  pub enabled : s.kernel.user_task_enabled ≡ true
  pub complete : Sched.bootstrap_complete s.kernel.user_task_bootstrap ≡ true
  pub enters : CanEnter build s.kernel.user_task_bootstrap s
  pub good_bootstrap : build.bad_bootstrap ≡ false
  pub good_image : build.use_elf ≡ true → build.bad_elf ≡ false

module _ (build : Build) where
  -- The program that the build asks for.
  abbrev Chosen : Bootstrap × System → Type 0
  Chosen r = EntersProgram build r × (build.use_elf ≡ true → build.bad_elf ≡ false)

  chosen :
      (a : ℕ) (s : System)
      → Ensures Chosen
          (if build.use_elf then configure_image build a s else configure_built_in build a s)
  chosen a s =
      Ensures-if Chosen build.use_elf (configure_image build a s) (configure_built_in build a s)
        (λ elf.
          Ensures-map _ Chosen _ (λ (r : Bootstrap × System) p. (p.0, λ h. p.1))
            (image-CanEnter build a s))
        (λ built_in.
          Ensures-with (EntersProgram build) _ _ (λ h. cc (h)) (built_in-CanEnter build a s))

  -- sched_enable_user_task returns with the bootstrap that it was given, which is complete.
  enable_user_task_complete :
      (b : Bootstrap) (k : Kernel)
      → Ensures
          (λ k'.
            (k' ≡ record k { user_task_enabled = true; user_task_bootstrap = b })
            × (Sched.bootstrap_complete b ≡ true))
          (Sched.enable_user_task b k)
  unfolding Sched.enable_user_task
  enable_user_task_complete b k = elim (Bool-cases (Sched.bootstrap_complete b)) [
    | inr bad ↦ rw (bad, Sched.enable_user_task) tt
    | inl good ↦
        rw (good, Sched.enable_user_task)
          (Ensures-if _
            ((b.layout.trampoline_base == 0)
              || (b.layout.image_base == 0)
              || (b.layout.stack_top == 0))
            halt _ (λ stop. tt) (λ fine. (refl, refl)))
  ]

  without_trampoline :
      (b : Bootstrap)
      → Sched.bootstrap_complete
          (if build.bad_bootstrap then record b { trampoline_entry = 0 } else b)
        ≡ true
      → build.bad_bootstrap ≡ false
  unfolding Sched.bootstrap_complete
  without_trampoline b h = elim (Bool-cases build.bad_bootstrap) [
    | inl bad ↦ ground arith
    | inr fine ↦ fine
  ]

  hand_over-Configured :
      (r : Bootstrap × System) → Chosen r → Ensures (Configured build) (hand_over build r)
  unfolding hand_over
  hand_over-Configured (b, s) (enters, good) =
      let b' : Bootstrap = if build.bad_bootstrap then record b { trampoline_entry = 0 } else b in
      Ensures-then _ (Configured build) (Sched.enable_user_task b' s.kernel) _
        (enable_user_task_complete b' s.kernel)
        (λ k (e, complete).
          let fine = without_trampoline b complete in
          let same : b' ≡ b = ap (λ t. if t then record b { trampoline_entry = 0 } else b) fine in
          let c : CanEnter build b (
              with_kernel (record s.kernel { user_task_enabled = true; user_task_bootstrap = b })
                s) =
            record {
              layout = enters.layout;
              trampoline = enters.trampoline;
              code_hidden = enters.code_hidden;
              stack_hidden = enters.stack_hidden;
            } in
          rw e (record {
            enabled = refl;
            complete = complete;
            enters = rw same c;
            good_bootstrap = fine;
            good_image = good;
          }))

  configure_in-Configured :
      (a : ℕ) (s : System) → Ensures (Configured build) (configure_in build a s)
  unfolding configure_in
  configure_in-Configured a s =
      Ensures-then Chosen (Configured build) _ (hand_over build) (chosen a s) hand_over-Configured

pub configure-Ensures :
    (build : Build) (s : System) → Ensures (Configured build) (configure_first_user_task build s)
unfolding configure_first_user_task
configure-Ensures build s =
    let (a, paging) = Paging.create_user_address_space (paging_of s.kernel) in
    let s₁ = with_tables paging s in
    Ensures-check (Configured build) _ (configure_in build a s₁)
      (λ usable. configure_in-Configured build a s₁)

-- Where configure_first_user_task returns, the user task is enabled, with a complete bootstrap that has
-- the layout of first_user_layout; in its address space the trampoline is mapped for the program, and
-- the pages of the trampoline and of the stack are mapped for the kernel alone where the kernel
-- reaches them. It does not return in a build for USER_TEST_BAD_BOOTSTRAP, nor in one that loads the
-- image of USER_TEST_BAD_ELF.
pub configure_first_user_task-Configured :
    (build : Build) (s s' : System)
    → configure_first_user_task build s ≡ ok s'
    → Configured build s'
configure_first_user_task-Configured build s s' h =
    Ensures-returns (Configured build) (configure_first_user_task build s) s'
      (configure-Ensures build s) h
