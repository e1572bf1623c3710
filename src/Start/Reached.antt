-- ===== src/Start/Reached.antt =====
-- What holds once kernel_main of src/kernel/core.c waits for interrupts.
use platinum.Prelude.{
  ℕ, ◌+◌, ◌≡◌, ◌≢◌, ◌++◌, refl, arith, true, false, some, ◌==◌, if◌then◌else◌, ok, Bool-cases, inl,
  inr, Option-cases, u64,
}
use platinum.Memmap.{Memmap}
use platinum.Memmap.Capture.{MapAnswer, capture_and_exit, print_summary}
use platinum.Prelude.Text.{written_line}
use platinum.Palloc
use platinum.Paging
use platinum.Sched.Tasks.{paging_of}
use platinum.Descriptors.Gdt as Gdt
use platinum.Descriptors.Gdt.{Gdt}
use platinum.Descriptors.Decode.{read_le64, set_tss_rsp0-read_le64}
use platinum.Syscall.User.{System}
use platinum.Start.Ensures.{
  Ensures, Ensures-bind, Ensures-then, Ensures-if, Ensures-map, Ensures-const, Ensures-with,
  Ensures-returns,
}
use platinum.Start.Configure.{configure_first_user_task, with_tables}
use platinum.Start.Checked.{Configured, configure-Ensures}
use platinum.Start.Main.{
  Placement, Booted, ended, say, start_stack, start_tasks, start_memory, start_kernel, kernel_main,
}

-- The build is none of those whose first program must be refused.
abbrev pub GoodBuild : Placement → Type 0
GoodBuild p =
    p.enabled ≡ true
    → (p.build.bad_bootstrap ≡ false) × (p.build.use_elf ≡ true → p.build.bad_elf ≡ false)

-- The processor takes the end of a page, which is not NULL, as its stack for interrupts.
abbrev pub HasStack : Gdt → Type 0
HasStack g = (page : ℕ) × (page ≢ 0) × (read_le64 4 g.tss ≡ u64 (page + 4096))

stack-HasStack : (g : Gdt) (s : System) → Ensures (λ r. HasStack r.0) (start_stack g s)
unfolding start_stack
stack-HasStack g s = elim (Bool-cases ((Palloc.alloc s.kernel.vfs.heap.palloc).0 == 0)) [
  | inl out ↦ rw (out, start_stack) tt
  | inr there ↦
      rw (there, start_stack)
        (
          (Palloc.alloc s.kernel.vfs.heap.palloc).0,
          ground (arith, there),
          (set_tss_rsp0-read_le64 _ g (omega arith)).0,
        )
]

tasks-GoodBuild :
    (fuel : ℕ) (m : Memmap) (p : Placement) (s : System)
    → Ensures (λ s'. GoodBuild p) (start_tasks fuel m p s)
unfolding start_tasks
tasks-GoodBuild fuel m p s =
    Ensures-bind (λ s'. GoodBuild p) (Paging.initialize fuel m (paging_of s.kernel)) _
      (λ paging.
        let s₁ =
          say (written_line "paging 4k ok" ++ (written_line "pic ok" ++ written_line "pit ok"))
            (with_tables paging s) in
        Ensures-then (λ (s₂ : System). GoodBuild p) (λ s'. GoodBuild p)
          (if p.enabled then configure_first_user_task p.build s₁ else ok s₁) _
          (Ensures-if (λ s₂. GoodBuild p) p.enabled (configure_first_user_task p.build s₁) (ok s₁)
            (λ on.
              Ensures-map (Configured p.build) (λ s₂. GoodBuild p) _
                (λ s₂ c h. (c.good_bootstrap, c.good_image)) (configure-Ensures p.build s₁))
            (λ off h. cc (off, h)))
          (λ s₂ good. Ensures-const (GoodBuild p) _ good))

abbrev pub IsBooted : Placement → Booted → Type 0
IsBooted p b = HasStack b.gdt × GoodBuild p

kernel-IsBooted :
    (fuel : ℕ) (m : Memmap) (p : Placement) (s : System)
    → Ensures (IsBooted p) (start_kernel fuel m p s)
unfolding start_kernel
kernel-IsBooted fuel m p s = Ensures-bind (IsBooted p) (ended (print_summary m)) _ (λ summary.
    let s₁ = say (summary ++ (written_line "exit ok" ++ written_line "gdt ok")) s in
    Ensures-bind (IsBooted p) (start_memory fuel m p (say (written_line "idt ok") s₁)) _ (λ s₂.
      Ensures-then (λ (r : Gdt × System). HasStack r.0) (IsBooted p)
        (start_stack (Gdt.initialize p.places) s₂) _ (stack-HasStack (Gdt.initialize p.places) s₂)
        (λ r stack.
          Ensures-then (λ (s₄ : System). GoodBuild p) (IsBooted p) (start_tasks fuel m p r.1) _
            (tasks-GoodBuild fuel m p r.1) (λ s₄ good. (stack, good)))))

module _ {F : Type 0} (get_memory_map : F → F × MapAnswer)
    (exit_boot_services : ℕ → F → F × ℕ) where
  -- The exit from the boot services has succeeded.
  abbrev pub HasExited : ℕ → F → Memmap → Type 0
  HasExited fuel f m =
      (m' : Memmap) × (f' : F) × (capture_and_exit get_memory_map exit_boot_services fuel f m
        ≡ some (true, m', f'))

  main-Ensures :
      (fuel : ℕ) (f : F) (m : Memmap) (p : Placement) (s : System)
      → Ensures
          (λ b. IsBooted p b × HasExited fuel f m)
          (kernel_main get_memory_map exit_boot_services fuel f m p s)
  unfolding kernel_main
  main-Ensures fuel f m p s =
      elim (Option-cases (capture_and_exit get_memory_map exit_boot_services fuel f m)) [
        | inl out ↦ rw (out, kernel_main) tt
        | inr ((true, m', f'), found) ↦
            let started =
              say (written_line "kernel_main" ++ written_line "efi live")
                (record s { ticks = 0 }) in
            rw (found, kernel_main)
              (Ensures-with (IsBooted p)
                ((m₁ : Memmap) × (f₁ : F) × (some (true, m', f') ≡ some (true, m₁, f₁)))
                (start_kernel fuel m' p started) (m', f', refl) (kernel-IsBooted fuel m' p started))
        | inr ((false, m', f'), found) ↦ rw (found, kernel_main) tt
      ]

-- Where kernel_main comes to its loop that waits for interrupts, the firmware has let the kernel leave the
-- boot services, the processor takes the end of a page that is not NULL as the stack for interrupts, and,
-- where the build has a first program, it is none of the builds whose bootstrap or image is bad.
pub kernel_main-IsBooted :
    {F : Type 0} (get_memory_map : F → F × MapAnswer) (exit_boot_services : ℕ → F → F × ℕ)
    (fuel : ℕ) (f : F) (m : Memmap) (p : Placement) (s : System) (b : Booted)
    → kernel_main get_memory_map exit_boot_services fuel f m p s ≡ ok b
    → IsBooted p b × HasExited get_memory_map exit_boot_services fuel f m
kernel_main-IsBooted get exit fuel f m p s b h =
    Ensures-returns (λ b. IsBooted p b × HasExited get exit fuel f m)
      (kernel_main get exit fuel f m p s) b (main-Ensures get exit fuel f m p s) h
