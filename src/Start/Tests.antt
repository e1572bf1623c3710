-- ===== src/Start/Tests.antt =====
-- The theorem on configure_first_user_task of src/kernel/core.c at a small machine.
use platinum.Prelude.{
  ℕ, ◌+◌, ◌*◌, ◌≡◌, refl, false, [], ◌∷◌, ◌==◌, ◌&&◌, if◌then◌else◌, Exec, ok, halt, fault,
}
use platinum.Palloc
use platinum.Palloc.{Palloc}
use platinum.Paging
use platinum.Sched
use platinum.Sched.Tests.{two_tasks}
use platinum.Syscall.User.{System}
use platinum.Start.Configure.{
  Build, all_supervisor_only, built_in_good, built_in_mapped, built_in_map, configure_built_in,
  hand_over, configure_in, configure_first_user_task,
}
use platinum.Start.Checked.{Configured, configure_first_user_task-Configured}

-- The kernel's tables map the first two megabytes; ten pages of them are free.
abbrev kernel_tables : ℕ → ℕ → ℕ
kernel_tables p i =
    if (p == 0x1000) && (i == 0)
    then 0x2003
    else if (p == 0x2000) && (i == 0)
    then 0x3003
    else if (p == 0x3000) && (i == 0)
    then 0x4003
    else if p == 0x4000
    then i * 4096 + 3
    else 0

abbrev ten_pages : Palloc
ten_pages = record {
  free_list =
      0x180000 ∷ 0x181000 ∷ 0x182000 ∷ 0x183000 ∷ 0x184000 ∷ 0x185000 ∷ 0x186000 ∷ 0x187000
      ∷ 0x188000 ∷ 0x189000 ∷ [];
  region_begin = 0x180000;
  region_end = 0x18a000;
  free_page_count = 10;
}

abbrev booting : System
booting = record {
  kernel = record two_tasks {
    vfs = record two_tasks.vfs { heap = record two_tasks.vfs.heap { palloc = ten_pages } };
    table = kernel_tables;
    kernel_pml4 = 0x1000;
    cr3 = 0x1000;
  };
  memory = λ a. 0;
  ticks = 0;
}

abbrev small_build : Build
small_build = record {
  use_elf = false;
  bad_elf = false;
  bad_bootstrap = false;
  image = λ i. 0;
  image_size = 0;
  program_entry = 0x100040;
  init_main = 0x101080;
}

abbrev system_of : Exec System → System
system_of (ok s) = s
system_of halt = booting
system_of fault = booting

booting-returns :
    configure_first_user_task small_build booting
    ≡ ok (system_of (configure_first_user_task small_build booting))
unfolding configure_first_user_task configure_in hand_over configure_built_in built_in_map
    built_in_mapped built_in_good all_supervisor_only Palloc.alloc Paging.create_user_address_space
    Paging.address_space_valid Paging.mapping_is_supervisor_only Paging.mapping_matches
    Paging.map_user_page Sched.enable_user_task Paging.alloc_table Paging.fill_page
    Paging.walk_to_pt Paging.entry_address Paging.ensure_private_user_path Paging.make_private
    Paging.copy_table Paging.write_entry Paging.or_flags Paging.map_page_4k
    Paging.get_or_create_next Paging.entry_below
booting-returns = refl

configure_first_user_task-Configured_example :
    Configured small_build (system_of (configure_first_user_task small_build booting))
configure_first_user_task-Configured_example =
    configure_first_user_task-Configured small_build booting _ booting-returns
