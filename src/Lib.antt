-- ===== src/Lib.antt =====
-- A verification library for the kernel of Platinum, a small x86-64 system: a page allocator on the
-- firmware's memory map, a heap, four-level page tables, a loader of ELF programs, a virtual file
-- system with descriptor tables, two tasks under a timer, and system calls.
--
-- The parts, with the files of the repository that they model:
--   Prelude   what the modules share: lists and tests on native numbers, machine words, finite maps
--             from addresses to objects, `Exec`, the outcome of a kernel operation, and texts
--   Memmap    src/kernel/memmap.c: the descriptors of the firmware and the largest usable region
--   Palloc    src/kernel/palloc.c: the free list as the list of its page addresses, taken from the
--             region of Memmap
--   Heap      src/kernel/heap.c: the chain of block headers, grown with pages of Palloc
--   Paging    src/kernel/paging.c: the words of the table pages, `table p i`, and cr3; tables are
--             pages of Palloc
--   Elf       src/kernel/elf.c: `Format` reads and checks an image, Elf claims the load window in
--             Palloc, writes the bytes of physical memory and maps pages with Paging
--   Vfs       src/kernel/vfs.c and the console callbacks of src/kernel/fd.c: nodes and open files at
--             addresses of Heap, the walk along a path, and the namespace of src/kernel/vfs.c,
--             whose embedded programs, which the build generates, are an argument
--   Fd        src/kernel/fd.c: the sixteen entries of a table, which refer to files of Vfs
--   Sched     src/kernel/sched.c: the two tasks with their stacks, tables and address spaces, and the
--             loop of the kernel's task
--   Syscall   src/kernel/core.c: the entry of `int 0x80`, the checks of user memory, and the timer
--   Descriptors  src/kernel/gdt.c and src/kernel/idt.c: the bytes and words of the processor's tables,
--             and how the processor reads them
--   User      src/user: the wrappers of the system calls, the loop of the programs, and their variants
--             for tests (`Passes`, `Invalid`, `Report` and `Messages` are about these), each a
--             tree of calls that `run` takes through the entry of Syscall; `Runs` are its steps where
--             each succeeds. `Reached` tells what a call does by the arguments of its wrapper
--   Console   the functions of the kernel that print addresses and numbers, and in `Trap` the reports
--             of exceptions of src/kernel/core.c
--   Start     src/kernel/core.c: `Configure` makes the first program, `Main` is kernel_main, which
--             starts all the parts above in order
--   Drivers   src/drivers/pic.c, pit.c and serial.c: the writes to ports, in order
--
-- The state is passed on explicitly. Each layer holds the state of those below it, as the globals of
-- the C files do: a Heap has the Palloc, a Vfs the Heap, a Kernel the Vfs, the tables and the
-- tasks, a System the Kernel, the bytes of memory and the ticks. A definition has the name of the C
-- function without the prefix of its file; a loop of the code is a definition of its own.
--
-- Addresses and integers are natural numbers, and what wraps around in C is reduced modulo 2 ^ 64
-- (`u64`, `sub64`, `align_up`) or 2 ^ 32 (`u32`) where it does. An `int` is its 32-bit pattern, so -1 is
-- `minus_one`. NULL is 0. `halt` is the kernel stopping for ever, as it does after an error message;
-- `fault` is following a pointer to no object of the expected kind, or a loop that does not end.
--
-- Loops run on lists where the code walks a chain, on the number of rounds where it counts, and on
-- fuel elsewhere. The fuel: a round for each page of a range and one for the exit in `window` and in
-- `user_range_mapped`, a round for each byte of a path in `walk_path`, twenty digits and the exit in
-- `digits`; `fill`, `parse_loop`, `identity_map` and `wait_ready` take it as an argument. The endless loop
-- of the user programs runs over the list of what its calls for the ticks return.
--
-- The functions of the firmware are arguments, with a state of their own. The test programs run without
-- interruption: a call of the timer between two of their calls is not part of `run`; their
-- loops that wait take the number of rounds. The self tests are modules SelfTest beside their part.
--
-- Not modelled: the instructions that load the processor's tables and that flush cached translations,
-- and task_idle, which only waits. The addresses that the build decides are arguments, and so are
-- the values that sched_release_user_bootstrap leaves uninitialised.
pub mod Prelude
pub mod Palloc
pub mod Memmap
pub mod Heap
pub mod Paging
pub mod Elf
pub mod Vfs
pub mod Fd
pub mod Sched
pub mod Syscall
pub mod User
pub mod Console
pub mod Descriptors
pub mod Drivers
pub mod Start
