-- ===== src/Syscall/User.antt =====
-- The boundary between user memory and the system calls of src/kernel/core.c: which addresses a call
-- may use, and the copying of a path.
use platinum.Prelude.{
  ℕ, zero, suc, ◌+◌, ◌-◌, Bool, true, false, not, ◌&&◌, ◌||◌, Option, none, some, List, [], ◌%◌,
  ◌∷◌, leb, ltb, ◌==◌, if◌then◌else◌, Exec, ok, fault, ◌>>=◌, u64,
}
use platinum.Paging
use platinum.Paging.{Paging, Layout, walk_to_pt, entry_address, pt_index}
use platinum.Sched.Tasks.{Kernel, paging_of}

-- The kernel, the bytes of physical memory, and `kernel_ticks`.
pub record System : Type 0 where
  pub kernel : Kernel
  pub memory : ℕ → ℕ
  pub ticks : ℕ

unfoldable pub buffer_valid : ℕ → ℕ → Bool
buffer_valid buffer count = if count == 0 then true else not (buffer == 0)

unfoldable pub user_range_in_layout : Layout → ℕ → ℕ → Bool
user_range_in_layout l start count =
    let end = u64 (start + (count - 1)) in
    if ltb start l.trampoline_base || leb l.stack_top start
    then false
    else if count == 0
    then true
    else if ltb end start || leb l.stack_top end
    then false
    else true

-- `none`: the check of the pages does not end.
unfoldable pub user_buffer_valid : ℕ → Layout → ℕ → ℕ → Paging → Option Bool
unfolding buffer_valid
user_buffer_valid address_space l buffer count s =
    if not (buffer_valid buffer count)
    then some false
    else if count == 0
    then some true
    else if not (user_range_in_layout l buffer count)
    then some false
    else Paging.user_range_mapped address_space buffer count s

-- The physical address that the processor uses for a virtual one, under the tables that cr3 names.
unfoldable pub translate : ℕ → Paging → ℕ
unfolding walk_to_pt entry_address
translate va s = entry_address (s.table (walk_to_pt s.cr3 va s) (pt_index va)) + va % 4096

unfoldable pub user_byte : ℕ → System → ℕ
unfolding translate
user_byte va s = s.memory (translate va (paging_of s.kernel)) % 256

-- `buffer[0]` to `buffer[n - 1]` of a user buffer.
unfoldable pub read_user : ℕ → ℕ → System → List ℕ
unfolding user_byte
read_user zero va s = []
read_user (suc n) va s = user_byte va s ∷ read_user n (va + 1) s

-- `buffer[0] = bytes[0]` and so on.
unfoldable pub write_user : ℕ → List ℕ → System → System
unfolding translate
write_user va [] s = s
write_user va (b ∷ bytes) s =
    let pa = translate va (paging_of s.kernel) in
    write_user (va + 1) bytes (record s { memory = λ a. if a == pa then b else s.memory a })

-- One byte of the source of syscall_copy_path may be read.
unfoldable pub path_byte_valid : Layout → ℕ → ℕ → ℕ → Paging → Option Bool
path_byte_valid l address_space src index s =
    let address = u64 (src + index) in
    if ltb address src || not (user_range_in_layout l address 1)
    then some false
    else Paging.user_range_mapped address_space address 1 s

abbrev pub prepend : ℕ → Option (List ℕ) → Option (List ℕ)
prepend byte none = none
prepend byte (some path) = some (byte ∷ path)

-- The loop of syscall_copy_path for the `rounds` bytes from `index` on: the path behind them up to
-- its NUL, or `none` where syscall_copy_path returns 0. A check that does not end is a `fault`.
unfoldable pub copy_loop : ℕ → ℕ → ℕ → ℕ → Layout → System → Exec (Option (List ℕ))
copy_loop zero index src address_space l s = ok none
copy_loop (suc rounds) index src address_space l s =
    let byte = user_byte (src + index) s in
    let later =
      copy_loop rounds (index + 1) src address_space l s >>= λ rest. ok (prepend byte rest) in
    elim (path_byte_valid l address_space src index (paging_of s.kernel)) [
      | none ↦ fault
      | some false ↦ ok none
      | some true ↦
          if (index == 0) && not (byte == b'/')
          then ok none
          else if byte == 0
          then ok (some [])
          else later
    ]

-- sizeof(path)
abbrev pub path_size : ℕ
path_size = 64

-- syscall_copy_path into a buffer of 64 bytes.
unfoldable pub copy_path : ℕ → ℕ → Layout → System → Exec (Option (List ℕ))
unfolding copy_loop
copy_path src address_space l s =
    if src == 0 then ok none else copy_loop (path_size - 1) 0 src address_space l s
