-- ===== src/Syscall/Checks.antt =====
-- What the checks of user memory in src/kernel/core.c let through.
use native.Mathlib.Decide.{dec_lt}
use platinum.Prelude.{
  ℕ, zero, suc, ◌+◌, ◌-◌, ◌^◌, ◌≤◌, ◌<◌, ◌≡◌, ◌≢◌, ◌↔◌, ◌⊎◌, inl, inr, refl, true, Option, none,
  some, List, [], ◌∷◌, arith, ◌==◌, u64, align_down, Bool-cases, length, Exec, ok, halt, fault,
  ◌>>=◌, get_elem?,
}
use platinum.Paging.{Paging, Layout, user_page_mapped}
use platinum.Paging.Range.{Decides, user_range_mapped-Decides}
use platinum.Sched.Tasks.{paging_of}
use platinum.Syscall.User.{
  System, user_range_in_layout, user_buffer_valid, user_byte, path_byte_valid, prepend, copy_loop,
  copy_path, path_size,
}

-- A byte that a program may hand to the kernel: inside its layout, on a page mapped for user code.
abbrev pub IsUserByte : ℕ → Layout → Paging → ℕ → Type 0
IsUserByte address_space l s address =
    (l.trampoline_base ≤ address)
    × (address < l.stack_top)
    × (user_page_mapped address_space (align_down address) s ≡ true)

-- The part of the check that concerns the layout alone.
range_in_layout_iff :
    (l : Layout) (start count : ℕ)
    → start < 2 ^ 64
    → count < 2 ^ 64
    → 0 < count
    → l.stack_top < 2 ^ 64
    → (user_range_in_layout l start count ≡ true)
      ↔ ((l.trampoline_base ≤ start) × (start + count ≤ l.stack_top))
unfolding user_range_in_layout
range_in_layout_iff l start count s c pos top =
    (λ h. (ground arith, ground arith), λ h. ground (arith, h.0, h.1))

-- syscall_user_buffer_valid on a buffer of at least one byte: the check ends, and it passes exactly
-- when the buffer is not NULL and every byte of it is one that the program may hand over. The
-- arguments are machine words.
pub user_buffer_valid-Decides :
    (address_space : ℕ) (l : Layout) (buffer count : ℕ) (s : Paging)
    → address_space ≢ 0
    → l.stack_top < 2 ^ 64
    → buffer < 2 ^ 64
    → count < 2 ^ 64
    → 0 < count
    → Decides (user_buffer_valid address_space l buffer count s) (
        (buffer ≢ 0)
        × ((address : ℕ)
            → buffer ≤ address
            → address < buffer + count
            → IsUserByte address_space l s address))
unfolding user_buffer_valid
user_buffer_valid-Decides a l buffer count s ne top b c pos = elim (Bool-cases (buffer == 0)) [
  | inl null ↦ inr (ground arith, λ p. p.0 (ground arith))
  | inr not_null ↦ elim (Bool-cases (user_range_in_layout l buffer count)) [
    | inr outside ↦ inr (
      ground arith,
      λ p.
          let first = p.1 buffer (omega arith) (omega arith) in
          let last = p.1 (buffer + count - 1) (omega arith) (omega arith) in
          cc (
            outside,
            (range_in_layout_iff l buffer count b c pos top).1 (omega arith, omega arith),
          ),
    )
    | inl inside ↦
        let bounds = (range_in_layout_iff l buffer count b c pos top).0 inside in
        elim (user_range_mapped-Decides a buffer count s ne pos (omega arith)) [
          | inl (found, all) ↦
              inl (ground arith, (ground arith, λ x lo hi. (omega arith, omega arith, all x lo hi)))
          | inr (found, unmapped) ↦ inr (ground arith, λ p. unmapped λ x lo hi. (p.1 x lo hi).2)
        ]
  ]
]

-- What a path of user memory is: the bytes of `path` and the NUL behind them are bytes that the
-- program may hand over, and stand at `src` and the addresses that follow it.
pub record Copied (a src : ℕ) (l : Layout) (s : System) (path : List ℕ) : Type 0 where
  pub readable : (i : ℕ) → i ≤ length path → IsUserByte a l (paging_of s.kernel) (src + i)
  pub bytes : (i : ℕ) → i < length path → get_elem? path i ≡ some (user_byte (src + i) s)
  pub no_nul : (i : ℕ) → i < length path → user_byte (src + i) s ≢ 0
  pub nul : user_byte (src + length path) s ≡ 0

module _ (a src : ℕ) (l : Layout) (s : System) (ne : a ≢ 0) (top : l.stack_top < 2 ^ 64) where
  pub byte_valid-IsUserByte :
      (index : ℕ)
      → src < 2 ^ 64
      → index < 64
      → path_byte_valid l a src index (paging_of s.kernel) ≡ some true
      → IsUserByte a l (paging_of s.kernel) (src + index)
  unfolding path_byte_valid user_range_in_layout
  byte_valid-IsUserByte index b small h =
      let fits : src + index < 2 ^ 64 = ground arith in
      let e : u64 (src + index) ≡ src + index = omega arith in
      let h' = rw (e, path_byte_valid, user_range_in_layout) at h in
      elim (user_range_mapped-Decides a (src + index) 1 (paging_of s.kernel) ne (omega arith)
        (omega arith)) [
          | inl (found, all) ↦
              (ground arith, ground arith, all (src + index) (omega arith) (omega arith))
          | inr (found, unmapped) ↦ absurd (ground arith)
        ]

  -- A path is put together from its first byte and a path that starts behind it.
  Copied-prepend :
      (at : ℕ) (path : List ℕ)
      → IsUserByte a l (paging_of s.kernel) at
      → user_byte at s ≢ 0
      → Copied a (at + 1) l s path
      → Copied a at l s (user_byte at s ∷ path)
  Copied-prepend at path valid visible c = record {
    readable = λ i le. elim (dec_lt 0 i) [
      | yes pos ↦
          let e : at + 1 + (i - 1) ≡ at + i = omega arith in
          rw e at (c.readable (i - 1) (omega arith))
      | no first ↦ let e : at + i ≡ at = omega arith in rw e valid
    ];
    bytes = bytes;
    no_nul = λ i lt. elim (dec_lt 0 i) [
      | yes pos ↦
          let e : at + 1 + (i - 1) ≡ at + i = omega arith in
          rw e at (c.no_nul (i - 1) (omega arith))
      | no first ↦ let e : at + i ≡ at = omega arith in rw e visible
    ];
    nul = let e : at + 1 + length path ≡ at + suc (length path) = omega arith in rw e at c.nul;
  }
    where
      bytes :
          (i : ℕ)
          → i < suc (length path)
          → get_elem? (user_byte at s ∷ path) i ≡ some (user_byte (at + i) s)
      bytes zero lt = let e : at + 0 ≡ at = omega arith in rw e refl
      bytes (suc i) lt =
          let e : at + 1 + i ≡ at + suc i = omega arith in rw e at (c.bytes i (omega arith))

  -- A path that goes on is a byte before a path.
  copied-cases :
      (byte : ℕ) (r : Exec (Option (List ℕ))) (path : List ℕ)
      → (r >>= λ rest. ok (prepend byte rest)) ≡ ok (some path)
      → (rest : List ℕ) × (r ≡ ok (some rest)) × (path ≡ byte ∷ rest)
  copied-cases byte (ok none) path h = cc
  copied-cases byte (ok (some rest)) path h = (rest, refl, ground arith)
  copied-cases byte halt path h = cc
  copied-cases byte fault path h = cc

  -- What a round that does not fail has checked.
  round_checks :
      (rounds index : ℕ) (path : List ℕ)
      → copy_loop (suc rounds) index src a l s ≡ ok (some path)
      → (path_byte_valid l a src index (paging_of s.kernel) ≡ some true)
        × (index ≡ 0 → user_byte (src + index) s ≡ b'/')
        × (((user_byte (src + index) s ≡ 0) × (path ≡ []))
            ⊎ ((user_byte (src + index) s ≢ 0)
                × ((copy_loop rounds (index + 1) src a l s >>= λ rest.
                      ok (prepend (user_byte (src + index) s) rest))
                    ≡ ok (some path))))
  unfolding copy_loop
  round_checks rounds index path h = (ground arith, λ z. ground arith, ground arith)

  copy_loop-Copied :
      (rounds index : ℕ) (path : List ℕ)
      → src < 2 ^ 64
      → index + rounds < 64
      → copy_loop rounds index src a l s ≡ ok (some path)
      → Copied a (src + index) l s path
        × (length path < rounds)
        × (index ≡ 0 → user_byte (src + index) s ≡ b'/')
  copy_loop-Copied zero index path b small h = unfold copy_loop in cc
  copy_loop-Copied (suc rounds) index path b small h =
      let (checked, slash, step) = round_checks rounds index path h in
      let valid = byte_valid-IsUserByte index b (omega arith) checked in
      elim step [
        | inl (nul, e) ↦ rw e (
          record {
            readable = λ i le. let e' : src + index + i ≡ src + index = omega arith in rw e' valid;
            bytes = λ i lt. absurd (omega arith);
            no_nul = λ i lt. absurd (omega arith);
            nul = let e' : src + index + 0 ≡ src + index = omega arith in rw e' nul;
          },
          omega arith,
          slash,
        )
        | inr (visible, more) ↦
            let (rest, later, e) = copied-cases _ _ path more in
            let (c, short, _) = copy_loop-Copied rounds (index + 1) rest b (omega arith) later in
            let e' : src + (index + 1) ≡ src + index + 1 = omega arith in
            rw e (Copied-prepend (src + index) rest valid visible (rw e' at c), omega arith, slash)
      ]

-- A path that syscall_copy_path copies stands in user memory: every byte of it and its NUL are bytes
-- that the program may hand over, it starts with `/`, it has no NUL inside, and with its NUL it
-- fits the buffer of 64 bytes.
pub copy_path-Copied :
    (a src : ℕ) (l : Layout) (s : System) (path : List ℕ)
    → a ≢ 0
    → l.stack_top < 2 ^ 64
    → src < 2 ^ 64
    → copy_path src a l s ≡ ok (some path)
    → Copied a src l s path × (length path < path_size) × (user_byte src s ≡ b'/')
unfolding copy_path
copy_path-Copied a src l s path ne top b h =
    let e : src + 0 ≡ src = omega arith in
    let (c, short, slash) =
      copy_loop-Copied a src l s ne top 63 0 path b (omega arith) (ground arith) in
    (rw e at c, omega arith, rw e at (slash refl))
