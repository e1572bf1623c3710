-- ===== src/Syscall/Memory.antt =====
-- The bytes of a program's memory, as the processor reads and writes them under the tables of cr3: lemmas
-- about `read_user` and `write_user`.
use platinum.Prelude.{
  ℕ, suc, ◌+◌, ◌%◌, ◌/◌, ◌^◌, ◌≡◌, ◌<◌, ◌≤◌, refl, ap, ◌∙◌, arith, List, [], ◌∷◌, map, ◌==◌,
  if◌then◌else◌, length,
}
use platinum.Paging.{Paging, walk_to_pt, pt_index}
use platinum.Sched.Tasks.{paging_of}
use platinum.Syscall.User.{System, translate, user_byte, read_user, write_user}

-- The indices of the tables are those of the page.
same_tables :
    (a b pml4 : ℕ) (p : Paging)
    → a / 4096 ≡ b / 4096
    → (walk_to_pt pml4 a p ≡ walk_to_pt pml4 b p) × (pt_index a ≡ pt_index b)
unfolding walk_to_pt
same_tables a b pml4 p e =
    let e₁ : a / 2 ^ 39 % 512 ≡ b / 2 ^ 39 % 512 = omega arith in
    let e₂ : a / 2 ^ 30 % 512 ≡ b / 2 ^ 30 % 512 = omega arith in
    let e₃ : a / 2 ^ 21 % 512 ≡ b / 2 ^ 21 % 512 = omega arith in
    (rw (e₁, e₂, e₃) refl, omega arith)

-- Inside a page, virtual and physical addresses run in parallel.
pub translate-page :
    (va i : ℕ) (p : Paging) → va % 4096 + i < 4096 → translate (va + i) p ≡ translate va p + i
unfolding translate
translate-page va i p inside =
    let (e₁, e₂) = same_tables (va + i) va p.cr3 p (omega arith) in
    let f : (va + i) % 4096 ≡ va % 4096 + i = omega arith in rw (e₁, e₂, f) (omega arith)

-- A store leaves the tables alone, and the bytes in front of it in the page.
pub write_user-kernel :
    (va : ℕ) (bytes : List ℕ) (s : System) → (write_user va bytes s).kernel ≡ s.kernel
unfolding write_user
write_user-kernel va [] s = refl
write_user-kernel va (b ∷ bytes) s = write_user-kernel (va + 1) bytes _

-- The first step of a store.
unfoldable store_byte : ℕ → ℕ → System → System
store_byte va b s =
    let pa = translate va (paging_of s.kernel) in
    record s { memory = λ a. if a == pa then b else s.memory a }

pub write_user-below :
    (va : ℕ) (bytes : List ℕ) (s : System) (a : ℕ)
    → va % 4096 + length bytes ≤ 4096
    → a < translate va (paging_of s.kernel)
    → (write_user va bytes s).memory a ≡ s.memory a
unfolding write_user store_byte
write_user-below va [] s a fits below = refl
write_user-below va (b ∷ []) s a fits below = ground arith
write_user-below va (b ∷ c ∷ bytes) s a fits below =
    let e = translate-page va 1 (paging_of s.kernel) (omega arith) in
    write_user-below (va + 1) (c ∷ bytes) (store_byte va b s) a (omega arith) (omega (arith, e))
    ∙ ground arith

-- The byte at `va` behind a store that starts there.
first_byte :
    (va b : ℕ) (bytes : List ℕ) (s : System)
    → va % 4096 + suc (length bytes) ≤ 4096
    → user_byte va (write_user va (b ∷ bytes) s) ≡ b % 256
unfolding user_byte write_user store_byte
first_byte va b [] s fits = ground arith
first_byte va b (c ∷ bytes) s fits =
    let p = paging_of s.kernel in
    let e = translate-page va 1 p (omega arith) in
    let kept =
      write_user-below (va + 1) (c ∷ bytes) (store_byte va b s) (translate va p) (omega arith)
        (omega (arith, e)) in
    let tables = write_user-kernel (va + 1) (c ∷ bytes) (store_byte va b s) in
    ap
      (λ k.
        (write_user (va + 1) (c ∷ bytes) (store_byte va b s)).memory (translate va (paging_of k))
        % 256)
      tables
    ∙ ap (λ m. m % 256) kept
    ∙ ground arith

-- What is written inside one page reads back.
pub read_user-write_user :
    (va : ℕ) (bytes : List ℕ) (s : System)
    → va % 4096 + length bytes ≤ 4096
    → read_user (length bytes) va (write_user va bytes s) ≡ map (λ b. b % 256) bytes
unfolding read_user write_user store_byte
read_user-write_user va [] s fits = refl
read_user-write_user va (b ∷ []) s fits = ap (λ c. c ∷ []) (first_byte va b [] s fits)
read_user-write_user va (b ∷ c ∷ bytes) s fits =
    ap (λ d. d ∷ read_user (length (c ∷ bytes)) (va + 1) (write_user va (b ∷ c ∷ bytes) s))
      (first_byte va b (c ∷ bytes) s fits)
    ∙ ap (λ l. (b % 256) ∷ l)
        (read_user-write_user (va + 1) (c ∷ bytes) (store_byte va b s) (omega arith))
