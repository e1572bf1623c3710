-- ===== src/Paging/Entries.antt =====
-- The words of the page tables of src/kernel/paging.c: address and flags.
use Prim.Native.Nat.{bit_or}
use platinum.Prelude.{
  ℕ, ◌/◌, ◌%◌, ◌^◌, ◌<◌, ◌≡◌, refl, Bool, true, ◌&&◌, arith, ltb, ◌==◌, holds_below, holds_below-at,
}
use platinum.Paging.{entry_address, or_flags, is_present, is_user}

-- What a flag does to the low three bits.
abbrev user_bit_test : ℕ → Bool
user_bit_test x = ltb (bit_or x 4) 8 && (bit_or x 4 % 2 == x % 2) && (bit_or x 4 / 4 == 1)

user_bits : holds_below 8 user_bit_test ≡ true
unfolding holds_below
user_bits = refl

-- Setting the user bit of an entry leaves its address and its presence.
pub set_user :
    (e : ℕ)
    → (entry_address (or_flags e 4) ≡ entry_address e)
      × (is_present (or_flags e 4) ≡ is_present e)
      × (is_user (or_flags e 4) ≡ true)
unfolding entry_address or_flags
set_user e = let t = holds_below-at 8 user_bit_test user_bits (e % 8) (omega arith) in ground arith

pub set_nothing : (e : ℕ) → or_flags e 0 ≡ e
unfolding or_flags holds_below
set_nothing e =
    let t = holds_below-at 8 (λ x. bit_or x 0 == x) refl (e % 8) (omega arith) in ground arith

-- An entry made of the address of a page and of flags.
pub page_entry :
    (page flags : ℕ)
    → page % 4096 ≡ 0
    → page < 2 ^ 52
    → flags < 8
    → (entry_address (or_flags page flags) ≡ page)
      × (is_present (or_flags page flags) ≡ is_present flags)
      × (is_user (or_flags page flags) ≡ is_user flags)
unfolding entry_address or_flags holds_below
page_entry page flags al small h =
    let t = holds_below-at 8 (λ f. bit_or 0 f == f) refl flags h in
    let z : page % 8 ≡ 0 = omega arith in rw z (ground arith)
