-- ===== src/Palloc/SelfTest.antt =====
-- palloc_self_test of src/kernel/palloc.c.
use platinum.Prelude.{
  ℕ, ◌+◌, ◌^◌, ◌≤◌, ◌<◌, ◌≡◌, refl, arith, ◌||◌, Option, none, some, List, [], ◌∷◌, ◌++◌, ◌==◌,
  if◌then◌else◌, length, u64, sub64, sym, false,
}
use mathlib.Core.List.{append_assoc}
use platinum.Prelude.Text.{codes, written_line}
use platinum.Console.{write_hex, write_number, write_address, write_all, write_number-ends}
use platinum.Palloc.{Palloc, alloc, free, push}
use platinum.Palloc.Pages.{IsWf, alloc-IsWf}

-- What it writes before it allocates: the bounds of the region and the count of free pages.
unfoldable pub print_region : Palloc → Option (List ℕ)
unfolding write_hex write_number write_all
print_region s = write_all (
    some (codes "palloc region ")
    ∷ some (write_hex s.region_begin)
    ∷ some (codes " ")
    ∷ some (write_hex s.region_end ++ 13 ∷ 10 ∷ [])
    ∷ write_number (codes "palloc pages ") s.free_page_count
    ∷ [])

-- What it writes once it has two pages.
unfoldable pub print_pages : (first second : ℕ) → List ℕ
unfolding write_address
print_pages first second =
    written_line "palloc ok"
    ++ (write_address (codes "page ") first ++ write_address (codes "page ") second)

-- The text that it writes, and the state behind it.
unfoldable pub self_test : Palloc → Option (List ℕ × Palloc)
unfolding print_region print_pages
self_test s = elim (print_region s) [
  | none ↦ none
  | some text ↦
      let (first, s₁) = alloc s in
      let (second, s₂) = alloc s₁ in
      if (first == 0) || (second == 0)
      then some (text ++ written_line "palloc fail", s₂)
      else some (
        text ++ (print_pages first second ++ written_line "free ok"),
        free first (free second s₂),
      )
]

print_region-ends :
    (s : Palloc) → s.free_page_count < 2 ^ 64 → (text : List ℕ) × (print_region s ≡ some text)
unfolding print_region write_all
print_region-ends s h =
    let (text, found) = write_number-ends (codes "palloc pages ") s.free_page_count h in
    (
      codes "palloc region "
          ++ (write_hex s.region_begin
              ++ (codes " " ++ ((write_hex s.region_end ++ 13 ∷ 10 ∷ []) ++ (text ++ [])))),
      rw (found, write_all) refl,
    )

-- What palloc_self_test does, by the number of free pages: with two or more it reports success and leaves
-- everything as it was; with one it reports failure and that page is lost; with none it reports
-- failure and changes nothing.
abbrev pub SelfTestSpec : Palloc → List ℕ → Palloc → Type 0
SelfTestSpec s text s' =
    IsWf s'
    × (2 ≤ length s.free_list
        → (s' ≡ s) × ((begin : List ℕ) × (text ≡ begin ++ written_line "free ok")))
    × (length s.free_list < 2
        → (s'.free_list ≡ []) × ((begin : List ℕ) × (text ≡ begin ++ written_line "palloc fail")))

self_test_by_list :
    (xs : List ℕ) (b e c : ℕ)
    → let s : Palloc = record {
      free_list = xs;
      region_begin = b;
      region_end = e;
      free_page_count = c;
    } in
      IsWf s
      → (text : List ℕ) × (s' : Palloc) × (self_test s ≡ some (text, s')) × SelfTestSpec s text s'
unfolding self_test alloc free push
self_test_by_list [] b e c w =
    let s : Palloc = record {
      free_list = [];
      region_begin = b;
      region_end = e;
      free_page_count = c;
    } in
    let (text, found) = print_region-ends s (omega (arith, w.counted)) in
    (
      text ++ written_line "palloc fail",
      s,
      rw (found, self_test) refl,
      (w, λ h. absurd (omega arith), λ h. (refl, (text, refl))),
    )
self_test_by_list (x ∷ []) b e c w =
    let s : Palloc = record {
      free_list = x ∷ [];
      region_begin = b;
      region_end = e;
      free_page_count = c;
    } in
    let (text, found) = print_region-ends s (omega (arith, w.counted)) in
    let kept = alloc-IsWf s w in
    (
      text ++ written_line "palloc fail",
      (alloc s).1,
      rw (found, self_test) (ground arith),
      (kept.0, λ h. absurd (omega arith), λ h. (refl, (text, refl))),
    )
self_test_by_list (x ∷ y ∷ rest) b e c w =
    let s : Palloc = record {
      free_list = x ∷ y ∷ rest;
      region_begin = b;
      region_end = e;
      free_page_count = c;
    } in
    let (text, found) = print_region-ends s (omega (arith, w.counted)) in
    let x_page = w.pages x (ground arith) in
    let y_page = w.pages y (ground arith) in
    let x_there : (x == 0) ≡ false = ground (arith, x_page.positive) in
    let y_there : (y == 0) ≡ false = ground (arith, y_page.positive) in
    let whole = text ++ (print_pages x y ++ written_line "free ok") in
    let count : u64 (u64 (sub64 (sub64 c 1) 1 + 1) + 1) ≡ c = omega (arith, w.counted) in
    (
      whole,
      s,
      rw (found, self_test, x_there, y_there, count) refl,
      (
        w,
        λ h. (refl, (text ++ print_pages x y, sym (append_assoc text (print_pages x y) _))),
        λ h. absurd (omega arith),
      ),
    )

-- palloc_self_test from a well-formed state: it ends in a well-formed state. With two or more free
-- pages it leaves everything as it was and reports success; with fewer it reports failure and no
-- page is free behind it, so that a single free page is lost.
pub self_test-SelfTestSpec :
    (s : Palloc)
    → IsWf s
    → (text : List ℕ) × (s' : Palloc) × (self_test s ≡ some (text, s')) × SelfTestSpec s text s'
self_test-SelfTestSpec s =
    self_test_by_list s.free_list s.region_begin s.region_end s.free_page_count
