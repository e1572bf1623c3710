-- ===== src/Memmap/Capture.antt =====
-- memmap_capture_and_exit of src/kernel/memmap.c, which takes the memory map of the firmware and leaves
-- its boot services, and memmap_print_summary.
use platinum.Prelude.{
  ℕ, ◌+◌, ◌/◌, ◌^◌, ◌<◌, ◌≡◌, ◌≢◌, ◌⊎◌, inl, inr, refl, arith, Bool, true, false, Option, none,
  some, List, [], ◌∷◌, ◌==◌, if◌then◌else◌, Bool-cases,
}
use platinum.Prelude.Text.{codes, written_line}
use platinum.Console.{write_number, write_all}
use platinum.Memmap.{Memmap, Descriptor, parse}
use platinum.Memmap.Parse.{parse-counts}

-- What get_memory_map returns and stores.
pub record MapAnswer : Type 0 where
  pub status : ℕ
  pub size : ℕ
  pub key : ℕ
  pub descriptor_size : ℕ
  pub descriptor_version : ℕ
  pub at : ℕ → Descriptor

abbrev pub efi_success : ℕ
efi_success = 0

-- How one round of memmap_capture_and_exit ends.
pub data Attempt : Type 0 where
  no_map refused exited : Attempt

-- The firmware, whose calls are not the kernel's: its state, get_memory_map with the buffer of the
-- kernel, and exit_boot_services with a key.
module _ {F : Type 0} (get_memory_map : F → F × MapAnswer)
    (exit_boot_services : ℕ → F → F × ℕ) where
  -- The two calls with memmap_parse between them.
  unfoldable pub attempt : ℕ → F → Memmap → Option (Attempt × Memmap × F)
  attempt fuel f m =
      let (f₁, a) = get_memory_map f in
      let (f₂, status) = exit_boot_services a.key f₁ in
      if a.status == efi_success
      then (elim (parse fuel a.size a.descriptor_size a.descriptor_version a.at) [
        | none ↦ none
        | some m' ↦ some (if status == efi_success then exited else refused, m', f₂)
      ])
      else some (no_map, record m { at = a.at }, f₁)

  unfoldable pub capture_and_exit : ℕ → F → Memmap → Option (Bool × Memmap × F)
  unfolding attempt
  capture_and_exit fuel f m = elim (attempt fuel f m) [
    | none ↦ none
    | some (no_map, m₁, f₁) ↦ some (false, m₁, f₁)
    | some (exited, m₁, f₁) ↦ some (true, m₁, f₁)
    | some (refused, m₁, f₁) ↦ elim (attempt fuel f₁ m₁) [
      | none ↦ none
      | some (exited, m₂, f₂) ↦ some (true, m₂, f₂)
      | some (refused, m₂, f₂) ↦ some (false, m₂, f₂)
      | some (no_map, m₂, f₂) ↦ some (false, m₂, f₂)
    ]
  ]

unfoldable pub print_summary : Memmap → Option (List ℕ)
unfolding write_number write_all
print_summary m = write_all (
    some (written_line "memmap ok")
    ∷ write_number (codes "mem desc ") m.descriptor_count
    ∷ write_number (codes "mem conv regions ") m.conventional_region_count
    ∷ write_number (codes "mem conv pages ") m.conventional_page_count
    ∷ write_number (codes "mem desc size ") m.descriptor_size
    ∷ write_number (codes "mem desc ver ") m.descriptor_version
    ∷ write_number (codes "mem bytes ") m.size_used
    ∷ [])

-- An answer whose map memmap_parse can walk to its end.
abbrev pub FitsFuel : ℕ → MapAnswer → Type 0
FitsFuel fuel a =
    (0 < a.descriptor_size)
    × (a.size + a.descriptor_size < 2 ^ 64)
    × (a.size / a.descriptor_size < fuel)

module _ {F : Type 0} (get_memory_map : F → F × MapAnswer)
    (exit_boot_services : ℕ → F → F × ℕ) where
  -- What the round from `f` asks the firmware, and the state behind it.
  abbrev pub answer : F → MapAnswer
  answer f = (get_memory_map f).1

  abbrev pub exit_status : F → ℕ
  exit_status f = (exit_boot_services (answer f).key (get_memory_map f).0).1

  abbrev pub after : F → F
  after f = (exit_boot_services (answer f).key (get_memory_map f).0).0

  -- The round from `f` gets a map, which is kept as `m`, and leaves the boot services with its key.
  pub record Exits (fuel : ℕ) (f : F) (m : Memmap) : Type 0 where
    pub mapped : (answer f).status ≡ efi_success
    pub kept :
        parse fuel
          (answer f).size
          (answer f).descriptor_size
          (answer f).descriptor_version
          (answer f).at
        ≡ some m
    pub left : exit_status f ≡ efi_success

  -- The round from `f` gets a map, but the firmware does not accept its key.
  pub record Refuses (f : F) : Type 0 where
    pub mapped : (answer f).status ≡ efi_success
    pub stays : exit_status f ≢ efi_success

  -- The ways to succeed: in the first round, or in the second.
  abbrev pub Succeeds : ℕ → F → Memmap → F → Type 0
  Succeeds fuel f m f' =
      (Exits fuel f m × (f' ≡ after f))
      ⊎ (Refuses f × Exits fuel (after f) m × (f' ≡ after (after f)))

  -- The ways to fail: no map in the first round, or a refusal and no exit in the second.
  abbrev pub Fails : F → Type 0
  Fails f =
      ((answer f).status ≢ efi_success)
      ⊎ (Refuses f × (((answer (after f)).status ≢ efi_success) ⊎ Refuses (after f)))

  data Outcome (fuel : ℕ) (f : F) : Attempt → Memmap → F → Type 0 where
    without_map :
        (m : Memmap)
        → (answer f).status ≢ efi_success
        → Outcome fuel f no_map m (get_memory_map f).0
    with_exit : (m : Memmap) → Exits fuel f m → Outcome fuel f exited m (after f)
    with_refusal : (m : Memmap) → Refuses f → Outcome fuel f refused m (after f)

  attempt-Outcome :
      (fuel : ℕ) (f : F) (m : Memmap)
      → FitsFuel fuel (answer f)
      → (o : Attempt) × (m' : Memmap) × (f' : F) × (attempt get_memory_map exit_boot_services fuel f
            m
          ≡ some (o, m', f'))
        × Outcome fuel f o m' f'
  unfolding attempt
  attempt-Outcome fuel f m (pos, small, enough) =
      let a = answer f in
      let (m', found, _, _, _) =
        parse-counts fuel a.size a.descriptor_size a.descriptor_version a.at pos small enough in
      elim (Bool-cases (a.status == efi_success)) [
        | inr bad ↦ (
          no_map,
          record m { at = a.at },
          (get_memory_map f).0,
          rw bad refl,
          without_map _ (ground arith),
        )
        | inl good ↦ elim (Bool-cases (exit_status f == efi_success)) [
          | inl left ↦ (
            exited,
            m',
            after f,
            rw (good, found, left) refl,
            with_exit m' (record { mapped = ground arith; kept = found; left = ground arith }),
          )
          | inr stays ↦ (
            refused,
            m',
            after f,
            rw (good, found, stays) refl,
            with_refusal m' (record { mapped = ground arith; stays = ground arith }),
          )
        ]
      ]

  abbrev pub CaptureSpec : ℕ → F → Bool × Memmap × F → Type 0
  CaptureSpec fuel f (true, m, f') = Succeeds fuel f m f'
  CaptureSpec fuel f (false, m, f') = Fails f

  second_exit :
      (fuel : ℕ) (f : F) (m m₁ m₂ : Memmap) (f₂ : F) (o : Attempt)
      → attempt get_memory_map exit_boot_services fuel f m ≡ some (refused, m₁, after f)
      → Refuses f
      → attempt get_memory_map exit_boot_services fuel (after f) m₁ ≡ some (o, m₂, f₂)
      → Outcome fuel (after f) o m₂ f₂
      → (r : Bool × Memmap × F) × (capture_and_exit get_memory_map exit_boot_services fuel f m
          ≡ some r)
        × CaptureSpec fuel f r
  unfolding capture_and_exit
  second_exit fuel f m m₁ m₂ f₂ o found r found₂ (without_map _ bad) =
      ((false, m₂, f₂), rw (found, capture_and_exit, found₂) refl, inr (r, inl bad))
  second_exit fuel f m m₁ m₂ f₂ o found r found₂ (with_exit _ exits) =
      ((true, m₂, f₂), rw (found, capture_and_exit, found₂) refl, inr (r, exits, refl))
  second_exit fuel f m m₁ m₂ f₂ o found r found₂ (with_refusal _ again) =
      ((false, m₂, f₂), rw (found, capture_and_exit, found₂) refl, inr (r, inr again))

  first_exit :
      (fuel : ℕ) (f : F) (m m₁ : Memmap) (f₁ : F) (o : Attempt)
      → attempt get_memory_map exit_boot_services fuel f m ≡ some (o, m₁, f₁)
      → Outcome fuel f o m₁ f₁
      → FitsFuel fuel (answer (after f))
      → (r : Bool × Memmap × F) × (capture_and_exit get_memory_map exit_boot_services fuel f m
          ≡ some r)
        × CaptureSpec fuel f r
  unfolding capture_and_exit
  first_exit fuel f m m₁ f₁ o found (without_map _ bad) fits =
      ((false, m₁, f₁), rw (found, capture_and_exit) refl, inl bad)
  first_exit fuel f m m₁ f₁ o found (with_exit _ exits) fits =
      ((true, m₁, f₁), rw (found, capture_and_exit) refl, inl (exits, refl))
  first_exit fuel f m m₁ f₁ o found (with_refusal _ refuses) fits =
      let (o₂, m₂, f₂, found₂, outcome) = attempt-Outcome fuel (after f) m₁ fits in
      second_exit fuel f m m₁ m₂ f₂ o₂ found refuses found₂ outcome

-- memmap_capture_and_exit, with a firmware whose maps memmap_parse can walk: it ends. It returns 1 only
-- where the firmware has accepted the key of the map that is kept, in the first round or, after one
-- refusal, in the second; it returns 0 only where it got no map or the firmware refused twice.
pub capture_and_exit-CaptureSpec :
    {F : Type 0} (get_memory_map : F → F × MapAnswer) (exit_boot_services : ℕ → F → F × ℕ)
    (fuel : ℕ) (f : F) (m : Memmap)
    → ((g : F) → FitsFuel fuel (get_memory_map g).1)
    → (r : Bool × Memmap × F) × (capture_and_exit get_memory_map exit_boot_services fuel f m
        ≡ some r)
      × CaptureSpec get_memory_map exit_boot_services fuel f r
capture_and_exit-CaptureSpec get exit fuel f m fits =
    let (o, m₁, f₁, found, outcome) = attempt-Outcome get exit fuel f m (fits f) in
    first_exit get exit fuel f m m₁ f₁ o found outcome (fits _)
