-- ===== src/Fd/Table.antt =====
-- The descriptor table of src/kernel/fd.c as a map from descriptors to entries.
use platinum.Prelude.{
  ℕ, zero, suc, ◌+◌, ◌<◌, ◌≡◌, ◌≢◌, inl, inr, refl, true, false, Option, none, some, [], ◌∷◌, arith,
  ltb, ◌==◌, length, get_elem?, set, Bool-cases, Option-cases, get_elem?-set_self, get_elem?-set_ne,
  length-set,
}
use platinum.Vfs.Objects.{minus_one}
use platinum.Fd.{FdKind, Entry, FdTable, capacity, is_unused, find_free, install, get}

-- Where the search for a free entry ends, counted from the start of the list.
abbrev Found : ℕ → FdTable → Option ℕ → Type 0
Found index t none = (i : ℕ) (e : Entry) → get_elem? t i ≡ some e → e.used ≢ 0
Found index t (some at) =
    (i : ℕ) × (e : Entry) × (at ≡ index + i)
    × (i < length t)
    × (get_elem? t i ≡ some e)
    × (e.used ≡ 0)
    × ((j : ℕ) (e' : Entry) → j < i → get_elem? t j ≡ some e' → e'.used ≢ 0)

find_free-later :
    (index : ℕ) (e : Entry) (t : FdTable) (o : Option ℕ)
    → e.used ≢ 0
    → Found (index + 1) t o
    → Found index (e ∷ t) o
find_free-later index e t none ne all = all'
  where
    all' : (i : ℕ) (e' : Entry) → get_elem? (e ∷ t) i ≡ some e' → e'.used ≢ 0
    all' zero e' h = let same : e ≡ e' = cc (h) in rw (← same) ne
    all' (suc i) e' h = all i e' h
find_free-later index e t (some at) ne (i, f, here, lt, found, free, before) =
    (suc i, f, omega arith, omega arith, found, free, before')
  where
    before' : (j : ℕ) (e' : Entry) → j < suc i → get_elem? (e ∷ t) j ≡ some e' → e'.used ≢ 0
    before' zero e' lt' h = let same : e ≡ e' = cc (h) in rw (← same) ne
    before' (suc j) e' lt' h = before j e' (omega arith) h

find_free-Found : (index : ℕ) (t : FdTable) → Found index t (find_free index t)
unfolding find_free
find_free-Found index [] = λ i e h. cc
find_free-Found index (e ∷ t) = elim (Bool-cases (e.used == 0)) [
  | inl free ↦
      rw free
        (0, e, omega arith, omega arith, refl, ground arith, λ j e' lt h. absurd (omega arith))
  | inr used ↦ rw used (find_free-later index e t _ (ground arith) (find_free-Found (index + 1) t))
]

-- The outcome of fd_install: the table is full and unchanged, or the lowest free descriptor refers to
-- the file and every other one is as it was.
pub data InstallSpec (kind : FdKind) (file : ℕ) (t : FdTable) : ℕ → FdTable → Type 0 where
  full :
      ((fd : ℕ) → fd < capacity → (e : Entry) × (get fd t ≡ some e))
      → InstallSpec kind file t minus_one t
  installed :
      (fd : ℕ) (t' : FdTable)
      → fd < capacity
      → get fd t ≡ none
      → ((lower : ℕ) → lower < fd → (e : Entry) × (get lower t ≡ some e))
      → get fd t' ≡ some (record { used = 1; kind = kind; file = file })
      → ((other : ℕ) → other ≢ fd → get other t' ≡ get other t)
      → length t' ≡ length t
      → InstallSpec kind file t fd t'

get-used :
    (t : FdTable) (fd : ℕ) (e : Entry)
    → fd < capacity
    → get_elem? t fd ≡ some e
    → e.used ≢ 0
    → get fd t ≡ some e
unfolding get
get-used t fd e lt h ne =
    let b : ltb fd 16 ≡ true = ground arith in
    let u : (e.used == 0) ≡ false = ground arith in rw (b, h, u, get)

pub get-unused :
    (t : FdTable) (fd : ℕ) (e : Entry) → get_elem? t fd ≡ some e → e.used ≡ 0 → get fd t ≡ none
unfolding get
get-unused t fd e h nul =
    let u : (e.used == 0) ≡ true = ground arith in
    elim (Bool-cases (ltb fd 16)) [
      | inl inside ↦ rw (inside, h, u, get)
      | inr outside ↦ rw (outside, get)
    ]

in_bounds : (t : FdTable) (i : ℕ) → i < length t → (e : Entry) × (get_elem? t i ≡ some e)
in_bounds [] i h = absurd (omega arith)
in_bounds (e ∷ t) zero h = (e, refl)
in_bounds (e ∷ t) (suc i) h = in_bounds t i (omega arith)

pub get-set_ne :
    (t : FdTable) (fd other : ℕ) (e : Entry) → other ≢ fd → get other (set t fd e) ≡ get other t
unfolding get
get-set_ne t fd other e ne = rw (get_elem?-set_ne t fd other e (λ h. ne (cc (h))), get)

-- fd_install of a kind in use and an open file, on a table of sixteen entries: it fails exactly when
-- all descriptors are open, and then changes nothing; otherwise the lowest descriptor that was not
-- open refers to the file from then on, and all others are as before.
pub install-InstallSpec :
    (kind : FdKind) (file : ℕ) (t : FdTable)
    → is_unused kind ≡ false
    → file ≢ 0
    → length t ≡ capacity
    → InstallSpec kind file t (install kind file t).0 (install kind file t).1
unfolding install
install-InstallSpec kind file t used ne len =
    let nul : (file == 0) ≡ false = ground arith in
    let f = find_free-Found 0 t in
    elim (Option-cases (find_free 0 t)) [
      | inl e ↦ rw (used, nul, e, install) (full λ fd lt. all_open fd lt (rw e at f))
      | inr (fd, e) ↦ rw (used, nul, e, install) (installs fd (rw e at f))
    ]
  where
    open_below :
        (fd : ℕ)
        → fd < capacity
        → ((e : Entry) → get_elem? t fd ≡ some e → e.used ≢ 0)
        → (e : Entry) × (get fd t ≡ some e)
    open_below fd lt h =
        let (e, at) = in_bounds t fd (omega (arith, len)) in (e, get-used t fd e lt at (h e at))

    all_open : (fd : ℕ) → fd < capacity → Found 0 t none → (e : Entry) × (get fd t ≡ some e)
    all_open fd lt all = open_below fd lt (λ e. all fd e)

    installs :
        (fd : ℕ)
        → Found 0 t (some fd)
        → InstallSpec kind file t fd (set t fd (record { used = 1; kind = kind; file = file }))
    installs fd (i, e, here, lt, at, free, before) =
        let same : fd ≡ i = omega arith in
        let new : Entry = record { used = 1; kind = kind; file = file } in
        rw same (
          installed i (set t i new) (omega arith) (get-unused t i e at free)
            (λ lower below. open_below lower (omega arith) (λ e' h. before lower e' below h))
            (get-used (set t i new) i new (omega arith) (get_elem?-set_self t i new lt)
              (omega arith))
            (λ other ne'. get-set_ne t i other new ne') (length-set t i new))
