-- ===== src/Vfs/Programs.antt =====
-- The loop of vfs_namespace_initialize in src/kernel/vfs.c over the embedded programs.
use platinum.Prelude.{
  ℕ, zero, suc, ◌+◌, ◌≤◌, ◌<◌, ◌≡◌, ◌≢◌, ◌⊎◌, inl, inr, refl, ap, ◌∙◌, true, false, none, some,
  List, [], ◌∷◌, ◌==◌, ◌||◌, if◌then◌else◌, length, get_elem?, All, ok, halt, arith, Bool-cases,
  lookup, lookup-insert,
}
use platinum.Prelude.Text.{codes}
use platinum.Vfs.Path.{Entries, end, leaf, string_equal, find_child}
use platinum.Vfs.Objects.{Vfs, Node, NodeKind, executable, NodeOps, NodeData, plain_ops, program}
use platinum.Vfs.Resolve.{string_equal-eq}
use platinum.Vfs.Namespace.{
  Program, Statics, bad_exec_size, is_replaced, program_image, add_programs,
}
use platinum.Vfs.{node_initialize}

-- The static nodes stand at different addresses.
pub record Apart (p : Statics) : Type 0 where
  pub programs : (i j : ℕ) → i ≢ j → p.executables i ≢ p.executables j
  pub output : (i : ℕ) → p.executables i ≢ p.output_node
  pub banner : (i : ℕ) → p.executables i ≢ p.banner_node
  pub fixed : p.banner_node ≢ p.output_node

-- In a build with a bad image for /bin/pulse, the program is that one.
abbrev pub IsBadPulse : Statics → Program → Type 0
IsBadPulse p g = (p.bad_exec ≡ true) × (g.name ≡ codes "pulse")

-- The image of a program is there.
abbrev pub HasImage : Statics → Program → Type 0
HasImage p g = IsBadPulse p g ⊎ ((g.image ≢ 0) × (g.size ≢ 0))

-- The image and the size that a program has under /bin.
abbrev pub image_of : Statics → Program → ℕ × ℕ
image_of p g = if is_replaced p g then (p.bad_exec_image, bad_exec_size) else (g.image, g.size)

-- A name fits the buffer of a component and has no slash; a string of C has no NUL.
abbrev pub IsName : List ℕ → Type 0
IsName name = (0 < length name) × (length name < 16) × All (λ c. c ≢ b'/') name

-- No program before the one at `i` has its name.
abbrev pub IsFirst : List Program → ℕ → List ℕ → Type 0
IsFirst registry i name =
    (j : ℕ) (g : Program) → j < i → get_elem? registry j ≡ some g → g.name ≢ name

abbrev pub program_node : Statics → Program → Node
program_node p g = record {
  kind = executable;
  refs = 0;
  ops = plain_ops;
  content = program (image_of p g).0 (image_of p g).1;
}

-- What the loop over the registry leaves, from `index` on.
pub record Added (p : Statics) (index : ℕ) (gs : List Program) (s s' : Vfs) (bin : Entries)
    : Type 0 where
  pub found :
      (i : ℕ) (g : Program)
      → get_elem? gs i ≡ some g
      → IsFirst gs i g.name
      → find_child bin g.name ≡ some (record { node = p.executables (index + i); children = none })
  pub nodes :
      (i : ℕ) (g : Program)
      → get_elem? gs i ≡ some g
      → lookup (p.executables (index + i)) s'.nodes ≡ some (program_node p g)
  pub others :
      (q : ℕ) → ((i : ℕ) → index ≤ i → p.executables i ≢ q) → lookup q s'.nodes ≡ lookup q s.nodes
  pub kept : (s'.heap ≡ s.heap) × (s'.files ≡ s.files) × (s'.serial ≡ s.serial)

pub node_initialize-lookup :
    (q p : ℕ) (kind : NodeKind) (ops : NodeOps) (content : NodeData) (s : Vfs)
    → lookup q (node_initialize p kind ops content s).nodes ≡ (
        if p == q
        then some (record { kind = kind; refs = 0; ops = ops; content = content })
        else lookup q s.nodes)
unfolding node_initialize
node_initialize-lookup q p kind ops content s = lookup-insert p q _ s.nodes

abbrev pub AddSpec : Statics → ℕ → List Program → Vfs → Type 0
AddSpec p index gs s =
    ((add_programs p index gs s ≡ halt) × ¬ All (HasImage p) gs)
    ⊎ ((bin : Entries) × (s' : Vfs) × (add_programs p index gs s ≡ ok (bin, s'))
        × All (HasImage p) gs
        × Added p index gs s s' bin)

is_replaced-IsBadPulse :
    (p : Statics) (g : Program)
    → ((is_replaced p g ≡ true) × IsBadPulse p g) ⊎ ((is_replaced p g ≡ false) × ¬ IsBadPulse p g)
unfolding is_replaced
is_replaced-IsBadPulse p g = elim (Bool-cases p.bad_exec) [
  | inr off ↦ inr (rw (off, is_replaced) refl, λ b. cc (off, b.0))
  | inl on ↦ elim (Bool-cases (string_equal g.name (codes "pulse"))) [
    | inl same ↦
        inl (rw (on, is_replaced) same, (on, (string_equal-eq g.name (codes "pulse")).0 same))
    | inr other ↦ inr (
      rw (on, is_replaced) other,
      λ b. (let e = (string_equal-eq g.name (codes "pulse")).1 b.1 in cc (e, other)),
    )
  ]
]

program_image-cases :
    (p : Statics) (g : Program)
    → ((program_image p g ≡ none) × ¬ HasImage p g)
      ⊎ ((program_image p g ≡ some (image_of p g)) × HasImage p g)
unfolding program_image
program_image-cases p g = elim (is_replaced-IsBadPulse p g) [
  | inl (e, bad) ↦ inr (rw (program_image, e) refl, inl bad)
  | inr (e, good) ↦ elim (Bool-cases ((g.image == 0) || (g.size == 0))) [
    | inl gone ↦ inl (
      rw (program_image, e, gone) refl,
      λ h. elim h [ inl bad ↦ good bad | inr there ↦ ground (arith, gone, there.0, there.1) ],
    )
    | inr there ↦ inr (rw (program_image, e, there) refl, inr (ground (arith, there)))
  ]
]

Added-cons :
    (p : Statics) (index : ℕ) (g : Program) (gs : List Program) (s s' : Vfs) (bin : Entries)
    → Apart p
    → Added p
        (index + 1)
        gs
        (node_initialize
          (p.executables index)
          executable
          plain_ops
          (program (image_of p g).0 (image_of p g).1)
          s)
        s'
        bin
    → Added p index (g ∷ gs) s s' (leaf g.name (p.executables index) bin)
unfolding find_child node_initialize
Added-cons p index g gs s s' bin apart a = record {
  found = found;
  nodes = nodes;
  others = λ q out.
      a.others q (λ i le. out i (omega arith))
      ∙ (let ne = out index (omega arith) in
          let test : (p.executables index == q) ≡ false = ground arith in
          node_initialize-lookup q (p.executables index) executable plain_ops
            (program (image_of p g).0 (image_of p g).1) s
          ∙ rw test refl);
  kept = a.kept;
}
  where
    found :
        (i : ℕ) (h : Program)
        → get_elem? (g ∷ gs) i ≡ some h
        → IsFirst (g ∷ gs) i h.name
        → find_child (leaf g.name (p.executables index) bin) h.name
          ≡ some (record { node = p.executables (index + i); children = none })
    found zero h at first =
        let e : g ≡ h = cc in
        let here = (string_equal-eq g.name h.name).1 (ap (λ x. x.name) e) in
        let n : index + 0 ≡ index = omega arith in rw (here, n) refl
    found (suc i) h at first =
        let other : string_equal g.name h.name ≡ false =
          elim (Bool-cases (string_equal g.name h.name)) [
            | inl same ↦
                absurd (first 0 g (omega arith) refl ((string_equal-eq g.name h.name).0 same))
            | inr different ↦ different
          ] in
        let n : index + suc i ≡ index + 1 + i = omega arith in
        rw (other, n) (a.found i h at λ j h' lt e. first (suc j) h' (omega arith) e)

    nodes :
        (i : ℕ) (h : Program)
        → get_elem? (g ∷ gs) i ≡ some h
        → lookup (p.executables (index + i)) s'.nodes ≡ some (program_node p h)
    nodes zero h at =
        let e : g ≡ h = cc in
        let n : index + 0 ≡ index = omega arith in
        let test : (p.executables index == p.executables index) ≡ true = ground arith in
        let kept = a.others (p.executables index) (λ i le. apart.programs i index (omega arith)) in
        let new =
          node_initialize-lookup (p.executables index) (p.executables index) executable plain_ops
            (program (image_of p g).0 (image_of p g).1) s in
        rw n (kept ∙ new ∙ rw test (ap (λ x. some (program_node p x)) e))
    nodes (suc i) h at =
        let n : index + suc i ≡ index + 1 + i = omega arith in rw n (a.nodes i h at)

pub add_programs-AddSpec :
    (p : Statics) (index : ℕ) (gs : List Program) (s : Vfs) → Apart p → AddSpec p index gs s
unfolding add_programs
add_programs-AddSpec p index [] s apart = inr (
  end,
  s,
  refl,
  tt,
  record {
    found = λ i g h first. cc;
    nodes = λ i g h. cc;
    others = λ q out. refl;
    kept = (refl, refl, refl);
  },
)
add_programs-AddSpec p index (g ∷ gs) s apart =
    let s₁ =
      node_initialize (p.executables index) executable plain_ops
        (program (image_of p g).0 (image_of p g).1) s in
    elim (program_image-cases p g) [
      | inl (no_image, bad) ↦ inl (rw (add_programs, no_image) refl, λ all. bad all.0)
      | inr (image, good) ↦ elim (add_programs-AddSpec p (index + 1) gs s₁ apart) [
        | inl (stops, bad) ↦ inl (rw (add_programs, image, stops) refl, λ all. bad all.1)
        | inr (bin, s', ends, all, added) ↦ inr (
          leaf g.name (p.executables index) bin,
          s',
          rw (add_programs, image, ends) refl,
          (good, all),
          Added-cons p index g gs s s' bin apart added,
        )
      ]
    ]
