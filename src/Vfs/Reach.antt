-- ===== src/Vfs/Reach.antt =====
-- What paths lead to after vfs_namespace_initialize of src/kernel/vfs.c.
use platinum.Prelude.{
  ℕ, suc, ◌+◌, ◌≤◌, ◌<◌, ◌≡◌, ◌≢◌, ◌⊎◌, inl, inr, refl, ap, ◌∙◌, true, false, none, some, List, [],
  ◌∷◌, ltb, leb, ◌==◌, length, get_elem?, All, ok, halt, arith, lookup,
}
use native.Mathlib.Decide.{dec_lt}
use platinum.Vfs.Path.{Entries, Child, string_equal, find_child, walk_path, walk, read_component}
use platinum.Vfs.Objects.{
  Vfs, console, static_text, namespace_output, static_text_ops, no_data, text,
}
use platinum.Vfs.Resolve.{split_first, resolve, walk_path-resolve}
use platinum.Vfs.Namespace.{
  Program, Statics, banner, namespace_root, fixed_nodes, namespace_initialize,
}
use platinum.Vfs.{node_initialize}
use platinum.Vfs.Programs.{
  Apart, HasImage, IsName, IsFirst, program_node, Added, add_programs-AddSpec,
  node_initialize-lookup,
}

-- "/bin/" with a name behind it, "/dev/console" and "/etc/banner".
abbrev pub bin_path : List ℕ → List ℕ
bin_path name = b'/' ∷ b'b' ∷ b'i' ∷ b'n' ∷ b'/' ∷ name

abbrev pub console_path : List ℕ
console_path =
    b'/' ∷ b'd' ∷ b'e' ∷ b'v' ∷ b'/' ∷ b'c' ∷ b'o' ∷ b'n' ∷ b's' ∷ b'o' ∷ b'l' ∷ b'e' ∷ []

abbrev pub banner_path : List ℕ
banner_path = b'/' ∷ b'e' ∷ b't' ∷ b'c' ∷ b'/' ∷ b'b' ∷ b'a' ∷ b'n' ∷ b'n' ∷ b'e' ∷ b'r' ∷ []

split_first-name : (name : List ℕ) → All (λ c. c ≢ b'/') name → split_first name ≡ (name, none)
unfolding split_first
split_first-name [] all = refl
split_first-name (c ∷ name) all =
    let test : (c == b'/') ≡ false = (let ne = all.0 in ground arith) in
    rw (split_first-name name all.1, test) refl

resolve-last :
    (depth : ℕ) (entries : Entries) (name : List ℕ) (child : Child)
    → IsName name
    → find_child entries name ≡ some child
    → resolve (suc depth) entries name ≡ some child.node
unfolding resolve
resolve-last depth entries name child (pos, short, plain) found =
    let nz : (length name == 0) ≡ false = ground arith in
    let fits : leb 16 (length name) ≡ false = ground arith in
    let component : (split_first name).0 ≡ name = ap (λ x. x.0) (split_first-name name plain) in
    let rest : (split_first name).1 ≡ none = ap (λ x. x.1) (split_first-name name plain) in
    rw (component, nz, fits, found) (rw rest refl)

resolve-bin :
    (depth : ℕ) (p : Statics) (bin : Entries) (name : List ℕ)
    → resolve (suc depth) (namespace_root p bin) (b'b' ∷ b'i' ∷ b'n' ∷ b'/' ∷ name)
      ≡ resolve depth bin name
unfolding resolve split_first find_child string_equal
resolve-bin depth p bin name = refl

walk_path-bin :
    (p : Statics) (bin : Entries) (name : List ℕ) (child : Child)
    → IsName name
    → find_child bin name ≡ some child
    → walk_path true (namespace_root p bin) (bin_path name) ≡ some child.node
walk_path-bin p bin name child is found =
    let path = b'b' ∷ b'i' ∷ b'n' ∷ b'/' ∷ name in
    (walk_path-resolve (suc (suc (length path))) true (namespace_root p bin) path (omega arith)).0
    ∙ resolve-bin (suc (length path)) p bin name
    ∙ resolve-last (length path) bin name child is found

walk_path-fixed :
    (p : Statics) (bin : Entries)
    → (walk_path true (namespace_root p bin) console_path ≡ some p.output_node)
      × (walk_path true (namespace_root p bin) banner_path ≡ some p.banner_node)
unfolding walk_path walk read_component find_child string_equal
walk_path-fixed p bin = (refl, refl)

fixed_nodes-lookup :
    (p : Statics) (s : Vfs)
    → p.banner_node ≢ p.output_node
    → (lookup p.output_node (fixed_nodes p s).nodes
        ≡ some (record { kind = console; refs = 0; ops = namespace_output; content = no_data }))
      × (lookup p.banner_node (fixed_nodes p s).nodes
          ≡ some (record {
            kind = static_text;
            refs = 0;
            ops = static_text_ops;
            content = text banner;
          }))
unfolding fixed_nodes
fixed_nodes-lookup p s ne =
    let other : (p.banner_node == p.output_node) ≡ false = ground arith in
    let self : (p.output_node == p.output_node) ≡ true = ground arith in
    let self' : (p.banner_node == p.banner_node) ≡ true = ground arith in
    (
      node_initialize-lookup p.output_node p.banner_node _ _ _ _
          ∙ rw other (node_initialize-lookup p.output_node p.output_node _ _ _ _ ∙ rw self refl),
      node_initialize-lookup p.banner_node p.banner_node _ _ _ _ ∙ rw self' refl,
    )

fixed_nodes-kept :
    (p : Statics) (s : Vfs)
    → ((fixed_nodes p s).heap ≡ s.heap)
      × ((fixed_nodes p s).files ≡ s.files)
      × ((fixed_nodes p s).serial ≡ s.serial)
unfolding fixed_nodes node_initialize
fixed_nodes-kept p s = (refl, refl, refl)

-- The state of the file system after vfs_namespace_initialize.
pub record Populated (p : Statics) (registry : List Program) (s s' : Vfs) : Type 0 where
  pub programs :
      (i : ℕ) (g : Program)
      → get_elem? registry i ≡ some g
      → IsFirst registry i g.name
      → IsName g.name
      → (walk_path s'.ready s'.root (bin_path g.name) ≡ some (p.executables i))
        × (lookup (p.executables i) s'.nodes ≡ some (program_node p g))
  pub console_output :
      (walk_path s'.ready s'.root console_path ≡ some p.output_node)
      × (lookup p.output_node s'.nodes
          ≡ some (record { kind = console; refs = 0; ops = namespace_output; content = no_data }))
  pub banner_text :
      (walk_path s'.ready s'.root banner_path ≡ some p.banner_node)
      × (lookup p.banner_node s'.nodes
          ≡ some (record {
            kind = static_text;
            refs = 0;
            ops = static_text_ops;
            content = text banner;
          }))
  pub kept : (s'.heap ≡ s.heap) × (s'.files ≡ s.files) × (s'.serial ≡ s.serial)

Added-Populated :
    (p : Statics) (registry : List Program) (s s' : Vfs) (bin : Entries)
    → Apart p
    → Added p 0 registry (fixed_nodes p s) s' bin
    → Populated p registry s (record s' { root = namespace_root p bin; ready = true })
Added-Populated p registry s s' bin apart a =
    let (console_walk, banner_walk) = walk_path-fixed p bin in
    let (console_there, banner_there) = fixed_nodes-lookup p s apart.fixed in
    let (heap, files, serial) = fixed_nodes-kept p s in
    record {
      programs = λ i g at first name. (
        walk_path-bin p bin g.name (record { node = p.executables i; children = none }) name
            (let zero_on : 0 + i ≡ i = omega arith in rw zero_on at (a.found i g at first)),
        let zero_on : 0 + i ≡ i = omega arith in rw zero_on at (a.nodes i g at),
      );
      console_output =
          (console_walk, a.others p.output_node (λ i le. apart.output i) ∙ console_there);
      banner_text = (banner_walk, a.others p.banner_node (λ i le. apart.banner i) ∙ banner_there);
      kept = (a.kept.0 ∙ heap, a.kept.1 ∙ files, a.kept.2 ∙ serial);
    }

abbrev pub PopulateSpec : Statics → List Program → Vfs → Type 0
PopulateSpec p registry s =
    ((namespace_initialize p registry s ≡ halt)
      × ((5 < length registry) ⊎ ¬ All (HasImage p) registry))
    ⊎ ((s' : Vfs) × (namespace_initialize p registry s ≡ ok s')
        × (length registry ≤ 5)
        × All (HasImage p) registry
        × Populated p registry s s')

-- vfs_namespace_initialize, with its nodes at different addresses, stops the kernel exactly where the
-- registry has more than five programs or one without an image. Otherwise every program whose name is
-- a component that no program before it has is found under /bin as an executable with its image,
-- /dev/console is the console and /etc/banner the text; heap, files and serial line are as before. Where
-- USER_TEST_BAD_EXEC_IMAGE is defined, the image of pulse is the bad one.
pub namespace_initialize-PopulateSpec :
    (p : Statics) (registry : List Program) (s : Vfs) → Apart p → PopulateSpec p registry s
unfolding namespace_initialize
namespace_initialize-PopulateSpec p registry s apart = elim (dec_lt 5 (length registry)) [
  | yes many ↦ inl (ground arith, inl many)
  | no few ↦
      let fits : ltb 6 (length registry + 1) ≡ false = ground arith in
      let fits' : ltb 5 (length registry) ≡ false = ground arith in
      elim (add_programs-AddSpec p 0 registry (fixed_nodes p s) apart) [
        | inl (stops, bad) ↦ inl (rw (fits, fits', stops) refl, inr bad)
        | inr (bin, s', ends, all, added) ↦ inr (
          record s' { root = namespace_root p bin; ready = true },
          rw (fits, fits', ends) refl,
          omega arith,
          all,
          Added-Populated p registry s s' bin apart added,
        )
      ]
]
