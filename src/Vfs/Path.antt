-- ===== src/Vfs/Path.antt =====
-- The namespace of src/kernel/vfs.c and the walk along a path. A C string is the list of its bytes
-- before the NUL, so a byte of the list is never 0.
use platinum.Prelude.{
  ℕ, zero, suc, ◌+◌, Bool, true, false, not, ◌&&◌, ◌||◌, Option, none, some, List, [], ◌∷◌, leb,
  ◌==◌, if◌then◌else◌, length,
}

-- An array of `struct vfs_namespace_entry` up to its end mark. `leaf name node rest` has no
-- children; `dir name node children rest` has.
pub data Entries : Type 0 where
  end : Entries
  leaf : List ℕ → ℕ → Entries → Entries
  dir : List ℕ → ℕ → Entries → Entries → Entries

unfoldable pub string_equal : List ℕ → List ℕ → Bool
string_equal [] [] = true
string_equal [] (b ∷ bs) = false
string_equal (a ∷ as_) [] = false
string_equal (a ∷ as_) (b ∷ bs) = (a == b) && string_equal as_ bs

pub record Child : Type 0 where
  pub node : ℕ
  pub children : Option Entries

unfoldable pub find_child : Entries → List ℕ → Option Child
unfolding string_equal
find_child end name = none
find_child (leaf n node rest) name =
    if string_equal n name
    then some (record { node = node; children = none })
    else find_child rest name
find_child (dir n node children rest) name =
    if string_equal n name
    then some (record { node = node; children = some children })
    else find_child rest name

-- sizeof(component)
abbrev pub component_size : ℕ
component_size = 16

-- The inner loop of vfs_walk_path from `component_index` on: the rest of the component and what
-- follows it, from the `/` on; `none` where the component is too long for the buffer.
unfoldable pub read_component : ℕ → List ℕ → Option (List ℕ × List ℕ)
read_component index [] = some ([], [])
read_component index (c ∷ path) =
    let later = read_component (index + 1) path in
    if c == b'/'
    then some ([], c ∷ path)
    else if leb component_size (index + 1)
    then none
    else (elim later [ none ↦ none | some (component, rest) ↦ some (c ∷ component, rest) ])

-- `path[0] == '\0'`
abbrev pub is_end : List ℕ → Bool
is_end [] = true
is_end (c ∷ path) = false

-- `path + 1`
abbrev pub behind : List ℕ → List ℕ
behind [] = []
behind (c ∷ path) = path

-- The outer loop of vfs_walk_path, on fuel. `rest` starts with the `/` that ended the component.
unfoldable pub walk : ℕ → Entries → List ℕ → Option ℕ
walk zero entries path = none
walk (suc fuel) entries path = elim (read_component 0 path) [
  | none ↦ none
  | some (component, rest) ↦
      if is_end component then none else (elim (find_child entries component) [
        | none ↦ none
        | some child ↦ if is_end rest then some child.node else (elim child.children [
          | none ↦ none
          | some children ↦
              let later = walk fuel children (behind rest) in
              if is_end (behind rest) then none else later
        ])
      ])
]

-- One round for each component: a component takes at least one byte.
unfoldable pub walk_path : Bool → Entries → List ℕ → Option ℕ
unfolding walk read_component find_child
walk_path ready root [] = none
walk_path ready root (c ∷ path) =
    if not ready || not (c == b'/')
    then none
    else if is_end path
    then none
    else walk (suc (length path)) root path
