-- ===== src/Vfs/Resolve.antt =====
-- The walk along a path (src/kernel/vfs.c) against a description by components: the path is split
-- at every `/`, and each component names an entry of the directory before it.
use platinum.Prelude.{
  ℕ, zero, suc, ◌+◌, ◌<◌, ◌≡◌, ◌≢◌, ◌↔◌, inl, inr, refl, Bool, true, false, ◌||◌, Option, none,
  some, List, [], ◌∷◌, leb, ◌==◌, if◌then◌else◌, length, arith, Option-cases, ◌∙◌,
}
use platinum.Vfs.Path.{
  Entries, string_equal, find_child, component_size, read_component, walk, walk_path,
}

-- string_equal decides equality of strings.
pub string_equal-eq : (a b : List ℕ) → (string_equal a b ≡ true) ↔ (a ≡ b)
unfolding string_equal
string_equal-eq [] [] = (λ _. refl, λ _. refl)
string_equal-eq [] (b ∷ bs) = (λ h. cc, λ h. cc)
string_equal-eq (a ∷ as_) [] = (λ h. cc, λ h. cc)
string_equal-eq (a ∷ as_) (b ∷ bs) =
    let ih = string_equal-eq as_ bs in (λ h. ground (arith, ih.0), λ h. ground (arith, ih.1))

-- The bytes before the first `/`, and those behind it where there is one.
unfoldable pub split_first : List ℕ → List ℕ × Option (List ℕ)
split_first [] = ([], none)
split_first (c ∷ path) =
    let (component, rest) = split_first path in
    if c == b'/' then ([], some path) else (c ∷ component, rest)

-- The components of a path, as a tree walk reads them: `none` where one of them is empty or too
-- long, has no entry, or stands below an entry without children. The number bounds the components.
unfoldable pub resolve : ℕ → Entries → List ℕ → Option ℕ
unfolding split_first
resolve zero entries path = none
resolve (suc depth) entries path =
    let (component, rest) = split_first path in
    if (length component == 0) || leb component_size (length component)
    then none
    else (elim (find_child entries component) [
      | none ↦ none
      | some child ↦ elim rest [
        | none ↦ some child.node
        | some path' ↦ elim child.children [
          | none ↦ none
          | some children ↦ resolve depth children path'
        ]
      ]
    ])

-- The rest of a path as read_component leaves it.
abbrev rest_of : Option (List ℕ) → List ℕ
rest_of none = []
rest_of (some path) = b'/' ∷ path

-- read_component finds the first component, unless it does not fit the buffer.
read_component-split_first :
    (index : ℕ) (path : List ℕ)
    → index < component_size
    → read_component index path ≡ (
        if leb component_size (index + length (split_first path).0)
        then none
        else some ((split_first path).0, rest_of (split_first path).1))
unfolding read_component split_first
read_component-split_first index [] h = ground arith
read_component-split_first index (c ∷ path) h =
    ground (arith, read_component-split_first (index + 1) path)

-- What is left behind the first component is shorter than the path.
split_first_shorter :
    (path path' : List ℕ) → (split_first path).1 ≡ some path' → length path' < length path
unfolding split_first
split_first_shorter [] path' h = cc
split_first_shorter (c ∷ path) path' h = ground (arith, split_first_shorter path path')

-- A path that is at its end resolves to nothing: its one component is empty.
resolve-nil : (depth : ℕ) (entries : Entries) → resolve depth entries [] ≡ none
unfolding resolve
resolve-nil zero entries = refl
resolve-nil (suc depth) entries = refl

-- One round of the loop, for the component and the rest that the path splits into.
walk_round :
    (fuel : ℕ) (entries : Entries) (path component : List ℕ) (rest : Option (List ℕ))
    → split_first path ≡ (component, rest)
    → ((children : Entries) (path' : List ℕ)
        → walk fuel children path' ≡ resolve fuel children path')
    → walk (suc fuel) entries path ≡ resolve (suc fuel) entries path
unfolding walk resolve
walk_round fuel entries path [] rest e ih = ground (arith, read_component-split_first 0 path)
walk_round fuel entries path (c ∷ cs) none e ih =
    elim (Option-cases (find_child entries (c ∷ cs))) [
      | inl missing ↦ ground (arith, read_component-split_first 0 path)
      | inr (child, found) ↦ ground (arith, read_component-split_first 0 path)
    ]
walk_round fuel entries path (c ∷ cs) (some path') e ih =
    elim (Option-cases (find_child entries (c ∷ cs))) [
      | inl missing ↦ ground (arith, read_component-split_first 0 path)
      | inr (child, found) ↦ elim (Option-cases child.children) [
        | inl no_children ↦ ground (arith, read_component-split_first 0 path)
        | inr (children, has_children) ↦
            ground (
              arith,
              read_component-split_first 0 path,
              ih children path',
              resolve-nil fuel children,
            )
      ]
    ]

walk-resolve :
    (fuel : ℕ) (entries : Entries) (path : List ℕ)
    → walk fuel entries path ≡ resolve fuel entries path
walk-resolve zero entries path = unfold walk resolve in refl
walk-resolve (suc fuel) entries path =
    walk_round fuel entries path (split_first path).0 (split_first path).1 refl (walk-resolve fuel)

-- More depth than the path has bytes changes nothing.
resolve_enough :
    (depth more : ℕ) (entries : Entries) (path : List ℕ)
    → length path < depth
    → length path < more
    → resolve depth entries path ≡ resolve more entries path
unfolding resolve
resolve_enough zero more entries path h k = absurd (omega arith)
resolve_enough (suc depth) zero entries path h k = absurd (omega arith)
resolve_enough (suc depth) (suc more) entries path h k = elim (Option-cases (split_first path).1) [
  | inl last ↦ ground arith
  | inr (path', further) ↦ elim (Option-cases (find_child entries (split_first path).0)) [
    | inl missing ↦ ground arith
    | inr (child, found) ↦ elim (Option-cases child.children) [
      | inl no_children ↦ ground arith
      | inr (children, has_children) ↦
          let shorter = split_first_shorter path path' further in
          ground (arith, resolve_enough depth more children path' (omega arith) (omega arith))
    ]
  ]
]

-- vfs_walk_path of an absolute path, in a namespace that is ready, is the resolution of what stands
-- behind the first `/`, component by component, at any depth above the length of the path: no
-- component is skipped, cut short or read twice, and the fuel suffices. Any other path, and any path
-- before the namespace is ready, leads to no node.
pub walk_path-resolve :
    (depth : ℕ) (ready : Bool) (root : Entries) (path : List ℕ)
    → length path < depth
    → (walk_path true root (b'/' ∷ path) ≡ resolve depth root path)
      × (walk_path false root path ≡ none)
      × (walk_path ready root [] ≡ none)
      × ((c : ℕ) → c ≢ b'/' → walk_path ready root (c ∷ path) ≡ none)
unfolding walk_path
walk_path-resolve depth ready root path h =
    (absolute path h, never path, refl, λ c ne. ground arith)
  where
    absolute :
        (p : List ℕ) → length p < depth → walk_path true root (b'/' ∷ p) ≡ resolve depth root p
    absolute [] k = rw (resolve-nil depth root)
    absolute (c ∷ p) k =
        walk-resolve (suc (length (c ∷ p))) root (c ∷ p)
        ∙ resolve_enough (suc (length (c ∷ p))) depth root (c ∷ p) (omega arith) k

    never : (p : List ℕ) → walk_path false root p ≡ none
    never [] = refl
    never (c ∷ p) = refl
