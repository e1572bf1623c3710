-- ===== src/Vfs/Lifetime.antt =====
-- Opening a file and closing it again (src/kernel/vfs.c), with the memory of its `struct vfs_file` from
-- the kernel heap.
use platinum.Prelude.{
  ℕ, ◌+◌, ◌-◌, ◌^◌, ◌<◌, ◌≡◌, ◌≢◌, ◌⊎◌, ◌∙◌, sym, inl, inr, refl, true, false, not, ◌&&◌, ◌||◌,
  none, some, arith, ◌==◌, if◌then◌else◌, u32, Bool-cases, ok, lookup, insert, erase, lookup-insert,
  lookup-erase,
}
use platinum.Heap
use platinum.Heap.{Heap}
use platinum.Heap.Chain.{Chain, owned, kfree-Chain}
use platinum.Heap.Kmalloc.{FreshPage, kmalloc-KmallocSpec}
use platinum.Vfs.Objects.{Vfs, Node, kfree, may_read, may_write, has_read, has_write}
use platinum.Vfs.{
  file_size, is_directory, open_flags_valid, attach, make_file, file_open, file_close, detach,
}

-- The node may be opened with the access.
pub record MayOpen (n : Node) (access : ℕ) : Type 0 where
  pub no_directory : is_directory n.kind ≡ false
  pub valid : open_flags_valid access ≡ true
  pub reads : may_read access ≡ true → has_read n.ops ≡ true
  pub writes : may_write access ≡ true → has_write n.ops ≡ true

-- The same nodes, the same other files and the same blocks of the heap in use.
pub record Restored (q : ℕ) (s s' : Vfs) : Type 0 where
  pub nodes : (p : ℕ) → lookup p s'.nodes ≡ lookup p s.nodes
  pub files : (p : ℕ) → p ≢ q → lookup p s'.files ≡ lookup p s.files
  pub closed : lookup q s'.files ≡ none
  pub chain : Chain 1 s'.heap.blocks
  pub in_use : (a m : ℕ) → owned a m s'.heap.blocks ≡ owned a m s.heap.blocks

file_open-make_file :
    (node access : ℕ) (n : Node) (s : Vfs)
    → node ≢ 0
    → lookup node s.nodes ≡ some n
    → MayOpen n access
    → file_open node access s ≡ make_file node access s
unfolding file_open
file_open-make_file node access n s ne live may =
    let e : (node == 0) ≡ false = ground arith in
    let refused : (is_directory n.kind
          || not (open_flags_valid access)
          || (may_read access && not (has_read n.ops))
          || (may_write access && not (has_write n.ops)))
        ≡ false =
      ground (arith, may.no_directory, may.valid, may.reads, may.writes) in
    rw (e, live, refused, file_open)

-- The state in between: the file at `q`, and one reference more to the node.
module _ (node access : ℕ) (n : Node) (s : Vfs) (ne : node ≢ 0)
    (live : lookup node s.nodes ≡ some n) (pos : 0 < n.refs) (small : n.refs + 1 < 2 ^ 32) (q : ℕ)
    (heap : Heap) (nonzero : q ≢ 0) where
  opened : Vfs
  opened = attach q node n access (record s { heap = heap })

  file_live :
      lookup q opened.files ≡ some (record { refs = 1; node = node; offset = 0; access = access })
  unfolding opened attach
  file_live =
      rw (lookup-insert q q (record { refs = 1; node = node; offset = 0; access = access }) s.files)
        (ground arith)

  node_live : lookup node opened.nodes ≡ some (record n { refs = n.refs + 1 })
  unfolding opened attach
  node_live =
      let e : u32 (n.refs + 1) ≡ n.refs + 1 = omega arith in
      rw (e, lookup-insert node node (record n { refs = n.refs + 1 }) s.nodes) (ground arith)

  -- The state after vfs_file_close.
  closed_state : Heap → Vfs
  closed_state h' = record opened {
    heap = h';
    files = erase q opened.files;
    nodes = insert node (record n { refs = n.refs + 1 - 1 }) opened.nodes;
  }

  closes :
      (h' : Heap) → Heap.kfree q opened.heap ≡ ok h' → file_close q opened ≡ ok (0, closed_state h')
  unfolding closed_state file_close detach kfree
  closes h' freed =
      let a : (q == 0) ≡ false = ground arith in
      let b : (node == 0) ≡ false = ground arith in
      let c : (n.refs + 1 == 0) ≡ false = ground arith in
      let d : (n.refs + 1 - 1 == 0) ≡ false = ground arith in
      rw (a, file_live, b, freed, node_live, c, d, file_close, detach, kfree) refl

  closed-nodes : (h' : Heap) (p : ℕ) → lookup p (closed_state h').nodes ≡ lookup p s.nodes
  unfolding closed_state opened attach
  closed-nodes h' p =
      let one = lookup-insert node p (record n { refs = n.refs + 1 - 1 }) opened.nodes in
      let two = lookup-insert node p (record n { refs = u32 (n.refs + 1) }) s.nodes in
      elim (Bool-cases (node == p)) [
        | inr other ↦ one ∙ rw other (two ∙ rw other refl)
        | inl same ↦
            let e : node ≡ p = ground arith in
            let back : n.refs + 1 - 1 ≡ n.refs = omega arith in
            one ∙ rw (same, back) (sym (rw e at live))
      ]

  closed-files :
      (h' : Heap) (p : ℕ)
      → lookup p (closed_state h').files ≡ (if q == p then none else lookup p s.files)
  unfolding closed_state opened attach
  closed-files h' p =
      let one = lookup-erase q p opened.files in
      let two =
        lookup-insert q p (record { refs = 1; node = node; offset = 0; access = access }) s.files in
      elim (Bool-cases (q == p)) [
        | inr other ↦ one ∙ rw other (two ∙ rw other refl)
        | inl same ↦ one ∙ rw same refl
      ]

-- What vfs_file_open and a vfs_file_close of its result do together.
abbrev pub OpenSpec : ℕ → ℕ → Node → Vfs → Type 0
OpenSpec node access n s =
    ((s' : Vfs) × (file_open node access s ≡ ok (0, s'))
      × (s'.nodes ≡ s.nodes)
      × (s'.files ≡ s.files)
      × Chain 1 s'.heap.blocks
      × ((a m : ℕ) → owned a m s'.heap.blocks ≡ owned a m s.heap.blocks))
    ⊎ ((q : ℕ) × (s' : Vfs) × (file_open node access s ≡ ok (q, s'))
        × (q ≢ 0)
        × (lookup q s'.files ≡ some (record { refs = 1; node = node; offset = 0; access = access }))
        × (lookup node s'.nodes ≡ some (record n { refs = n.refs + 1 }))
        × ((s'' : Vfs) × (file_close q s' ≡ ok (0, s'')) × Restored q s s''))

module _ (node access : ℕ) (n : Node) (s : Vfs) (ne : node ≢ 0)
    (live : lookup node s.nodes ≡ some n) (may : MayOpen n access) (pos : 0 < n.refs)
    (small : n.refs + 1 < 2 ^ 32) where
  -- The memory for the file is the block at `q` with `room` bytes.
  opens :
      (q room : ℕ) (h' : Heap)
      → Heap.kmalloc file_size s.heap ≡ ok (q, h')
      → Chain 1 h'.blocks
      → 32 < q
      → q + room < 2 ^ 63
      → ((a m : ℕ)
          → owned a m h'.blocks
            ≡ owned a m s.heap.blocks + (if (q - 32 == a) && (room == m) then 1 else 0))
      → OpenSpec node access n s
  unfolding opened closed_state attach make_file
  opens q room h' got chain above below counted =
      let nonzero : q ≢ 0 = omega arith in
      let e : (q == 0) ≡ false = ground arith in
      let mine : 0 < owned (q - 32) room h'.blocks = ground (arith, counted (q - 32) room) in
      let (h'', freed, chain', back, _) =
        kfree-Chain q room h' (omega arith) (omega arith) chain mine in
      inr (
        q,
        opened node access n s ne live pos small q h' nonzero,
        file_open-make_file node access n s ne live may ∙ rw (got, e, live, make_file) refl,
        nonzero,
        file_live node access n s ne live pos small q h' nonzero,
        node_live node access n s ne live pos small q h' nonzero,
        (
          closed_state node access n s ne live pos small q h' nonzero h'',
          closes node access n s ne live pos small q h' nonzero h'' freed,
          record {
            nodes = closed-nodes node access n s ne live pos small q h' nonzero h'';
            files = λ p ne'.
                let other : (q == p) ≡ false = ground arith in
                closed-files node access n s ne live pos small q h' nonzero h'' p ∙ rw other refl;
            closed =
                let same : (q == q) ≡ true = ground arith in
                closed-files node access n s ne live pos small q h' nonzero h'' q ∙ rw same refl;
            chain = chain';
            in_use = λ a m. omega (arith, back a m, counted a m);
          },
        ),
      )

-- vfs_file_open of a node in use, with an access that it allows, from a heap as kmalloc wants it:
-- it returns NULL, and then nodes, files and the blocks of the heap in use are as before; or it returns
-- a new file with one reference, offset 0 and that access, and the node has one reference more. In
-- that case vfs_file_close of the file succeeds and gives everything back: the nodes with their counts,
-- the other files, and the blocks of the heap in use are as before the opening, and the file is gone.
pub file_open-OpenSpec :
    (node access : ℕ) (n : Node) (s : Vfs)
    → node ≢ 0
    → lookup node s.nodes ≡ some n
    → MayOpen n access
    → 0 < n.refs
    → n.refs + 1 < 2 ^ 32
    → Chain 1 s.heap.blocks
    → FreshPage s.heap
    → OpenSpec node access n s
unfolding make_file
file_open-OpenSpec node access n s ne live may pos small chain fresh =
    let (q, h', got, (chain', cases)) =
      kmalloc-KmallocSpec file_size s.heap (omega arith) (omega arith) chain fresh in
    elim cases [
      | inl (null, same) ↦
          let e : (q == 0) ≡ true = ground arith in
          inl (
            record s { heap = h' },
            file_open-make_file node access n s ne live may ∙ rw (got, e, make_file) refl,
            refl,
            refl,
            chain',
            same,
          )
      | inr (room, fits, above, below, counted) ↦
          opens node access n s ne live may pos small q room h' got chain' above below counted
    ]
