-- ===== src/Paging/Change.antt =====
-- Writes to the tables of src/kernel/paging.c that keep a tree of tables.
use platinum.Prelude.{ℕ, ◌+◌, ◌≤◌, ◌<◌, ◌≡◌, ◌≢◌, ◌⊎◌, inl, inr, refl, sym, ◌∙◌, arith, true, []}
use platinum.Paging.{Paging, entry_address, is_present, write_entry}
use platinum.Paging.Hierarchy.{child, Shape, IsTree, Grows, lack, free_pages}

-- The table that a call answers with is below the entry `i` of `p`, and the rest of the tree is there
-- as before.
pub record Linked (sh : Shape) (root : ℕ) (s : Paging) (p i : ℕ) (r : ℕ × Paging) : Type 0 where
  pub shape : Shape
  pub tree : IsTree shape root r.1
  pub grows : Grows sh s r.1
  pub kept : (x : ℕ) → 0 < sh.level x → shape.level x ≡ sh.level x
  pub level : shape.level r.0 + 1 ≡ sh.level p
  pub here : child r.1 p i ≡ r.0
  pub cost : free_pages s ≤ free_pages r.1 + lack (child s p i)

abbrev pub Next : Shape → ℕ → Paging → ℕ → ℕ → ℕ × Paging → Type 0
Next sh root s p i r =
    ((r.0 ≡ 0) × (r.1 ≡ s) × (s.palloc.free_list ≡ []) × (child s p i ≡ 0)) ⊎ Linked sh root s p i r

-- A write, entry by entry.
pub write_entry-cases :
    (p i e : ℕ) (s : Paging) (x j : ℕ)
    → ((x ≡ p) × (j ≡ i) × ((write_entry p i e s).table x j ≡ e))
      ⊎ (((x ≢ p) ⊎ (j ≢ i)) × ((write_entry p i e s).table x j ≡ s.table x j))
unfolding write_entry
write_entry-cases p i e s x j = ground arith

pub write_entry-palloc : (p i e : ℕ) (s : Paging) → (write_entry p i e s).palloc ≡ s.palloc
unfolding write_entry
write_entry-palloc p i e s = refl

-- The entries keep their presence and their address: the same tree.
pub same-IsTree :
    (sh : Shape) (root : ℕ) (s s' : Paging)
    → IsTree sh root s
    → s'.palloc ≡ s.palloc
    → ((x j : ℕ)
        → (is_present (s'.table x j) ≡ is_present (s.table x j))
          × (entry_address (s'.table x j) ≡ entry_address (s.table x j)))
    → IsTree sh root s'
same-IsTree sh root s s' t ep et = record {
  pages = rw ep t.pages;
  end = rw ep t.end;
  used = rw ep t.used;
  top = t.top;
  tables = t.tables;
  entries = λ x j two lt h. rw (et x j).1 (t.entries x j two lt (sym (et x j).0 ∙ h));
}

-- The entry `i` of `p` gets the word `e`, with the presence and the address that it has.
pub redirected-Linked :
    (sh : Shape) (root : ℕ) (s : Paging) (p i e : ℕ)
    → IsTree sh root s
    → 2 ≤ sh.level p
    → i < 512
    → is_present (s.table p i) ≡ true
    → is_present e ≡ true
    → entry_address e ≡ entry_address (s.table p i)
    → Linked sh root s p i (entry_address e, write_entry p i e s)
unfolding child write_entry
redirected-Linked sh root s p i e t two lt present ep ea = record {
  shape = sh;
  tree = same-IsTree sh root s (write_entry p i e s) t refl same;
  grows = record {
    last = λ x j h. last x j h (write_entry-cases p i e s x j);
    inner = λ x j h k. let (u, v) = same x j in rw (u, v) (inl refl);
  };
  kept = λ x h. refl;
  level = rw ea (t.entries p i two lt present).level;
  here = let (u, v) = same p i in rw (u, v, present) (sym ea);
  cost = omega arith;
}
  where
    same :
        (x j : ℕ)
        → (is_present ((write_entry p i e s).table x j) ≡ is_present (s.table x j))
          × (entry_address ((write_entry p i e s).table x j) ≡ entry_address (s.table x j))
    same x j = elim (write_entry-cases p i e s x j) [
      | inl (ex, ej, h) ↦ rw (h, ex, ej) (ep ∙ sym present, ea)
      | inr (_, h) ↦ rw h (refl, refl)
    ]

    last :
        (x j : ℕ)
        → sh.level x ≡ 1
        → ((x ≡ p) × (j ≡ i) × ((write_entry p i e s).table x j ≡ e))
          ⊎ (((x ≢ p) ⊎ (j ≢ i)) × ((write_entry p i e s).table x j ≡ s.table x j))
        → (write_entry p i e s).table x j ≡ s.table x j
    last x j one (inl (ex, _, _)) = let l = rw ex at one in absurd (omega arith)
    last x j one (inr (_, h)) = h

pub same-Linked :
    (sh : Shape) (root : ℕ) (s : Paging) (p i : ℕ)
    → IsTree sh root s
    → 2 ≤ sh.level p
    → i < 512
    → is_present (s.table p i) ≡ true
    → Linked sh root s p i (entry_address (s.table p i), s)
unfolding child
same-Linked sh root s p i t two lt present = record {
  shape = sh;
  tree = t;
  grows = record { last = λ x j h. refl; inner = λ x j h k. inl refl };
  kept = λ x h. refl;
  level = (t.entries p i two lt present).level;
  here = rw present refl;
  cost = omega arith;
}
