-- ===== src/Elf/Bounds.antt =====
-- What the checks of src/kernel/elf.c say of the segments and the span of an image.
use platinum.Prelude.{
  ℕ, zero, suc, ◌+◌, ◌-◌, ◌%◌, ◌^◌, ◌≤◌, ◌<◌, ◌≡◌, inl, inr, refl, Bool, true, false, ◌&&◌, ◌||◌,
  Option, none, some, List, [], ◌∷◌, arith, leb, ltb, ◌==◌, u64, Bool-cases, All, Option-cases,
}
use mathlib.Core.Path.{subst}
use native.Mathlib.Nat.{pow-suc}
use platinum.Paging.{Layout}
use platinum.Elf.{plan, user_load_size}
use platinum.Elf.Format.{
  Header, ProgramHeader, Span, type_load, validate_load_segment, validate_all,
  validate_program_headers, widen, span_loop, compute_load_span, entry_in_load_segment, read_header,
  read_program_headers, read_le, program_header_size,
}

-- A loadable segment of an image of `size` bytes whose memory lies between `low` and `high`.
pub record IsInside (size low high : ℕ) (p : ProgramHeader) : Type 0 where
  pub in_file : p.offset + p.filesz ≤ size
  pub in_memory : p.filesz ≤ p.memsz
  pub not_empty : 0 < p.memsz
  pub from : low ≤ p.vaddr
  pub to : p.vaddr + p.memsz ≤ high

-- The fields of a program header are machine words.
pub record IsWord (p : ProgramHeader) : Type 0 where
  pub vaddr : p.vaddr < 2 ^ 64
  pub memsz : p.memsz < 2 ^ 64

abbrev pub LoadInside : ℕ → ℕ → ℕ → ProgramHeader → Type 0
LoadInside size low high p = p.kind ≡ type_load → IsInside size low high p

validate-LoadInside :
    (size : ℕ) (p : ProgramHeader)
    → IsWord p
    → validate_load_segment size p ≡ true
    → LoadInside size p.vaddr (u64 (p.vaddr + p.memsz)) p
unfolding validate_load_segment
validate-LoadInside size p w h load = ground arith

validate_all-head :
    (size : ℕ) (found : Bool) (p : ProgramHeader) (rest : List ProgramHeader)
    → validate_all size found (p ∷ rest) ≡ true
    → (validate_load_segment size p ≡ true)
      × (validate_all size (found || (p.kind == type_load)) rest ≡ true)
unfolding validate_all
validate_all-head size found p rest h = ground arith

-- What the span knows of the segments that it has passed.
abbrev Covers : Span → ProgramHeader → Type 0
Covers s p = p.kind ≡ type_load → (s.lowest ≤ p.vaddr) × (u64 (p.vaddr + p.memsz) ≤ s.highest)

widen-Covers :
    (p : ProgramHeader) (s : Span)
    → (t : Span) × (widen p (some s) ≡ some t)
      × (t.lowest ≤ s.lowest)
      × (s.highest ≤ t.highest)
      × Covers t p
unfolding widen
widen-Covers p s = elim (Bool-cases (p.kind == type_load)) [
  | inr other ↦ rw (other, widen) (s, refl, omega arith, omega arith, λ k. absurd (ground arith))
  | inl load ↦
      rw (load, widen) (_, refl, ground arith, ground arith, λ k. (ground arith, ground arith))
]

span_loop-grows :
    (ps : List ProgramHeader) (s : Span)
    → (t : Span) × (span_loop ps (some s) ≡ some t)
      × (t.lowest ≤ s.lowest)
      × (s.highest ≤ t.highest)
      × All (Covers t) ps
unfolding span_loop
span_loop-grows [] s = (s, refl, omega arith, omega arith, tt)
span_loop-grows (p ∷ ps) s =
    let (s', widened, low, high, covers) = widen-Covers p s in
    let (t, found, low', high', rest) = span_loop-grows ps s' in
    rw widened (
      t,
      found,
      omega arith,
      omega arith,
      (λ k. let c = covers k in (omega arith, omega arith), rest),
    )

span_loop-Covers :
    (ps : List ProgramHeader) (t : Span) → span_loop ps none ≡ some t → All (Covers t) ps
unfolding span_loop
span_loop-Covers [] t h = tt
span_loop-Covers (p ∷ ps) t h = elim (Bool-cases (p.kind == type_load)) [
  | inr other ↦
      let e : widen p none ≡ none = unfold widen in rw (other, widen) in
      (λ k. absurd (ground arith), span_loop-Covers ps t (rw e at h))
  | inl load ↦
      let s : Span = record { lowest = p.vaddr; highest = u64 (p.vaddr + p.memsz) } in
      let e : widen p none ≡ some s = unfold widen in rw (load, widen) in
      let (t', found, low, high, rest) = span_loop-grows ps s in
      let same : t' ≡ t = cc (found, rw e at h) in
      subst (λ x. All (Covers x) (p ∷ ps)) same (λ k. (omega arith, omega arith), rest)
]

-- The two loops over the headers together.
All-LoadInside :
    (size : ℕ) (found : Bool) (ps : List ProgramHeader) (low high : ℕ)
    → All IsWord ps
    → validate_all size found ps ≡ true
    → All (λ p. p.kind ≡ type_load → (low ≤ p.vaddr) × (u64 (p.vaddr + p.memsz) ≤ high)) ps
    → All (LoadInside size low high) ps
All-LoadInside size found [] low high w v c = tt
All-LoadInside size found (p ∷ ps) low high w v c =
    let (valid, rest) = validate_all-head size found p ps v in
    (
      λ load.
          let i = validate-LoadInside size p w.0 valid load in
          let b = c.0 load in
          record {
            in_file = i.in_file;
            in_memory = i.in_memory;
            not_empty = i.not_empty;
            from = b.0;
            to = omega (arith, i.to, b.1);
          },
      All-LoadInside size (found || (p.kind == type_load)) ps low high w.1 rest c.1,
    )

read_le-lt : (n offset : ℕ) (image : ℕ → ℕ) → read_le n offset image < 256 ^ n
unfolding read_le
read_le-lt zero offset image = omega arith
read_le-lt (suc n) offset image = rw pow-suc (omega (arith, read_le-lt n (offset + 1) image))

headers-IsWord : (n at : ℕ) (image : ℕ → ℕ) → All IsWord (read_program_headers n at image)
unfolding read_program_headers
headers-IsWord zero at image = tt
headers-IsWord (suc n) at image = (
  record { vaddr = read_le-lt 8 (at + 16) image; memsz = read_le-lt 8 (at + 40) image },
  headers-IsWord n (at + program_header_size) image,
)

-- What the loader relies on once its checks have passed.
pub record IsPlanned (size : ℕ) (l : Layout) (span : Span) (h : Header) (ps : List ProgramHeader)
    : Type 0 where
  pub segments : All (LoadInside size span.lowest span.highest) ps
  pub low_aligned : span.lowest % 4096 ≡ 0
  pub high_aligned : span.highest % 4096 ≡ 0
  pub not_empty : span.lowest < span.highest
  pub small : span.highest - span.lowest ≤ user_load_size
  pub below_stack : l.image_base + (span.highest - span.lowest) + 4096 ≤ l.stack_top
  pub entry : (span.lowest ≤ h.entry) × (h.entry < span.highest)

abbrev IsSmall : Option Span → Type 0
IsSmall none = Unit
IsSmall (some s) = s.highest < 2 ^ 64

widen-IsSmall : (p : ProgramHeader) (o : Option Span) → IsSmall o → IsSmall (widen p o)
unfolding widen
widen-IsSmall p none h = ground arith
widen-IsSmall p (some s) h = ground arith

span_loop-IsSmall :
    (ps : List ProgramHeader) (o : Option Span) → IsSmall o → IsSmall (span_loop ps o)
unfolding span_loop
span_loop-IsSmall [] o h = h
span_loop-IsSmall (p ∷ ps) o h = span_loop-IsSmall ps (widen p o) (widen-IsSmall p o h)

Covers-align :
    (s t : Span) (ps : List ProgramHeader)
    → t.lowest ≤ s.lowest
    → s.highest ≤ t.highest
    → All (Covers s) ps
    → All (Covers t) ps
Covers-align s t [] low high c = tt
Covers-align s t (p ∷ ps) low high c =
    (λ k. let b = c.0 k in (omega arith, omega arith), Covers-align s t ps low high c.1)

compute_load_span-Covers :
    (ps : List ProgramHeader) (t : Span)
    → All IsWord ps
    → compute_load_span ps ≡ some t
    → All (Covers t) ps × (t.lowest % 4096 ≡ 0) × (t.highest % 4096 ≡ 0) × (t.lowest < t.highest)
unfolding compute_load_span
compute_load_span-Covers ps t w h = elim (Option-cases (span_loop ps none)) [
  | inl e ↦ absurd (ground arith)
  | inr (s, e) ↦
      let bound : s.highest < 2 ^ 64 = rw e at (span_loop-IsSmall ps none tt) in
      (
        Covers-align s t ps (ground arith) (ground arith) (span_loop-Covers ps s e),
        ground arith,
        ground arith,
        ground arith,
      )
]

entry_in_load_segment-Covers :
    (ps : List ProgramHeader) (entry : ℕ) (t : Span)
    → All (Covers t) ps
    → entry_in_load_segment ps entry ≡ true
    → (t.lowest ≤ entry) × (entry < t.highest)
unfolding entry_in_load_segment
entry_in_load_segment-Covers [] entry t c h = cc
entry_in_load_segment-Covers (p ∷ ps) entry t c h = elim (Bool-cases (p.kind == type_load)) [
  | inr other ↦ entry_in_load_segment-Covers ps entry t c.1 (ground arith)
  | inl load ↦
      let b = c.0 (ground arith) in
      elim (Bool-cases (leb p.vaddr entry && ltb entry (u64 (p.vaddr + p.memsz)))) [
        | inl hit ↦ (ground arith, ground arith)
        | inr miss ↦ entry_in_load_segment-Covers ps entry t c.1 (ground arith)
      ]
]

validate_program_headers-all :
    (ps : List ProgramHeader) (size : ℕ)
    → validate_program_headers ps size ≡ true
    → validate_all size false ps ≡ true
unfolding validate_program_headers
validate_program_headers-all [] size h = cc
validate_program_headers-all (p ∷ ps) size h = h

-- What the checks of `plan` found, each by itself.
record Checked (image : ℕ → ℕ) (size : ℕ) (l : Layout) (span : Span) (h : Header)
    (ps : List ProgramHeader) : Type 0 where
  table : ps ≡ read_program_headers h.phnum h.phoff image
  valid : validate_program_headers ps size ≡ true
  spanned : compute_load_span ps ≡ some span
  entered : entry_in_load_segment ps h.entry ≡ true
  small : span.highest - span.lowest ≤ user_load_size
  stack : 4096 < l.stack_top
  no_wrap : l.image_base ≤ u64 (l.image_base + (span.highest - span.lowest))
  below : u64 (l.image_base + (span.highest - span.lowest)) ≤ l.stack_top - 4096

plan-Checked :
    (image : ℕ → ℕ) (size : ℕ) (l : Layout) (a : ℕ) (span : Span) (h : Header)
    (ps : List ProgramHeader)
    → plan image size l a ≡ some (span, h, ps)
    → Checked image size l span h ps
unfolding plan
plan-Checked image size l a span h ps e =
    let header = read_header image in
    let all = read_program_headers header.phnum header.phoff image in
    elim (Option-cases (compute_load_span all)) [
      | inl none_found ↦ absurd (ground arith)
      | inr (s, found) ↦
          let same : ◌≡◌ {A = Span × Header × List ProgramHeader} (s, header, all) (span, h, ps) =
            ground arith in
          subst (λ (x : Span × Header × List ProgramHeader). Checked image size l x.0 x.1 x.2) same
            (record {
              table = refl;
              valid = ground arith;
              spanned = found;
              entered = ground arith;
              small = ground arith;
              stack = ground arith;
              no_wrap = ground arith;
              below = ground arith;
            })
    ]

-- An image that passes every check of elf_load_user_image before the claim: each loadable segment
-- lies inside the image file and inside the span, no larger in the file than in memory and not
-- empty; the span is made of whole pages, at most 1 MB of them, which end at least a page below the
-- top of the user stack; and the entry lies inside the span. No sum in these statements wraps around.
pub plan-IsPlanned :
    (image : ℕ → ℕ) (size : ℕ) (l : Layout) (a : ℕ) (span : Span) (h : Header)
    (ps : List ProgramHeader)
    → l.image_base < 2 ^ 64
    → plan image size l a ≡ some (span, h, ps)
    → IsPlanned size l span h ps
plan-IsPlanned image size l a span h ps base e =
    let c = plan-Checked image size l a span h ps e in
    let words : All IsWord ps = rw c.table (headers-IsWord h.phnum h.phoff image) in
    let (covers, low, high, not_empty) = compute_load_span-Covers ps span words c.spanned in
    record {
      segments =
          All-LoadInside size false ps span.lowest span.highest words
            (validate_program_headers-all ps size c.valid) covers;
      low_aligned = low;
      high_aligned = high;
      not_empty = not_empty;
      small = c.small;
      below_stack = omega (arith, c.small, c.stack, c.no_wrap, c.below);
      entry = entry_in_load_segment-Covers ps h.entry span covers c.entered;
    }
