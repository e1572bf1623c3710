-- ===== src/Descriptors/Decode.antt =====
-- How the processor reads the tables of src/kernel/gdt.c and src/kernel/idt.c.
use platinum.Prelude.{
  if◌then◌else◌, ℕ, ◌+◌, ◌*◌, ◌/◌, ◌%◌, ◌^◌, ◌≤◌, ◌<◌, ◌≡◌, ◌⊎◌, refl, arith, ◌==◌, Bool, ◌||◌,
  ◌&&◌,
}
use platinum.Descriptors.Bytes.{Bytes, write_le16, write_le64}
use platinum.Descriptors.Gdt
use platinum.Descriptors.Gdt.{
  Gdt, Places, make_code_data_descriptor, tss_low, tss_high, set_tss_descriptor, set_tss_rsp0,
  gdt_reserved_begin, gdt_reserved_end, tss_index,
}
use platinum.Descriptors.Idt.{
  Idt, IdtEntry, set_gate, set_gate_with_type, idt_initialize, set_irq0_gate, set_syscall_gate,
  idt_reserved_begin, idt_reserved_end,
}

abbrev pub read_le16 : ℕ → Bytes → ℕ
read_le16 at b = b at + b (at + 1) * 2 ^ 8

abbrev pub read_le64 : ℕ → Bytes → ℕ
read_le64 at b =
    b at
    + b (at + 1) * 2 ^ 8
    + b (at + 2) * 2 ^ 16
    + b (at + 3) * 2 ^ 24
    + b (at + 4) * 2 ^ 32
    + b (at + 5) * 2 ^ 40
    + b (at + 6) * 2 ^ 48
    + b (at + 7) * 2 ^ 56

-- The base address, the limit and the access byte of a descriptor.
abbrev pub segment_base : ℕ → ℕ → ℕ
segment_base low high = low / 2 ^ 16 % 2 ^ 24 + low / 2 ^ 56 * 2 ^ 24 + high * 2 ^ 32

abbrev pub segment_limit : ℕ → ℕ
segment_limit low = low % 2 ^ 16 + low / 2 ^ 48 % 16 * 2 ^ 16

abbrev pub access_byte : ℕ → ℕ
access_byte low = low / 2 ^ 40 % 256

-- The privilege level of an access byte.
abbrev pub level_of : ℕ → ℕ
level_of access = access / 32 % 4

tss_fields :
    (base limit : ℕ)
    → base < 2 ^ 64
    → limit < 2 ^ 20
    → (segment_base (tss_low base limit) (tss_high base) ≡ base)
      × (segment_limit (tss_low base limit) ≡ limit)
      × (access_byte (tss_low base limit) ≡ 0x89)
unfolding tss_low tss_high
tss_fields base limit hb hl = (omega arith, omega arith, omega arith)

-- The tables that gdt_initialize leaves, as the processor reads them.
pub record Loaded (p : Places) (g : Gdt) : Type 0 where
  pub table_size : read_le16 0 g.gdtr + 1 ≡ 7 * 8
  pub table_base : read_le64 2 g.gdtr ≡ p.gdt_at
  pub tss_base : segment_base (g.gdt 5) (g.gdt 6) ≡ p.tss_at
  pub tss_limit : segment_limit (g.gdt 5) + 1 ≡ 104
  pub tss_kind : access_byte (g.gdt 5) ≡ 0x89
  pub levels :
      (level_of (access_byte (g.gdt 1)) ≡ 0)
      × (level_of (access_byte (g.gdt 2)) ≡ 0)
      × (level_of (access_byte (g.gdt 3)) ≡ 3)
      × (level_of (access_byte (g.gdt 4)) ≡ 3)
  pub null_entry : g.gdt 0 ≡ 0
  pub no_ports : read_le16 102 g.tss ≡ 104
  pub no_stack : read_le64 4 g.tss ≡ 0

-- gdt_initialize, with its three objects at addresses below 2 ^ 64: the processor finds the table with
-- seven entries where it is, and the task state segment with 104 bytes where it is; the kernel's
-- segments have privilege 0 and the user's 3; no port is open to user code, and the stack for
-- interrupts is not set.
pub initialize-Loaded :
    (p : Places) → p.gdt_at < 2 ^ 64 → p.tss_at < 2 ^ 64 → Loaded p (Gdt.initialize p)
unfolding Gdt.initialize set_tss_descriptor write_le16 write_le64 make_code_data_descriptor
initialize-Loaded p hg ht =
    let t = tss_fields p.tss_at 103 ht (omega arith) in
    record {
      table_size = omega arith;
      table_base = omega arith;
      tss_base = t.0;
      tss_limit = omega (arith, t.1);
      tss_kind = t.2;
      levels = (refl, refl, refl, refl);
      null_entry = refl;
      no_ports = refl;
      no_stack = refl;
    }

-- gdt_set_tss_rsp0 with a 64-bit address: the processor reads it as the stack for interrupts, and no
-- other byte of the segment and of the tables changes.
pub set_tss_rsp0-read_le64 :
    (rsp0 : ℕ) (g : Gdt)
    → rsp0 < 2 ^ 64
    → (read_le64 4 (set_tss_rsp0 rsp0 g).tss ≡ rsp0)
      × ((i : ℕ) → (i < 4) ⊎ (12 ≤ i) → (set_tss_rsp0 rsp0 g).tss i ≡ g.tss i)
      × ((set_tss_rsp0 rsp0 g).gdt ≡ g.gdt)
      × ((set_tss_rsp0 rsp0 g).gdtr ≡ g.gdtr)
unfolding set_tss_rsp0 write_le64
set_tss_rsp0-read_le64 rsp0 g h = (omega arith, λ i out. ground arith, refl, refl)

-- The address of the handler of a gate.
abbrev pub gate_address : IdtEntry → ℕ
gate_address e = e.offset_low + e.offset_mid * 2 ^ 16 + e.offset_high * 2 ^ 32

-- The processor takes an interrupt through a gate that is present; an `int` instruction of user code
-- only through one of level 3.
abbrev pub is_gate : IdtEntry → Bool
is_gate e = e.type_attributes / 128 % 2 == 1

abbrev pub is_user_gate : IdtEntry → Bool
is_user_gate e = level_of e.type_attributes == 3

-- The gates that the kernel installs.
abbrev pub is_installed : ℕ → Bool
is_installed v = (v == 6) || (v == 13) || (v == 14) || (v == 32) || (v == 128)

-- idt_initialize with the two gates that are set later.
abbrev pub full_idt : (at a b c d e : ℕ) → Idt
full_idt at a b c d e = set_syscall_gate e (set_irq0_gate d (idt_initialize at a b c))

-- With the gates of the timer and of the system calls set, the processor takes exactly the vectors 6,
-- 13, 14, 32 and 128, each through the address of its handler, in the kernel's code segment; user code
-- may call vector 128 and no other; and the table with 256 entries is found where it is. Addresses
-- are below 2 ^ 64.
pub full_idt_gates :
    (at a b c d e : ℕ)
    → at < 2 ^ 64
    → a < 2 ^ 64
    → b < 2 ^ 64
    → c < 2 ^ 64
    → d < 2 ^ 64
    → e < 2 ^ 64
    → let t = full_idt at a b c d e in
      ((v : ℕ) → is_gate (t.idt v) ≡ is_installed v)
      × ((v : ℕ) → (is_gate (t.idt v) && is_user_gate (t.idt v)) ≡ (v == 128))
      × ((v : ℕ) → (t.idt v).selector ≡ (if is_installed v then 8 else 0))
      × (gate_address (t.idt 6) ≡ a)
      × (gate_address (t.idt 13) ≡ b)
      × (gate_address (t.idt 14) ≡ c)
      × (gate_address (t.idt 32) ≡ d)
      × (gate_address (t.idt 128) ≡ e)
      × (read_le16 0 t.idtr + 1 ≡ 256 * 16)
      × (read_le64 2 t.idtr ≡ at)
unfolding set_syscall_gate set_irq0_gate idt_initialize set_gate set_gate_with_type write_le16
    write_le64
full_idt_gates at a b c d e hat ha hb hc hd he = (
  λ v. ground arith,
  λ v. ground arith,
  λ v. ground arith,
  omega arith,
  omega arith,
  omega arith,
  omega arith,
  omega arith,
  refl,
  omega arith,
)

-- Every byte of an object lies between two addresses.
abbrev pub Within : ℕ → ℕ → ℕ → ℕ → Type 0
Within begin end at size = (begin ≤ at) × (at + size ≤ end)

-- The reserved ranges hold every byte of the processor's tables.
pub reserved-Within :
    (p : Places) (idt_at idtr_at : ℕ)
    → Within (gdt_reserved_begin p) (gdt_reserved_end p) p.gdt_at 56
      × Within (gdt_reserved_begin p) (gdt_reserved_end p) p.gdtr_at 10
      × Within (gdt_reserved_begin p) (gdt_reserved_end p) p.tss_at 104
      × Within (idt_reserved_begin idt_at idtr_at) (idt_reserved_end idt_at idtr_at) idt_at 4096
      × Within (idt_reserved_begin idt_at idtr_at) (idt_reserved_end idt_at idtr_at) idtr_at 10
unfolding gdt_reserved_begin gdt_reserved_end idt_reserved_begin idt_reserved_end
reserved-Within p idt_at idtr_at = ground arith
