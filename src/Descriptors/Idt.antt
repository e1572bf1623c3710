-- ===== src/Descriptors/Idt.antt =====
-- src/kernel/idt.c, the interrupt descriptor table. The handlers are assembly code: their addresses are
-- arguments.
use platinum.Prelude.{ℕ, ◌+◌, ◌-◌, ◌*◌, ◌/◌, ◌%◌, ◌^◌, ltb, ◌==◌, if◌then◌else◌}
use platinum.Descriptors.Bytes.{Bytes, zeros, write_le16, write_le64}

pub record IdtEntry : Type 0 where
  pub offset_low : ℕ
  pub selector : ℕ
  pub ist : ℕ
  pub type_attributes : ℕ
  pub offset_mid : ℕ
  pub offset_high : ℕ
  pub reserved : ℕ

pub record Idt : Type 0 where
  pub idt : ℕ → IdtEntry
  pub idtr : Bytes

abbrev pub no_gate : IdtEntry
no_gate = record {
  offset_low = 0;
  selector = 0;
  ist = 0;
  type_attributes = 0;
  offset_mid = 0;
  offset_high = 0;
  reserved = 0;
}

abbrev pub idt_entry_count : ℕ
idt_entry_count = 256

-- sizeof(struct idt_entry)
abbrev pub idt_entry_size : ℕ
idt_entry_size = 16

unfoldable pub set_gate_with_type : ℕ → ℕ → ℕ → Idt → Idt
set_gate_with_type vector address type_attributes t =
    let entry : IdtEntry = record {
      offset_low = address % 2 ^ 16;
      selector = 0x08;
      ist = 0;
      type_attributes = type_attributes;
      offset_mid = address / 2 ^ 16 % 2 ^ 16;
      offset_high = address / 2 ^ 32 % 2 ^ 32;
      reserved = 0;
    } in
    record t { idt = λ v. if v == vector then entry else t.idt v }

unfoldable pub set_gate : ℕ → ℕ → Idt → Idt
unfolding set_gate_with_type
set_gate vector address t = set_gate_with_type vector address 0x8E t

-- idt_initialize; `at` is `&idt[0]`.
unfoldable pub idt_initialize : (at invalid_opcode general_protection page_fault : ℕ) → Idt
unfolding set_gate write_le16 write_le64
idt_initialize at invalid_opcode general_protection page_fault =
    let t : Idt = record {
      idt = λ v. no_gate;
      idtr = write_le64 2 at (write_le16 0 (idt_entry_count * idt_entry_size - 1) zeros);
    } in
    set_gate 14 page_fault (set_gate 13 general_protection (set_gate 6 invalid_opcode t))

unfoldable pub set_irq0_gate : ℕ → Idt → Idt
unfolding set_gate
set_irq0_gate irq0_entry t = set_gate 32 irq0_entry t

unfoldable pub set_syscall_gate : ℕ → Idt → Idt
unfolding set_gate_with_type
set_syscall_gate syscall_entry t = set_gate_with_type 128 syscall_entry 0xEE t

unfoldable pub idt_reserved_begin : ℕ → ℕ → ℕ
idt_reserved_begin idt_at idtr_at = if ltb idt_at idtr_at then idt_at else idtr_at

unfoldable pub idt_reserved_end : ℕ → ℕ → ℕ
idt_reserved_end idt_at idtr_at =
    if ltb (idtr_at + 10) (idt_at + idt_entry_count * idt_entry_size)
    then idt_at + idt_entry_count * idt_entry_size
    else idtr_at + 10
