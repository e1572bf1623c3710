-- ===== src/Descriptors/Tests.antt =====
-- The theorems on the tables of the processor at concrete addresses.
use platinum.Prelude.{if◌then◌else◌, ℕ, ◌+◌, ◌*◌, ◌≡◌, arith, ◌==◌, ◌&&◌}
use platinum.Descriptors.Gdt
use platinum.Descriptors.Gdt.{Gdt, Places, set_tss_rsp0, gdt_reserved_begin, gdt_reserved_end}
use platinum.Descriptors.Decode.{
  Loaded, read_le16, read_le64, is_gate, is_user_gate, is_installed, gate_address, full_idt,
  initialize-Loaded, full_idt_gates,
}

abbrev places : Places
places = record { gdt_at = 0x108000; gdtr_at = 0x108040; tss_at = 0xffff800000108060 }

initialize-Loaded_example : Loaded places (Gdt.initialize places)
initialize-Loaded_example = initialize-Loaded places (omega arith) (omega arith)

full_idt_gates_example :
    let t = full_idt 0x109000 0x100100 0x100200 0x100300 0x100400 0xffff800000100500 in
    ((v : ℕ) → is_gate (t.idt v) ≡ is_installed v)
    × ((v : ℕ) → (is_gate (t.idt v) && is_user_gate (t.idt v)) ≡ (v == 128))
    × ((v : ℕ) → (t.idt v).selector ≡ (if is_installed v then 8 else 0))
    × (gate_address (t.idt 6) ≡ 0x100100)
    × (gate_address (t.idt 13) ≡ 0x100200)
    × (gate_address (t.idt 14) ≡ 0x100300)
    × (gate_address (t.idt 32) ≡ 0x100400)
    × (gate_address (t.idt 128) ≡ 0xffff800000100500)
    × (read_le16 0 t.idtr + 1 ≡ 256 * 16)
    × (read_le64 2 t.idtr ≡ 0x109000)
full_idt_gates_example =
    full_idt_gates 0x109000 0x100100 0x100200 0x100300 0x100400 0xffff800000100500 (omega arith)
      (omega arith) (omega arith) (omega arith) (omega arith) (omega arith)
