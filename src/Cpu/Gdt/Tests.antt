-- ===== src/Cpu/Gdt/Tests.antt =====
-- Concrete tables.
use mathlib.Core.Option
use muk.Prelude.{◌+◌, ◌≡◌, List, [], ◌∷◌, some, arith, map, replicate}
use muk.Cpu.Gdt.{GdtInfo, gdt_set_gate}
use muk.Cpu.Gdt.Segments.{decode, reads, gdt_set_gate_lem}

abbrev blank_entry : GdtInfo
blank_entry = record {
  limit_low = 0;
  base_low = 0;
  base_middle = 0;
  access = 0;
  granularity = 0;
  base_high = 0;
}

abbrev blank_table : List GdtInfo
blank_table = replicate 6 blank_entry

gdt_set_gate_lem_example :
    Option.map
      (map decode)
      (gdt_set_gate (blank_entry ∷ blank_entry ∷ []) 1 0x00123456 0xFFFFF 0x9A 0xC0)
    ≡ some (reads 0 0 0 0 ∷ reads 0x00123456 (0x00123456 + 0xFFFFFFFF) 0x9A 12 ∷ [])
unfolding decode
gdt_set_gate_lem_example =
    gdt_set_gate_lem (blank_entry ∷ blank_entry ∷ []) 1 0x00123456 0xFFFFF 0x9A 0xC0 (omega arith)
      (omega arith)
