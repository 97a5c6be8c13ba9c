-- ===== src/Cpu/Gdt.antt =====
-- The segment descriptors of kernel/gdt.cpp, and how the processor reads a descriptor.
pub mod Segments
mod Tests
use muk.Prelude.{
  ℕ, zero, suc, ◌+◌, ◌*◌, ◌/◌, ◌%◌, ◌^◌, bit_and, bit_or, List, [], ◌∷◌, Option, none, some,
  if◌then◌else◌, ◌>>=◌, length, set, ltb,
}
use muk.Word.{u8, u16, shr}

-- `struct gdt_info`
pub record GdtInfo : Type 0 where
  pub limit_low : ℕ
  pub base_low : ℕ
  pub base_middle : ℕ
  pub access : ℕ
  pub granularity : ℕ
  pub base_high : ℕ

-- What `gdt_set_gate` stores in the entry.
pub gdt_entry : ℕ → ℕ → ℕ → ℕ → GdtInfo
gdt_entry base limit access gran = record {
  limit_low = u16 (bit_and limit 0xFFFF);
  base_low = u16 (bit_and base 0xFFFF);
  base_middle = u8 (bit_and (shr base 16) 0xFF);
  access = access;
  granularity = bit_or (u8 (bit_and (shr limit 16) 0x0F)) (bit_and gran 0xF0);
  base_high = u8 (bit_and (shr base 24) 0xFF);
}

-- `none` is an index outside of the table.
pub gdt_set_gate : List GdtInfo → ℕ → ℕ → ℕ → ℕ → ℕ → Option (List GdtInfo)
unfolding gdt_entry
gdt_set_gate gdt num base limit access gran =
    if ltb num (length gdt) then some (set gdt num (gdt_entry base limit access gran)) else none

-- `sizeof(tss_info)`: 25 words and two half words
abbrev pub tss_size : ℕ
tss_size = 104

-- The table that `gdt_install` leaves. `tss` is the address of the task state segment; the pointer
-- `gp` and its load are assembly.
pub gdt_install : List GdtInfo → ℕ → Option (List GdtInfo)
unfolding gdt_set_gate
gdt_install gdt tss = do
  gdt ← gdt_set_gate gdt 0 0 0 0 0
  gdt ← gdt_set_gate gdt 1 0 0xFFFFFFFF 0x9A 0xC0
  gdt ← gdt_set_gate gdt 2 0 0xFFFFFFFF 0x92 0xC0
  gdt ← gdt_set_gate gdt 3 0 0xFFFFFFFF 0xF8 0xC0
  gdt ← gdt_set_gate gdt 4 0 0xFFFFFFFF 0xF2 0xC0
  gdt_set_gate gdt 5 tss tss_size 0x89 0x40
