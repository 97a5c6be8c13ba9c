-- ===== src/Cpu/Gdt/Segments.antt =====
-- What the processor makes of a descriptor that `gdt_set_gate` wrote.
use muk.Prelude.{
  ℕ, ◌+◌, ◌*◌, ◌/◌, ◌%◌, ◌^◌, ◌<◌, bit_and, ◌≡◌, refl, ap, ◌∙◌, List, [], ◌∷◌, none, some,
  if◌then◌else◌, ◌==◌, length, set, ltb, arith, map, map-set, Bool-cases, inl, inr,
}
use mathlib.Core.Option
use muk.Word.Bits.{bit_and-mask, bit_and-high, bit_or_comm, bit_or_eq_add}
use muk.Cpu.Gdt.{GdtInfo, gdt_entry, gdt_set_gate, gdt_install, tss_size}

-- A segment as the processor sees it: its first byte, its last byte, the access byte and the high
-- four bits of the flags, of which the highest counts the limit in pages.
pub record Segment : Type 0 where
  pub first : ℕ
  pub last : ℕ
  pub rights : ℕ
  pub flags : ℕ

unfoldable pub decode : GdtInfo → Segment
decode g =
    let base : ℕ = g.base_low + g.base_middle * 2 ^ 16 + g.base_high * 2 ^ 24 in
    let limit : ℕ = g.limit_low + g.granularity % 16 * 2 ^ 16 in
    record {
      first = base;
      last = base + (if g.granularity / 128 == 0 then limit else limit * 4096 + 4095);
      rights = g.access;
      flags = g.granularity / 16;
    }

abbrev pub segment : ℕ → ℕ → ℕ → ℕ → Segment
segment base limit access gran = record {
  first = base;
  last = base + (if gran / 128 == 0 then limit % 2 ^ 20 else limit % 2 ^ 20 * 4096 + 4095);
  rights = access;
  flags = gran / 16;
}

high_nibble : (gran : ℕ) → gran < 2 ^ 8 → bit_and gran 0xF0 ≡ gran / 16 * 2 ^ 4
high_nibble gran h = bit_and-high 4 4 gran h

granularity_lem :
    (base limit access gran : ℕ)
    → gran < 2 ^ 8
    → (gdt_entry base limit access gran).granularity ≡ gran / 16 * 2 ^ 4 + limit / 2 ^ 16 % 16
unfolding gdt_entry
granularity_lem base limit access gran h =
    bit_or_comm _ _
    ∙ rw (high_nibble gran h, bit_and-mask 4 (limit / 2 ^ 16))
        (bit_or_eq_add 4 (gran / 16) _ (omega arith) ∙ omega arith)

pub decode-gdt_entry :
    (base limit access gran : ℕ)
    → base < 2 ^ 32
    → gran < 2 ^ 8
    → decode (gdt_entry base limit access gran) ≡ segment base limit access gran
unfolding gdt_entry decode
decode-gdt_entry base limit access gran b g =
    let low : base % 2 ^ 16 % 2 ^ 16
          + base / 2 ^ 16 % 2 ^ 8 % 2 ^ 8 * 2 ^ 16
          + base / 2 ^ 24 % 2 ^ 8 % 2 ^ 8 * 2 ^ 24
        ≡ base =
      omega arith in
    let nibble : (gran / 16 * 2 ^ 4 + limit / 2 ^ 16 % 16) % 16 ≡ limit / 2 ^ 16 % 16 =
      omega arith in
    let pages : (gran / 16 * 2 ^ 4 + limit / 2 ^ 16 % 16) / 128 ≡ gran / 128 = omega arith in
    let high : (gran / 16 * 2 ^ 4 + limit / 2 ^ 16 % 16) / 16 ≡ gran / 16 = omega arith in
    let whole : limit % 2 ^ 16 % 2 ^ 16 + limit / 2 ^ 16 % 16 * 2 ^ 16 ≡ limit % 2 ^ 20 =
      omega arith in
    rw
      (
        bit_and-mask 16 base,
        bit_and-mask 8 (base / 2 ^ 16),
        bit_and-mask 8 (base / 2 ^ 24),
        bit_and-mask 16 limit,
        granularity_lem base limit access gran g,
        low,
        nibble,
        pages,
        high,
        whole,
      )
      refl

-- `gdt_set_gate` fails at an index outside of the table. Else, of the segments that the processor
-- reads, the one at the index alone changes: it has the base, the low 20 bits of the limit, the
-- access byte and the high four bits of `gran`.
pub gdt_set_gate_lem :
    (gdt : List GdtInfo) (num base limit access gran : ℕ)
    → base < 2 ^ 32
    → gran < 2 ^ 8
    → Option.map (map decode) (gdt_set_gate gdt num base limit access gran) ≡ (
        if ltb num (length gdt)
        then some (set (map decode gdt) num (segment base limit access gran))
        else none)
unfolding gdt_set_gate
gdt_set_gate_lem gdt num base limit access gran b g =
    let e = decode-gdt_entry base limit access gran b g in
    let sets : map decode (set gdt num (gdt_entry base limit access gran))
        ≡ set (map decode gdt) num (segment base limit access gran) =
      map-set decode gdt num (gdt_entry base limit access gran) ∙ ap (set (map decode gdt) num) e in
    elim (Bool-cases (ltb num (length gdt))) [ inl c ↦ rw c (ap some sets) | inr c ↦ rw c refl ]

abbrev pub reads : ℕ → ℕ → ℕ → ℕ → Segment
reads first last rights flags = record {
  first = first;
  last = last;
  rights = rights;
  flags = flags;
}

-- Whatever the six entries were, `gdt_install` succeeds, and the processor then reads: an unused
-- entry, flat code and data segments of 4 GiB for ring 0 and for ring 3, and the task state segment
-- at its address.
pub gdt_install_lem :
    (gdt : List GdtInfo) (tss : ℕ)
    → length gdt ≡ 6
    → tss < 2 ^ 32
    → Option.map (map decode) (gdt_install gdt tss)
      ≡ some (
          reads 0 0 0 0
          ∷ reads 0 0xFFFFFFFF 0x9A 12
          ∷ reads 0 0xFFFFFFFF 0x92 12
          ∷ reads 0 0xFFFFFFFF 0xF8 12
          ∷ reads 0 0xFFFFFFFF 0xF2 12
          ∷ reads tss (tss + tss_size) 0x89 4
          ∷ [])
unfolding gdt_install gdt_set_gate
gdt_install_lem (a ∷ b ∷ c ∷ d ∷ e ∷ f ∷ []) tss h t =
    rw
      (
        decode-gdt_entry 0 0 0 0 (omega arith) (omega arith),
        decode-gdt_entry 0 0xFFFFFFFF 0x9A 0xC0 (omega arith) (omega arith),
        decode-gdt_entry 0 0xFFFFFFFF 0x92 0xC0 (omega arith) (omega arith),
        decode-gdt_entry 0 0xFFFFFFFF 0xF8 0xC0 (omega arith) (omega arith),
        decode-gdt_entry 0 0xFFFFFFFF 0xF2 0xC0 (omega arith) (omega arith),
        decode-gdt_entry tss 104 0x89 0x40 t (omega arith),
      )
      refl
gdt_install_lem [] tss h t = absurd (omega arith)
gdt_install_lem (a ∷ []) tss h t = absurd (omega arith)
gdt_install_lem (a ∷ b ∷ []) tss h t = absurd (omega arith)
gdt_install_lem (a ∷ b ∷ c ∷ []) tss h t = absurd (omega arith)
gdt_install_lem (a ∷ b ∷ c ∷ d ∷ []) tss h t = absurd (omega arith)
gdt_install_lem (a ∷ b ∷ c ∷ d ∷ e ∷ []) tss h t = absurd (omega arith)
gdt_install_lem (a ∷ b ∷ c ∷ d ∷ e ∷ f ∷ g ∷ r) tss h t = absurd (omega arith)
