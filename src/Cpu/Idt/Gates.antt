-- ===== src/Cpu/Idt/Gates.antt =====
-- Which routine each interrupt vector reaches.
use muk.Prelude.{
  ℕ, zero, suc, ◌+◌, ◌*◌, ◌/◌, ◌%◌, ◌^◌, ◌<◌, bit_and, ◌≡◌, refl, ap, ◌∙◌, List, [], ◌∷◌, Option,
  none, some, ◌||◌, if◌then◌else◌, ◌==◌, get_elem?, ltb, leb, arith, map, ◌>>=◌, Option-cases, inl,
  inr,
}
use muk.Word.{u16, shr}
use muk.Word.Bits.{bit_and-mask}
use muk.Cpu.Idt.{IdtEntry, idt_install, zero_entry}

-- The address, the segment and the kind of a gate that the processor finds in an entry: `none` when
-- the bit for "present" is not set.
unfoldable pub decode_gate : IdtEntry → Option (ℕ × ℕ × ℕ)
decode_gate e =
    if ltb e.type_attr 128
    then none
    else some (e.offset_high * 2 ^ 16 + e.offset_low, e.selector, e.type_attr % 128)

-- The number of the routine that vector `v` reaches.
unfoldable pub routine : ℕ → Option ℕ
routine v =
    if v == 42 || v == 48
    then none
    else if v == 43
    then some 42
    else if leb v 47 || v == 0x80 || v == 0x82
    then some v
    else some 0

from : ℕ → ℕ → List ℕ
from zero i = []
from (suc n) i = i ∷ from n (i + 1)

abbrev entry_for : (ℕ → ℕ) → ℕ → IdtEntry
entry_for isr n = record {
  offset_low = u16 (bit_and (isr n) 0xFFFF);
  selector = 0x08;
  zero = 0;
  type_attr = 0x8E;
  offset_high = u16 (bit_and (shr (isr n) 16) 0xFFFF);
}

table_lem :
    (isr : ℕ → ℕ)
    → (idt_install isr).1
      ≡ map (λ v. elim (routine v) [ none ↦ zero_entry | some n ↦ entry_for isr n ]) (from 256 0)
unfolding idt_install routine from
table_lem isr = refl

get_elem?-from :
    (f : ℕ → IdtEntry) (n i k : ℕ) → k < n → get_elem? (map f (from n i)) k ≡ some (f (i + k))
unfolding from
get_elem?-from f zero i k h = absurd (omega arith)
get_elem?-from f (suc n) i zero h = ap (λ j. some (f j)) (omega arith)
get_elem?-from f (suc n) i (suc k) h =
    get_elem?-from f n (i + 1) k (omega arith) ∙ ap (λ j. some (f j)) (omega arith)

decode_gate-entry :
    (isr : ℕ → ℕ) (n : ℕ)
    → isr n < 2 ^ 32
    → decode_gate (entry_for isr n) ≡ some (isr n, 0x08, 0x0E)
unfolding decode_gate
decode_gate-entry isr n h =
    let whole : isr n / 2 ^ 16 % 2 ^ 16 % 2 ^ 16 * 2 ^ 16 + isr n % 2 ^ 16 % 2 ^ 16 ≡ isr n =
      omega arith in
    rw (bit_and-mask 16 (isr n), bit_and-mask 16 (isr n / 2 ^ 16), whole) refl

-- After `idt_install`, for any addresses of the routines: vectors 42 and 48 are not present, vector
-- 43 reaches the routine of 42, the other vectors up to 47 and 0x80 and 0x82 reach their own, and
-- the rest reach that of 0; each gate is a 32-bit interrupt gate of ring 0 in the code segment.
pub gates_lem :
    (isr : ℕ → ℕ) (v : ℕ)
    → ((n : ℕ) → isr n < 2 ^ 32)
    → v < 256
    → (get_elem? (idt_install isr).1 v >>= decode_gate)
      ≡ (routine v >>= λ n. some (isr n, 0x08, 0x0E))
gates_lem isr v a h =
    let f : ℕ → IdtEntry =
      λ (u : ℕ). elim (routine u) [ none ↦ zero_entry | some n ↦ entry_for isr n ] in
    let at : get_elem? (idt_install isr).1 v ≡ some (f v) =
      rw (table_lem isr) (get_elem?-from f 256 0 v h ∙ ap (λ (j : ℕ). some (f j)) (omega arith)) in
    rw at (elim (Option-cases (routine v)) [
      | inl e ↦ rw e (unfold decode_gate in refl)
      | inr (n, e) ↦ rw e (decode_gate-entry isr n (a n))
    ])
