-- ===== src/Cpu/Idt/Tests.antt =====
-- Concrete interrupts.
use muk.Prelude.{ℕ, ◌+◌, ◌*◌, ◌%◌, ◌^◌, ◌≡◌, refl, none, some, arith, get_elem?, ◌>>=◌}
use native.Mathlib.Nat.{mod-lt}
use muk.Cpu.Idt.{idt_install}
use muk.Cpu.Idt.Gates.{decode_gate, routine, gates_lem}

-- Routines that stand 16 bytes apart.
abbrev routine_at : ℕ → ℕ
routine_at n = (0xC0100000 + 16 * n) % 2 ^ 32

gates_lem_example :
    (get_elem? (idt_install routine_at).1 43 >>= decode_gate)
    ≡ (routine 43 >>= λ n. some (routine_at n, 0x08, 0x0E))
gates_lem_example =
    gates_lem routine_at 43 (λ n. mod-lt (0xC0100000 + 16 * n) (omega arith)) (omega arith)

vector_42_absent : (get_elem? (idt_install routine_at).1 42 >>= decode_gate) ≡ none
unfolding idt_install decode_gate
vector_42_absent = refl
