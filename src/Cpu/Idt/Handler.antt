-- ===== src/Cpu/Idt/Handler.antt =====
-- What an interrupt does once a handler is registered for it.
use native.Mathlib.Decide.{ℕ_discrete}
use muk.Prelude.{
  ℕ, ◌+◌, ◌-◌, ◌%◌, ◌^◌, ◌<◌, ◌≤◌, ◌≡◌, sym, List, [], ◌∷◌, Option, none, some, if◌then◌else◌, ◌==◌,
  length, set, ltb, arith, get_elem?-set_self, get_elem?-set_ne,
}
use muk.Cpu.Idt.{register, acknowledge, isr_handler}

-- The end-of-interrupt commands that the two controllers need for interrupt request `irq`: the
-- second controller has the requests from 8 to 15 and reports through the first.
unfoldable pub eoi : ℕ → List (ℕ × ℕ)
eoi irq =
    if ltb irq 8
    then (0x20, 0x20) ∷ []
    else if ltb irq 16
    then (0xA0, 0x20) ∷ (0x20, 0x20) ∷ []
    else []

acknowledge_irq : (irq : ℕ) → acknowledge (irq + 32) ≡ eoi irq
unfolding acknowledge eoi
acknowledge_irq irq = ground arith

-- `Register` of a request below 224 succeeds. Then its interrupt sends the commands that the
-- controllers need and calls the handler, and every other interrupt does what it did before.
pub register_lem :
    (handlers : List (Option ℕ)) (irq ptr : ℕ)
    → length handlers ≡ 256
    → irq < 224
    → (table : List (Option ℕ)) × (register handlers irq ptr ≡ some table)
      × ((v : ℕ)
          → isr_handler table v
            ≡ (if v == irq + 32 then some (eoi irq, some ptr) else isr_handler handlers v))
unfolding register isr_handler
register_lem handlers irq ptr l h =
    let e : (irq + 32) % 2 ^ 32 ≡ irq + 32 = omega arith in
    (
      set handlers (irq + 32) (some ptr),
      rw (e, l) (ground arith),
      λ v. elim (ℕ_discrete v (irq + 32)) [
        | yes p ↦
            rw
              (
                p,
                get_elem?-set_self handlers (irq + 32) (some ptr) (omega arith),
                acknowledge_irq irq,
              )
              (ground arith)
        | no np ↦
            rw (get_elem?-set_ne handlers (irq + 32) v (some ptr) (λ q. np (sym q))) (ground arith)
      ],
    )

-- `Register` of a request from 224 on, short of a wrap, writes outside of the table.
pub register_outside :
    (handlers : List (Option ℕ)) (irq ptr : ℕ)
    → length handlers ≡ 256
    → 224 ≤ irq
    → irq < 2 ^ 32 - 32
    → register handlers irq ptr ≡ none
unfolding register
register_outside handlers irq ptr l h k = ground arith
