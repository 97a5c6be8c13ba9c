-- ===== src/Cpu/Idt.antt =====
-- The interrupt descriptors and the interrupt handler of kernel/idt.cpp. A write to a port is an
-- entry of the list of writes, and the assembly routine `isr<n>` is the address `isr n`.
pub mod Gates
pub mod Handler
mod Tests
use muk.Prelude.{
  ℕ, zero, suc, ◌+◌, ◌-◌, ◌*◌, ◌/◌, ◌%◌, ◌^◌, bit_and, List, [], ◌∷◌, ◌++◌, Option, none, some,
  Bool, ◌&&◌, if◌then◌else◌, length, get_elem?, set, ltb, leb, replicate, ◌>>=◌,
}
use muk.Word.{u8, u16, u32, shr, add32}

-- `struct idt_entry`
pub record IdtEntry : Type 0 where
  pub offset_low : ℕ
  pub selector : ℕ
  pub zero : ℕ
  pub type_attr : ℕ
  pub offset_high : ℕ

-- `i` is a uint8_t and the table has 256 entries, so the index is always in range.
pub idt_set_gate : List IdtEntry → ℕ → ℕ → ℕ → ℕ → List IdtEntry
idt_set_gate idt i offset selector flags = set idt (u8 i) (record {
  offset_low = u16 (bit_and offset 0xFFFF);
  selector = selector;
  zero = 0;
  type_attr = u8 (bit_and flags 0xFF);
  offset_high = u16 (bit_and (shr offset 16) 0xFFFF);
})

-- The calls `idt_set_gate(i, isr<n>, 0x08, 0x8E)` for the pairs `(i, n)`, one after the other.
pub set_gates : (ℕ → ℕ) → List (ℕ × ℕ) → List IdtEntry → List IdtEntry
set_gates isr [] idt = idt
set_gates isr ((i, n) ∷ gates) idt = set_gates isr gates (idt_set_gate idt i (isr n) 0x08 0x8E)

abbrev pub exception_gates : List (ℕ × ℕ)
exception_gates =
    (0, 0)
    ∷ (1, 1)
    ∷ (2, 2)
    ∷ (3, 3)
    ∷ (4, 4)
    ∷ (5, 5)
    ∷ (6, 6)
    ∷ (7, 7)
    ∷ (8, 8)
    ∷ (9, 9)
    ∷ (10, 10)
    ∷ (11, 11)
    ∷ (12, 12)
    ∷ (13, 13)
    ∷ (14, 14)
    ∷ (15, 15)
    ∷ (16, 16)
    ∷ (17, 17)
    ∷ (18, 18)
    ∷ (19, 19)
    ∷ (20, 20)
    ∷ (21, 21)
    ∷ (22, 22)
    ∷ (23, 23)
    ∷ (24, 24)
    ∷ (25, 25)
    ∷ (26, 26)
    ∷ (27, 27)
    ∷ (28, 28)
    ∷ (29, 29)
    ∷ (30, 30)
    ∷ (31, 31)
    ∷ []

abbrev pub irq_gates : List (ℕ × ℕ)
irq_gates =
    (32, 32)
    ∷ (33, 33)
    ∷ (34, 34)
    ∷ (35, 35)
    ∷ (36, 36)
    ∷ (37, 37)
    ∷ (38, 38)
    ∷ (39, 39)
    ∷ (40, 40)
    ∷ (41, 41)
    ∷ (43, 42)
    ∷ (44, 44)
    ∷ (45, 45)
    ∷ (46, 46)
    ∷ (47, 47)
    ∷ []

-- `for (int i = 49; i <= 255; i++)`, from `i`, with `n` rounds left
pub dummy_gates : ℕ → ℕ → List (ℕ × ℕ)
dummy_gates zero i = []
dummy_gates (suc n) i = (i, 0) ∷ dummy_gates n (i + 1)

abbrev pub last_gates : List (ℕ × ℕ)
last_gates = (0x80, 128) ∷ (0x82, 130) ∷ []

abbrev pub zero_entry : IdtEntry
zero_entry = record { offset_low = 0; selector = 0; zero = 0; type_attr = 0; offset_high = 0 }

-- The writes that set up the two interrupt controllers, as pairs of a port and a byte.
abbrev pub pic_setup : List (ℕ × ℕ)
pic_setup =
    (0x20, 0x11)
    ∷ (0xA0, 0x11)
    ∷ (0x21, 0x20)
    ∷ (0xA1, 0x28)
    ∷ (0x21, 0x04)
    ∷ (0xA1, 0x02)
    ∷ (0x21, 0x01)
    ∷ (0xA1, 0x01)
    ∷ (0x21, 0x00)
    ∷ (0xA1, 0x00)
    ∷ []

-- The writes and the table that `idt_install` leaves.
pub idt_install : (ℕ → ℕ) → List (ℕ × ℕ) × List IdtEntry
unfolding idt_set_gate set_gates dummy_gates
idt_install isr =
    let idt = replicate 256 zero_entry in
    let idt = set_gates isr exception_gates idt in
    let idt = set_gates isr irq_gates idt in
    let idt = set_gates isr (dummy_gates 207 49) idt in (pic_setup, set_gates isr last_gates idt)

-- `Interrupt::handlers`: `none` is the null pointer. A null result is a write outside of the table.
pub register : List (Option ℕ) → ℕ → ℕ → Option (List (Option ℕ))
register handlers irq_num ptr =
    if ltb (add32 irq_num 0x20) (length handlers)
    then some (set handlers (add32 irq_num 0x20) (some ptr))
    else none

-- The acknowledgements of `isr_handler`.
pub acknowledge : ℕ → List (ℕ × ℕ)
acknowledge isr_num =
    if leb 0x20 isr_num && leb isr_num 0x2F
    then (if leb 0x28 isr_num then (0xA0, 0x20) ∷ (0x20, 0x20) ∷ [] else (0x20, 0x20) ∷ [])
    else []

-- The port writes and the handler that `isr_handler` then calls, if there is one; as a whole `none`
-- for a number outside of the table.
pub isr_handler : List (Option ℕ) → ℕ → Option (List (ℕ × ℕ) × Option ℕ)
unfolding acknowledge
isr_handler handlers isr_num =
    get_elem? handlers isr_num >>= λ handler. some (acknowledge isr_num, handler)
