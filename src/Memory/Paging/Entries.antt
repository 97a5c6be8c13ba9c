-- ===== src/Memory/Paging/Entries.antt =====
-- The entries of page directories and page tables.
use muk.Prelude.{ℕ, ◌+◌, ◌*◌, ◌/◌, ◌%◌, ◌^◌, ◌<◌, bit_or, ◌≡◌, ap, ◌∙◌, ◌==◌, arith}
use muk.Word.Bits.{bit_and-mask, bit_or_eq_add, bit_or_assoc}
use muk.Memory.Paging.{is_present, get_from_virtual_address}

pub is_present-odd : (entry : ℕ) → is_present entry ≡ (entry % 2 == 1)
unfolding is_present
is_present-odd entry = rw (bit_and-mask 1 entry) (ground arith)

-- The flags of an entry do not touch the address of its page.
pub entry_flags :
    (page flags : ℕ) → flags < 2 ^ 12 → bit_or (page * 2 ^ 12) flags ≡ page * 2 ^ 12 + flags
entry_flags page flags h = bit_or_eq_add 12 page flags h

pub directory_entry :
    (address : ℕ)
    → address % 2 ^ 12 ≡ 0
    → bit_or (bit_or (bit_or (bit_or address 1) (2 ^ 1)) (2 ^ 2)) (2 ^ 5) ≡ address + 39
directory_entry address h =
    let e : address ≡ address / 2 ^ 12 * 2 ^ 12 = omega arith in
    rw
      (
        bit_or_assoc address 1 (2 ^ 1),
        bit_or_assoc address 3 (2 ^ 2),
        bit_or_assoc address 7 (2 ^ 5),
      )
      (ap (λ (a : ℕ). bit_or a 39) e
        ∙ bit_or_eq_add 12 (address / 2 ^ 12) 39 (omega arith)
        ∙ omega arith)

pub table_entry :
    (address : ℕ)
    → address % 2 ^ 12 ≡ 0
    → bit_or (bit_or (bit_or address 1) (2 ^ 1)) (2 ^ 2) ≡ address + 7
table_entry address h =
    let e : address ≡ address / 2 ^ 12 * 2 ^ 12 = omega arith in
    rw (bit_or_assoc address 1 (2 ^ 1), bit_or_assoc address 3 (2 ^ 2))
      (ap (λ (a : ℕ). bit_or a 7) e
        ∙ bit_or_eq_add 12 (address / 2 ^ 12) 7 (omega arith)
        ∙ omega arith)

pub window_base : (i : ℕ) → i < 1024 → get_from_virtual_address i ≡ 0xFFC00000 + i * 2 ^ 12
unfolding get_from_virtual_address
window_base i h =
    let e : i % 2 ^ 16 ≡ i = omega arith in rw e (bit_or_eq_add 22 1023 (i * 2 ^ 12) (omega arith))
