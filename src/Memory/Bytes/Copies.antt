-- ===== src/Memory/Bytes/Copies.antt =====
-- What the copies leave in memory.
use native.Mathlib.Decide.{ℕ_discrete, dec_lt}
use muk.Prelude.{
  ℕ, zero, suc, ◌+◌, ◌-◌, ◌%◌, ◌^◌, ◌≤◌, ◌≡◌, refl, sym, ap, ◌∙◌, true, false, ◌&&◌, if◌then◌else◌,
  ltb, leb, arith, ◌⊎◌, inl, inr,
}
use muk.Word.{u8}
use muk.Memory.Bytes.{store_byte, copy_up, copy_down, memcpy, memmove, fill, memset}

-- The byte at `a` of the memory `before` with the `n` bytes from `dst` on replaced by those that
-- stood from `src` on.
abbrev pub copied : ℕ → ℕ → ℕ → (ℕ → ℕ) → ℕ → ℕ
copied dst src n before a =
    if leb dst a && ltb a (dst + n) then before (src + (a - dst)) else before a

copy_up_lem :
    (n i dst src : ℕ) (memory : ℕ → ℕ) (a : ℕ)
    → (dst ≤ src) ⊎ (src + n ≤ dst)
    → copy_up n i dst src memory a
      ≡ (if leb (dst + i) a && ltb a (dst + i + n) then memory (src + (a - dst)) else memory a)
unfolding copy_up store_byte
copy_up_lem zero i dst src memory a h = ground arith
copy_up_lem (suc n) i dst src memory a h =
    copy_up_lem n (i + 1) dst src (store_byte memory (dst + i) (memory (src + i))) a
      (elim h [ inl p ↦ inl p | inr p ↦ inr (omega arith) ])
    ∙ elim (ℕ_discrete a (dst + i)) [
      | yes e ↦ let at : src + (a - dst) ≡ src + i = omega arith in ground (arith, ap memory at)
      | no ne ↦ elim h [ inl p ↦ ground arith | inr p ↦ ground arith ]
    ]

copy_down_lem :
    (n dst src : ℕ) (memory : ℕ → ℕ) (a : ℕ)
    → src ≤ dst
    → copy_down n dst src memory a ≡ copied dst src n memory a
unfolding copy_down store_byte
copy_down_lem zero dst src memory a h = ground arith
copy_down_lem (suc i) dst src memory a h =
    copy_down_lem i dst src (store_byte memory (dst + i) (memory (src + i))) a h
    ∙ elim (ℕ_discrete a (dst + i)) [
      | yes e ↦ let at : src + (a - dst) ≡ src + i = omega arith in ground (arith, ap memory at)
      | no ne ↦ ground arith
    ]

-- `memmove` copies the bytes that stood in the source, however the two ranges overlap, and changes
-- nothing outside of the destination.
pub memmove_lem :
    (dst src size : ℕ) (memory : ℕ → ℕ) (a : ℕ)
    → memmove dst src size memory a
      ≡ (if leb dst a && ltb a (dst + size) then memory (src + (a - dst)) else memory a)
unfolding memmove
memmove_lem dst src size memory a = elim (dec_lt dst src) [
  | yes p ↦
      let test : ltb dst src ≡ true = ground arith in
      let start : dst + 0 ≡ dst = omega arith in
      rw test (copy_up_lem size 0 dst src memory a (inl (omega arith)) ∙ rw start refl)
  | no p ↦
      let test : ltb dst src ≡ false = ground arith in
      rw test (copy_down_lem size dst src memory a (omega arith))
]

-- `memcpy` does the same as `memmove`, unless the destination begins inside of the source.
pub memcpy-memmove :
    (dst src size : ℕ) (memory : ℕ → ℕ) (a : ℕ)
    → (dst ≤ src) ⊎ (src + size ≤ dst)
    → memcpy dst src size memory a ≡ memmove dst src size memory a
unfolding memcpy
memcpy-memmove dst src size memory a h =
    let start : dst + 0 ≡ dst = omega arith in
    copy_up_lem size 0 dst src memory a h ∙ rw start refl ∙ sym (memmove_lem dst src size memory a)

fill_lem :
    (n i buf value : ℕ) (memory : ℕ → ℕ) (a : ℕ)
    → fill n i buf value memory a
      ≡ (if leb (buf + i) a && ltb a (buf + i + n) then u8 value else memory a)
unfolding fill store_byte
fill_lem zero i buf value memory a = ground arith
fill_lem (suc n) i buf value memory a =
    fill_lem n (i + 1) buf value (store_byte memory (buf + i) (u8 value)) a ∙ ground arith

-- `memset` sets the bytes of the range to the low byte of the value, and changes nothing else.
memset_lem :
    (buf value size : ℕ) (memory : ℕ → ℕ) (a : ℕ)
    → memset buf value size memory a
      ≡ (if leb buf a && ltb a (buf + size) then value % 2 ^ 8 else memory a)
unfolding memset
memset_lem buf value size memory a =
    let start : buf + 0 ≡ buf = omega arith in fill_lem size 0 buf value memory a ∙ rw start refl
