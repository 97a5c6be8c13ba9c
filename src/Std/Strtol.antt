-- ===== src/Std/Strtol.antt =====
-- `strtol` of kernel/std/stdlib.cpp, with the macros of include/std/ctype.hpp as they expand there. A
-- pointer is the list of the bytes from it on, and `none` is a read past the end of the array. A long is
-- its 32-bit word.
pub mod Decimal
mod Tests
use muk.Prelude.{
  ℕ, zero, suc, ◌+◌, ◌-◌, ◌*◌, ◌/◌, ◌%◌, ◌^◌, List, [], ◌∷◌, Option, none, some, Bool, true, false,
  ◌&&◌, ◌||◌, not, ◌==◌, if◌then◌else◌, ltb, leb, ◌>>=◌, length,
}
use muk.Word.{u32, sub32}

pub is_space : ℕ → Bool
is_space c = leb 9 c && leb c 13 || c == 32

pub is_upper : ℕ → Bool
is_upper c = leb 65 c && leb c 90

pub is_lower : ℕ → Bool
is_lower c = leb 97 c && leb c 122

pub is_digit : ℕ → Bool
is_digit c = leb 48 c && leb c 57

-- `c -= isupper(c) ? 'A' - 10 : 'a' - 10`. The conditional in `isupper` is not in parentheses, so its TRUE
-- is what an upper case letter takes off.
pub letter_value : ℕ → ℕ
letter_value c = if is_upper c then c - 1 else c - 87

-- What a byte counts, if it is a digit or a letter
pub char_value : ℕ → Option ℕ
char_value c =
    if is_digit c
    then some (c - 48)
    else if is_upper c || is_lower c
    then some (letter_value c)
    else none

-- `any`: no digit yet, digits that fit, too many
pub data Any : Type 0 where
  no_digit fits overflow : Any

pub is_overflow : Any → Bool
is_overflow no_digit = false
is_overflow fits = false
is_overflow overflow = true

-- `acc` and `any` after a digit `c`
pub accumulate : ℕ → ℕ → ℕ → ℕ → Any → ℕ → ℕ × Any
accumulate base cutoff cutlim acc any c =
    if is_overflow any || ltb cutoff acc || acc == cutoff && ltb cutlim c
    then (acc, overflow)
    else (u32 (u32 (acc * base) + c), fits)

-- The loop over the digits: `acc`, `any`, and the bytes from the one that ended it
pub read_digits : ℕ → ℕ → ℕ → ℕ → Any → List ℕ → Option (ℕ × Any × List ℕ)
read_digits base cutoff cutlim acc any [] = none
read_digits base cutoff cutlim acc any (c ∷ s) = elim (char_value c) [
  | none ↦ some (acc, any, c ∷ s)
  | some v ↦
      let (acc', any') = accumulate base cutoff cutlim acc any v in
      let rest = read_digits base cutoff cutlim acc' any' s in
      if leb base v then some (acc, any, c ∷ s) else rest
]

pub skip_spaces : List ℕ → Option (List ℕ)
skip_spaces [] = none
skip_spaces (c ∷ s) = let rest = skip_spaces s in if is_space c then rest else some (c ∷ s)

-- The sign, and the bytes behind it
pub read_sign : List ℕ → Bool × List ℕ
read_sign [] = (false, [])
read_sign (c ∷ s) = if c == 45 then (true, s) else if c == 43 then (false, s) else (false, c ∷ s)

-- `0x` in base 0 or 16: the bytes behind it, and base 16
pub read_prefix : ℕ → List ℕ → Option (ℕ × List ℕ)
read_prefix base [] = none
read_prefix base (c ∷ []) =
    if (base == 0 || base == 16) && c == 48 then none else some (base, c ∷ [])
read_prefix base (c ∷ x ∷ s) =
    if (base == 0 || base == 16) && c == 48 && (x == 120 || x == 88)
    then some (16, s)
    else some (base, c ∷ x ∷ s)

pub choose_base : ℕ → List ℕ → Option ℕ
choose_base base [] = none
choose_base base (c ∷ s) = some (if base == 0 then if c == 48 then 8 else 10 else base)

-- The value, and where `*endptr` points
pub strtol : List ℕ → ℕ → Option (ℕ × List ℕ)
strtol nptr base = skip_spaces nptr >>= λ s.
    let (neg, s) = read_sign s in
    read_prefix base s >>= λ (base, s). choose_base base s >>= λ base.
    let limit = if neg then 2 ^ 31 else 2 ^ 31 - 1 in
    read_digits base (limit / base) (limit % base) 0 no_digit s >>= λ (acc, any, s).
    some (elim any [
      | no_digit ↦ (if neg then sub32 0 acc else acc, nptr)
      | fits ↦ (if neg then sub32 0 acc else acc, s)
      | overflow ↦ (if neg then 2 ^ 31 else 2 ^ 31 - 1, s)
    ])
