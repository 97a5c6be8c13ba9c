-- ===== src/Std/Number.antt =====
-- Numbers as text: `itoa` and `atoi` of kernel/std/stdlib.cpp. An int is its 32-bit word, in two's
-- complement.
pub mod Digits
pub mod Itoa
pub mod Atoi
mod Tests
use muk.Prelude.{
  ℕ, zero, suc, ◌+◌, ◌-◌, ◌*◌, ◌/◌, ◌%◌, ◌^◌, List, [], ◌∷◌, ◌++◌, Option, none, some, Bool, true,
  false, ◌&&◌, ◌||◌, not, ◌==◌, if◌then◌else◌, ltb, leb, ◌>>=◌, length, take,
}
use muk.Word.{u32, sub32}
use muk.Std.Cstring.{strlen}

unfoldable pub digit_char : ℕ → ℕ
digit_char i = if ltb i 10 then i + 48 else i + 97 - 10

-- `while (v || tp == tmp)`: the bytes written to `tmp`, where there is room for `room` more; `first`
-- is `tp == tmp`, and `none` is a write outside of `tmp`.
unfoldable pub emit : ℕ → Bool → ℕ → ℕ → Option (List ℕ)
unfolding digit_char
emit zero first v radix = if first || not (v == 0) then none else some []
emit (suc room) first v radix =
    let rest = emit room false (v / radix) radix in
    if first || not (v == 0) then (rest >>= λ tp. some (digit_char (v % radix) ∷ tp)) else some []

-- `while (tp > tmp) *sp++ = *--tp`
unfoldable pub copy_back : List ℕ → List ℕ → List ℕ
copy_back [] sp = sp
copy_back (c ∷ tp) sp = copy_back tp (c ∷ sp)

-- `value < 0`
abbrev pub negative : ℕ → Bool
negative value = leb (2 ^ 31) value

-- The text that is written from `sp` on, with its NUL, and the length that is returned. A `radix` of
-- 0 would divide by 0.
unfoldable pub itoa : ℕ → ℕ → Option (List ℕ × ℕ)
unfolding copy_back
itoa value radix =
    let sign = radix == 10 && negative value in
    let v = if sign then sub32 0 value else value in
    emit 16 true v radix >>= λ tp.
    let text = if sign then 45 ∷ copy_back tp [] else copy_back tp [] in
    some (text ++ 0 ∷ [], length text)

-- The loop of `atoi` over the bytes before the NUL.
pub atoi_loop : ℕ → List ℕ → ℕ
atoi_loop value [] = value
atoi_loop value (c ∷ str) = atoi_loop (sub32 (value * 10 + c) 48) str

-- `none` is a read past the end of the array of `str`.
pub atoi : List ℕ → Option ℕ
unfolding atoi_loop
atoi [] = none
atoi (c ∷ str) = strlen (c ∷ str) >>= λ len.
    let value = atoi_loop 0 (take len (c ∷ str)) in some (if c == 45 then sub32 0 value else value)
