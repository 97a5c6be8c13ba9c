-- ===== src/Std/Format.antt =====
-- `ldiv`, `ltoa`, `sprintf` and `vsprintf` of kernel/std/stdlib.cpp. An int is its 32-bit word, a pointer into
-- a text the list of the bytes from it on, and `none` is an access outside of an array, or an argument
-- that was not passed.
pub mod Copies
pub mod Lines
pub mod Rendered
mod Tests
use muk.Prelude.{
  ℕ, zero, suc, ◌+◌, ◌-◌, ◌*◌, ◌/◌, ◌%◌, ◌^◌, List, [], ◌∷◌, Option, none, some, Bool, true, false,
  ◌&&◌, ◌||◌, not, ◌==◌, if◌then◌else◌, ltb, leb, ◌>>=◌, length,
}
use muk.Std.Cstring.{strlen}
use muk.Std.Number.{copy_back, itoa}
use muk.Std.Vector.{put}
use muk.Word.{u8, u32, sub32}

pub record Quotient : Type 0 where
  pub quot : ℕ
  pub rem : ℕ

-- A remainder below 0, which no unsigned division gives, would be corrected.
unfoldable pub ldiv : ℕ → ℕ → Quotient
ldiv numer denom =
    let quot = numer / denom in
    let rem = numer % denom in
    if not (numer == 0) && leb (2 ^ 31) rem
    then record { quot = u32 (quot + 1); rem = sub32 rem denom }
    else record { quot = quot; rem = rem }

-- The digits that are written before the NUL of `buf`, with room for `room` more, the last first
unfoldable pub ltoa_digits : ℕ → ℕ → ℕ → Option (List ℕ)
ltoa_digits zero uarg base = if uarg == 0 then some [] else none
ltoa_digits (suc room) uarg base =
    let res = ldiv (u32 uarg) base in
    let rest = ltoa_digits room res.quot base in
    if uarg == 0
    then some []
    else rest >>= λ tail. some ((res.rem + (if ltb 9 res.rem then 65 - 10 else 48)) ∷ tail)

-- The text that is written to `str`, with its NUL. `N` has 64 bits.
unfoldable pub ltoa : ℕ → ℕ → Option (List ℕ)
ltoa n base =
    let base = if ltb 36 base || ltb base 2 then 10 else base in
    let uarg = if base == 10 then (2 ^ 64 - n) % 2 ^ 64 else n in
    (if uarg == 0 then some (48 ∷ []) else ltoa_digits 64 uarg base) >>= λ tail.
    let text = copy_back tail (0 ∷ []) in some (if base == 10 then 45 ∷ text else text)

-- An int as an unsigned long long
unfoldable pub extend : ℕ → ℕ
extend w = if leb (2 ^ 31) w then w + (2 ^ 64 - 2 ^ 32) else w

-- `putchar` gives back the byte, which is never -1, so `print` succeeds if it can read its bytes.
pub print : List ℕ → ℕ → Option Bool
print bytes zero = some true
print [] (suc n) = none
print (b ∷ bytes) (suc n) = let rest = print bytes n in if b == 2 ^ 32 - 1 then some false else rest

-- The arguments of a call: an int, a text, and the size of a string that is passed by value
pub data Arg : Type 0 where
  int_arg : ℕ → Arg
  text_arg : List ℕ → Arg
  string_arg : ℕ → Arg

-- `while(buffer[i] != 0) { buffer[i] = 0; i++; }`
unfoldable pub clear_text : List ℕ → Option (List ℕ)
clear_text [] = none
clear_text (c ∷ buffer) =
    let rest = clear_text buffer in if c == 0 then some (c ∷ buffer) else rest >>= λ b. some (0 ∷ b)

-- The bytes of a text before its NUL, written from `at` on, and their number
unfoldable pub copy_arg : List ℕ → ℕ → List ℕ → Option (List ℕ × ℕ)
copy_arg [] at buffer = none
copy_arg (c ∷ text) at buffer =
    if c == 0
    then some (buffer, 0)
    else put buffer at c >>= λ buffer.
        copy_arg text (at + 1) buffer >>= λ (buffer, amount). some (buffer, amount + 1)

-- The bytes of the format up to a NUL or a percent sign: the format from there on, and their number
unfoldable pub copy_run : List ℕ → ℕ → List ℕ → Option (List ℕ × List ℕ × ℕ)
copy_run [] at buffer = none
copy_run (c ∷ format) at buffer =
    if c == 0 || c == 37
    then some (buffer, c ∷ format, 0)
    else put buffer at c >>= λ buffer.
        copy_run format (at + 1) buffer >>= λ (buffer, format, amount).
        some (buffer, format, amount + 1)

-- The buffer, `written`, and the arguments that are left
abbrev pub Written : Type 0
Written = List ℕ × ℕ × List Arg

unfoldable pub put_char : List ℕ → ℕ → List Arg → Option Written
put_char buffer written (int_arg c ∷ args) =
    put buffer written (u8 c) >>= λ buffer. some (buffer, written + 1, args)
put_char buffer written args = none

unfoldable pub put_decimal : List ℕ → ℕ → List Arg → Option Written
put_decimal buffer written (int_arg n ∷ args) = itoa n 10 >>= λ (text, len).
    copy_arg text written buffer >>= λ (buffer, amount). some (buffer, written + amount, args)
put_decimal buffer written args = none

-- The conversions of `sprintf`: `%s` takes a string and writes nothing.
unfoldable pub convert : ℕ → List ℕ → ℕ → List Arg → Option Written
convert c buffer written [] = none
convert c buffer written (arg ∷ args) =
    if c == 99
    then put_char buffer written (arg ∷ args)
    else if c == 120
    then elim arg [
      | int_arg n ↦ ltoa (extend n) 16 >>= λ text.
          copy_arg text written buffer >>= λ (buffer, amount). some (buffer, written + amount, args)
      | text_arg t ↦ none
      | string_arg size ↦ none
    ]
    else if c == 115
    then elim arg [
      | int_arg n ↦ none
      | text_arg t ↦ none
      | string_arg size ↦ some (buffer, written + size, args)
    ]
    else put_decimal buffer written (arg ∷ args)

-- The conversions of `vsprintf`: `0x` stands in front of `%x`, and `%s` copies a text.
unfoldable pub convert_v : ℕ → List ℕ → ℕ → List Arg → Option Written
convert_v c buffer written [] = none
convert_v c buffer written (arg ∷ args) =
    if c == 99
    then put_char buffer written (arg ∷ args)
    else if c == 120
    then elim arg [
      | int_arg n ↦ ltoa (extend n) 16 >>= λ text. put buffer written 48 >>= λ buffer.
          put buffer (written + 1) 120 >>= λ buffer.
          copy_arg text (written + 2) buffer >>= λ (buffer, amount).
          some (buffer, written + (amount + 2), args)
      | text_arg t ↦ none
      | string_arg size ↦ none
    ]
    else if c == 115
    then elim arg [
      | int_arg n ↦ none
      | text_arg t ↦
          copy_arg t written buffer >>= λ (buffer, amount). some (buffer, written + amount, args)
      | string_arg size ↦ none
    ]
    else put_decimal buffer written (arg ∷ args)

unfoldable pub is_conversion : ℕ → Bool
is_conversion c = c == 99 || c == 120 || c == 100 || c == 105 || c == 115

-- What a round leaves: where to go on, or the value that is returned
pub data Round : Type 0 where
  go_on : List ℕ → List ℕ → ℕ → List Arg → Round
  returns : List ℕ → ℕ → Round

-- `format` behind its first byte, or behind the first of two percent signs: the run that starts there
unfoldable pub literal : List ℕ → List ℕ → ℕ → List Arg → Option Round
literal [] buffer written args = none
literal (c ∷ format) buffer written args =
    copy_run format (written + 1) buffer >>= λ (buffer, rest, more).
    let amount = more + 1 in
    if ltb (2 ^ 31 - 1 - written) amount
    then some (returns buffer (2 ^ 32 - 1))
    else print (c ∷ format) amount >>= λ printed.
        some (
          if printed
          then go_on rest buffer (written + amount) args
          else returns buffer (2 ^ 32 - 1))

-- A round that starts at a percent sign
unfoldable pub after_percent :
    (ℕ → List ℕ → ℕ → List Arg → Option Written) → List ℕ → List ℕ → ℕ → List Arg → Option Round
after_percent conv [] buffer written args = none
after_percent conv (c ∷ []) buffer written args = none
after_percent conv (c ∷ d ∷ rest) buffer written args =
    if d == 37
    then literal (d ∷ rest) buffer written args
    else if is_conversion d
    then (conv d buffer written args >>= λ (buffer, written, args).
        some (go_on rest buffer written args))
    else strlen (c ∷ d ∷ rest) >>= λ len. some (go_on (0 ∷ []) buffer (written + len) args)

-- One round of the loop, on a format that does not start with a NUL
unfoldable pub round :
    (ℕ → List ℕ → ℕ → List Arg → Option Written) → List ℕ → List ℕ → ℕ → List Arg → Option Round
round conv [] buffer written args = none
round conv (c ∷ format) buffer written args = put buffer written c >>= λ buffer.
    if not (c == 37)
    then literal (c ∷ format) buffer written args
    else after_percent conv (c ∷ format) buffer written args

-- `while (*format != '\0')`, with fuel for `n` rounds. The outer `none` is that the fuel has run out.
unfoldable pub format_loop :
    (ℕ → List ℕ → ℕ → List Arg → Option Written)
    → ℕ
    → List ℕ
    → List ℕ
    → ℕ
    → List Arg
    → Option (Option (List ℕ × ℕ))
format_loop conv zero format buffer written args = none
format_loop conv (suc n) [] buffer written args = some none
format_loop conv (suc n) (c ∷ format) buffer written args =
    if c == 0
    then some (some (buffer, written))
    else elim (round conv (c ∷ format) buffer written args) [
      | none ↦ some none
      | some r ↦ elim r [
        | go_on format buffer written args ↦ format_loop conv n format buffer written args
        | returns buffer value ↦ some (some (buffer, value))
      ]
    ]

-- A round uses up a byte of the format, or ends the loop.
unfoldable pub sprintf : List ℕ → List ℕ → List Arg → Option (Option (List ℕ × ℕ))
sprintf buffer format args = elim (clear_text buffer) [
  | none ↦ some none
  | some buffer ↦ format_loop convert (length format + 1) format buffer 0 args
]

unfoldable pub vsprintf : List ℕ → List ℕ → List Arg → Option (Option (List ℕ × ℕ))
vsprintf buffer format args = elim (clear_text buffer) [
  | none ↦ some none
  | some buffer ↦ format_loop convert_v (length format + 1) format buffer 0 args
]
