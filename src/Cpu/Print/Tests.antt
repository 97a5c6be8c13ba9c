-- ===== src/Cpu/Print/Tests.antt =====
-- Printed texts.
use muk.Prelude.{
  ℕ, ◌+◌, ◌-◌, ◌^◌, ◌≡◌, refl, List, [], ◌∷◌, ◌++◌, none, some, length, replicate, arith,
}
use muk.Std.Number.{itoa, copy_back, emit, digit_char}
use muk.Std.Format.{Arg, int_arg}
use muk.Std.Format.Lines.{Renders, ends, plain, converts}
use muk.Std.Format.Rendered.{as_number}
use muk.Cpu.Print.{bcprintf, bochs_console_print, snprintf, asprintf}
use muk.Cpu.Print.Sent.{Left, sent, bcprintf_lem}
use muk.Cpu.Print.Last.{value_of, snprintf_lem}

-- "x=%d"
abbrev x_format : List ℕ
x_format = 120 ∷ 61 ∷ 37 ∷ 100 ∷ 0 ∷ []

abbrev x_args : List Arg
x_args = int_arg 42 ∷ []

-- "x=42"
abbrev x_text : List ℕ
x_text = 120 ∷ 61 ∷ 52 ∷ 50 ∷ []

x_format-Renders : Renders x_format x_args x_text
unfolding itoa emit digit_char copy_back
x_format-Renders =
    plain 120 (61 ∷ []) 37 (refl, omega arith, (refl, omega arith, tt)) refl
      (converts 100 (int_arg 42) (52 ∷ 50 ∷ []) (as_number refl (omega arith, (omega arith, tt)))
        (ends [] []))

bcprintf_lem_example : (w : List ℕ) × (bcprintf x_format x_args ≡ some (sent w)) × Left x_text w
bcprintf_lem_example =
    bcprintf_lem x_format x_args x_text x_format-Renders
      (omega arith, (omega arith, (omega arith, (omega arith, tt)))) (omega arith)

snprintf_lem_example :
    (w : List ℕ) × (m : ℕ) × (snprintf (replicate 8 7) 8 x_format x_args
      ≡ some (w ++ replicate m 0, value_of (2 ^ 32 - 1) w))
    × Left x_text w
    × (length w + m ≡ 8)
snprintf_lem_example =
    snprintf_lem 8 x_format x_args x_text (replicate 8 7) x_format-Renders
      (omega arith, (omega arith, (omega arith, (omega arith, tt)))) (omega arith) (omega arith)
      refl

-- The last byte of "42" is missing.
one_digit : asprintf 0x1000 (37 ∷ 100 ∷ 0 ∷ []) x_args ≡ some (0x1000, 52 ∷ [], 1)
unfolding asprintf muk.Cpu.Print.last_byte muk.Std.Format.vsprintf muk.Std.Format.clear_text
    muk.Std.Format.format_loop muk.Std.Format.round muk.Std.Format.after_percent
    muk.Std.Format.is_conversion muk.Std.Format.convert_v muk.Std.Format.put_decimal
    muk.Std.Format.copy_arg muk.Std.Vector.put muk.Std.Text.strncpy itoa emit digit_char copy_back
one_digit = refl

-- Without a NUL the console reads past the array.
unended : bochs_console_print (65 ∷ 66 ∷ []) ≡ none
unfolding bochs_console_print
unended = refl
