-- ===== src/Std/Format/Tests.antt =====
-- Runs of the printf functions.
use muk.Prelude.{ℕ, ◌+◌, ◌-◌, ◌^◌, ◌≡◌, refl, List, [], ◌∷◌, ◌++◌, some, length, arith}
use muk.Std.Cstring.{strlen}
use muk.Std.Vector.{put}
use muk.Std.Number.{itoa, copy_back, emit, digit_char}
use muk.Std.Format.{
  Arg, int_arg, text_arg, string_arg, ltoa, ltoa_digits, ldiv, sprintf, vsprintf, extend,
  clear_text, format_loop, round, after_percent, is_conversion, convert, convert_v, copy_arg,
  literal, copy_run, print,
}
use muk.Std.Format.Lines.{Renders, ends, plain, converts, vsprintf_lem}
use muk.Std.Format.Rendered.{as_text, as_number}

-- "n=%d%s;"
abbrev format : List ℕ
format = 110 ∷ 61 ∷ 37 ∷ 100 ∷ 37 ∷ 115 ∷ 59 ∷ 0 ∷ []

abbrev args : List Arg
args = int_arg 42 ∷ text_arg (75 ∷ 0 ∷ []) ∷ []

-- "n=42K;"
abbrev shown : List ℕ
shown = 110 ∷ 61 ∷ 52 ∷ 50 ∷ 75 ∷ 59 ∷ []

abbrev seven : List ℕ
seven = 0 ∷ 0 ∷ 0 ∷ 0 ∷ 0 ∷ 0 ∷ []

format-Renders : Renders format args shown
unfolding itoa emit digit_char copy_back
format-Renders =
    plain 110 (61 ∷ []) 37 (refl, omega arith, (refl, omega arith, tt)) refl
      (converts 100 (int_arg 42) (52 ∷ 50 ∷ []) (as_number refl (omega arith, (omega arith, tt))) (
        converts 115 (text_arg (75 ∷ 0 ∷ [])) (75 ∷ []) (as_text [] (omega arith, tt))
          (plain 59 [] 0 (refl, omega arith, tt) refl (ends [] []))))

vsprintf_example :
    (behind : List ℕ) × (vsprintf (7 ∷ 0 ∷ seven) format args ≡ some (some (shown ++ behind, 6)))
    × (6 + length behind ≡ 8)
vsprintf_example =
    vsprintf_lem format args shown (7 ∷ []) seven format-Renders (omega arith, tt) (omega arith)
      (omega arith)

abbrev empty : List ℕ
empty = 0 ∷ 0 ∷ 0 ∷ 0 ∷ 0 ∷ 0 ∷ 0 ∷ 0 ∷ []

-- "%x" of 255 in both functions, and of -1
sprintf_hex :
    sprintf empty (37 ∷ 120 ∷ 0 ∷ []) (int_arg 255 ∷ [])
    ≡ some (some (70 ∷ 70 ∷ 0 ∷ 0 ∷ 0 ∷ 0 ∷ 0 ∷ 0 ∷ [], 2))
unfolding sprintf clear_text format_loop round put after_percent is_conversion convert ltoa extend
    ltoa_digits ldiv copy_back copy_arg literal copy_run strlen print
sprintf_hex = refl

vsprintf_hex :
    vsprintf empty (37 ∷ 120 ∷ 0 ∷ []) (int_arg 255 ∷ [])
    ≡ some (some (48 ∷ 120 ∷ 70 ∷ 70 ∷ 0 ∷ 0 ∷ 0 ∷ 0 ∷ [], 4))
unfolding vsprintf clear_text format_loop round put after_percent is_conversion convert_v ltoa
    extend ltoa_digits ldiv copy_back copy_arg literal copy_run strlen print
vsprintf_hex = refl

sprintf_minus :
    sprintf empty (37 ∷ 120 ∷ 0 ∷ []) (int_arg (2 ^ 32 - 1) ∷ [])
    ≡ some (some (70 ∷ 70 ∷ 70 ∷ 70 ∷ 70 ∷ 70 ∷ 70 ∷ 70 ∷ [], 8))
unfolding sprintf clear_text format_loop round put after_percent is_conversion convert ltoa extend
    ltoa_digits ldiv copy_back copy_arg literal copy_run strlen print
sprintf_minus = refl

-- In base 10 a sign is written, and the number is negated.
ltoa_ten : ltoa 7 10 ≡ some (45 ∷ 52 ∷ 50 ∷ 57 ∷ 52 ∷ 57 ∷ 54 ∷ 55 ∷ 50 ∷ 56 ∷ 57 ∷ 0 ∷ [])
unfolding ltoa ltoa_digits ldiv copy_back
ltoa_ten = refl

-- "%s" of an empty text leaves the percent sign.
vsprintf_empty :
    vsprintf empty (37 ∷ 115 ∷ 0 ∷ []) (text_arg (0 ∷ []) ∷ [])
    ≡ some (some (37 ∷ 0 ∷ 0 ∷ 0 ∷ 0 ∷ 0 ∷ 0 ∷ 0 ∷ [], 0))
unfolding vsprintf clear_text format_loop round put after_percent is_conversion convert_v ltoa
    extend ltoa_digits ldiv copy_back copy_arg literal copy_run strlen print
vsprintf_empty = refl

-- "%u" counts its bytes, and writes the percent sign only. "a%%b" shows one percent sign.
vsprintf_unknown :
    vsprintf empty (37 ∷ 117 ∷ 0 ∷ []) [] ≡ some (some (37 ∷ 0 ∷ 0 ∷ 0 ∷ 0 ∷ 0 ∷ 0 ∷ 0 ∷ [], 2))
unfolding vsprintf clear_text format_loop round put after_percent is_conversion convert_v ltoa
    extend ltoa_digits ldiv copy_back copy_arg literal copy_run strlen print
vsprintf_unknown = refl

sprintf_percent :
    sprintf empty (97 ∷ 37 ∷ 37 ∷ 98 ∷ 0 ∷ []) []
    ≡ some (some (97 ∷ 37 ∷ 98 ∷ 0 ∷ 0 ∷ 0 ∷ 0 ∷ 0 ∷ [], 3))
unfolding sprintf clear_text format_loop round put after_percent is_conversion convert ltoa extend
    ltoa_digits ldiv copy_back copy_arg literal copy_run strlen print
sprintf_percent = refl

sprintf_string :
    sprintf empty (37 ∷ 115 ∷ 0 ∷ []) (string_arg 3 ∷ [])
    ≡ some (some (37 ∷ 0 ∷ 0 ∷ 0 ∷ 0 ∷ 0 ∷ 0 ∷ 0 ∷ [], 3))
unfolding sprintf clear_text format_loop round put after_percent is_conversion convert ltoa extend
    ltoa_digits ldiv copy_back copy_arg literal copy_run strlen print
sprintf_string = refl
