-- ===== src/Std/Strtol/Tests.antt =====
-- Numbers as `strtol` reads them.
use muk.Prelude.{ℕ, ◌≡◌, refl, List, [], ◌∷◌, some, arith}
use muk.Std.Number.Digits.{AreDigits}
use muk.Std.Strtol.{strtol}

-- "42"
abbrev forty_two : List ℕ
forty_two = 52 ∷ 50 ∷ []

forty_two-AreDigits : AreDigits 10 forty_two
unfolding muk.Std.Number.digit_char
forty_two-AreDigits = (refl, omega arith, (refl, omega arith, tt))

-- "0x2A" and "0x2a": a letter in upper case ends the number.
cases_differ :
    (strtol (48 ∷ 120 ∷ 50 ∷ 97 ∷ 0 ∷ []) 16 ≡ some (42, 0 ∷ []))
    × (strtol (48 ∷ 120 ∷ 50 ∷ 65 ∷ 0 ∷ []) 16 ≡ some (2, 65 ∷ 0 ∷ []))
unfolding strtol muk.Std.Strtol.skip_spaces muk.Std.Strtol.read_sign muk.Std.Strtol.read_prefix
    muk.Std.Strtol.choose_base muk.Std.Strtol.read_digits muk.Std.Strtol.accumulate
    muk.Std.Strtol.is_overflow muk.Std.Strtol.char_value muk.Std.Strtol.letter_value
    muk.Std.Strtol.is_space muk.Std.Strtol.is_digit muk.Std.Strtol.is_upper muk.Std.Strtol.is_lower
cases_differ = (refl, refl)
