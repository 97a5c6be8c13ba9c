-- ===== src/Std/Number/Tests.antt =====
-- Concrete numbers.
use muk.Prelude.{
  ◌<◌, ℕ, ◌^◌, ◌≤◌, ◌≡◌, refl, List, [], ◌∷◌, ◌++◌, none, some, ◌==◌, ◌&&◌, if◌then◌else◌, leb,
  arith, length, ◌⊎◌,
}
use muk.Std.Number.{itoa, atoi}
use muk.Std.Number.Digits.{value_from, AreDigits}
use muk.Std.Number.Itoa.{magnitude, itoa_lem}
use muk.Std.Number.Atoi.{atoi-itoa}

-- 65536 in base 2 needs 17 digits.
itoa_lem_example :
    ((2 ^ 16 ≤ magnitude 65536 2) × (itoa 65536 2 ≡ none))
    ⊎ ((magnitude 65536 2 < 2 ^ 16)
        × ((digits : List ℕ) × (text : List ℕ) × (itoa 65536 2 ≡ some (text ++ 0 ∷ [], length text))
            × (text ≡ (if 2 == 10 && leb (2 ^ 31) 65536 then 45 ∷ digits else digits))
            × AreDigits 2 digits
            × (value_from 2 0 digits ≡ magnitude 65536 2)))
itoa_lem_example = itoa_lem 65536 2 (omega arith) (omega arith) (omega arith)

atoi-itoa_example :
    (text : List ℕ) × (len : ℕ) × (itoa 2017 10 ≡ some (text, len)) × (atoi text ≡ some 2017)
atoi-itoa_example = atoi-itoa 2017 (omega arith)

abbrev fifteen : List ℕ
fifteen = 49 ∷ 53 ∷ []

fifteen-AreDigits : AreDigits 10 fifteen
fifteen-AreDigits = unfold muk.Std.Number.digit_char in (refl, omega arith, (refl, omega arith, tt))
