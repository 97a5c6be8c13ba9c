-- ===== src/Std/Number/Digits.antt =====
-- The number that a row of digits stands for.
use native.Mathlib.Nat.{pow-suc}
use muk.Prelude.{
  ℕ, ◌+◌, ◌-◌, ◌*◌, ◌%◌, ◌^◌, ◌<◌, ◌≤◌, ◌≡◌, refl, sym, ap, ◌∙◌, List, [], ◌∷◌, if◌then◌else◌, ltb,
  arith, length,
}
use muk.Std.Number.{digit_char, copy_back}

-- The value of a digit: 0 to 9, then a to z.
abbrev pub digit_value : ℕ → ℕ
digit_value c = if ltb c 58 then c - 48 else c - 87

-- The number that the digits of `text` stand for in base `radix`, from `acc` on.
unfoldable pub value_from : ℕ → ℕ → List ℕ → ℕ
value_from radix acc [] = acc
value_from radix acc (c ∷ text) = value_from radix (acc * radix + digit_value c) text

pub digit_value-digit_char : (i : ℕ) → i < 36 → digit_value (digit_char i) ≡ i
unfolding digit_char
digit_value-digit_char i h = ground arith

-- Least significant digit first.
unfoldable pub value_back : ℕ → List ℕ → ℕ
value_back radix [] = 0
value_back radix (c ∷ tp) = value_back radix tp * radix + digit_value c

pub value_from-copy_back :
    (radix : ℕ) (tp text : List ℕ)
    → value_from radix 0 (copy_back tp text) ≡ value_from radix (value_back radix tp) text
unfolding copy_back value_back value_from
value_from-copy_back radix [] text = refl
value_from-copy_back radix (c ∷ tp) text = value_from-copy_back radix tp (c ∷ text)

spread : (a d p e : ℕ) → (a * 10 + d) * p + e ≡ a * (p * 10) + ((0 + d) * p + e)
spread a d p e = grind arith

-- An offset in the accumulator stands in front of the digits.
pub value_from-offset :
    (acc : ℕ) (text : List ℕ)
    → value_from 10 acc text ≡ acc * 10 ^ length text + value_from 10 0 text
unfolding value_from
value_from-offset acc [] = omega arith
value_from-offset acc (c ∷ text) =
    rw
      (
        value_from-offset (acc * 10 + digit_value c) text,
        value_from-offset (0 + digit_value c) text,
        pow-suc 10 (length text),
      )
      (spread acc (digit_value c) (10 ^ length text) (value_from 10 0 text))

-- Only the remainder of the accumulator matters to the remainder of the number.
pub value_from-mod :
    (acc : ℕ) (text : List ℕ)
    → value_from 10 (acc % 2 ^ 32) text % 2 ^ 32 ≡ value_from 10 acc text % 2 ^ 32
unfolding value_from
value_from-mod acc [] = omega arith
value_from-mod acc (c ∷ text) =
    sym (value_from-mod (acc % 2 ^ 32 * 10 + digit_value c) text)
    ∙ ap (λ (a : ℕ). value_from 10 a text % 2 ^ 32) (omega arith)
    ∙ value_from-mod (acc * 10 + digit_value c) text

-- The bytes of `text` are digits of base `radix`.
abbrev pub AreDigits : ℕ → List ℕ → Type 0
AreDigits radix [] = Unit
AreDigits radix (c ∷ text) =
    (c ≡ digit_char (digit_value c)) × (digit_value c < radix) × AreDigits radix text

pub copy_back-AreDigits :
    (radix : ℕ) (tp text : List ℕ)
    → AreDigits radix tp
    → AreDigits radix text
    → AreDigits radix (copy_back tp text)
unfolding copy_back
copy_back-AreDigits radix [] text h k = k
copy_back-AreDigits radix (c ∷ tp) text (p, q, h) k =
    copy_back-AreDigits radix tp (c ∷ text) h (p, q, k)

pub decimal_bounds :
    (c : ℕ) → c ≡ digit_char (digit_value c) → digit_value c < 10 → (48 ≤ c) × (c < 58)
unfolding digit_char
decimal_bounds c p q = ground arith
