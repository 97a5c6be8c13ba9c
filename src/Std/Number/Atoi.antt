-- ===== src/Std/Number/Atoi.antt =====
-- What `atoi` makes of digits, and of what `itoa` wrote.
use muk.Prelude.{
  ℕ, ◌+◌, ◌-◌, ◌*◌, ◌%◌, ◌^◌, ◌<◌, ◌≡◌, refl, ap, ◌∙◌, List, [], ◌∷◌, ◌++◌, some, false, ◌==◌, ◌&&◌,
  leb, arith, length, take, inl, inr,
}
use muk.Std.Cstring.{IsText}
use muk.Std.Cstring.Compare.{strlen-text}
use muk.Std.Number.{itoa, atoi, atoi_loop}
use muk.Std.Number.Digits.{
  digit_value, value_from, value_from-offset, value_from-mod, AreDigits, decimal_bounds,
}
use muk.Std.Number.Itoa.{magnitude, itoa_lem}

AreDigits-IsText : (text : List ℕ) → AreDigits 10 text → IsText text
AreDigits-IsText [] h = tt
AreDigits-IsText (c ∷ text) (p, q, h) =
    (λ e. omega (arith, (decimal_bounds c p q).0), AreDigits-IsText text h)

take-text : (s r : List ℕ) → take (length s) (s ++ r) ≡ s
take-text [] r = refl
take-text (c ∷ s) r = ap (λ (t : List ℕ). c ∷ t) (take-text s r)

-- The loop computes modulo 2 ^ 32.
loop_lem :
    (value : ℕ) (text : List ℕ)
    → AreDigits 10 text
    → value < 2 ^ 32
    → atoi_loop value text ≡ value_from 10 value text % 2 ^ 32
unfolding atoi_loop value_from
loop_lem value [] h k = omega arith
loop_lem value (c ∷ text) (p, q, h) k =
    let (low, high) = decimal_bounds c p q in
    let step : (value * 10 + c + 2 ^ 32 - 48) % 2 ^ 32 ≡ (value * 10 + digit_value c) % 2 ^ 32 =
      ground arith in
    rw step (
      loop_lem ((value * 10 + digit_value c) % 2 ^ 32) text h (omega arith)
      ∙ value_from-mod (value * 10 + digit_value c) text)

-- `atoi` of decimal digits is their number, modulo 2 ^ 32.
pub atoi_digits :
    (text rest : List ℕ)
    → AreDigits 10 text
    → atoi (text ++ 0 ∷ rest) ≡ some (value_from 10 0 text % 2 ^ 32)
unfolding atoi
atoi_digits [] rest h = unfold value_from in unfold atoi_loop in rw (strlen-text [] rest tt) refl
atoi_digits (c ∷ text) rest h =
    let no_sign : (c == 45) ≡ false = ground (arith, (decimal_bounds c h.0 h.1).0) in
    rw
      (
        strlen-text (c ∷ text) rest (AreDigits-IsText (c ∷ text) h),
        take-text (c ∷ text) (0 ∷ rest),
        no_sign,
        loop_lem 0 (c ∷ text) h (omega arith),
      )
      refl

-- `atoi` takes a minus sign for the digit -3: of a sign and `k` digits that make the number n it
-- makes 3 * 10 ^ k - n, in 32 bits.
pub atoi_minus :
    (text rest : List ℕ)
    → AreDigits 10 text
    → (w : ℕ) × (atoi (45 ∷ text ++ 0 ∷ rest) ≡ some w)
      × (w < 2 ^ 32)
      × ((w + value_from 10 0 text) % 2 ^ 32 ≡ 3 * 10 ^ length text % 2 ^ 32)
unfolding atoi atoi_loop
atoi_minus text rest h =
    let minus_text : IsText (45 ∷ text) = (λ e. omega arith, AreDigits-IsText text h) in
    let loop : atoi_loop (2 ^ 32 - 3) text ≡ value_from 10 (2 ^ 32 - 3) text % 2 ^ 32 =
      loop_lem (2 ^ 32 - 3) text h (omega arith) in
    let v = value_from 10 (2 ^ 32 - 3) text % 2 ^ 32 in
    (
      (2 ^ 32 - v) % 2 ^ 32,
      rw (strlen-text (45 ∷ text) rest minus_text, take-text (45 ∷ text) (0 ∷ rest), loop) refl,
      omega arith,
      omega (arith, value_from-offset (2 ^ 32 - 3) text),
    )

-- For an int that is not negative, `itoa` in base 10 and then `atoi` give it back.
pub atoi-itoa :
    (value : ℕ)
    → value < 2 ^ 31
    → (text : List ℕ) × (len : ℕ) × (itoa value 10 ≡ some (text, len)) × (atoi text ≡ some value)
atoi-itoa value h =
    let plain : (10 == 10) && leb (2 ^ 31) value ≡ false = ground arith in
    let same : magnitude value 10 ≡ value = rw plain refl in
    elim (itoa_lem value 10 (omega arith) (omega arith) (omega arith)) [
      | inl (over, e) ↦ absurd (omega (arith, same))
      | inr (fits, (digits, text, e, text_is, are, number)) ↦
          let only_digits : text ≡ digits = text_is ∙ rw plain refl in
          let small : value_from 10 0 digits % 2 ^ 32 ≡ value = omega (arith, number, same) in
          (text ++ 0 ∷ [], length text, e, rw (only_digits, atoi_digits digits [] are, small) refl)
    ]
