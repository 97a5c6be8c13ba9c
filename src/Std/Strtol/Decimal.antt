-- ===== src/Std/Strtol/Decimal.antt =====
-- `strtol` on decimal numbers: the value, or the nearest long.
use muk.Prelude.{
  ℕ, ◌+◌, ◌-◌, ◌*◌, ◌/◌, ◌%◌, ◌^◌, ◌<◌, ◌≤◌, ◌≡◌, refl, ◌∙◌, min, List, [], ◌∷◌, ◌++◌, some, true,
  false, ◌&&◌, ◌||◌, ◌==◌, ltb, leb, arith,
}
use native.Mathlib.Decide.{dec_lt}
use muk.Word.{u32, sub32}
use muk.Std.Number.Digits.{digit_value, value_from, AreDigits, decimal_bounds}
use muk.Std.Strtol.{
  Any, no_digit, fits, overflow, is_overflow, is_digit, is_space, char_value, accumulate,
  read_digits, skip_spaces, read_sign, read_prefix, choose_base, strtol,
}

value_from-ge : (acc : ℕ) (text : List ℕ) → acc ≤ value_from 10 acc text
unfolding value_from
value_from-ge acc [] = omega arith
value_from-ge acc (c ∷ text) = omega (arith, value_from-ge (acc * 10 + digit_value c) text)

char_value-digit : (c : ℕ) → 48 ≤ c → c < 58 → char_value c ≡ some (digit_value c)
unfolding char_value is_digit
char_value-digit c h k = ground arith

-- What `any` is after the digits of a text that fit.
abbrev after : Any → List ℕ → Any
after any [] = any
after any (c ∷ text) = fits

read_end :
    (base cutoff cutlim acc : ℕ) (any : Any) (rest : List ℕ)
    → read_digits base cutoff cutlim acc any (0 ∷ rest) ≡ some (acc, any, 0 ∷ rest)
unfolding read_digits char_value is_digit muk.Std.Strtol.is_upper muk.Std.Strtol.is_lower
read_end base cutoff cutlim acc any rest = refl

-- A step of the loop at a digit.
read_step :
    (cutoff cutlim acc : ℕ) (any : Any) (c : ℕ) (s : List ℕ)
    → 48 ≤ c
    → c < 58
    → read_digits 10 cutoff cutlim acc any (c ∷ s) ≡ (
        let (acc', any') = accumulate 10 cutoff cutlim acc any (digit_value c) in
        read_digits 10 cutoff cutlim acc' any' s)
unfolding read_digits
read_step cutoff cutlim acc any c s h k =
    let small : leb 10 (digit_value c) ≡ false = ground arith in cc (char_value-digit c h k, small)

stays_over :
    (cutoff cutlim acc : ℕ) (text rest : List ℕ)
    → AreDigits 10 text
    → read_digits 10 cutoff cutlim acc overflow (text ++ 0 ∷ rest) ≡ some (acc, overflow, 0 ∷ rest)
unfolding accumulate is_overflow
stays_over cutoff cutlim acc [] rest h = read_end 10 cutoff cutlim acc overflow rest
stays_over cutoff cutlim acc (c ∷ text) rest (p, q, h) =
    let (low, high) = decimal_bounds c p q in
    read_step cutoff cutlim acc overflow c (text ++ 0 ∷ rest) low high
    ∙ stays_over cutoff cutlim acc text rest h

after-fits : (text : List ℕ) → after fits text ≡ fits
after-fits [] = refl
after-fits (c ∷ text) = refl

-- A digit that keeps the number within the limit is taken in, and any other sets `any`.
accumulate-fits :
    (limit acc d : ℕ) (any : Any)
    → is_overflow any ≡ false
    → limit < 2 ^ 32
    → acc * 10 + d ≤ limit
    → d < 10
    → accumulate 10 (limit / 10) (limit % 10) acc any d ≡ (acc * 10 + d, fits)
unfolding accumulate
accumulate-fits limit acc d any alive small h k =
    let below : (ltb (limit / 10) acc || acc == limit / 10 && ltb (limit % 10) d) ≡ false =
      ground arith in
    let sum : u32 (u32 (acc * 10) + d) ≡ acc * 10 + d = omega arith in cc (alive, below, sum)

accumulate-over :
    (limit acc d : ℕ) (any : Any)
    → is_overflow any ≡ false
    → limit < acc * 10 + d
    → d < 10
    → accumulate 10 (limit / 10) (limit % 10) acc any d ≡ (acc, overflow)
unfolding accumulate
accumulate-over limit acc d any alive h k =
    let above : (ltb (limit / 10) acc || acc == limit / 10 && ltb (limit % 10) d) ≡ true =
      ground arith in
    cc (alive, above)

digits_lem :
    (limit acc : ℕ) (any : Any) (text rest : List ℕ)
    → limit < 2 ^ 32
    → is_overflow any ≡ false
    → acc ≤ limit
    → AreDigits 10 text
    → (value_from 10 acc text ≤ limit
        → read_digits 10 (limit / 10) (limit % 10) acc any (text ++ 0 ∷ rest)
          ≡ some (value_from 10 acc text, after any text, 0 ∷ rest))
      × (limit < value_from 10 acc text
          → (a : ℕ) × (read_digits 10 (limit / 10) (limit % 10) acc any (text ++ 0 ∷ rest)
              ≡ some (a, overflow, 0 ∷ rest)))
unfolding value_from is_overflow
digits_lem limit acc any [] rest small alive inside h =
    (λ _. read_end 10 (limit / 10) (limit % 10) acc any rest, λ over. absurd (omega arith))
digits_lem limit acc any (c ∷ text) rest small alive inside (p, q, h) =
    let d = digit_value c in
    let (low, high) = decimal_bounds c p q in
    let step = read_step (limit / 10) (limit % 10) acc any c (text ++ 0 ∷ rest) low high in
    elim (dec_lt limit (acc * 10 + d)) [
      | yes over ↦
          let taken = accumulate-over limit acc d any alive over q in
          (
            λ fits_in. absurd (omega (arith, value_from-ge (acc * 10 + d) text)),
            λ _. (acc, cc (step, taken, stays_over (limit / 10) (limit % 10) acc text rest h)),
          )
      | no under ↦
          let taken = accumulate-fits limit acc d any alive small (omega arith) q in
          let (good, bad) =
            digits_lem limit (acc * 10 + d) fits text rest small refl (omega arith) h in
          let last = after-fits text in
          (
            λ fits_in. cc (step, taken, good fits_in, last),
            λ over. let (a, done) = bad over in (a, cc (step, taken, done)),
          )
    ]

no_space : (c : ℕ) (s : List ℕ) → 48 ≤ c → c < 58 → skip_spaces (c ∷ s) ≡ some (c ∷ s)
unfolding skip_spaces is_space
no_space c s h k = ground arith

no_sign : (c : ℕ) (s : List ℕ) → 48 ≤ c → c < 58 → read_sign (c ∷ s) ≡ (false, c ∷ s)
unfolding read_sign
no_sign c s h k = ground arith

no_prefix : (c : ℕ) (s : List ℕ) → read_prefix 10 (c ∷ s) ≡ some (10, c ∷ s)
unfolding read_prefix
no_prefix c [] = refl
no_prefix c (x ∷ s) = refl

-- On a row of decimal digits that a NUL ends, `strtol` gives the number that they spell, or the largest
-- long where that is larger, and points to the NUL.
pub strtol_lem :
    (c : ℕ) (text rest : List ℕ)
    → AreDigits 10 (c ∷ text)
    → strtol ((c ∷ text) ++ 0 ∷ rest) 10
      ≡ some (min (value_from 10 0 (c ∷ text)) (2 ^ 31 - 1), 0 ∷ rest)
unfolding strtol choose_base is_overflow skip_spaces value_from
strtol_lem c text rest (p, q, h) =
    let (low, high) = decimal_bounds c p q in
    let s = text ++ 0 ∷ rest in
    let v = value_from 10 0 (c ∷ text) in
    let (good, bad) =
      digits_lem (2 ^ 31 - 1) 0 no_digit (c ∷ text) rest (omega arith) refl (omega arith)
        (p, q, h) in
    elim (dec_lt (2 ^ 31 - 1) v) [
      | yes over ↦
          let (a, done) = bad over in
          let largest : 2 ^ 31 - 1 ≡ min v (2 ^ 31 - 1) = omega arith in
          cc (no_space c s low high, no_sign c s low high, no_prefix c s, done, largest)
      | no under ↦
          let same : v ≡ min v (2 ^ 31 - 1) = omega arith in
          cc (no_space c s low high, no_sign c s low high, no_prefix c s, good (omega arith), same)
    ]

-- With a minus in front it gives the negative number, or the smallest long.
pub strtol_minus :
    (c : ℕ) (text rest : List ℕ)
    → AreDigits 10 (c ∷ text)
    → strtol (45 ∷ ((c ∷ text) ++ 0 ∷ rest)) 10
      ≡ some (sub32 0 (min (value_from 10 0 (c ∷ text)) (2 ^ 31)), 0 ∷ rest)
unfolding strtol choose_base is_overflow skip_spaces value_from is_space read_prefix read_sign
strtol_minus c text rest (p, q, h) =
    let s = text ++ 0 ∷ rest in
    let v = value_from 10 0 (c ∷ text) in
    let spaces : skip_spaces (45 ∷ c ∷ s) ≡ some (45 ∷ c ∷ s) =
      unfold skip_spaces is_space in refl in
    let sign : read_sign (45 ∷ c ∷ s) ≡ (true, c ∷ s) = unfold read_sign in refl in
    let (good, bad) =
      digits_lem (2 ^ 31) 0 no_digit (c ∷ text) rest (omega arith) refl (omega arith) (p, q, h) in
    elim (dec_lt (2 ^ 31) v) [
      | yes over ↦
          let (a, done) = bad over in
          let smallest : 2 ^ 31 ≡ sub32 0 (min v (2 ^ 31)) = omega arith in
          cc (spaces, sign, no_prefix c s, done, smallest)
      | no under ↦
          let same : v ≡ min v (2 ^ 31) = omega arith in
          cc (spaces, sign, no_prefix c s, good (omega arith), same)
    ]
