-- ===== src/Std/Number/Itoa.antt =====
-- The text that `itoa` writes.
use native.Mathlib.Decide.{ℕ_discrete, dec_lt}
use native.Mathlib.Nat.{pow-zero, pow-suc, one-le-pow, div-lt_iff_lt-mul, div-add-mod', mod-lt}
use muk.Prelude.{
  ℕ, zero, suc, ◌-◌, ◌*◌, ◌/◌, ◌%◌, ◌^◌, ◌<◌, ◌≤◌, ◌≡◌, refl, sym, ◌∙◌, List, [], ◌∷◌, ◌++◌, none,
  some, true, false, ◌==◌, ◌&&◌, if◌then◌else◌, leb, arith, length, ◌⊎◌, inl, inr, Bool-cases,
}
use muk.Word.{sub32}
use muk.Std.Number.{digit_char, copy_back, emit, itoa, negative}
use muk.Std.Number.Digits.{
  digit_value-digit_char, value_from, value_back, value_from-copy_back, AreDigits,
  copy_back-AreDigits,
}

quotient-lt : (v radix p : ℕ) → 2 ≤ radix → v < p * radix → v / radix < p
quotient-lt v radix p r h = (div-lt_iff_lt-mul {k = radix} {x = v} {y = p} (omega arith)).1 h

quotient-le : (v radix p : ℕ) → 2 ≤ radix → p * radix ≤ v → p ≤ v / radix
quotient-le v radix p r h = elim (dec_lt (v / radix) p) [
  | yes q ↦
      absurd (omega (arith, (div-lt_iff_lt-mul {k = radix} {x = v} {y = p} (omega arith)).0 q))
  | no nq ↦ omega arith
]

-- The digits of a number that fits.
emit_fits :
    (room v radix : ℕ)
    → 2 ≤ radix
    → radix ≤ 36
    → v < radix ^ room
    → (tp : List ℕ) × (emit room false v radix ≡ some tp)
      × (value_back radix tp ≡ v)
      × AreDigits radix tp
unfolding emit value_back
emit_fits zero v radix r t h =
    let e : v ≡ 0 = omega (arith, pow-zero radix) in ([], rw e refl, sym e, tt)
emit_fits (suc room) v radix r t h = elim (ℕ_discrete v 0) [
  | yes e ↦ ([], rw e refl, sym e, tt)
  | no ne ↦
      let (tp, written, number, digits) =
        emit_fits room (v / radix) radix r t
          (quotient-lt v radix (radix ^ room) r (omega (arith, pow-suc radix room))) in
      let below : v % radix < radix = mod-lt v (omega arith) in
      let digit = digit_value-digit_char (v % radix) (omega arith) in
      let more : (v == 0) ≡ false = ground arith in
      (
        digit_char (v % radix) ∷ tp,
        rw (more, written) refl,
        rw (number, digit) (div-add-mod' v radix),
        (rw digit refl, rw digit below, digits),
      )
]

emit_overflows : (room v radix : ℕ) → 2 ≤ radix → radix ^ room ≤ v → emit room false v radix ≡ none
unfolding emit
emit_overflows zero v radix r h =
    let more : (v == 0) ≡ false = ground (arith, pow-zero radix) in rw more refl
emit_overflows (suc room) v radix r h =
    let big : 1 ≤ radix ^ suc room = one-le-pow (suc room) radix (omega arith) in
    let more : (v == 0) ≡ false = ground arith in
    let rest =
      emit_overflows room (v / radix) radix r
        (quotient-le v radix (radix ^ room) r (omega (arith, pow-suc radix room))) in
    rw (more, rest) refl

-- The loop of `itoa` on its buffer of 16 bytes, of which the first round writes at least one.
emit_lem :
    (v radix : ℕ)
    → 2 ≤ radix
    → radix ≤ 36
    → ((radix ^ 16 ≤ v) × (emit 16 true v radix ≡ none))
      ⊎ ((v < radix ^ 16)
          × ((tp : List ℕ) × (emit 16 true v radix ≡ some tp)
              × (value_back radix tp ≡ v)
              × AreDigits radix tp))
unfolding emit value_back
emit_lem v radix r t = elim (dec_lt v (radix ^ 16)) [
  | yes fits ↦
      let (tp, written, number, digits) =
        emit_fits 15 (v / radix) radix r t
          (quotient-lt v radix (radix ^ 15) r (omega (arith, pow-suc radix 15))) in
      let below : v % radix < radix = mod-lt v (omega arith) in
      let digit = digit_value-digit_char (v % radix) (omega arith) in
      inr (
        fits,
        (
          digit_char (v % radix) ∷ tp,
          rw written refl,
          rw (number, digit) (div-add-mod' v radix),
          (rw digit refl, rw digit below, digits),
        ),
      )
  | no over ↦
      let rest =
        emit_overflows 15 (v / radix) radix r
          (quotient-le v radix (radix ^ 15) r (omega (arith, pow-suc radix 15))) in
      inl (omega arith, rw rest refl)
]

-- The number without its sign: the sign is written in base 10 alone.
abbrev pub magnitude : ℕ → ℕ → ℕ
magnitude value radix = if radix == 10 && leb (2 ^ 31) value then 2 ^ 32 - value else value

magnitude_lem :
    (value radix : ℕ)
    → value < 2 ^ 32
    → (if radix == 10 && negative value then sub32 0 value else value) ≡ magnitude value radix
magnitude_lem value radix h = elim (Bool-cases (radix == 10 && leb (2 ^ 31) value)) [
  | inl e ↦ rw e (ground arith)
  | inr e ↦ rw e refl
]

-- `itoa` in a base from 2 to 36: when the number, less its sign, has more than 16 digits it writes
-- outside of its buffer; when it has at most 16 it writes digits of the base that stand for the number, after a minus
-- sign if the value is negative and the base is 10, then a NUL, and returns how many bytes stand
-- before the NUL.
pub itoa_lem :
    (value radix : ℕ)
    → 2 ≤ radix
    → radix ≤ 36
    → value < 2 ^ 32
    → ((radix ^ 16 ≤ magnitude value radix) × (itoa value radix ≡ none))
      ⊎ ((magnitude value radix < radix ^ 16)
          × ((digits : List ℕ) × (text : List ℕ) × (itoa value radix
                ≡ some (text ++ 0 ∷ [], length text))
              × (text ≡ (if radix == 10 && leb (2 ^ 31) value then 45 ∷ digits else digits))
              × AreDigits radix digits
              × (value_from radix 0 digits ≡ magnitude value radix)))
unfolding itoa value_from
itoa_lem value radix r t h = elim (emit_lem (magnitude value radix) radix r t) [
  | inl (over, rest) ↦ inl (over, rw (magnitude_lem value radix h, rest) refl)
  | inr (fits, (tp, written, number, digits)) ↦ inr (
    fits,
    (
      copy_back tp [],
      (if radix == 10 && leb (2 ^ 31) value then 45 ∷ copy_back tp [] else copy_back tp []),
      rw (magnitude_lem value radix h, written) refl,
      refl,
      copy_back-AreDigits radix tp [] digits tt,
      value_from-copy_back radix tp [] ∙ number,
    ),
  )
]
