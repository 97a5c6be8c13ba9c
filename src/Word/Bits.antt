-- ===== src/Word/Bits.antt =====
-- The bitwise operators, bit by bit, at every width.
use Prim.Native.Nat.{digits, bit_and-bitwise, bit_or-bitwise}
use native.Mathlib.Decide.{ℕ_discrete, dec_lt}
use native.Mathlib.Nat.{
  pow-suc, one-le-pow, le_refl, div-add-mod', mod-lt, pow-succ', div-div-eq-div-mul,
  pow-le-pow_right,
}
use muk.Prelude.{
  ℕ, zero, suc, ◌+◌, ◌-◌, ◌*◌, ◌/◌, ◌%◌, ◌^◌, ◌≤◌, ◌<◌, min, max, bit_and, bit_or, if◌then◌else◌,
  ltb, ◌≡◌, refl, sym, ap, ap₂, ◌≢◌, ◌∙◌, arith,
}
use muk.Word.{bit}

pub bit-lt_two : (k a : ℕ) → bit k a < 2
unfolding bit
bit-lt_two zero a = omega arith
bit-lt_two (suc k) a = bit-lt_two k (a / 2)

pub bit-zero : (k : ℕ) → bit k 0 ≡ 0
unfolding bit
bit-zero zero = refl
bit-zero (suc k) = bit-zero k

-- The lowest digit of a double, and the others.
bit-double : (k r d : ℕ) → d < 2 → bit (suc k) (r * 2 + d) ≡ bit k r
unfolding bit
bit-double k r d h = ap (bit k) (omega arith)

bit-suc : (k a : ℕ) → bit (suc k) a ≡ bit k (a / 2)
unfolding bit
bit-suc k a = refl

-- A digitwise recursion acts on each bit by its digit function.
module _ (z : ℕ → ℕ) (f : ℕ → ℕ → ℕ) (left : (k b : ℕ) → bit k (z b) ≡ f 0 (bit k b))
    (small : (x y : ℕ) → x < 2 → y < 2 → f x y < 2) where
  bit-digits : (k n a b : ℕ) → a ≤ n → bit k (digits z f n a b) ≡ f (bit k a) (bit k b)
  bit-digits k zero zero b h = rw (bit-zero k) (left k b)
  bit-digits k zero (suc a) b h = absurd (omega arith)
  bit-digits k (suc n) zero b h = rw (bit-zero k) (left k b)
  bit-digits zero (suc n) (suc a) b h =
      unfold bit in omega (arith, small (suc a % 2) (b % 2) (omega arith) (omega arith))
  bit-digits (suc k) (suc n) (suc a) b h =
      bit-double k _ _ (small (suc a % 2) (b % 2) (omega arith) (omega arith))
      ∙ (bit-digits k n (suc a / 2) (b / 2) (omega arith)
          ∙ ap₂ f (sym (bit-suc k (suc a))) (sym (bit-suc k b)))

pub bit-bit_or : (k a b : ℕ) → bit k (bit_or a b) ≡ max (bit k a) (bit k b)
bit-bit_or k a b =
    ap (bit k) (bit_or-bitwise a b)
    ∙ bit-digits (λ y. y) max (λ j c. omega arith) (λ x y p q. omega arith) k a a b (omega arith)

pub bit-bit_and : (k a b : ℕ) → bit k (bit_and a b) ≡ min (bit k a) (bit k b)
bit-bit_and k a b =
    ap (bit k) (bit_and-bitwise a b)
    ∙ bit-digits (λ y. 0) min (λ j c. rw bit-zero (omega arith)) (λ x y p q. omega arith) k a a b
        (omega arith)

-- Numbers of `w` bits are equal when their bits are.
pub eq_of_bits : (w a b : ℕ) → a < 2 ^ w → b < 2 ^ w → ((k : ℕ) → k < w → bit k a ≡ bit k b) → a ≡ b
unfolding bit
eq_of_bits zero a b ha hb h = omega arith
eq_of_bits (suc w) a b ha hb h = omega (
  arith,
  pow-suc 2 w,
  h 0 (omega arith),
  eq_of_bits w (a / 2) (b / 2) (omega (arith, pow-suc 2 w)) (omega (arith, pow-suc 2 w))
      (λ k p. h (suc k) (omega arith)),
)

-- A single bit.
pub bit-pow_self : (k : ℕ) → bit k (2 ^ k) ≡ 1
unfolding bit
bit-pow_self zero = refl
bit-pow_self (suc k) =
    let e : 2 ^ suc k / 2 ≡ 2 ^ k = omega (arith, pow-suc 2 k) in rw e (bit-pow_self k)

pub bit-pow_ne : (k j : ℕ) → k ≢ j → bit k (2 ^ j) ≡ 0
unfolding bit
bit-pow_ne zero zero h = absurd (h refl)
bit-pow_ne (suc k) zero h = bit-zero k
bit-pow_ne zero (suc j) h = omega (arith, pow-suc 2 j)
bit-pow_ne (suc k) (suc j) h =
    let e : 2 ^ suc j / 2 ≡ 2 ^ j = omega (arith, pow-suc 2 j) in
    rw e (bit-pow_ne k j (λ p. h (ap suc p)))

-- The complement within `w` bits.
pub bit-not : (w k a : ℕ) → k < w → a < 2 ^ w → bit k (2 ^ w - 1 - a) ≡ 1 - bit k a
unfolding bit
bit-not zero k a h p = absurd (omega arith)
bit-not (suc w) zero a h p = omega (arith, pow-suc 2 w)
bit-not (suc w) (suc k) a h p =
    let e : (2 ^ suc w - 1 - a) / 2 ≡ 2 ^ w - 1 - a / 2 = omega (arith, pow-suc 2 w) in
    rw e (bit-not w k (a / 2) (omega arith) (omega (arith, pow-suc 2 w)))

pub bit-past : (w k a : ℕ) → a < 2 ^ w → w ≤ k → bit k a ≡ 0
unfolding bit
bit-past zero k a p h = let e : a ≡ 0 = omega arith in rw e (bit-zero k)
bit-past (suc w) zero a p h = absurd (omega arith)
bit-past (suc w) (suc k) a p h = bit-past w k (a / 2) (omega (arith, pow-suc 2 w)) (omega arith)

-- A number below 2 ^ w is one whose bits from `w` on are 0.
lt-pow_of_bits : (n w a : ℕ) → a ≤ n → ((k : ℕ) → w ≤ k → bit k a ≡ 0) → a < 2 ^ w
unfolding bit
lt-pow_of_bits zero w a p h = omega (arith, one-le-pow w 2 (omega arith))
lt-pow_of_bits (suc n) zero a p h = omega (
  arith,
  h 0 (omega arith),
  lt-pow_of_bits n zero (a / 2) (omega arith) (λ k q. h (suc k) (omega arith)),
)
lt-pow_of_bits (suc n) (suc w) a p h =
    omega (
      arith,
      pow-suc 2 w,
      lt-pow_of_bits n w (a / 2) (omega arith) (λ k q. h (suc k) (omega arith)),
    )

pub bit_or-lt : (w a b : ℕ) → a < 2 ^ w → b < 2 ^ w → bit_or a b < 2 ^ w
bit_or-lt w a b p q =
    lt-pow_of_bits _ w _ (le_refl _)
      (λ k h. omega (arith, bit-bit_or k a b, bit-past w k a p h, bit-past w k b q h))

pub bit_and-lt_left : (w a b : ℕ) → a < 2 ^ w → bit_and a b < 2 ^ w
bit_and-lt_left w a b p =
    lt-pow_of_bits _ w _ (le_refl _) (λ k h. omega (arith, bit-bit_and k a b, bit-past w k a p h))

pub bit_and-lt_right : (w a b : ℕ) → b < 2 ^ w → bit_and a b < 2 ^ w
bit_and-lt_right w a b p =
    lt-pow_of_bits _ w _ (le_refl _) (λ k h. omega (arith, bit-bit_and k a b, bit-past w k b p h))

-- The low `w` bits of a number are those of its remainder.
pub bit-low : (w j q r : ℕ) → j < w → bit j (q * 2 ^ w + r) ≡ bit j r
unfolding bit
bit-low zero j q r h = absurd (omega arith)
bit-low (suc w) zero q r h = omega (arith, ap (λ (t : ℕ). q * t) (pow-suc 2 w))
bit-low (suc w) (suc j) q r h =
    let e : (q * 2 ^ suc w + r) / 2 ≡ q * 2 ^ w + r / 2 =
      omega (arith, ap (λ (t : ℕ). q * t) (pow-suc 2 w)) in
    rw e (bit-low w j q (r / 2) (omega arith))

pub bit-mod : (w j a : ℕ) → j < w → bit j (a % 2 ^ w) ≡ bit j a
bit-mod w j a h = sym (bit-low w j (a / 2 ^ w) (a % 2 ^ w) h) ∙ ap (bit j) (div-add-mod' a (2 ^ w))

pub bit-ones : (w k : ℕ) → k < w → bit k (2 ^ w - 1) ≡ 1
bit-ones w k h =
    let e : 2 ^ w - 1 ≡ 2 ^ w - 1 - 0 = omega arith in
    omega (arith, ap (bit k) e, bit-not w k 0 h (one-le-pow w 2 (omega arith)), bit-zero k)

one_bit : (d k j : ℕ) → d < 2 → bit j (d * 2 ^ k) ≡ min d (bit j (2 ^ k))
one_bit zero k j h = let e : 0 * 2 ^ k ≡ 0 = omega arith in omega (arith, ap (bit j) e, bit-zero j)
one_bit (suc zero) k j h =
    let e : 1 * 2 ^ k ≡ 2 ^ k = omega arith in omega (arith, ap (bit j) e, bit-lt_two j (2 ^ k))
one_bit (suc (suc d)) k j h = absurd (omega arith)

-- `a & (2 ^ w - 1)` is the remainder.
pub bit_and-mask : (w a : ℕ) → bit_and a (2 ^ w - 1) ≡ a % 2 ^ w
bit_and-mask w a =
    let big : 1 ≤ 2 ^ w = one-le-pow w 2 (omega arith) in
    eq_of_bits w _ _ (bit_and-lt_right w a (2 ^ w - 1) (omega arith)) (mod-lt a big) λ k h.
      omega (arith, bit-bit_and k a (2 ^ w - 1), bit-mod w k a h, bit-ones w k h, bit-lt_two k a)

-- `a & (1 << k)` picks one bit.
pub bit_and-pow : (k a : ℕ) → bit_and a (2 ^ k) ≡ bit k a * 2 ^ k
bit_and-pow k a =
    let small : bit k a * 2 ^ k < 2 ^ suc k =
      grind (arith, pow-suc 2 k, bit-lt_two k a, one-le-pow k 2 (omega arith)) in
    eq_of_bits (suc k) _ _
      (bit_and-lt_right (suc k) a (2 ^ k)
        (omega (arith, pow-suc 2 k, one-le-pow k 2 (omega arith))))
      small
      λ j h. omega (
        arith,
        bit-bit_and j a (2 ^ k),
        one_bit (bit k a) k j (bit-lt_two k a),
        at j (ℕ_discrete j k),
      )
  where
    at : (j : ℕ) → Dec (j ≡ k) → min (bit j a) (bit j (2 ^ k)) ≡ min (bit k a) (bit j (2 ^ k))
    at j (yes e) = rw e
    at j (no e) = omega (arith, bit-pow_ne j k e)

pub bit-shr : (w j k a : ℕ) → k ≡ w + j → bit j (a / 2 ^ w) ≡ bit k a
unfolding bit
bit-shr zero j k a e =
    let p : a / 2 ^ 0 ≡ a = omega arith in let q : k ≡ j = omega arith in rw (p, q) refl
bit-shr (suc w) j zero a e = absurd (omega arith)
bit-shr (suc w) j (suc k) a e =
    let p : a / 2 ^ suc w ≡ a / 2 / 2 ^ w =
      rw (pow-succ' 2 w) (sym (div-div-eq-div-mul a 2 (2 ^ w))) in
    rw p (bit-shr w j k (a / 2) (omega arith))

-- Masking off the low 12 bits of a uint32_t before `>> 12` changes nothing.
pub shr-page_mask : (a : ℕ) → a < 2 ^ 32 → bit_and a 0xFFFFF000 / 2 ^ 12 ≡ a / 2 ^ 12
shr-page_mask a h =
    eq_of_bits 20 _ _ (omega (arith, bit_and-lt_left 32 a 0xFFFFF000 h)) (omega arith) λ k p.
      omega (
        arith,
        bit-shr 12 k (12 + k) (bit_and a 0xFFFFF000) refl,
        bit-shr 12 k (12 + k) a refl,
        bit-bit_and (12 + k) a 0xFFFFF000,
        bit-not 32 (12 + k) (2 ^ 12 - 1) (omega arith) (omega arith),
        bit-past 12 (12 + k) (2 ^ 12 - 1) (omega arith) (omega arith),
        bit-lt_two (12 + k) a,
      )

lt-pow_add : (n k : ℕ) → n < 2 ^ (n + k)
lt-pow_add zero k = omega (arith, one-le-pow (0 + k) 2 (omega arith))
lt-pow_add (suc n) k =
    let e : suc n + k ≡ suc (n + k) = omega arith in
    rw e (omega (arith, pow-suc 2 (n + k), lt-pow_add n k))

eq_of_all_bits : (a b : ℕ) → ((k : ℕ) → bit k a ≡ bit k b) → a ≡ b
eq_of_all_bits a b h =
    let e : a + b ≡ b + a = omega arith in
    eq_of_bits (a + b) a b (lt-pow_add a b) (rw e (lt-pow_add b a)) (λ k p. h k)

pub bit_or_comm : (a b : ℕ) → bit_or a b ≡ bit_or b a
bit_or_comm a b = eq_of_all_bits _ _ λ k. omega (arith, bit-bit_or k a b, bit-bit_or k b a)

-- The digits from `w` on are those of the quotient.
bit-high : (w j k q r : ℕ) → k ≡ w + j → r < 2 ^ w → bit k (q * 2 ^ w + r) ≡ bit j q
unfolding bit
bit-high zero j k q r e h =
    let i : q * 2 ^ 0 + r ≡ q = omega arith in let p : k ≡ j = omega arith in rw (i, p) refl
bit-high (suc w) j zero q r e h = absurd (omega arith)
bit-high (suc w) j (suc k) q r e h =
    let i : (q * 2 ^ suc w + r) / 2 ≡ q * 2 ^ w + r / 2 =
      omega (arith, ap (λ (t : ℕ). q * t) (pow-suc 2 w)) in
    rw i (bit-high w j k q (r / 2) (omega arith) (omega (arith, pow-suc 2 w)))

-- A multiple of 2 ^ w.
bit-multiple : (w k q : ℕ) → bit k (q * 2 ^ w) ≡ (if ltb k w then 0 else bit (k - w) q)
bit-multiple w k q =
    let e : q * 2 ^ w ≡ q * 2 ^ w + 0 = omega arith in
    ap (bit k) e ∙ elim (dec_lt k w) [
      | yes p ↦ bit-low w k q 0 p ∙ bit-zero k ∙ ground arith
      | no p ↦
          bit-high w (k - w) k q 0 (omega arith) (omega (arith, one-le-pow w 2 (omega arith)))
          ∙ ground arith
    ]

-- `a | b` where `a` has only bits from `w` on and `b` only bits below `w`.
pub bit_or_eq_add : (w q r : ℕ) → r < 2 ^ w → bit_or (q * 2 ^ w) r ≡ q * 2 ^ w + r
bit_or_eq_add w q r h = eq_of_all_bits _ _ λ k. elim (dec_lt k w) [
  | yes p ↦ ground (arith, bit-bit_or k (q * 2 ^ w) r, bit-low w k q r p, bit-multiple w k q)
  | no p ↦ ground (
    arith,
    bit-bit_or k (q * 2 ^ w) r,
    bit-high w (k - w) k q r (omega arith) h,
    bit-multiple w k q,
    bit-past w k r h (omega arith),
  )
]

-- `a & m` where `m` is `v` ones above `w` zeros.
pub bit_and-high :
    (w v a : ℕ) → a < 2 ^ (w + v) → bit_and a ((2 ^ v - 1) * 2 ^ w) ≡ a / 2 ^ w * 2 ^ w
bit_and-high w v a h = eq_of_all_bits _ _ λ k. elim (dec_lt k w) [
  | yes p ↦ ground (
    arith,
    bit-bit_and k a ((2 ^ v - 1) * 2 ^ w),
    bit-multiple w k (2 ^ v - 1),
    bit-multiple w k (a / 2 ^ w),
  )
  | no p ↦
      let shifted : bit k (a / 2 ^ w * 2 ^ w) ≡ bit k a =
        bit-multiple w k (a / 2 ^ w) ∙ ground (arith, bit-shr w (k - w) k a (omega arith)) in
      elim (dec_lt k (w + v)) [
        | yes q ↦ ground (
          arith,
          shifted,
          bit-bit_and k a ((2 ^ v - 1) * 2 ^ w),
          bit-multiple w k (2 ^ v - 1),
          bit-ones v (k - w) (omega arith),
          bit-lt_two k a,
        )
        | no q ↦ omega (
          arith,
          shifted,
          bit-bit_and k a ((2 ^ v - 1) * 2 ^ w),
          bit-past (w + v) k a h (omega arith),
        )
      ]
]

pub bit_or_assoc : (a b c : ℕ) → bit_or (bit_or a b) c ≡ bit_or a (bit_or b c)
bit_or_assoc a b c = eq_of_all_bits _ _ λ k. omega (
  arith,
  bit-bit_or k (bit_or a b) c,
  bit-bit_or k a b,
  bit-bit_or k a (bit_or b c),
  bit-bit_or k b c,
)

-- A power that is a bit of a word.
pub pow_lt : (k : ℕ) → k < 32 → 2 ^ k < 2 ^ 32
pow_lt k h =
    let p : 2 ^ k ≤ 2 ^ 31 = pow-le-pow_right (omega arith) {j = 31} (omega arith) in
    omega (arith, p)
