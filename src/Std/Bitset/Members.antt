-- ===== src/Std/Bitset/Members.antt =====
-- `set` and `reset` change one bit of a bitset, and `test` reads it.
use native.Mathlib.Nat.{one-le-pow}
use native.Mathlib.Decide.{ℕ_discrete}
use muk.Prelude.{
  ℕ, zero, suc, ◌*◌, ◌/◌, ◌%◌, ◌^◌, ◌<◌, ◌≤◌, ◌≡◌, ◌≢◌, sym, ap, fun_ext, ◌∙◌, List, Option, some,
  Bool, true, false, not, ◌==◌, if◌then◌else◌, ◌>>=◌, length, get_elem?, get_or,
  get_elem?-eq-get_or, get_elem?-set_self, get_elem?-set_ne, set, bit_and, bit_or, pos, arith,
}
use muk.Word.{bit, not32}
use muk.Word.Bits.{
  bit-lt_two, bit-bit_or, bit-bit_and, bit-pow_self, bit-pow_ne, bit-not, bit_and-pow, pow_lt,
}
use muk.Std.Vector.Writes.{put-inside}
use muk.Std.Bitset.{num_bits, word_index, bit_mask, update, set_bit, reset, test}

-- Bit `j` of the word at `i`, if there is one.
abbrev pub member : List ℕ → ℕ → Option Bool
member bit_array c = get_elem? bit_array (c / 32) >>= λ w. some (bit (c % 32) w == 1)

scaled_bit : (x b p : ℕ) → b < 2 → 1 ≤ p → x ≡ b * p → not (x == 0) ≡ (b == 1)
scaled_bit x zero p h k e = ground arith
scaled_bit x (suc zero) p h k e = ground arith
scaled_bit x (suc (suc b)) p h k e = absurd (omega arith)

test_lem : (bit_array : List ℕ) (c : ℕ) → test bit_array (pos c) ≡ member bit_array c
unfolding test word_index bit_mask num_bits
test_lem bit_array c =
    ap (λ (f : ℕ → Option Bool). get_elem? bit_array (c / 32) >>= f)
      (fun_ext λ w. ap some (
        scaled_bit (bit_and w (2 ^ (c % 32))) (bit (c % 32) w) (2 ^ (c % 32))
          (bit-lt_two (c % 32) w) (one-le-pow (c % 32) 2 (omega arith)) (bit_and-pow (c % 32) w)))

update_lem :
    (bit_array : List ℕ) (b : ℕ) (f : ℕ → ℕ)
    → b < 32 * length bit_array
    → update bit_array (pos b) f ≡ some (set bit_array (b / 32) (f (get_or bit_array (b / 32) 0)))
unfolding update word_index num_bits
update_lem bit_array b f h = cc (
  get_elem?-eq-get_or bit_array (b / 32) 0 (omega arith),
  put-inside bit_array (b / 32) (f (get_or bit_array (b / 32) 0)) (omega arith),
)

-- What a change of the word of `b` makes of the bits, when it gives bit `b % 32` the value `v` and leaves
-- the others.
member-update :
    (bit_array : List ℕ) (b c v : ℕ) (f : ℕ → ℕ)
    → b < 32 * length bit_array
    → ((w : ℕ) → bit (b % 32) (f w) ≡ v)
    → ((k w : ℕ) → k < 32 → k ≢ b % 32 → bit k (f w) ≡ bit k w)
    → member (set bit_array (b / 32) (f (get_or bit_array (b / 32) 0))) c
      ≡ (if c == b then some (v == 1) else member bit_array c)
member-update bit_array b c v f h at others = elim (ℕ_discrete (c / 32) (b / 32)) [
  | no apart ↦
      let other : (c == b) ≡ false = ground arith in
      cc (
        other,
        get_elem?-set_ne bit_array (b / 32) (c / 32) (f (get_or bit_array (b / 32) 0))
            (λ e. apart (sym e)),
      )
  | yes same ↦
      let w = get_or bit_array (b / 32) 0 in
      let now = get_elem?-set_self bit_array (b / 32) (f w) (omega arith) in
      let before = get_elem?-eq-get_or bit_array (b / 32) 0 (omega arith) in
      elim (ℕ_discrete (c % 32) (b % 32)) [
        | yes bits ↦ let here : (c == b) ≡ true = ground arith in cc (here, same, bits, now, at w)
        | no bits ↦
            let other : (c == b) ≡ false = ground arith in
            cc (other, same, now, before, others (c % 32) w (omega arith) bits)
      ]
]

-- `set` and `reset` of a bit of the words succeed, and `test` then finds that bit set, or reset, and all
-- others as they were.
pub set_reset-test :
    (bit_array : List ℕ) (b c : ℕ)
    → b < 32 * length bit_array
    → ((t : List ℕ) × (set_bit bit_array (pos b) ≡ some t)
        × (test t (pos c) ≡ (if c == b then some true else test bit_array (pos c))))
      × ((t : List ℕ) × (reset bit_array (pos b) ≡ some t)
          × (test t (pos c) ≡ (if c == b then some false else test bit_array (pos c))))
unfolding set_bit reset bit_mask num_bits
set_reset-test bit_array b c h =
    let setting = λ (w : ℕ). bit_or w (2 ^ (b % 32)) in
    let resetting = λ (w : ℕ). bit_and w (not32 (2 ^ (b % 32))) in
    let power : 2 ^ (b % 32) < 2 ^ 32 = pow_lt (b % 32) (omega arith) in
    let old = get_or bit_array (b / 32) 0 in
    (
      (
        set bit_array (b / 32) (setting old),
        update_lem bit_array b setting h,
        test_lem (set bit_array (b / 32) (setting old)) c
            ∙ member-update bit_array b c 1 setting h
                (λ w. omega (
                  arith,
                  bit-bit_or (b % 32) w (2 ^ (b % 32)),
                  bit-pow_self (b % 32),
                  bit-lt_two (b % 32) w,
                ))
                (λ k w below apart.
                  omega (arith, bit-bit_or k w (2 ^ (b % 32)), bit-pow_ne k (b % 32) apart))
            ∙ ap (λ m. if c == b then some true else m) (sym (test_lem bit_array c)),
      ),
      (
        set bit_array (b / 32) (resetting old),
        update_lem bit_array b resetting h,
        test_lem (set bit_array (b / 32) (resetting old)) c
            ∙ member-update bit_array b c 0 resetting h
                (λ w. omega (
                  arith,
                  bit-bit_and (b % 32) w (not32 (2 ^ (b % 32))),
                  bit-not 32 (b % 32) (2 ^ (b % 32)) (omega arith) power,
                  bit-pow_self (b % 32),
                ))
                (λ k w below apart. omega (
                  arith,
                  bit-bit_and k w (not32 (2 ^ (b % 32))),
                  bit-not 32 k (2 ^ (b % 32)) below power,
                  bit-pow_ne k (b % 32) apart,
                  bit-lt_two k w,
                ))
            ∙ ap (λ m. if c == b then some false else m) (sym (test_lem bit_array c)),
      ),
    )
