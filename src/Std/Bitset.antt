-- ===== src/Std/Bitset.antt =====
-- `std::bitset<n>` of include/std/bitset.hpp: `n` words of 32 bits. The index of a bit is an int; `/` and
-- `%` round to 0, and the shift of an i386 reads the low five bits of its count.
pub mod Members
mod Tests
use muk.Prelude.{
  ℕ, zero, suc, ◌+◌, ◌-◌, ◌*◌, ◌/◌, ◌%◌, ◌^◌, List, Option, none, some, Bool, not, ◌==◌,
  if◌then◌else◌, ◌>>=◌, get_elem?, bit_and, bit_or, bit_xor, replicate, ℤ, pos, negsuc,
}
use muk.Std.Vector.{put}
use muk.Word.{u32, shl32, not32, shr}

unfoldable pub num_bits : ℕ
num_bits = 32

-- `bit/numBits`, if it is not negative
unfoldable pub word_index : ℤ → Option ℕ
word_index (pos bit) = some (bit / num_bits)
word_index (negsuc k) = if (k + 1) / num_bits == 0 then some 0 else none

-- `1U << (bit % numBits)`
unfoldable pub bit_mask : ℤ → ℕ
bit_mask (pos bit) = 2 ^ (bit % num_bits)
bit_mask (negsuc k) = 2 ^ ((num_bits - (k + 1) % num_bits) % num_bits)

unfoldable pub update : List ℕ → ℤ → (ℕ → ℕ) → Option (List ℕ)
update bit_array bit f =
    word_index bit >>= λ i. get_elem? bit_array i >>= λ w. put bit_array i (f w)

unfoldable pub set_bit : List ℕ → ℤ → Option (List ℕ)
set_bit bit_array bit = update bit_array bit (λ w. bit_or w (bit_mask bit))

unfoldable pub reset : List ℕ → ℤ → Option (List ℕ)
reset bit_array bit = update bit_array bit (λ w. bit_and w (not32 (bit_mask bit)))

unfoldable pub flip : List ℕ → ℤ → Option (List ℕ)
flip bit_array bit = update bit_array bit (λ w. bit_xor w (bit_mask bit))

unfoldable pub test : List ℕ → ℤ → Option Bool
test bit_array bit = word_index bit >>= λ i.
    get_elem? bit_array i >>= λ w. some (not (bit_and w (bit_mask bit) == 0))

-- `operator[]`
unfoldable pub at_bit : List ℕ → ℤ → Option ℕ
at_bit bit_array bit =
    word_index bit >>= λ i. get_elem? bit_array i >>= λ w. some (u32 (w * bit_mask bit))

-- The loop of the constructor, from bit `i`, with `n` rounds left
unfoldable pub set_initial : ℕ → ℕ → ℕ → List ℕ → Option (List ℕ)
set_initial zero i initial bit_array = some bit_array
set_initial (suc n) i initial bit_array =
    (if not (bit_and initial (2 ^ (i % num_bits)) == 0)
      then set_bit bit_array (pos i)
      else some bit_array)
    >>= set_initial n (i + 1) initial

unfoldable pub new_bitset : ℕ → ℕ → Option (List ℕ)
new_bitset n initial = set_initial n 0 initial (replicate n 0)
