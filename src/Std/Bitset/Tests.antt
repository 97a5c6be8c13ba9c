-- ===== src/Std/Bitset/Tests.antt =====
-- Bits of a small bitset.
use muk.Prelude.{◌≡◌, refl, [], ◌∷◌, some, false, pos}
use muk.Std.Bitset.{new_bitset, flip, test, at_bit}

-- `operator[]` shifts the wrong way: bit 0 of the word reads as the whole word, and no bit as 1.
indexes :
    (new_bitset 3 5 ≡ some (5 ∷ 0 ∷ 0 ∷ []))
    × (flip (5 ∷ []) (pos 2) ≡ some (1 ∷ []))
    × (test (5 ∷ []) (pos 1) ≡ some false)
    × (at_bit (5 ∷ []) (pos 1) ≡ some 10)
unfolding new_bitset flip test at_bit muk.Std.Bitset.set_initial muk.Std.Bitset.set_bit
    muk.Std.Bitset.update muk.Std.Bitset.word_index muk.Std.Bitset.bit_mask muk.Std.Bitset.num_bits
    muk.Std.Vector.put
indexes = (refl, refl, refl, refl)
