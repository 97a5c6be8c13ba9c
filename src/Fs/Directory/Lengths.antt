-- ===== src/Fs/Directory/Lengths.antt =====
-- The loops over the bytes of a short and of a long name write at most 32 bytes.
use muk.Prelude.{
  ℕ, zero, suc, ◌+◌, ◌*◌, ◌<◌, ◌≤◌, ◌≡◌, refl, ◌∙◌, inl, inr, List, [], ◌∷◌, some, Bool, true,
  false, ◌&&◌, not, ◌==◌, length, get_or, get_elem?-eq-get_or, set, length-set, replicate,
  Bool-cases, ◌⊖◌, arith,
}
use muk.Fs.Directory.{put_separator, put_kept, short_loop, long_loop}
use muk.Std.Bitset.{new_bitset, test}
use muk.Std.Cstring.{tolower}
use muk.Std.Vector.{put}
use muk.Std.Vector.Writes.{put-inside}

put_separator-some :
    (name : List ℕ) (len : ℕ) (separator : Bool)
    → len < length name
    → (name' : List ℕ) × (len' : ℕ) × (put_separator name len separator ≡ some (name', len'))
      × (length name' ≡ length name)
      × (len' ≤ len + 1)
unfolding put_separator
put_separator-some name len false h = (name, len, refl, refl, omega arith)
put_separator-some name len true h = (
  set name len 46,
  len + 1,
  rw (put-inside name len 46 h) refl,
  length-set name len 46,
  omega arith,
)

pub short_loop-some :
    (n at : ℕ) (dir_bytes : List ℕ) (len : ℕ) (separator : Bool) (name : List ℕ)
    → at + n ≤ length dir_bytes
    → len + 2 * n < length name
    → (r : List ℕ) × (short_loop n at dir_bytes len separator name ≡ some r)
      × (length r ≡ length name)
unfolding short_loop put_kept
short_loop-some zero at dir_bytes len separator name h k =
    (set name len 0, put-inside name len 0 (omega arith), length-set name len 0)
short_loop-some (suc n) at dir_bytes len separator name h k =
    let c = get_or dir_bytes at 0 in
    let there = get_elem?-eq-get_or dir_bytes at 0 (omega arith) in
    elim (Bool-cases (not (c == 32) && not (c == 16))) [
      | inl kept ↦
          let (name', len', e, same, more) = put_separator-some name len separator (omega arith) in
          let (r, done, size) =
            short_loop-some n (at + 1) dir_bytes (len' + 1) false (set name' len' (tolower c))
              (omega arith) (omega (arith, length-set name' len' (tolower c))) in
          (
            r,
            rw (there, kept, e, put-inside name' len' (tolower c) (omega arith)) done,
            size ∙ length-set name' len' (tolower c) ∙ same,
          )
      | inr padding ↦
          let (r, done, size) =
            short_loop-some n (at + 1) dir_bytes len true name (omega arith) (omega arith) in
          (r, rw (there, padding) done, size)
    ]

-- Which of the bytes from `j` on the mask chooses.
abbrev pub Chosen : List ℕ → List Bool → ℕ → Type 0
Chosen bit_mask [] j = Unit
Chosen bit_mask (b ∷ bs) j = (test bit_mask (31 ⊖ j) ≡ some b) × Chosen bit_mask bs (j + 1)

abbrev pub count : List Bool → ℕ
count [] = 0
count (true ∷ bs) = suc (count bs)
count (false ∷ bs) = count bs

pub long_loop-some :
    (bs : List Bool) (j index : ℕ) (bit_mask dir_bytes : List ℕ) (len : ℕ) (name : List ℕ)
    → Chosen bit_mask bs j
    → index + j + length bs ≤ length dir_bytes
    → len + count bs < length name
    → (r : List ℕ) × (long_loop (length bs) j index bit_mask dir_bytes len name ≡ some r)
      × (length r ≡ length name)
unfolding long_loop
long_loop-some [] j index bit_mask dir_bytes len name picked h k =
    (set name len 0, put-inside name len 0 (omega arith), length-set name len 0)
long_loop-some (false ∷ bs) j index bit_mask dir_bytes len name (tested, picked) h k =
    let (r, done, size) =
      long_loop-some bs (j + 1) index bit_mask dir_bytes len name picked (omega arith)
        (omega arith) in
    (r, rw tested done, size)
long_loop-some (true ∷ bs) j index bit_mask dir_bytes len name (tested, picked) h k =
    let x = get_or dir_bytes (index + j) 0 in
    let there = get_elem?-eq-get_or dir_bytes (index + j) 0 (omega arith) in
    elim (Bool-cases (not (x == 255) && not (x == 0))) [
      | inl kept ↦
          let (r, done, size) =
            long_loop-some bs (j + 1) index bit_mask dir_bytes (len + 1) (set name len x) picked
              (omega arith) (omega (arith, length-set name len x)) in
          (
            r,
            rw (tested, there, kept, put-inside name len x (omega arith)) done,
            size ∙ length-set name len x,
          )
      | inr padding ↦
          let (r, done, size) =
            long_loop-some bs (j + 1) index bit_mask dir_bytes len name picked (omega arith)
              (omega arith) in
          (r, rw (tested, there, padding) done, size)
    ]

pub long_mask : List ℕ
long_mask = 1430432394 ∷ replicate 31 0

pub mask_is : new_bitset 32 1430432394 ≡ some long_mask
unfolding new_bitset muk.Std.Bitset.set_initial muk.Std.Bitset.set_bit muk.Std.Bitset.update
    muk.Std.Bitset.word_index muk.Std.Bitset.bit_mask muk.Std.Bitset.num_bits put long_mask
mask_is = refl

abbrev pub picks : List Bool
picks =
    false ∷ true ∷ false ∷ true ∷ false ∷ true ∷ false ∷ true ∷ false ∷ true ∷ false ∷ false ∷ false
    ∷ false ∷ true ∷ false ∷ true ∷ false ∷ true ∷ false ∷ true ∷ false ∷ true ∷ false ∷ true
    ∷ false ∷ false ∷ false ∷ true ∷ false ∷ true ∷ false ∷ false ∷ []

pub picked : Chosen long_mask picks 0
unfolding long_mask test muk.Std.Bitset.word_index muk.Std.Bitset.bit_mask muk.Std.Bitset.num_bits
picked = (
  refl,
  (
    refl,
    (
      refl,
      (
        refl,
        (
          refl,
          (
            refl,
            (
              refl,
              (
                refl,
                (
                  refl,
                  (
                    refl,
                    (
                      refl,
                      (
                        refl,
                        (
                          refl,
                          (
                            refl,
                            (
                              refl,
                              (
                                refl,
                                (
                                  refl,
                                  (
                                    refl,
                                    (
                                      refl,
                                      (
                                        refl,
                                        (
                                          refl,
                                          (
                                            refl,
                                            (
                                              refl,
                                              (
                                                refl,
                                                (
                                                  refl,
                                                  (
                                                    refl,
                                                    (
                                                      refl,
                                                      (
                                                        refl,
                                                        (refl, (refl, (refl, (refl, (refl, tt))))),
                                                      ),
                                                    ),
                                                  ),
                                                ),
                                              ),
                                            ),
                                          ),
                                        ),
                                      ),
                                    ),
                                  ),
                                ),
                              ),
                            ),
                          ),
                        ),
                      ),
                    ),
                  ),
                ),
              ),
            ),
          ),
        ),
      ),
    ),
  ),
)
