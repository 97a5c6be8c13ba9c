-- ===== src/Std/Text/Last.antt =====
-- `find_last_of` of a character.
use mathlib.Core.List.{append_assoc}
use muk.Prelude.{
  ℕ, zero, suc, ◌+◌, ◌-◌, ◌^◌, ◌<◌, ◌≤◌, ◌≡◌, ◌≢◌, refl, ap, subst, List, [], ◌∷◌, ◌++◌, some, true,
  false, ◌==◌, ◌||◌, ltb, length, length-append, arith, inl, inr, Bool-cases, ℤ, pos, negsuc, min,
}
use muk.Std.Text.{npos, clip, compare, compare_loop, char_lt, find_back, find_last_of, is_zero}
use muk.Std.Text.Roundtrip.{text_of}
use muk.Std.Vector.Writes.{get_elem?_next}
use muk.Word.{u8, u32, sub32}

-- Bytes other than `d`
abbrev pub Avoid : ℕ → List ℕ → Type 0
Avoid d [] = Unit
Avoid d (c ∷ s) = (c ≢ d) × (c < 256) × Avoid d s

Avoid-middle :
    (d : ℕ) (xs : List ℕ) (c : ℕ) (ys : List ℕ) → Avoid d (xs ++ c ∷ ys) → (c ≢ d) × (c < 256)
Avoid-middle d [] c ys (other, byte, h) = (other, byte)
Avoid-middle d (x ∷ xs) c ys (other, byte, h) = Avoid-middle d xs c ys h

compare_one :
    (before after : List ℕ) (c d i : ℕ)
    → c < 256
    → d < 256
    → i ≡ length before
    → length before + suc (length after) < 2 ^ 32 - 1
    → (r : ℤ) × (compare (text_of (before ++ c ∷ after)) i 1 (text_of (d ∷ [])) ≡ some r)
      × (is_zero r ≡ (c == d))
unfolding compare clip compare_loop char_lt is_zero
compare_one before after c d i byte byte' here small =
    let total = length-append before (c ∷ after) in
    let inside : (ltb (length (before ++ c ∷ after)) (u32 (i + 1)) || 1 == npos) ≡ false =
      ground (arith, total) in
    let one : min 1 1 ≡ 1 = refl in
    let place : u32 (0 + i) ≡ i = omega arith in
    let there = get_elem?_next before c after i here in
    elim (Bool-cases (ltb (u8 (d + 128)) (u8 (c + 128)))) [
      | inl above ↦
          let apart : false ≡ (c == d) = ground arith in
          (pos 1, cc (inside, place, there, above), apart)
      | inr not_above ↦ elim (Bool-cases (ltb (u8 (c + 128)) (u8 (d + 128)))) [
        | inl below ↦
            let apart : false ≡ (c == d) = ground arith in
            (negsuc 0, cc (inside, place, there, not_above, below), apart)
        | inr not_below ↦
            let same : true ≡ (c == d) = ground arith in
            (pos 0, cc (inside, place, there, not_above, not_below), same)
      ]
    ]

element_at :
    (s : List ℕ) (k : ℕ)
    → k < length s
    → (xs : List ℕ) × (c : ℕ) × (ys : List ℕ) × (s ≡ xs ++ c ∷ ys) × (length xs ≡ k)
element_at [] k h = absurd (omega arith)
element_at (c ∷ s) zero h = ([], c, s, refl, refl)
element_at (c ∷ s) (suc k) h =
    let (xs, x, ys, split, size) = element_at s k (omega arith) in
    (c ∷ xs, x, ys, ap (λ l. c ∷ l) split, ap suc size)

find_back_lem :
    (b : ℕ) (dir name : List ℕ) (d k i : ℕ)
    → d < 256
    → Avoid d name
    → k ≤ length name
    → i ≡ length (b ∷ dir) + k
    → length (b ∷ dir) + suc (length name) < 2 ^ 32 - 1
    → find_back (text_of ((b ∷ dir) ++ d ∷ name)) (text_of (d ∷ [])) i ≡ some (length (b ∷ dir))
unfolding find_back
find_back_lem b dir name d k zero byte others inside here small = absurd (omega arith)
find_back_lem b dir name d zero (suc i) byte others inside here small =
    let (r, run, is) = compare_one (b ∷ dir) name d d (suc i) byte byte (omega arith) small in
    let same : (d == d) ≡ true = ground arith in
    let place : suc i ≡ suc (length dir) = omega arith in cc (run, is, same, place)
find_back_lem b dir name d (suc k) (suc i) byte others inside here small =
    let (xs, c, ys, split, size) = element_at name k (omega arith) in
    let (other, c_byte) = Avoid-middle d xs c ys (subst (Avoid d) split others) in
    let front = (b ∷ dir) ++ d ∷ xs in
    let far : length front ≡ length (b ∷ dir) + suc (length xs) =
      length-append (b ∷ dir) (d ∷ xs) in
    let (r, run, is) =
      compare_one front ys c d (suc i) c_byte byte (omega (arith, far))
        (omega (arith, far, ap length split, length-append xs (c ∷ ys))) in
    let isnt : (c == d) ≡ false = ground arith in
    let more = find_back_lem b dir name d k i byte others (omega arith) (omega arith) small in
    cc (split, append_assoc (b ∷ dir) (d ∷ xs) (c ∷ ys), run, is, isnt, more)

-- `find_last_of` finds the last place of a character that is not the first byte of the string.
pub find_last_of_lem :
    (b : ℕ) (dir name : List ℕ) (d : ℕ)
    → d < 256
    → Avoid d name
    → length (b ∷ dir) + suc (length name) < 2 ^ 32 - 1
    → find_last_of (text_of ((b ∷ dir) ++ d ∷ name)) (text_of (d ∷ [])) npos
      ≡ some (length (b ∷ dir))
unfolding find_last_of
find_last_of_lem b dir name d byte others small =
    let total = length-append (b ∷ dir) (d ∷ name) in
    let start : sub32 (length ((b ∷ dir) ++ d ∷ name)) 1 ≡ length (b ∷ dir) + length name =
      omega (arith, total) in
    cc (
      start,
      find_back_lem b dir name d (length name) (length (b ∷ dir) + length name) byte others
          (omega arith) refl small,
    )
