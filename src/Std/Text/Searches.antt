-- ===== src/Std/Text/Searches.antt =====
-- What `find` looks for: it compares the text with what is left of the string, as far as both go.
use mathlib.Core.List.{append_assoc}
use muk.Prelude.{
  ℕ, suc, ◌+◌, ◌-◌, ◌^◌, ◌<◌, ◌≡◌, refl, sym, inl, inr, min, List, [], ◌∷◌, ◌++◌, some, Bool, true,
  false, ◌&&◌, ◌||◌, ◌==◌, if◌then◌else◌, ltb, length, length-append, ℤ, pos, negsuc, Bool-cases,
  arith,
}
use muk.Word.{u32, sub32}
use muk.Std.Vector.Writes.{get_elem?_next}
use muk.Std.Text.{npos, char_lt, clip, compare_loop, compare, is_zero, find_forward, find}
use muk.Std.Text.Roundtrip.{text_of}

-- The bytes agree as far as both lists go.
abbrev pub agrees : List ℕ → List ℕ → Bool
agrees [] t = true
agrees (a ∷ s) [] = true
agrees (a ∷ s) (b ∷ t) = a == b && agrees s t

-- The first index, from `i` on, where what is left agrees with `t`.
abbrev pub first_agreeing : List ℕ → List ℕ → ℕ → ℕ
first_agreeing [] t i = npos
first_agreeing (c ∷ s) t i =
    let rest = first_agreeing s t (i + 1) in if agrees (c ∷ s) t then i else rest

abbrev pub AreBytes : List ℕ → Type 0
AreBytes [] = Unit
AreBytes (c ∷ s) = (c < 256) × AreBytes s

compare_loop-agrees :
    (s t before done : List ℕ) (p start : ℕ)
    → AreBytes s
    → AreBytes t
    → length done ≡ p
    → p + start ≡ length before
    → length before + length s < 2 ^ 32
    → (r : ℤ) × (compare_loop (min (length s) (length t)) p (before ++ s) start (done ++ t)
        ≡ some r)
      × (is_zero r ≡ agrees s t)
unfolding compare_loop char_lt is_zero
compare_loop-agrees [] t before done p start hs ht e at h =
    let none_left : min 0 (length t) ≡ 0 = omega arith in (pos 0, cc none_left, refl)
compare_loop-agrees (a ∷ s) [] before done p start hs ht e at h =
    let none_left : min (suc (length s)) 0 ≡ 0 = omega arith in (pos 0, cc none_left, refl)
compare_loop-agrees (a ∷ s) (b ∷ t) before done p start (ha, hs) (hb, ht) e at h =
    let rounds : min (suc (length s)) (suc (length t)) ≡ suc (min (length s) (length t)) =
      omega arith in
    let place : u32 (p + start) ≡ p + start = omega arith in
    let there = get_elem?_next before a s (p + start) at in
    let here = get_elem?_next done b t p (sym e) in
    elim (Bool-cases (char_lt b a)) [
      | inl above ↦
          let apart : false ≡ (a == b && agrees s t) = ground arith in
          (pos 1, cc (rounds, place, there, here, above), apart)
      | inr not_above ↦ elim (Bool-cases (char_lt a b)) [
        | inl below ↦
            let apart : false ≡ (a == b && agrees s t) = ground arith in
            (negsuc 0, cc (rounds, place, there, here, not_above, below), apart)
        | inr not_below ↦
            let same : (a == b) ≡ true = ground arith in
            let (r, done', zero') =
              compare_loop-agrees s t (before ++ a ∷ []) (done ++ b ∷ []) (p + 1) start hs ht
                (omega (arith, length-append done (b ∷ [])))
                (omega (arith, length-append before (a ∷ [])))
                (omega (arith, length-append before (a ∷ []))) in
            (
              r,
              cc (
                rounds,
                place,
                there,
                here,
                not_above,
                not_below,
                done',
                append_assoc before (a ∷ []) s,
                append_assoc done (b ∷ []) t,
              ),
              cc (same, zero'),
            )
      ]
    ]

-- `compare` to the end of the string
compare-agrees :
    (s t before : List ℕ) (start : ℕ)
    → AreBytes s
    → AreBytes t
    → start ≡ length before
    → length before + length s < 2 ^ 32 - 1
    → (r : ℤ) × (compare (text_of (before ++ s)) start npos (text_of t) ≡ some r)
      × (is_zero r ≡ agrees s t)
unfolding compare clip
compare-agrees s t before start hs ht e h =
    let whole = length-append before s in
    let left : sub32 (length (before ++ s)) start ≡ length s = omega (arith, whole) in
    let (r, done, same) =
      compare_loop-agrees s t before [] 0 start hs ht refl (omega arith) (omega arith) in
    let every : (ltb (length (before ++ s)) (u32 (start + npos)) || npos == npos) ≡ true =
      ground arith in
    (r, cc (every, left, done), same)

find_forward-first :
    (s t before : List ℕ) (i : ℕ)
    → AreBytes s
    → AreBytes t
    → i ≡ length before
    → length before + length s < 2 ^ 32 - 1
    → find_forward (text_of (before ++ s)) (text_of t) (length s) i ≡ some (first_agreeing s t i)
unfolding find_forward
find_forward-first [] t before i hs ht e h = refl
find_forward-first (c ∷ s) t before i (hc, hs) ht e h =
    let (r, done, same) = compare-agrees (c ∷ s) t before i (hc, hs) ht e h in
    let rest =
      find_forward-first s t (before ++ c ∷ []) (i + 1) hs ht
        (omega (arith, length-append before (c ∷ [])))
        (omega (arith, length-append before (c ∷ []))) in
    elim (Bool-cases (agrees (c ∷ s) t)) [
      | inl found ↦ cc (done, same, found)
      | inr further ↦ cc (done, same, further, rest, append_assoc before (c ∷ []) s)
    ]

-- `find` gives the first index, from the start on, where the text agrees with what is left of the string
-- as far as both go, and `npos` if there is none: a text that goes on behind the end of the string is
-- found too.
pub find_lem :
    (before s t : List ℕ)
    → AreBytes s
    → AreBytes t
    → length before + length s < 2 ^ 32 - 1
    → find (text_of (before ++ s)) (text_of t) (length before)
      ≡ some (first_agreeing s t (length before))
unfolding find
find_lem before s t hs ht h =
    let rounds : length (before ++ s) - length before ≡ length s =
      omega (arith, length-append before s) in
    cc (rounds, find_forward-first s t before (length before) hs ht refl h)
