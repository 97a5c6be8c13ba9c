-- ===== src/Std/Text/Parts.antt =====
-- `substr`.
use mathlib.Core.List.{append_assoc, append-nil}
use muk.Prelude.{
  ℕ, ◌+◌, ◌-◌, ◌^◌, ◌<◌, ◌≡◌, refl, List, [], ◌∷◌, ◌++◌, some, true, false, ◌||◌, ◌==◌, ltb, length,
  length-append, length-replicate, replicate, arith,
}
use muk.Word.{u32, sub32}
use muk.Std.Cstring.{IsText}
use muk.Std.Vector.Writes.{put_next, get_elem?_next}
use muk.Std.Text.{npos, clip, copy_part, substr}
use muk.Std.Text.Roundtrip.{text_of, of_chars-text, zeros-add}

copy_part_lem :
    (src before after pre gap rest : List ℕ) (p start : ℕ)
    → start + p ≡ length before
    → p ≡ length pre
    → length gap ≡ length src
    → length before + length src < 2 ^ 32
    → copy_part (length src) p start (before ++ (src ++ after)) (pre ++ (gap ++ rest))
      ≡ some (pre ++ (src ++ rest))
unfolding copy_part
copy_part_lem [] before after pre [] rest p start e k g small = refl
copy_part_lem [] before after pre (x ∷ gap) rest p start e k g small = absurd (omega arith)
copy_part_lem (c ∷ src) before after pre [] rest p start e k g small = absurd (omega arith)
copy_part_lem (c ∷ src) before after pre (x ∷ gap) rest p start e k g small =
    let place : u32 (start + p) ≡ length before = omega arith in
    cc (
      place,
      get_elem?_next before c (src ++ after) (length before) refl,
      put_next pre x (gap ++ rest) p c k,
      copy_part_lem src (before ++ c ∷ []) after (pre ++ c ∷ []) gap rest (p + 1) start
          (omega (arith, length-append before (c ∷ []))) (omega (arith, length-append pre (c ∷ [])))
          (omega arith) (omega (arith, length-append before (c ∷ []))),
      append_assoc before (c ∷ []) (src ++ after),
      append_assoc pre (c ∷ []) (gap ++ rest),
      append_assoc pre (c ∷ []) (src ++ rest),
    )

part_lem :
    (before s after : List ℕ) (start count : ℕ)
    → IsText s
    → start ≡ length before
    → clip (length (before ++ (s ++ after))) start count ≡ length s
    → length before + (length s + length after) < 2 ^ 32 - 1
    → substr (text_of (before ++ (s ++ after))) start count ≡ some (text_of s)
unfolding substr
part_lem before s after start count text here clipped small =
    let room : u32 (length s + 1) ≡ length s + 1 = omega arith in
    let run =
      copy_part_lem s before after [] (replicate (length s) 0) (0 ∷ []) 0 start (omega arith) refl
        (length-replicate {A = ℕ} (length s) 0) (omega arith) in
    cc (
      clipped,
      room,
      zeros-add (length s) 1,
      run,
      put_next s 0 [] (length s) 0 refl,
      of_chars-text s [] text,
    )

-- `substr` gives the bytes that it is asked for, from the place that it is asked for.
pub substr_lem :
    (before s after : List ℕ) (start count : ℕ)
    → IsText s
    → start ≡ length before
    → count ≡ length s
    → length before + (length s + length after) < 2 ^ 32 - 1
    → substr (text_of (before ++ (s ++ after))) start count ≡ some (text_of s)
unfolding clip
substr_lem before s after start count text here size small =
    let total : length (before ++ (s ++ after)) ≡ length before + (length s + length after) =
      omega (arith, length-append before (s ++ after), length-append s after) in
    let inside : (ltb (length (before ++ (s ++ after))) (u32 (start + count)) || count == npos)
        ≡ false =
      ground (arith, total) in
    part_lem before s after start count text here (cc (inside, size)) small

-- Without a count `substr` gives the rest of the string.
pub substr_rest :
    (before s : List ℕ) (start : ℕ)
    → IsText s
    → start ≡ length before
    → length before + length s < 2 ^ 32 - 1
    → substr (text_of (before ++ s)) start npos ≡ some (text_of s)
unfolding clip
substr_rest before s start text here small =
    let none_after = append-nil s in
    let total : length (before ++ (s ++ [])) ≡ length before + length s =
      omega (arith, length-append before (s ++ []), length-append s []) in
    let left : sub32 (length (before ++ (s ++ []))) start ≡ length s = omega (arith, total) in
    let every : (ltb (length (before ++ (s ++ []))) (u32 (start + npos)) || npos == npos) ≡ true =
      ground arith in
    cc (none_after, part_lem before s [] start npos text here (cc (every, left)) (omega arith))
