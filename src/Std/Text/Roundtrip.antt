-- ===== src/Std/Text/Roundtrip.antt =====
-- A string holds the text it was made from, gives it back, and is made longer by `+=`.
use mathlib.Core.List.{append_assoc, append-nil}
use muk.Prelude.{
  ℕ, zero, suc, ◌+◌, ◌-◌, ◌^◌, ◌<◌, ◌≡◌, refl, ap, ◌∙◌, List, [], ◌∷◌, ◌++◌, some, ◌>>=◌, length,
  length-append, length-replicate, replicate, arith,
}
use muk.Word.{u32}
use muk.Std.Cstring.{IsText}
use muk.Std.Cstring.Compare.{strlen-text}
use muk.Std.Vector.Writes.{put_next, get_elem?_next}
use muk.Std.Text.{Text, strncpy, of_chars, to_chars, copy_of, append, append_char}

-- The string that holds the bytes of `s`.
abbrev pub text_of : List ℕ → Text
text_of s = record { size = length s; buff = s }

-- `strncpy` of the bytes behind `before` to the place behind `pre`.
pub strncpy_lem :
    (src before after pre gap rest : List ℕ) (i at : ℕ)
    → i ≡ length before
    → at + i ≡ length pre
    → length gap ≡ length src
    → strncpy (length src) i at (before ++ (src ++ after)) (pre ++ (gap ++ rest))
      ≡ some (pre ++ (src ++ rest))
unfolding strncpy
strncpy_lem [] before after pre [] rest i at e p g = refl
strncpy_lem [] before after pre (x ∷ gap) rest i at e p g = absurd (omega arith)
strncpy_lem (c ∷ src) before after pre [] rest i at e p g = absurd (omega arith)
strncpy_lem (c ∷ src) before after pre (x ∷ gap) rest i at e p g =
    let more : strncpy (length src) (i + 1) at (before ++ c ∷ (src ++ after))
          (pre ++ c ∷ (gap ++ rest))
        ≡ some (pre ++ c ∷ (src ++ rest)) =
      cc (
        strncpy_lem src (before ++ c ∷ []) after (pre ++ c ∷ []) gap rest (i + 1) at
            (omega (arith, length-append before (c ∷ [])))
            (omega (arith, length-append pre (c ∷ []))) (omega arith),
        append_assoc before (c ∷ []) (src ++ after),
        append_assoc pre (c ∷ []) (gap ++ rest),
        append_assoc pre (c ∷ []) (src ++ rest),
      ) in
    rw (get_elem?_next before c (src ++ after) i e, put_next pre x (gap ++ rest) (at + i) c p) more

pub zeros-add : (n m : ℕ) → replicate (n + m) 0 ≡ replicate n 0 ++ replicate {A = ℕ} m 0
zeros-add zero m = ap (λ k. replicate k 0) (omega arith)
zeros-add (suc n) m =
    let one : suc n + m ≡ suc (n + m) = omega arith in
    ap (λ k. replicate k 0) one ∙ ap (λ l. 0 ∷ l) (zeros-add n m)

pub zeros-length : (n : ℕ) → length (replicate {A = ℕ} n 0) ≡ n
zeros-length n = length-replicate {A = ℕ} n 0

-- The copy of a whole buffer to the front of a fresh one, which may be longer.
copy_front :
    (s after : List ℕ) (m : ℕ)
    → strncpy (length s) 0 0 (s ++ after) (replicate (length s + m) 0) ≡ some (s ++ replicate m 0)
copy_front s after m =
    ap (strncpy (length s) 0 0 (s ++ after)) (zeros-add (length s) m)
    ∙ strncpy_lem s [] after [] (replicate (length s) 0) (replicate m 0) 0 0 refl refl
        (zeros-length (length s))

pub of_chars-text : (s rest : List ℕ) → IsText s → of_chars (s ++ 0 ∷ rest) ≡ some (text_of s)
unfolding of_chars
of_chars-text s rest h =
    let fresh : replicate (length s + 0) 0 ≡ replicate {A = ℕ} (length s) 0 =
      ap (λ k. replicate k 0) (omega arith) in
    cc (strlen-text s rest h, copy_front s (0 ∷ rest) 0, fresh, append-nil s)

pub to_chars-text : (s : List ℕ) → length s < 2 ^ 32 - 1 → to_chars (text_of s) ≡ some (s ++ 0 ∷ [])
unfolding to_chars
to_chars-text s h =
    let size : u32 (length s + 1) ≡ length s + 1 = omega arith in
    cc (size, copy_front s [] 1, append-nil s, put_next s 0 [] (length s) 0 refl)

-- A string made from a C string gives that C string back, with its NUL.
pub to_chars-of_chars :
    (s rest : List ℕ)
    → IsText s
    → length s < 2 ^ 32 - 1
    → (of_chars (s ++ 0 ∷ rest) >>= to_chars) ≡ some (s ++ 0 ∷ [])
to_chars-of_chars s rest h k = cc (of_chars-text s rest h, to_chars-text s k)

-- `+=` makes a string hold its bytes and then those of the other, or the character, and leaves no access
-- outside of a buffer.
pub append_lem :
    (s t : List ℕ) (c : ℕ)
    → length s + length t < 2 ^ 32
    → length s < 2 ^ 32 - 1
    → (append (text_of s) (text_of t) ≡ some (text_of (s ++ t)))
      × (append_char (text_of s) c ≡ some (text_of (s ++ c ∷ [])))
      × (copy_of (text_of s) ≡ some (text_of s))
unfolding append append_char copy_of
append_lem s t c h k =
    let size : u32 (length s + length t) ≡ length s + length t = omega arith in
    let one : u32 (length s + 1) ≡ length s + 1 = omega arith in
    let at : length s + 0 ≡ length s = omega arith in
    let same : replicate (length s + 0) 0 ≡ replicate {A = ℕ} (length s) 0 =
      ap (λ k. replicate k 0) at in
    let second =
      strncpy_lem t [] [] s (replicate (length t) 0) [] 0 (length s) refl at
        (zeros-length (length t)) in
    (
      cc (
        size,
        copy_front s [] (length t),
        append-nil s,
        second,
        append-nil t,
        append-nil (replicate {A = ℕ} (length t) 0),
        length-append s t,
      ),
      cc (
        one,
        copy_front s [] 1,
        append-nil s,
        put_next s 0 [] (length s) c refl,
        length-append s (c ∷ []),
      ),
      cc (copy_front s [] 0, append-nil s, same),
    )
