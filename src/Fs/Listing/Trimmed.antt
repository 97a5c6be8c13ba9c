-- ===== src/Fs/Listing/Trimmed.antt =====
-- The path that `ls` lists.
use muk.Prelude.{
  ℕ, ◌+◌, ◌^◌, ◌<◌, ◌≡◌, refl, List, [], ◌∷◌, ◌++◌, some, ◌==◌, if◌then◌else◌, length,
  length-append, arith, inl, inr, Bool-cases,
}
use muk.Std.Cstring.{IsText}
use muk.Std.Text.Parts.{substr_lem}
use muk.Std.Text.Roundtrip.{text_of, to_chars-text, append_lem}
use muk.Std.Vector.Writes.{get_elem?_next}
use muk.Word.{sub32}
use muk.Fs.Listing.{trim_path}

-- `ls` lists the path without its last byte `c`, with a slash behind it if it does not end with one.
pub trim_path_lem :
    (s : List ℕ) (d c : ℕ)
    → IsText (s ++ d ∷ [])
    → length s < 2 ^ 31
    → trim_path (text_of ((s ++ d ∷ []) ++ c ∷ []))
      ≡ some ((if d == 47 then s ++ d ∷ [] else (s ++ d ∷ []) ++ 47 ∷ []) ++ 0 ∷ [])
unfolding trim_path
trim_path_lem s d c text small =
    let q = s ++ d ∷ [] in
    let size : length q ≡ length s + 1 = length-append s (d ∷ []) in
    let whole : length (q ++ c ∷ []) ≡ length s + 2 =
      omega (arith, length-append q (c ∷ []), size) in
    let less : sub32 (length (q ++ c ∷ [])) 1 ≡ length q = omega (arith, whole, size) in
    let last : sub32 (length q) 1 ≡ length s = omega (arith, size) in
    let part = substr_lem [] q (c ∷ []) 0 (length q) text refl refl (omega (arith, size)) in
    let (both, longer, same) = append_lem q [] 47 (omega (arith, size)) (omega (arith, size)) in
    let slashed : length (q ++ 47 ∷ []) ≡ length s + 2 =
      omega (arith, length-append q (47 ∷ []), size) in
    elim (Bool-cases (d == 47)) [
      | inl is ↦ cc (
        less,
        part,
        last,
        get_elem?_next s d [] (length s) refl,
        is,
        to_chars-text q (omega (arith, size)),
      )
      | inr isnt ↦ cc (
        less,
        part,
        last,
        get_elem?_next s d [] (length s) refl,
        isnt,
        longer,
        to_chars-text (q ++ 47 ∷ []) (omega (arith, slashed)),
      )
    ]
