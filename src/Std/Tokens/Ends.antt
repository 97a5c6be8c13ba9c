-- ===== src/Std/Tokens/Ends.antt =====
-- How a text ends: with a delimiter, or in a word that the bytes behind the text make longer.
use muk.Prelude.{ℕ, ◌≡◌, refl, List, [], ◌∷◌, ◌++◌, Bool, true, false, ◌==◌, if◌then◌else◌, arith}
use muk.Std.Tokens.Words.{AreOthers}

abbrev pub ends_in : ℕ → List ℕ → Bool
ends_in d [] = false
ends_in d (c ∷ []) = c == d
ends_in d (c ∷ b ∷ s) = ends_in d (b ∷ s)

-- The last one of some words, with `h` behind it
abbrev pub extend_last : List ℕ → List (List ℕ) → List (List ℕ)
extend_last h [] = []
extend_last h (w ∷ []) = (w ++ h) ∷ []
extend_last h (w ∷ v ∷ ws) = w ∷ extend_last h (v ∷ ws)

-- The words behind the first one of a text, behind which `h` stands
abbrev pub touched : ℕ → List ℕ → List ℕ → List (List ℕ) → List (List ℕ)
touched d h s ws = if ends_in d s then ws else extend_last h ws

pub ends_in-append :
    (d : ℕ) (p : List ℕ) (c : ℕ) (s : List ℕ) → ends_in d (p ++ c ∷ s) ≡ ends_in d (c ∷ s)
ends_in-append d [] c s = refl
ends_in-append d (a ∷ []) c s = refl
ends_in-append d (a ∷ b ∷ p) c s = ends_in-append d (b ∷ p) c s

pub ends_in-delimiter : (d : ℕ) (p : List ℕ) → ends_in d (p ++ d ∷ []) ≡ true
ends_in-delimiter d p =
    let same : (d == d) ≡ true = ground arith in cc (ends_in-append d p d [], same)

pub ends_in-others : (d : ℕ) (w : List ℕ) → AreOthers d w → ends_in d w ≡ false
ends_in-others d [] h = refl
ends_in-others d (c ∷ []) (real, other, h) = ground arith
ends_in-others d (c ∷ b ∷ w) (real, other, h) = ends_in-others d (b ∷ w) h
