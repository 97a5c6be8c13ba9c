-- ===== src/Std/Tokens/Shape.antt =====
-- What stands behind the first word of a text, and what the bytes behind the text make of its words.
use mathlib.Core.List.{append_assoc, append-nil}
use muk.Prelude.{
  ℕ, zero, suc, ◌≡◌, ◌≢◌, refl, ap, length, List, [], ◌∷◌, ◌++◌, true, false, replicate, arith, inl,
  inr, Bool-cases,
}
use muk.Std.Tokens.Ends.{ends_in, touched, ends_in-append, ends_in-delimiter, ends_in-others}
use muk.Std.Tokens.Words.{AreOthers, StartsOther}
use muk.Std.Tokens.Gaps.{replicate-front}

-- What stands behind a first word: nothing, delimiters alone, or delimiters and another word
pub data Shape (d : ℕ) : ℕ → List ℕ → Type 0 where
  bare : Shape d 0 []
  closed : (g : ℕ) → Shape d (suc g) []
  goes_on : (g c : ℕ) (s : List ℕ) → c ≢ d → Shape d (suc g) (c ∷ s)

pub shape :
    (d g : ℕ) (after : List ℕ) → (g ≡ 0 → after ≡ []) → StartsOther d after → Shape d g after
shape d zero [] ends starts = bare
shape d zero (c ∷ s) ends starts = absurd (omega (arith, ap length (ends refl)))
shape d (suc g) [] ends starts = closed g
shape d (suc g) (c ∷ s) ends starts = goes_on g c s starts

pub touched_bare :
    (d : ℕ) (s w h : List ℕ) (ws : List (List ℕ))
    → AreOthers d w
    → s ≡ w ++ []
    → ws ≡ w ∷ []
    → touched d h s ws ≡ (w ++ h) ∷ []
touched_bare d s w h ws others whole reads =
    let last : ends_in d s ≡ false = cc (whole, append-nil w, ends_in-others d w others) in
    cc (last, reads)

pub touched_closed :
    (d g : ℕ) (s w h : List ℕ) (ws : List (List ℕ))
    → s ≡ w ++ (replicate (suc g) d ++ [])
    → ws ≡ w ∷ []
    → touched d h s ws ≡ w ∷ []
touched_closed d g s w h ws whole reads =
    let last : ends_in d s ≡ true = cc (
      whole,
      replicate-front d g [],
      append_assoc w (replicate g d) (d ∷ []),
      ends_in-delimiter d (w ++ replicate g d),
    ) in
    cc (last, reads)

pub touched_step :
    (d : ℕ) (s p a h w v : List ℕ) (ws vs : List (List ℕ)) (c : ℕ)
    → s ≡ p ++ c ∷ a
    → ws ≡ w ∷ (v ∷ vs)
    → touched d h s ws ≡ w ∷ touched d h (c ∷ a) (v ∷ vs)
touched_step d s p a h w v ws vs c whole reads =
    let same : ends_in d s ≡ ends_in d (c ∷ a) = cc (whole, ends_in-append d p c a) in
    elim (Bool-cases (ends_in d (c ∷ a))) [
      | inl ended ↦ cc (same, ended, reads)
      | inr other ↦ cc (same, other, reads)
    ]
