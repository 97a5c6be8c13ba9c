-- ===== src/Std/Format/Lines.antt =====
-- `vsprintf` on a whole format.
use mathlib.Core.List.{append_assoc, append-nil}
use muk.Prelude.{
  ℕ, zero, suc, ◌+◌, ◌^◌, ◌<◌, ◌≡◌, refl, List, [], ◌∷◌, ◌++◌, some, true, false, ◌||◌, ◌==◌,
  length, length-append, arith,
}
use muk.Std.Cstring.{IsText}
use muk.Std.Format.{Arg, convert_v, format_loop, clear_text, vsprintf}
use muk.Std.Format.Copies.{ArePlain, AreZero, IsClear, AreZero-IsClear}
use muk.Std.Format.Rendered.{Shows, literal_round, percent_round}

-- The text that a format stands for: its plain runs, and the arguments at its conversions.
pub data Renders : List ℕ → List Arg → List ℕ → Type 0 where
  ends : (r : List ℕ) (args : List Arg) → Renders (0 ∷ r) args []
  plain :
      (c : ℕ) (cs : List ℕ) (x : ℕ) {format : List ℕ} {args : List Arg} {t : List ℕ}
      → ArePlain (c ∷ cs)
      → (x == 0 || x == 37) ≡ true
      → Renders (x ∷ format) args t
      → Renders ((c ∷ cs) ++ x ∷ format) args ((c ∷ cs) ++ t)
  converts :
      (d : ℕ) (arg : Arg) (s : List ℕ) {format : List ℕ} {args : List Arg} {t : List ℕ}
      → Shows d arg s
      → Renders format args t
      → Renders (37 ∷ d ∷ format) (arg ∷ args) (s ++ t)

loop_lem :
    (n : ℕ) (format : List ℕ) (args : List Arg) (t pre gap : List ℕ)
    → Renders format args t
    → length format < n
    → length t < length gap
    → length pre + length t < 2 ^ 31
    → (gap' : List ℕ) × (format_loop convert_v n format (pre ++ gap) (length pre) args
        ≡ some (some ((pre ++ t) ++ gap', length (pre ++ t))))
      × (length t + length gap' ≡ length gap)
      × (IsClear gap → IsClear gap')
unfolding format_loop
loop_lem zero format args t pre gap shows fuel room small = absurd (omega arith)
loop_lem (suc n) format args t pre gap (ends r args') fuel room small =
    (gap, cc (append-nil pre), omega arith, λ clear. clear)
loop_lem (suc n) _ _ _ pre gap (plain c cs x {format} {args} {t} ok last shows) fuel room small =
    let (behind, step, size, kept) =
      literal_round convert_v c cs pre gap format x args ok last
        (omega (arith, length-append (c ∷ cs) t)) (omega (arith, length-append (c ∷ cs) t)) in
    let (gap', run, size', kept') =
      loop_lem n (x ∷ format) args t (pre ++ c ∷ cs) behind shows
        (omega (arith, length-append cs (x ∷ format))) (omega (arith, length-append (c ∷ cs) t))
        (omega (arith, length-append (c ∷ cs) t, length-append pre (c ∷ cs))) in
    let go : (c == 0) ≡ false = ground arith in
    (
      gap',
      cc (go, step, run, append_assoc pre (c ∷ cs) t),
      omega (arith, length-append (c ∷ cs) t),
      λ clear. kept' (kept clear),
    )
loop_lem (suc n) _ _ _ pre gap (converts d arg s {format} {args} {t} shown shows) fuel room small =
    let (behind, step, size, kept) =
      percent_round d arg s pre gap format args shown (omega (arith, length-append s t)) in
    let (gap', run, size', kept') =
      loop_lem n format args t (pre ++ s) behind shows (omega arith)
        (omega (arith, length-append s t))
        (omega (arith, length-append s t, length-append pre s)) in
    (
      gap',
      cc (step, run, append_assoc pre s t),
      omega (arith, length-append s t),
      λ clear. kept' (kept clear),
    )

clear_text_lem :
    (old room : List ℕ)
    → IsText old
    → (buffer : List ℕ) × (clear_text (old ++ 0 ∷ room) ≡ some buffer)
      × (length buffer ≡ length (old ++ 0 ∷ room))
      × (AreZero room → AreZero buffer)
unfolding clear_text
clear_text_lem [] room h = (0 ∷ room, refl, refl, λ h. (refl, h))
clear_text_lem (c ∷ old) room (other, h) =
    let (buffer, cleared, size, zeros) = clear_text_lem old room h in
    let go : (c == 0) ≡ false = ground arith in
    (0 ∷ buffer, cc (go, cleared), omega (arith, size), λ h. (refl, zeros h))

-- Where only NULs stand behind the old text, at most a percent sign stands between the new one and the NULs.
pub vsprintf-IsClear :
    (format : List ℕ) (args : List Arg) (t old room : List ℕ)
    → Renders format args t
    → IsText old
    → length t < length (old ++ 0 ∷ room)
    → length t < 2 ^ 31
    → (behind : List ℕ) × (vsprintf (old ++ 0 ∷ room) format args
        ≡ some (some (t ++ behind, length t)))
      × (length t + length behind ≡ length (old ++ 0 ∷ room))
      × (AreZero room → IsClear behind)
unfolding vsprintf
vsprintf-IsClear format args t old room shows text inside small =
    let (buffer, cleared, size, zeros) = clear_text_lem old room text in
    let (behind, run, total, clear) =
      loop_lem (length format + 1) format args t [] buffer shows (omega arith) (omega arith)
        (omega arith) in
    (behind, cc (cleared, run), omega arith, λ h. clear (AreZero-IsClear buffer (zeros h)))

-- For a format of plain runs and of the conversions %c, %d and %s, each with its argument, `vsprintf` returns
-- the length of the text that the format stands for, and the buffer holds this text from its first byte on. The
-- buffer holds a text before the call, and the new text and one byte more fit into it and into an int.
pub vsprintf_lem :
    (format : List ℕ) (args : List Arg) (t old room : List ℕ)
    → Renders format args t
    → IsText old
    → length t < length (old ++ 0 ∷ room)
    → length t < 2 ^ 31
    → (behind : List ℕ) × (vsprintf (old ++ 0 ∷ room) format args
        ≡ some (some (t ++ behind, length t)))
      × (length t + length behind ≡ length (old ++ 0 ∷ room))
vsprintf_lem format args t old room shows text inside small =
    let (behind, run, total, clear) =
      vsprintf-IsClear format args t old room shows text inside small in
    (behind, run, total)
