-- ===== src/Cpu/Print/Sent.antt =====
-- What the printing functions make of a format.
use mathlib.Core.List.{append_assoc}
use muk.Prelude.{
  ℕ, zero, suc, ◌+◌, ◌^◌, ◌<◌, ◌≤◌, ◌≡◌, refl, ap, List, [], ◌∷◌, ◌++◌, some, false, ◌==◌, length,
  length-append, replicate, arith, inl, inr, ◌⊎◌,
}
use muk.Std.Cstring.{IsText}
use muk.Std.Cstring.Compare.{IsText-append}
use muk.Std.Format.{Arg, vsprintf}
use muk.Std.Format.Copies.{AreZero, IsClear}
use muk.Std.Format.Lines.{Renders, vsprintf-IsClear}
use muk.Std.Text.Roundtrip.{zeros-length}
use muk.Cpu.Print.{bochs_console_print, bcprintf}

-- The text that is left in the buffer: the one that was asked for, or this one and a percent sign.
abbrev pub Left : List ℕ → List ℕ → Type 0
Left t w = (w ≡ t) ⊎ (w ≡ t ++ 37 ∷ [])

AreZero-replicate : (cs : List ℕ) → AreZero cs → cs ≡ replicate (length cs) 0
AreZero-replicate [] h = refl
AreZero-replicate (c ∷ cs) (e, h) = cc (e, AreZero-replicate cs h)

replicate-AreZero : (n : ℕ) → AreZero (replicate n 0)
replicate-AreZero zero = tt
replicate-AreZero (suc n) = (refl, replicate-AreZero n)

-- What `vsprintf` leaves in a buffer of NULs.
pub left_lem :
    (n : ℕ) (format : List ℕ) (args : List Arg) (t : List ℕ)
    → Renders format args t
    → IsText t
    → length t + 1 < n
    → n < 2 ^ 31
    → (w : List ℕ) × (m : ℕ) × (vsprintf (replicate n 0) format args
        ≡ some (some (w ++ 0 ∷ replicate m 0, length t)))
      × IsText w
      × Left t w
      × (length w + suc m ≡ n)
left_lem zero format args t shows text fits small = absurd (omega arith)
left_lem (suc n) format args t shows text fits small =
    let (behind, run, total, clear) =
      vsprintf-IsClear format args t [] (replicate n 0) shows tt (omega (arith, zeros-length n))
        (omega arith) in
    go behind run (omega (arith, total, zeros-length n)) (clear (replicate-AreZero n))
  where
    go :
        (behind : List ℕ)
        → vsprintf (replicate (suc n) 0) format args ≡ some (some (t ++ behind, length t))
        → length t + length behind ≡ suc n
        → IsClear behind
        → (w : List ℕ) × (m : ℕ) × (vsprintf (replicate (suc n) 0) format args
            ≡ some (some (w ++ 0 ∷ replicate m 0, length t)))
          × IsText w
          × Left t w
          × (length w + suc m ≡ suc n)
    go [] run total clear = absurd (omega arith)
    go (x ∷ []) run total clear = absurd (omega arith)
    go (x ∷ y ∷ cs) run total (inl e, (f, h)) =
        (t, suc (length cs), cc (run, e, f, AreZero-replicate cs h), text, inl refl, omega arith)
    go (x ∷ y ∷ cs) run total (inr e, (f, h)) = (
      t ++ 37 ∷ [],
      length cs,
      cc (
        run,
        e,
        f,
        AreZero-replicate cs h,
        append_assoc t (37 ∷ []) (0 ∷ replicate (length cs) 0),
      ),
      IsText-append t (37 ∷ []) text (omega arith, tt),
      inr refl,
      omega (arith, length-append t (37 ∷ [])),
    )

-- The bytes of a text, or one NUL for the empty text
abbrev pub sent : List ℕ → List ℕ
sent [] = 0 ∷ []
sent (c ∷ w) = c ∷ w

bochs_console_print_lem :
    (w : List ℕ) (m : ℕ)
    → IsText w
    → 0 < m
    → bochs_console_print (w ++ 0 ∷ replicate m 0) ≡ some (sent w)
unfolding bochs_console_print
bochs_console_print_lem w zero text more = absurd (omega arith)
bochs_console_print_lem [] (suc m) text more = refl
bochs_console_print_lem (c ∷ []) (suc m) text more = refl
bochs_console_print_lem (c ∷ d ∷ w) (suc m) (real, (real', text)) more =
    let go : (d == 0) ≡ false = ground arith in
    cc (go, bochs_console_print_lem (d ∷ w) (suc m) (real', text) more)

-- `bcprintf` of a format of plain runs and of the conversions %c, %d and %s, whose text has no NUL and at most 77
-- bytes, sends this text to the port and no other byte, or this text and a percent sign behind it, and where this
-- is no byte at all, a NUL.
pub bcprintf_lem :
    (format : List ℕ) (args : List Arg) (t : List ℕ)
    → Renders format args t
    → IsText t
    → length t < 78
    → (w : List ℕ) × (bcprintf format args ≡ some (sent w)) × Left t w
unfolding bcprintf
bcprintf_lem format args t shows text fits =
    let (w, m, run, text', left, total) =
      left_lem 80 format args t shows text (omega arith) (omega arith) in
    let at_most : length w ≤ length t + 1 = elim left [
      | inl e ↦ omega (arith, ap length e)
      | inr e ↦ omega (arith, ap length e, length-append t (37 ∷ []))
    ] in
    (w, cc (run, bochs_console_print_lem w m text' (omega arith)), left)
