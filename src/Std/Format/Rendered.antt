-- ===== src/Std/Format/Rendered.antt =====
-- What `vsprintf` writes for a format of plain runs and conversions.
use mathlib.Core.List.{append_assoc}
use muk.Prelude.{
  ℕ, suc, ◌+◌, ◌-◌, ◌^◌, ◌<◌, ◌≤◌, ◌≡◌, refl, sym, ap, List, [], ◌∷◌, ◌++◌, Option, some, true,
  false, ◌||◌, ◌==◌, ltb, length, length-append, arith, subst, inr,
}
use muk.Word.{u8}
use muk.Std.Cstring.{IsText}
use muk.Std.Number.{itoa}
use muk.Std.Vector.Writes.{put_next}
use muk.Std.Format.{
  Arg, int_arg, text_arg, Written, Round, go_on, put_char, put_decimal, convert_v, is_conversion,
  literal, after_percent, round,
}
use muk.Std.Format.Copies.{
  split_list, copy_arg_lem, ArePlain, copy_run_lem, print_lem, AreZero, IsClear, AreZero-IsClear,
  AreZero-append, IsClear-append,
}

-- The text that an argument is shown as.
pub data Shows : ℕ → Arg → List ℕ → Type 0 where
  as_text : {t : List ℕ} (r : List ℕ) → IsText t → Shows 115 (text_arg (t ++ 0 ∷ r)) t
  as_number :
      {n : ℕ} {t : List ℕ}
      → itoa n 10 ≡ some (t ++ 0 ∷ [], length t)
      → IsText t
      → Shows 100 (int_arg n) t
  as_char : {c : ℕ} → Shows 99 (int_arg c) (u8 c ∷ [])

-- The text behind `pre` in the buffer, where `gap` was before
abbrev pub Puts : Option Round → List ℕ → List ℕ → List ℕ → List ℕ → List Arg → Type 0
Puts r format pre t gap args =
    (gap' : List ℕ) × (r ≡ some (go_on format ((pre ++ t) ++ gap') (length (pre ++ t)) args))
    × (length t + length gap' ≡ length gap)
    × (IsClear gap → IsClear gap')

pub literal_round :
    (conv : ℕ → List ℕ → ℕ → List Arg → Option Written) (c : ℕ) (cs pre gap format : List ℕ) (x : ℕ)
    (args : List Arg)
    → ArePlain (c ∷ cs)
    → (x == 0 || x == 37) ≡ true
    → length (c ∷ cs) ≤ length gap
    → length pre + length (c ∷ cs) < 2 ^ 31
    → Puts
        (round conv ((c ∷ cs) ++ x ∷ format) (pre ++ gap) (length pre) args)
        (x ∷ format)
        pre
        (c ∷ cs)
        gap
        args
unfolding round literal
literal_round conv c cs pre [] format x args plain last h small = absurd (omega arith)
literal_round conv c cs pre (g ∷ gap) format x args (plain, byte, ok) last h small =
    let (front, rest, split, size) = split_list (length cs) gap (omega arith) in
    let ordinary : (c == 37) ≡ false = ground arith in
    let room : ltb (2 ^ 31 - 1 - length pre) (length cs + 1) ≡ false = ground arith in
    let total : length pre + (length cs + 1) ≡ length (pre ++ c ∷ cs) =
      omega (arith, length-append pre (c ∷ cs)) in
    let run =
      copy_run_lem cs (pre ++ c ∷ []) front rest format x (length pre + 1) ok last
        (omega (arith, length-append pre (c ∷ []))) size in
    let printed = print_lem (c ∷ cs) (x ∷ format) (plain, byte, ok) in
    let one : length cs + 1 ≡ suc (length cs) = omega arith in
    (
      rest,
      cc (
        put_next pre g gap (length pre) c refl,
        ordinary,
        split,
        run,
        append_assoc pre (c ∷ []) (front ++ rest),
        append_assoc pre (c ∷ []) (cs ++ rest),
        append_assoc pre (c ∷ cs) rest,
        printed,
        one,
        room,
        total,
      ),
      omega (arith, ap length split, length-append front rest, size),
      λ clear. AreZero-IsClear rest (AreZero-append front rest (subst AreZero split clear.1)),
    )

pub percent_round :
    (d : ℕ) (arg : Arg) (t pre gap format : List ℕ) (args : List Arg)
    → Shows d arg t
    → length t < length gap
    → Puts
        (round convert_v (37 ∷ d ∷ format) (pre ++ gap) (length pre) (arg ∷ args))
        format
        pre
        t
        gap
        args
unfolding round after_percent is_conversion convert_v put_char put_decimal
percent_round d arg t pre [] format args shows h = absurd (omega arith)
percent_round d arg t pre (g ∷ gap) format args (as_text r text) h =
    let (front, rest, split, size) = split_list (length t) (37 ∷ gap) (omega arith) in
    (
      rest,
      cc (
        put_next pre g gap (length pre) 37 refl,
        split,
        copy_arg_lem t r pre front rest (length pre) text refl size,
        append_assoc pre t rest,
        length-append pre t,
      ),
      omega (arith, ap length split, length-append front rest, size),
      λ clear. IsClear-append front rest (subst IsClear split (inr refl, clear.1)),
    )
percent_round d arg t pre (g ∷ gap) format args (as_number {n} printed text) h =
    let (front, rest, split, size) = split_list (length t) (37 ∷ gap) (omega arith) in
    (
      rest,
      cc (
        put_next pre g gap (length pre) 37 refl,
        split,
        printed,
        copy_arg_lem t [] pre front rest (length pre) text refl size,
        append_assoc pre t rest,
        length-append pre t,
      ),
      omega (arith, ap length split, length-append front rest, size),
      λ clear. IsClear-append front rest (subst IsClear split (inr refl, clear.1)),
    )
percent_round d arg t pre (g ∷ gap) format args (as_char {c}) h =
    let total : length pre + 1 ≡ length (pre ++ u8 c ∷ []) = sym (length-append pre (u8 c ∷ [])) in
    (
      gap,
      cc (
        put_next pre g gap (length pre) 37 refl,
        put_next pre 37 gap (length pre) (u8 c) refl,
        append_assoc pre (u8 c ∷ []) gap,
        total,
      ),
      omega arith,
      λ clear. AreZero-IsClear gap clear.1,
    )
