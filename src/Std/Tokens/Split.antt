-- ===== src/Std/Tokens/Split.antt =====
-- The tokens of a text are its words.
use mathlib.Core.List.{append_assoc}
use muk.Prelude.{
  ℕ, zero, suc, ◌+◌, ◌^◌, ◌<◌, ◌≤◌, ◌≡◌, ◌≢◌, refl, ap, subst, List, [], ◌∷◌, ◌++◌, Option, some,
  true, false, ◌&&◌, ltb, length, length-append, length-replicate, replicate, arith, map, inl, inr,
  ◌⊎◌,
}
use muk.Std.Cstring.{IsText}
use muk.Std.Cstring.Compare.{strlen-text}
use muk.Std.Text.Roundtrip.{text_of, of_chars-text}
use muk.Std.Vector.Writes.{get_elem?_next}
use muk.Word.{add32, sub32}
use muk.Std.Tokens.{Tokens, advance, strtok, strtok_next, step_on, above, collect, tokens_of}
use muk.Std.Tokens.Words.{words, rest_words, AreOthers, StartsOther, Cut, cut}
use muk.Std.Tokens.Rounds.{at, advance_stop, drop_next}
use muk.Std.Tokens.Gaps.{Left, advance_token}

pub AreOthers-IsText : (d : ℕ) (w : List ℕ) → AreOthers d w → IsText w
AreOthers-IsText d [] h = tt
AreOthers-IsText d (c ∷ w) (real, other, h) = (real, AreOthers-IsText d w h)

-- Behind its word a token has a NUL.
pub nul_behind :
    (g : ℕ) (s junk : List ℕ)
    → (g ≡ 0 → s ≡ [])
    → (z : List ℕ) × (replicate g 0 ++ (s ++ 0 ∷ junk) ≡ 0 ∷ z)
nul_behind zero [] junk h = (junk, refl)
nul_behind zero (c ∷ s) junk h = absurd (omega (arith, ap length (h refl)))
nul_behind (suc g) s junk h = (replicate g 0 ++ (s ++ 0 ∷ junk), refl)

-- The parts of a text with what stands behind it
pub parts_tail :
    (d g : ℕ) (s w after tail : List ℕ)
    → s ≡ w ++ (replicate g d ++ after)
    → s ++ tail ≡ w ++ (replicate g d ++ (after ++ tail))
parts_tail d g s w after tail e =
    cc (e, append_assoc w (replicate g d ++ after) tail, append_assoc (replicate g d) after tail)

pub parts-length :
    (d g : ℕ) (s w after : List ℕ)
    → s ≡ w ++ (replicate g d ++ after)
    → length s ≡ length w + (g + length after)
parts-length d g s w after e = omega (
  arith,
  ap length e,
  length-append w (replicate g d ++ after),
  length-append (replicate g d) after,
  length-replicate g d,
)

ℕ-zero_or : (n : ℕ) → (n ≡ 0) ⊎ (0 < n)
ℕ-zero_or zero = inl refl
ℕ-zero_or (suc n) = inr (omega arith)

-- Behind the first word of a text that is not empty there is less than the text.
pub shorter : (d : ℕ) (s : List ℕ) (k : Cut d s) → 0 < length s → length k.after < length s
shorter d s k h = elim (ℕ-zero_or k.gap) [
  | inl zero_gap ↦ omega (arith, ap length (k.ends_word zero_gap))
  | inr positive ↦ omega (arith, parts-length d k.gap s k.word k.after k.parts, positive)
]

next_none :
    (fuel : ℕ) (delim front junk : List ℕ) (t : Tokens)
    → 0 < fuel
    → t.text ≡ front ++ 0 ∷ junk
    → Left t (length front) []
    → strtok_next fuel delim t ≡ some (some (Option.none, t))
unfolding strtok_next above
next_none zero delim front junk t h text (place, size) = absurd (omega arith)
next_none (suc fuel) delim front junk t h text (place, size) =
    let stop = advance_stop fuel delim t (cc (text, get_elem?_next front 0 junk t.nxt place)) in
    cc (size, stop)

pub next_some :
    (fuel i k : ℕ) (delim : List ℕ) (t later : Tokens)
    → t.nxt + 1 ≡ i
    → t.size ≡ suc (suc k)
    → i < 2 ^ 31
    → suc (suc k) < 2 ^ 31
    → advance fuel delim (at t.text i (suc k)) ≡ some (some later)
    → strtok_next fuel delim t ≡ some (some (some i, later))
unfolding strtok_next above step_on
next_some fuel i k delim t later place size small fits run =
    let found : (ltb 0 (suc (suc k)) && ltb (suc (suc k)) (2 ^ 31)) ≡ true = ground arith in
    let forward : add32 t.nxt 1 ≡ i = omega (arith, place) in
    let less : sub32 (suc (suc k)) 1 ≡ suc k = omega arith in cc (size, found, forward, less, run)

collect_lem :
    (n fuel d start next : ℕ) (r pre w z front s junk : List ℕ) (t : Tokens)
    → d ≢ 0
    → t.text ≡ pre ++ (w ++ 0 ∷ z)
    → start ≡ length pre
    → IsText w
    → t.text ≡ front ++ (s ++ 0 ∷ junk)
    → next ≡ length front
    → Left t next s
    → StartsOther d s
    → IsText s
    → length s < n
    → length s + 2 ≤ fuel
    → length front + length s < 2 ^ 31
    → collect n fuel (d ∷ 0 ∷ r) start t ≡ some (some (text_of w ∷ map text_of (rest_words d s)))
unfolding collect
collect_lem zero fuel d start next r pre w z front s junk t h now here word text there left other
      rest_text rounds fuels small =
    absurd (omega arith)
collect_lem (suc n) fuel d start next r pre w z front [] junk t h now here word text there left
      other rest_text rounds fuels small =
    let read = of_chars-text w z word in
    let tail = drop_next pre (w ++ 0 ∷ z) in
    let stop =
      next_none fuel (d ∷ 0 ∷ r) front junk t (omega arith) text
        (subst (λ j. Left t j []) there left) in
    cc (now, here, tail, read, stop)
collect_lem (suc n) fuel d start next r pre w z front (c ∷ s) junk t h now here word text there
      (place, size) other rest_text rounds fuels small =
    let k = cut d (c ∷ s) rest_text in
    let e = k.parts in
    let count = parts-length d k.gap (c ∷ s) k.word k.after e in
    let (y, nul) = nul_behind k.gap k.after junk k.ends_word in
    let fewer : length k.after < n =
      omega (arith, count, rounds, shorter d (c ∷ s) k (omega arith)) in
    let (later, run, text', left') =
      advance_token d k.gap fuel r k.word front k.after junk next (suc (length s)) h k.others
        k.ends_word k.starts there (omega (arith, count)) (omega (arith, small, there))
        (omega (arith, count, fuels)) in
    let whole = parts_tail d k.gap (c ∷ s) k.word k.after (0 ∷ junk) e in
    let front' = front ++ (k.word ++ replicate k.gap 0) in
    let moved : later.text ≡ front' ++ (k.after ++ 0 ∷ junk) = cc (
      text',
      append_assoc front (k.word ++ replicate k.gap 0) (k.after ++ 0 ∷ junk),
      append_assoc k.word (replicate k.gap 0) (k.after ++ 0 ∷ junk),
    ) in
    let far : length front' ≡ length front + (length k.word + k.gap) = omega (
      arith,
      length-append front (k.word ++ replicate k.gap 0),
      length-append k.word (replicate k.gap 0),
      length-replicate {A = ℕ} k.gap 0,
    ) in
    let more =
      collect_lem n fuel d next (next + length k.word + k.gap) r front k.word y front' k.after junk
        later h (cc (text', nul)) there (AreOthers-IsText d k.word k.others) moved
        (omega (arith, far, there)) left' k.starts k.text fewer (omega (arith, count, fuels))
        (omega (arith, far, count, small)) in
    let read = of_chars-text w z word in
    let tail = drop_next pre (w ++ 0 ∷ z) in
    let found =
      next_some fuel next (length s) (d ∷ 0 ∷ r) t later place size (omega (arith, there, small))
        (omega (arith, small, place, there)) (cc (text, whole, run)) in
    cc (now, here, tail, read, found, more, k.reads)

-- The tokens that the loop over `strtok` finds in a C string of less than 2 ^ 31 bytes, with one delimiter, are the
-- words of the text. The loops end and make no access outside of the array.
pub tokens_of-words :
    (s junk r : List ℕ) (d : ℕ)
    → IsText s
    → d ≢ 0
    → length s < 2 ^ 31
    → tokens_of (s ++ 0 ∷ junk) (d ∷ 0 ∷ r) ≡ some (some (map text_of (words d false s)))
unfolding tokens_of strtok
tokens_of-words s junk r d text h small =
    let k = cut d s text in
    let count = parts-length d k.gap s k.word k.after k.parts in
    let fuel = length (s ++ 0 ∷ junk) + 2 in
    let enough : length s + 3 ≤ fuel = omega (arith, length-append s (0 ∷ junk)) in
    let (y, nul) = nul_behind k.gap k.after junk k.ends_word in
    let whole = parts_tail d k.gap s k.word k.after (0 ∷ junk) k.parts in
    let (t, run, text', left) =
      advance_token d k.gap fuel r k.word [] k.after junk 0 (length s) h k.others k.ends_word
        k.starts refl count (omega (arith, small)) (omega (arith, count, enough)) in
    let front = k.word ++ replicate k.gap 0 in
    let far : length front ≡ length k.word + k.gap =
      omega (arith, length-append k.word (replicate k.gap 0), length-replicate {A = ℕ} k.gap 0) in
    let more =
      collect_lem fuel fuel d 0 (0 + length k.word + k.gap) r [] k.word y front k.after junk t h
        (cc (text', nul)) refl (AreOthers-IsText d k.word k.others)
        (cc (text', append_assoc k.word (replicate k.gap 0) (k.after ++ 0 ∷ junk)))
        (omega (arith, far)) left k.starts k.text (omega (arith, count, enough))
        (omega (arith, count, enough)) (omega (arith, far, count, small)) in
    cc (strlen-text s junk text, whole, run, more, k.reads)
