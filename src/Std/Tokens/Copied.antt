-- ===== src/Std/Tokens/Copied.antt =====
-- The tokens of a string in the loop that copies every token to the heap.
use mathlib.Core.List.{append_assoc}
use muk.Prelude.{
  ℕ, zero, suc, ◌+◌, ◌^◌, ◌<◌, ◌≤◌, ◌≡◌, ◌≢◌, refl, ap, List, [], ◌∷◌, ◌++◌, Option, some, false,
  length, length-append, length-replicate, replicate, arith, map, inl, inr, take, Bool-cases,
}
use muk.Std.Cstring.{IsText}
use muk.Std.Cstring.Compare.{strlen-text}
use muk.Std.Text.{Text}
use muk.Std.Text.Roundtrip.{text_of, of_chars-text}
use muk.Std.Tokens.{Tokens, strtok, strtok_next, above, collect, tokens_behind, tokens_in}
use muk.Std.Tokens.Ends.{ends_in, touched, ends_in-append}
use muk.Std.Tokens.Words.{words, rest_words, AreOthers, cut}
use muk.Std.Tokens.Rounds.{at}
use muk.Std.Tokens.Gaps.{Left, advance_token}
use muk.Std.Tokens.Over.{next_over, above-beyond}
use muk.Std.Tokens.Touched.{follow, collect_touched}
use muk.Std.Tokens.Shape.{shape}
use muk.Std.Tokens.Split.{
  AreOthers-IsText, nul_behind, parts_tail, parts-length, next_some, shorter,
}

take-append : (a b : List ℕ) (n : ℕ) → n ≡ length a → take n (a ++ b) ≡ a
take-append [] b zero e = refl
take-append [] b (suc n) e = absurd (omega (arith, e))
take-append (c ∷ a) b zero e = absurd (omega (arith, e))
take-append (c ∷ a) b (suc n) e = ap (λ l. c ∷ l) (take-append a b n (omega (arith, e)))

-- The words of a text that is left when the first token has been copied
pub data Remains (d fuel : ℕ) (r h : List ℕ) : List ℕ → Tokens → Type 0 where
  over :
      (t u : Tokens)
      → strtok_next fuel (d ∷ 0 ∷ r) t ≡ some (some (Option.none, u))
      → Remains d fuel r h [] t
  more :
      (c : ℕ) (s : List ℕ) (t u : Tokens) (next : ℕ) (ws : List (List ℕ))
      → strtok_next fuel (d ∷ 0 ∷ r) t ≡ some (some (some next, u))
      → collect fuel fuel (d ∷ 0 ∷ r) next u ≡ some (some (map text_of ws))
      → touched d h (c ∷ s) (rest_words d (c ∷ s)) ≡ ws
      → Remains d fuel r h (c ∷ s) t

rest_of :
    (d fuel next : ℕ) (r front s h y : List ℕ) (t : Tokens)
    → d ≢ 0
    → AreOthers d h
    → t.text ≡ front ++ (s ++ (h ++ 0 ∷ y))
    → next ≡ length front
    → Left t next s
    → IsText s
    → length s + length h + 3 ≤ fuel
    → length front + (length s + length h) < 2 ^ 31
    → Remains d fuel r h s t
rest_of d fuel next r front [] h y t real others text there (place, size) rest_text fuels small =
    let ended : above 0 t.size ≡ false = cc (size, above-beyond 0 (omega arith)) in
    let (u, stop) =
      next_over d r h front y fuel t real others (omega arith) text (omega arith) ended
        (omega (arith, size)) (omega arith) in
    over t u stop
rest_of d fuel next r front (c ∷ s) h y t real others text there (place, size) rest_text fuels
      small =
    let k = cut d (c ∷ s) rest_text in
    let (later, ws, found, run, rest) =
      follow d fuel fuel c r front s h y k.word k.gap k.after real others
        (collect_touched fuel fuel d r h y real others) (omega arith) fuels small k.parts k.others
        k.starts k.text k.reads (shape d k.gap k.after k.ends_word k.starts)
        (shorter d (c ∷ s) k (omega arith)) in
    let step =
      next_some fuel next (length s) (d ∷ 0 ∷ r) t later place size (omega (arith, there, small))
        (omega (arith, small)) (cc (text, there, run)) in
    more c s t later next ws step (cc (there, rest)) found

behind_rest :
    (d fuel : ℕ) (r h w s after p : List ℕ) (t : Tokens)
    → s ≡ p ++ after
    → Remains d fuel r h after t
    → tokens_behind fuel (text_of w) (d ∷ 0 ∷ r) t
      ≡ some (some (map text_of (w ∷ touched d h s (rest_words d after))))
unfolding tokens_behind
behind_rest d fuel r h w s _ p t whole (over _ u stop) = elim (Bool-cases (ends_in d s)) [
  | inl ended ↦ cc (stop, ended)
  | inr other ↦ cc (stop, other)
]
behind_rest d fuel r h w s _ p t whole (more c a _ u next ws found run reads) =
    let same : ends_in d s ≡ ends_in d (c ∷ a) = cc (whole, ends_in-append d p c a) in
    let reads' : touched d h s (rest_words d (c ∷ a)) ≡ ws = cc (same, reads) in
    cc (found, run, reads')

-- The tokens that the loop finds in a string with one delimiter are the words of the text, where a NUL stands behind
-- the string at first. When `h` stands there up to a NUL once the first word has been copied, then of two or more
-- words the last one ends with `h`, unless a delimiter ends the text. The loops end, with no access outside.
pub tokens_in-words :
    (s z r h y w : List ℕ) (ws : List (List ℕ)) (later : Text → List ℕ) (d : ℕ)
    → IsText s
    → d ≢ 0
    → AreOthers d h
    → length s + length h < 2 ^ 31
    → words d false s ≡ w ∷ ws
    → later (text_of w) ≡ h ++ 0 ∷ y
    → tokens_in s (0 ∷ z) later (d ∷ 0 ∷ r) ≡ some (some (map text_of (w ∷ touched d h s ws)))
unfolding tokens_in strtok
tokens_in-words s z r h y w ws later d text real others small split behind =
    let k = cut d s text in
    let count = parts-length d k.gap s k.word k.after k.parts in
    let fuel = length (s ++ 0 ∷ z) + 2 in
    let enough : length s + 3 ≤ fuel = omega (arith, length-append s (0 ∷ z)) in
    let (q, nul) = nul_behind k.gap k.after z k.ends_word in
    let whole = parts_tail d k.gap s k.word k.after (0 ∷ z) k.parts in
    let (t, run, text', left) =
      advance_token d k.gap fuel r k.word [] k.after z 0 (length s) real k.others k.ends_word
        k.starts refl count (omega arith) (omega (arith, count, enough)) in
    let first : k.word ≡ w = cc (split, k.reads) in
    let others_reads : rest_words d k.after ≡ ws = cc (split, k.reads) in
    let zeros = replicate k.gap 0 in
    let front = k.word ++ zeros in
    let kept = front ++ k.after in
    let far : length front ≡ length k.word + k.gap =
      omega (arith, length-append k.word zeros, length-replicate {A = ℕ} k.gap 0) in
    let moved : t.text ≡ kept ++ 0 ∷ z =
      cc
        (text', append_assoc front k.after (0 ∷ z), append_assoc k.word zeros (k.after ++ 0 ∷ z)) in
    let cut_off : take (length s) t.text ≡ kept = cc (
      moved,
      take-append kept (0 ∷ z) (length s) (omega (arith, length-append front k.after, far, count)),
    ) in
    let text_now = kept ++ (h ++ 0 ∷ y) in
    let later_fuel = length text_now + 2 in
    let long : length s + length h + 3 ≤ later_fuel = omega (
      arith,
      length-append kept (h ++ 0 ∷ y),
      length-append h (0 ∷ y),
      length-append front k.after,
      far,
      count,
    ) in
    let rest =
      rest_of d later_fuel (0 + length k.word + k.gap) r front k.after h y
        (at text_now t.nxt t.size) real others (append_assoc front k.after (h ++ 0 ∷ y))
        (omega (arith, far)) left k.text (omega (arith, count, long)) (omega (arith, far, count)) in
    let parts : s ≡ (k.word ++ replicate k.gap d) ++ k.after =
      cc (k.parts, append_assoc k.word (replicate k.gap d) k.after) in
    let words_left =
      behind_rest d later_fuel r h k.word s k.after (k.word ++ replicate k.gap d)
        (at text_now t.nxt t.size) parts rest in
    let read = of_chars-text k.word q (AreOthers-IsText d k.word k.others) in
    cc (
      strlen-text s z text,
      whole,
      run,
      text',
      nul,
      read,
      first,
      behind,
      cut_off,
      words_left,
      others_reads,
    )
