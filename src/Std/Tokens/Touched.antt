-- ===== src/Std/Tokens/Touched.antt =====
-- The tokens of a string, which has no NUL of its own, in the loop that copies every token to the heap.
use mathlib.Core.List.{append_assoc}
use muk.Prelude.{
  ℕ, zero, suc, ◌+◌, ◌^◌, ◌<◌, ◌≤◌, ◌≡◌, ◌≢◌, refl, sym, List, [], ◌∷◌, ◌++◌, some, false, length,
  length-append, length-replicate, replicate, arith, map,
}
use muk.Std.Cstring.{IsText}
use muk.Std.Text.Roundtrip.{text_of}
use muk.Std.Tokens.{Tokens, advance, above, collect}
use muk.Std.Tokens.Ends.{touched}
use muk.Std.Tokens.Shape.{
  Shape, bare, closed, goes_on, shape, touched_bare, touched_closed, touched_step,
}
use muk.Std.Tokens.Words.{words, rest_words, AreOthers, StartsOther, cut}
use muk.Std.Tokens.Rounds.{at}
use muk.Std.Tokens.Gaps.{Left}
use muk.Std.Tokens.Over.{next_over, above-beyond}
use muk.Std.Tokens.Between.{collect_one, collect_more, last_word, last_gap, advance_between}
use muk.Std.Tokens.Split.{AreOthers-IsText, parts_tail, parts-length, next_some, shorter}

-- What the loop over the tokens gives from a token on: it, and the words of the text that is left. A word that ends
-- with the string goes on with `h`, which stands behind it.
abbrev pub Collects : ℕ → ℕ → ℕ → List ℕ → List ℕ → List ℕ → ℕ → List ℕ → Tokens → Type 0
Collects d n fuel r h w start s t =
    collect n fuel (d ∷ 0 ∷ r) start t
    ≡ some (some (map text_of (w ∷ touched d h s (rest_words d s))))

-- The loop, for every token and text that is left
abbrev pub Loop : ℕ → ℕ → ℕ → List ℕ → List ℕ → List ℕ → Type 0
Loop d n fuel r h y =
    (start next : ℕ) (pre w z front s : List ℕ) (t : Tokens)
    → t.text ≡ pre ++ (w ++ 0 ∷ z)
    → start ≡ length pre
    → IsText w
    → t.text ≡ front ++ (s ++ (h ++ 0 ∷ y))
    → next ≡ length front
    → Left t next s
    → StartsOther d s
    → IsText s
    → length s < n
    → length s + length h + 3 ≤ fuel
    → length front + (length s + length h) < 2 ^ 31
    → Collects d n fuel r h w start s t

-- The next token, from where `front` ends, and what the loop gives from it on
pub follow :
    (d n fuel c : ℕ) (r front s h y v : List ℕ) (g : ℕ) (after : List ℕ)
    → d ≢ 0
    → AreOthers d h
    → Loop d n fuel r h y
    → length (c ∷ s) < suc n
    → length (c ∷ s) + length h + 3 ≤ fuel
    → length front + (length (c ∷ s) + length h) < 2 ^ 31
    → c ∷ s ≡ v ++ (replicate g d ++ after)
    → AreOthers d v
    → StartsOther d after
    → IsText after
    → words d false (c ∷ s) ≡ v ∷ rest_words d after
    → Shape d g after
    → length after < length (c ∷ s)
    → (later : Tokens) × (ws : List (List ℕ)) × (touched d h (c ∷ s) (rest_words d (c ∷ s)) ≡ ws)
      × (advance fuel
            (d ∷ 0 ∷ r)
            (at (front ++ ((c ∷ s) ++ (h ++ 0 ∷ y))) (length front) (suc (length s)))
          ≡ some (some later))
      × (collect n fuel (d ∷ 0 ∷ r) (length front) later ≡ some (some (map text_of ws)))
follow d n fuel c r front s h y v _ _ real others loop rounds fuels small parts v_word starts
      after_text reads bare less =
    let count = parts-length d 0 (c ∷ s) v [] parts in
    let (later, run, rest) =
      last_word d n fuel r front v h y real v_word others (omega arith) (omega (arith, count))
        (omega (arith, count)) in
    let whole = parts_tail d 0 (c ∷ s) v [] (h ++ 0 ∷ y) parts in
    let total : suc (length s) ≡ length v = omega (arith, count) in
    (
      later,
      (v ++ h) ∷ [],
      touched_bare d (c ∷ s) v h (rest_words d (c ∷ s)) v_word parts reads,
      cc (whole, total, run),
      rest,
    )
follow d n fuel c r front s h y v _ _ real others loop rounds fuels small parts v_word starts
      after_text reads (closed g) less =
    let count = parts-length d (suc g) (c ∷ s) v [] parts in
    let (later, run, rest) =
      last_gap d g n fuel r front v h y real v_word others (omega arith) (omega (arith, count))
        (omega (arith, count)) in
    let whole = parts_tail d (suc g) (c ∷ s) v [] (h ++ 0 ∷ y) parts in
    let total : suc (length s) ≡ length v + suc g = omega (arith, count) in
    (
      later,
      v ∷ [],
      touched_closed d g (c ∷ s) v h (rest_words d (c ∷ s)) parts reads,
      cc (whole, total, run),
      rest,
    )
follow d n fuel c r front s h y v _ _ real others loop rounds fuels small parts v_word starts
      after_text reads (goes_on g b a unlike) less =
    let tail = h ++ 0 ∷ y in
    let count = parts-length d (suc g) (c ∷ s) v (b ∷ a) parts in
    let (later, run, moved, left) =
      advance_between d g b fuel r front v a tail real v_word unlike (omega (arith, count))
        (omega (arith, count)) in
    let whole = parts_tail d (suc g) (c ∷ s) v (b ∷ a) tail parts in
    let total : suc (length s) ≡ length v + suc g + length (b ∷ a) = omega (arith, count) in
    let zeros = replicate (suc g) 0 in
    let front' = front ++ (v ++ zeros) in
    let far : length front' ≡ length front + length v + suc g = omega (
      arith,
      length-append front (v ++ zeros),
      length-append v zeros,
      length-replicate {A = ℕ} (suc g) 0,
    ) in
    let moved' : later.text ≡ front' ++ ((b ∷ a) ++ tail) = cc (
      moved,
      append_assoc front (v ++ zeros) ((b ∷ a) ++ tail),
      append_assoc v zeros ((b ∷ a) ++ tail),
    ) in
    let rest =
      loop (length front) (length front + length v + suc g) front v
        (replicate g 0 ++ ((b ∷ a) ++ tail)) front' (b ∷ a) later moved refl
        (AreOthers-IsText d v v_word) moved' (sym far) left starts after_text (omega arith)
        (omega (arith, count)) (omega (arith, far, count)) in
    let k = cut d (b ∷ a) after_text in
    let step =
      touched_step d (c ∷ s) (v ++ replicate (suc g) d) a h v k.word (rest_words d (c ∷ s))
        (rest_words d k.after) b (cc (parts, append_assoc v (replicate (suc g) d) (b ∷ a)))
        (cc (reads, k.reads)) in
    (
      later,
      v ∷ touched d h (b ∷ a) (rest_words d (b ∷ a)),
      cc (step, k.reads),
      cc (whole, total, run),
      rest,
    )

pub collect_touched : (n fuel d : ℕ) (r h y : List ℕ) → d ≢ 0 → AreOthers d h → Loop d n fuel r h y
collect_touched zero fuel d r h y real others start next pre w z front s t now here word text there
      left other rest_text rounds fuels small =
    absurd (omega arith)
collect_touched (suc n) fuel d r h y real others start next pre w z front [] t now here word text
      there (place, size) other rest_text rounds fuels small =
    let ended : above 0 t.size ≡ false = cc (size, above-beyond 0 (omega arith)) in
    let (u, stop) =
      next_over d r h front y fuel t real others (omega arith) text (omega arith) ended
        (omega (arith, size)) (omega arith) in
    collect_one (suc n) fuel start (d ∷ 0 ∷ r) pre w z t u (omega arith) now here word stop
collect_touched (suc n) fuel d r h y real others start next pre w z front (c ∷ s) t now here word
      text there (place, size) other rest_text rounds fuels small =
    let k = cut d (c ∷ s) rest_text in
    let (later, ws, found, run, rest) =
      follow d n fuel c r front s h y k.word k.gap k.after real others
        (collect_touched n fuel d r h y real others) rounds fuels small k.parts k.others k.starts
        k.text k.reads (shape d k.gap k.after k.ends_word k.starts)
        (shorter d (c ∷ s) k (omega arith)) in
    let step =
      next_some fuel next (length s) (d ∷ 0 ∷ r) t later place size (omega (arith, there, small))
        (omega (arith, small)) (cc (text, there, run)) in
    let all =
      collect_more n fuel start next (d ∷ 0 ∷ r) pre w z ws t later now here word step
        (cc (there, rest)) in
    cc (found, all)
