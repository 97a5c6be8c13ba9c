-- ===== src/Std/Tokens/Between.antt =====
-- One round of the loop over the tokens of a string, behind which there are other bytes up to a NUL.
use mathlib.Core.List.{append_assoc}
use muk.Prelude.{
  ℕ, zero, suc, ◌+◌, ◌-◌, ◌^◌, ◌<◌, ◌≤◌, ◌≡◌, ◌≢◌, refl, sym, List, [], ◌∷◌, ◌++◌, Option, some,
  false, length, length-append, length-replicate, replicate, arith, map,
}
use muk.Std.Cstring.{IsText}
use muk.Std.Text.Roundtrip.{text_of, of_chars-text}
use muk.Std.Vector.Writes.{get_elem?_next}
use muk.Std.Tokens.{Tokens, advance, strtok_next, above, collect}
use muk.Std.Tokens.Words.{AreOthers}
use muk.Std.Tokens.Rounds.{at, advance_stop, advance_word, drop_next}
use muk.Std.Tokens.Gaps.{Left, gap_step}
use muk.Std.Tokens.Over.{advance_over, beyond, next_over, above-beyond, gap_over}
use muk.Std.Tokens.Split.{AreOthers-IsText}

AreOthers-append : (d : ℕ) (w h : List ℕ) → AreOthers d w → AreOthers d h → AreOthers d (w ++ h)
AreOthers-append d [] h a b = b
AreOthers-append d (c ∷ w) h (real, other, a) b = (real, other, AreOthers-append d w h a b)

-- The last token
pub collect_one :
    (n fuel start : ℕ) (delim pre w z : List ℕ) (t u : Tokens)
    → 0 < n
    → t.text ≡ pre ++ (w ++ 0 ∷ z)
    → start ≡ length pre
    → IsText w
    → strtok_next fuel delim t ≡ some (some (Option.none, u))
    → collect n fuel delim start t ≡ some (some (map text_of (w ∷ [])))
unfolding collect
collect_one zero fuel start delim pre w z t u more now here word stop = absurd (omega arith)
collect_one (suc n) fuel start delim pre w z t u more now here word stop =
    cc (now, here, drop_next pre (w ++ 0 ∷ z), of_chars-text w z word, stop)

-- A token with others behind it
pub collect_more :
    (n fuel start next : ℕ) (delim pre w z : List ℕ) (ws : List (List ℕ)) (t later : Tokens)
    → t.text ≡ pre ++ (w ++ 0 ∷ z)
    → start ≡ length pre
    → IsText w
    → strtok_next fuel delim t ≡ some (some (some next, later))
    → collect n fuel delim next later ≡ some (some (map text_of ws))
    → collect (suc n) fuel delim start t ≡ some (some (map text_of (w ∷ ws)))
unfolding collect
collect_more n fuel start next delim pre w z ws t later now here word found rest =
    cc (now, here, drop_next pre (w ++ 0 ∷ z), of_chars-text w z word, found, rest)

-- The last word of the string goes on in the heap.
pub last_word :
    (d n fuel : ℕ) (r front w h y : List ℕ)
    → d ≢ 0
    → AreOthers d w
    → AreOthers d h
    → 0 < n
    → length w + length h < fuel
    → length front + (length w + length h) < 2 ^ 31
    → (later : Tokens) × (advance fuel
          (d ∷ 0 ∷ r)
          (at (front ++ (w ++ (h ++ 0 ∷ y))) (length front) (length w))
        ≡ some (some later))
      × (collect n fuel (d ∷ 0 ∷ r) (length front) later
          ≡ some (some (map text_of ((w ++ h) ∷ []))))
last_word d n fuel r front w h y real word others more fuels small =
    let both = AreOthers-append d w h word others in
    let size = length-append w h in
    let joined = append_assoc w h (0 ∷ y) in
    let ended : above 0 (beyond (length h)) ≡ false = above-beyond (length h) (omega arith) in
    let run =
      advance_over d r (w ++ h) front y fuel (length front) (length w) (beyond (length h)) real both
        (omega (arith, size)) refl (omega (arith, size)) (omega arith) (omega (arith, size)) in
    let text = front ++ ((w ++ h) ++ 0 ∷ y) in
    let later = at text (length front + length (w ++ h)) (beyond (length h)) in
    let (u, stop) =
      next_over d r [] (front ++ (w ++ h)) y fuel later real tt (omega arith)
        (sym (append_assoc front (w ++ h) (0 ∷ y))) (sym (length-append front (w ++ h))) ended
        (omega arith) (omega (arith, size, length-append front (w ++ h))) in
    (
      later,
      cc (joined, run),
      collect_one n fuel (length front) (d ∷ 0 ∷ r) front (w ++ h) y later u more refl refl
          (AreOthers-IsText d (w ++ h) both) stop,
    )

-- The string ends with delimiters: its last word is as it stands there.
pub last_gap :
    (d g n fuel : ℕ) (r front w h y : List ℕ)
    → d ≢ 0
    → AreOthers d w
    → AreOthers d h
    → 0 < n
    → length w + length h + 3 ≤ fuel
    → length front + (length w + suc g + length h) < 2 ^ 31
    → (later : Tokens) × (advance fuel (d ∷ 0 ∷ r) (
          at
            (front ++ (w ++ (replicate (suc g) d ++ (h ++ 0 ∷ y))))
            (length front)
            (length w + suc g))
        ≡ some (some later))
      × (collect n fuel (d ∷ 0 ∷ r) (length front) later ≡ some (some (map text_of (w ∷ []))))
last_gap d g n fuel r front w h y real word others more fuels small =
    let rows = replicate (suc g) d ++ (h ++ 0 ∷ y) in
    let place = length-append front w in
    let run =
      advance_word d r w front rows fuel (fuel - length w) (length front) (length front + length w)
        (suc g) real word (omega arith) refl (omega arith) (omega arith) (omega arith) in
    let rounds : fuel - length w ≡ suc (fuel - length w - 1) = omega arith in
    let joined = append_assoc front w rows in
    let (later, stop, text, nxt, size) =
      gap_over d g (fuel - length w - 1) r (front ++ w) h y (length front + length w) real others
        (sym place) (omega (arith, place)) (omega arith) in
    let zeros = replicate (suc g) 0 in
    let far = length-append (front ++ w) zeros in
    let count = length-replicate {A = ℕ} (suc g) 0 in
    let pre = ((front ++ w) ++ zeros) ++ h in
    let farther = length-append ((front ++ w) ++ zeros) h in
    let moved : later.text ≡ pre ++ 0 ∷ y = cc (
      text,
      append_assoc ((front ++ w) ++ zeros) h (0 ∷ y),
      append_assoc (front ++ w) zeros (h ++ 0 ∷ y),
    ) in
    let ended : above 0 later.size ≡ false = cc (size, above-beyond (length h) (omega arith)) in
    let (u, none_left) =
      next_over d r [] pre y fuel later real tt (omega arith) moved
        (omega (arith, nxt, place, far, count, farther)) ended (omega (arith, size))
        (omega (arith, place, far, count, farther)) in
    let here : later.text ≡ front ++ (w ++ 0 ∷ (replicate g 0 ++ (h ++ 0 ∷ y))) =
      cc (text, append_assoc front w (zeros ++ (h ++ 0 ∷ y))) in
    (
      later,
      cc (run, rounds, joined, stop),
      collect_one n fuel (length front) (d ∷ 0 ∷ r) front w (replicate g 0 ++ (h ++ 0 ∷ y)) later u
          more here refl (AreOthers-IsText d w word) none_left,
    )

-- A word and delimiters with another word behind them
pub advance_between :
    (d g c n : ℕ) (r front w s tail : List ℕ)
    → d ≢ 0
    → AreOthers d w
    → c ≢ d
    → length w + 3 ≤ n
    → length front + (length w + suc g + length (c ∷ s)) < 2 ^ 31
    → (later : Tokens) × (advance n (d ∷ 0 ∷ r) (
          at
            (front ++ (w ++ (replicate (suc g) d ++ ((c ∷ s) ++ tail))))
            (length front)
            (length w + suc g + length (c ∷ s)))
        ≡ some (some later))
      × (later.text ≡ front ++ (w ++ (replicate (suc g) 0 ++ ((c ∷ s) ++ tail))))
      × Left later (length front + length w + suc g) (c ∷ s)
advance_between d g c n r front w s tail real word other fuels small =
    let rows = replicate (suc g) d ++ ((c ∷ s) ++ tail) in
    let place = length-append front w in
    let run =
      advance_word d r w front rows n (n - length w) (length front) (length front + length w)
        (suc g + length (c ∷ s)) real word (omega arith) refl (omega arith) (omega arith)
        (omega arith) in
    let rounds : n - length w ≡ suc (suc (n - length w - 2)) = omega arith in
    let sum : length w + suc g + length (c ∷ s) ≡ length w + (suc g + length (c ∷ s)) =
      omega arith in
    let (later, step, text, marked, (nxt, size)) =
      gap_step d g (suc (n - length w - 2)) c r (front ++ w) (c ∷ s) tail (s ++ tail)
        (length front + length w) (suc g + length (c ∷ s)) real refl other (sym place) refl
        (omega (arith, place)) in
    let count = length-replicate {A = ℕ} g 0 in
    let far = length-append (front ++ w) (replicate g 0) in
    let nul =
      get_elem?_next ((front ++ w) ++ replicate g 0) 0 ((c ∷ s) ++ tail) later.nxt
        (omega (arith, nxt, place, far, count)) in
    let stop = advance_stop (n - length w - 2) (d ∷ 0 ∷ r) later (cc (marked, nul)) in
    (
      later,
      cc (sum, run, rounds, append_assoc front w rows, step, stop),
      cc (text, append_assoc front w (replicate (suc g) 0 ++ ((c ∷ s) ++ tail))),
      (nxt, size),
    )
