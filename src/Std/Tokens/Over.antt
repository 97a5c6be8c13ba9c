-- ===== src/Std/Tokens/Over.antt =====
-- `strtok` reads on behind the buffer of a string.
use mathlib.Core.List.{append_assoc}
use muk.Prelude.{
  ltb, true, ℕ, zero, suc, ◌+◌, ◌-◌, ◌%◌, ◌^◌, ◌<◌, ◌≡◌, ◌≢◌, refl, sym, List, [], ◌∷◌, ◌++◌,
  Option, some, false, length, length-append, length-replicate, replicate, arith,
}
use muk.Std.Vector.Writes.{get_elem?_next}
use muk.Word.{add32, sub32}
use muk.Std.Tokens.{Tokens, advance, end_token, step_on, above, strtok_next}
use muk.Std.Tokens.Words.{AreOthers}
use muk.Std.Tokens.Rounds.{at, advance_step, advance_stop, strspn-replicate, drop_next}
use muk.Std.Tokens.Gaps.{gap_step}

-- Characters of one word up to a NUL, whatever the size counts
pub advance_over :
    (d : ℕ) (r w pre post : List ℕ) (n i size rest : ℕ)
    → d ≢ 0
    → AreOthers d w
    → length w < n
    → i ≡ length pre
    → length pre + length w < 2 ^ 31
    → rest < 2 ^ 32
    → size ≡ (length w + rest) % 2 ^ 32
    → advance n (d ∷ 0 ∷ r) (at (pre ++ (w ++ 0 ∷ post)) i size)
      ≡ some (some (at (pre ++ (w ++ 0 ∷ post)) (length pre + length w) rest))
unfolding end_token step_on
advance_over d r w pre post zero i size rest h others fuel here fits small count =
    absurd (omega arith)
advance_over d r [] pre post (suc n) i size rest h others fuel here fits small count =
    let place : length pre + 0 ≡ i = omega arith in
    let same : size ≡ rest = omega arith in
    let stop =
      advance_stop n (d ∷ 0 ∷ r) (at (pre ++ 0 ∷ post) i size) (get_elem?_next pre 0 post i here) in
    cc (place, same, stop)
advance_over d r (c ∷ w) pre post (suc n) i size rest h (real, other, others) fuel here fits small
      count =
    let text = pre ++ c ∷ (w ++ 0 ∷ post) in
    let now = get_elem?_next pre c (w ++ 0 ∷ post) i here in
    let tail = drop_next pre (c ∷ (w ++ 0 ∷ post)) in
    let span = strspn-replicate d 0 c (w ++ 0 ∷ post) r h other in
    let place : add32 i 1 ≡ i + 1 = omega arith in
    let longer = length-append pre (c ∷ []) in
    let more =
      advance_over d r w (pre ++ c ∷ []) post n (i + 1) (sub32 size 1) rest h others (omega arith)
        (omega (arith, longer)) (omega (arith, longer)) small (omega arith) in
    let first =
      advance_step n (d ∷ 0 ∷ r) (at text i size) (at text (add32 i 1) (sub32 size 1)) c 0 now real
        (cc (here, tail, span)) refl in
    let end_at : length (pre ++ c ∷ []) + length w ≡ length pre + suc (length w) =
      omega (arith, longer) in
    cc (first, place, append_assoc pre (c ∷ []) (w ++ 0 ∷ post), more, end_at)

-- The size that is left once `n` characters behind the string have been read
abbrev pub beyond : ℕ → ℕ
beyond n = (2 ^ 32 - n) % 2 ^ 32

strtok_none :
    (n : ℕ) (delim : List ℕ) (t later : Tokens)
    → above 0 t.size ≡ false
    → advance n delim t ≡ some (some later)
    → strtok_next n delim t ≡ some (some (Option.none, later))
unfolding strtok_next
strtok_none n delim t later ended run = cc (ended, run)

-- No token is left: the call reads on over `w` and finds nothing.
pub next_over :
    (d : ℕ) (r w pre post : List ℕ) (n : ℕ) (t : Tokens)
    → d ≢ 0
    → AreOthers d w
    → length w < n
    → t.text ≡ pre ++ (w ++ 0 ∷ post)
    → t.nxt ≡ length pre
    → above 0 t.size ≡ false
    → t.size < 2 ^ 32
    → length pre + length w < 2 ^ 31
    → (later : Tokens) × (strtok_next n (d ∷ 0 ∷ r) t ≡ some (some (Option.none, later)))
next_over d r w pre post n t h others fuel text place ended small fits =
    let rest = (t.size + 2 ^ 32 - length w) % 2 ^ 32 in
    let later = at (pre ++ (w ++ 0 ∷ post)) (length pre + length w) rest in
    let run =
      advance_over d r w pre post n t.nxt t.size rest h others fuel place fits (omega arith)
        (omega arith) in
    let same : at t.text t.nxt t.size ≡ t = refl in
    let from_t : advance n (d ∷ 0 ∷ r) t ≡ some (some later) = cc (same, text, run) in
    (later, strtok_none n (d ∷ 0 ∷ r) t later ended from_t)

pub above-beyond : (n : ℕ) → n < 2 ^ 31 → above 0 (beyond n) ≡ false
unfolding above
above-beyond zero small = refl
above-beyond (suc n) small =
    let large : ltb (beyond (suc n)) (2 ^ 31) ≡ false = ground arith in
    let some_left : ltb 0 (beyond (suc n)) ≡ true = ground arith in cc (large, some_left)

-- The last delimiters of a string, and what stands behind it
pub gap_over :
    (d k n : ℕ) (r pre h post : List ℕ) (i : ℕ)
    → d ≢ 0
    → AreOthers d h
    → i ≡ length pre
    → length pre + suc k + length h < 2 ^ 31
    → length h < n
    → (t : Tokens) × (advance
          (suc n)
          (d ∷ 0 ∷ r)
          (at (pre ++ (replicate (suc k) d ++ (h ++ 0 ∷ post))) i (suc k))
        ≡ some (some t))
      × (t.text ≡ pre ++ (replicate (suc k) 0 ++ (h ++ 0 ∷ post)))
      × (t.nxt ≡ length pre + suc k + length h)
      × (t.size ≡ beyond (length h))
gap_over d k n r pre h post i real others here fits fuel =
    let (x, q, rest, other) = begins h others in
    let (t, step, text, marked, (place, size)) =
      gap_step d k n x r pre [] (h ++ 0 ∷ post) q i (suc k) real rest other here (omega arith)
        (omega arith) in
    let front = pre ++ replicate (suc k) 0 in
    let far : length front ≡ length pre + suc k =
      omega (arith, length-append pre (replicate (suc k) 0), length-replicate {A = ℕ} (suc k) 0) in
    let joined = append_assoc pre (replicate (suc k) 0) (h ++ 0 ∷ post) in
    let run =
      advance_over d r h front post n (length front) 0 (beyond (length h)) real others fuel refl
        (omega (arith, far)) (omega arith) (omega arith) in
    let here' : t.nxt ≡ length front = omega (arith, place, far) in
    (
      at (front ++ (h ++ 0 ∷ post)) (length front + length h) (beyond (length h)),
      cc (step, text, joined, here', size, run),
      joined,
      omega (arith, far),
      refl,
    )
  where
    begins :
        (h : List ℕ) → AreOthers d h → (x : ℕ) × (q : List ℕ) × (h ++ 0 ∷ post ≡ x ∷ q) × (x ≢ d)
    begins [] o = (0, post, refl, (λ e. real (sym e)))
    begins (c ∷ h) (nul, other, o) = (c, h ++ 0 ∷ post, refl, other)
