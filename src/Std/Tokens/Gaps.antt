-- ===== src/Std/Tokens/Gaps.antt =====
-- A row of delimiters in `strtok`, and the end of a token.
use mathlib.Core.List.{append_assoc}
use muk.Prelude.{
  ℕ, zero, suc, ◌+◌, ◌-◌, ◌^◌, ◌<◌, ◌≤◌, ◌≡◌, ◌≢◌, refl, sym, ap, subst, List, [], ◌∷◌, ◌++◌, some,
  true, ◌&&◌, if◌then◌else◌, ltb, ◌>>=◌, length, length-append, length-replicate, replicate,
  get_elem?, arith,
}
use muk.Std.Vector.Writes.{put_next, get_elem?_next}
use muk.Word.{add32, sub32}
use muk.Std.Tokens.{Tokens, advance, end_token, blank_run, end_here, step_on, step_back, above}
use muk.Std.Tokens.Words.{AreOthers, StartsOther}
use muk.Std.Tokens.Rounds.{
  at, advance_step, advance_stop, advance_word, strspn-replicate, drop_next,
}

blank_run_lem :
    (d k : ℕ) (pre q : List ℕ) (i size : ℕ)
    → i ≡ length pre
    → i + k < 2 ^ 32
    → k + size < 2 ^ 32
    → blank_run k (at (pre ++ (replicate k d ++ q)) i (k + size))
      ≡ some (at (pre ++ (replicate k 0 ++ q)) (i + k) size)
unfolding blank_run end_here step_on
blank_run_lem d zero pre q i size here fits small =
    let same : i + 0 ≡ i = omega arith in
    let none_left : 0 + size ≡ size = omega arith in cc (same, none_left)
blank_run_lem d (suc k) pre q i size here fits small =
    let next : add32 i 1 ≡ i + 1 = omega arith in
    let less : sub32 (suc k + size) 1 ≡ k + size = omega arith in
    let total : i + 1 + k ≡ i + suc k = omega arith in
    cc (
      put_next pre d (replicate k d ++ q) i 0 here,
      next,
      less,
      total,
      append_assoc pre (0 ∷ []) (replicate k d ++ q),
      append_assoc pre (0 ∷ []) (replicate k 0 ++ q),
      blank_run_lem d k (pre ++ 0 ∷ []) q (i + 1) size (omega (arith, length-append pre (0 ∷ [])))
          (omega arith) (omega arith),
    )

-- Where `strtok` stands in front of the rest `s`, which begins at index `next`.
abbrev pub Left : Tokens → ℕ → List ℕ → Type 0
Left t next [] = (t.nxt ≡ next) × (t.size ≡ 0)
Left t next (c ∷ s) = (t.nxt + 1 ≡ next) × (t.size ≡ suc (suc (length s)))

-- The last delimiter of a row, behind `pre`
end_last :
    (pre s tail : List ℕ) (d i : ℕ)
    → i ≡ length pre
    → length pre + suc (length s) < 2 ^ 31
    → (t : Tokens) × ((end_here (at (pre ++ d ∷ (s ++ tail)) i (suc (length s))) >>= λ t.
          some (step_on (if above 1 t.size then step_back t else t)))
        ≡ some t)
      × (t.text ≡ pre ++ 0 ∷ (s ++ tail))
      × Left t (i + 1) s
unfolding end_here step_on step_back above
end_last pre [] tail d i here small =
    let next : add32 i 1 ≡ i + 1 = omega arith in
    (at (pre ++ 0 ∷ tail) (i + 1) 0, cc (put_next pre d tail i 0 here, next), refl, (refl, refl))
end_last pre (c ∷ s) tail d i here small =
    let more : (ltb 1 (suc (suc (length s))) && ltb (suc (suc (length s))) (2 ^ 31)) ≡ true =
      ground arith in
    let place : add32 (sub32 i 1) 1 ≡ i = omega arith in
    let size : sub32 (add32 (suc (suc (length s))) 1) 1 ≡ suc (suc (length s)) = omega arith in
    (
      at (pre ++ 0 ∷ ((c ∷ s) ++ tail)) i (suc (suc (length s))),
      cc (put_next pre d ((c ∷ s) ++ tail) i 0 here, more, place, size),
      refl,
      (refl, refl),
    )

-- What stands at the place where `strtok` stops is a NUL.
Left-zero :
    (pre s junk : List ℕ) (t : Tokens)
    → t.text ≡ pre ++ 0 ∷ (s ++ 0 ∷ junk)
    → Left t (length pre + 1) s
    → get_elem? t.text t.nxt ≡ some 0
Left-zero pre [] junk t text (place, size) = cc (
  text,
  get_elem?_next (pre ++ 0 ∷ []) 0 junk t.nxt (omega (arith, place, length-append pre (0 ∷ []))),
  append_assoc pre (0 ∷ []) (0 ∷ junk),
)
Left-zero pre (c ∷ s) junk t text (place, size) =
    cc (text, get_elem?_next pre 0 ((c ∷ s) ++ 0 ∷ junk) t.nxt (omega (arith, place)))

starts_with :
    (d : ℕ) (s junk : List ℕ)
    → d ≢ 0
    → StartsOther d s
    → (x : ℕ) × (q : List ℕ) × (s ++ 0 ∷ junk ≡ x ∷ q) × (x ≢ d)
starts_with d [] junk h start = (0, junk, refl, (λ e. h (sym e)))
starts_with d (c ∷ s) junk h start = (c, s ++ 0 ∷ junk, refl, start)

pub replicate-front : (d k : ℕ) (q : List ℕ) → d ∷ (replicate k d ++ q) ≡ replicate k d ++ d ∷ q
replicate-front d zero q = refl
replicate-front d (suc k) q = ap (λ l. d ∷ l) (replicate-front d k q)

-- A row of `k + 1` delimiters, with `s` and then `tail` behind it, is passed in one round.
pub gap_step :
    (d k n x : ℕ) (r pre s tail q : List ℕ) (i size : ℕ)
    → d ≢ 0
    → s ++ tail ≡ x ∷ q
    → x ≢ d
    → i ≡ length pre
    → size ≡ suc k + length s
    → length pre + size < 2 ^ 31
    → (t : Tokens) × (advance
          (suc n)
          (d ∷ 0 ∷ r)
          (at (pre ++ (replicate (suc k) d ++ (s ++ tail))) i size)
        ≡ advance n (d ∷ 0 ∷ r) t)
      × (t.text ≡ pre ++ (replicate (suc k) 0 ++ (s ++ tail)))
      × (t.text ≡ (pre ++ replicate k 0) ++ 0 ∷ (s ++ tail))
      × Left t (i + suc k) s
unfolding end_token
gap_step d k n x r pre s tail q i size h rest other here total small =
    let front = replicate-front d k (s ++ tail) in
    let front_zero = replicate-front 0 k (s ++ tail) in
    let size' : size ≡ k + suc (length s) = omega arith in
    let blanks =
      blank_run_lem d k pre (d ∷ (s ++ tail)) i (suc (length s)) here (omega arith) (omega arith) in
    let behind : i + k ≡ length (pre ++ replicate k 0) =
      omega (arith, length-append pre (replicate k 0), length-replicate {A = ℕ} k 0) in
    let (t, last, text, left) =
      end_last (pre ++ replicate k 0) s tail d (i + k) behind (omega arith) in
    let join_d = append_assoc pre (replicate k 0) (d ∷ (s ++ tail)) in
    let join_zero = append_assoc pre (replicate k 0) (0 ∷ (s ++ tail)) in
    let whole = pre ++ d ∷ (replicate k d ++ (s ++ tail)) in
    let now = get_elem?_next pre d (replicate k d ++ (s ++ tail)) i here in
    let span = strspn-replicate d (suc k) x q r h other in
    let dropped = drop_next pre (d ∷ (replicate k d ++ (s ++ tail))) in
    let ended : end_token (suc k) (at whole i size) ≡ some t =
      cc (front, size', blanks, join_d, last) in
    let step =
      advance_step n (d ∷ 0 ∷ r) (at whole i size) t d (suc k) now h
        (cc (here, dropped, rest, span)) ended in
    let place : i + k + 1 ≡ i + suc k = omega arith in
    (t, step, cc (text, join_zero, front_zero), text, subst (λ j. Left t j s) place left)

-- A row of delimiters with a text and its NUL behind it ends the token.
advance_gap :
    (d k n : ℕ) (r pre s junk : List ℕ) (i size : ℕ)
    → d ≢ 0
    → StartsOther d s
    → i ≡ length pre
    → size ≡ suc k + length s
    → length pre + size < 2 ^ 31
    → (t : Tokens) × (advance
          (suc (suc n))
          (d ∷ 0 ∷ r)
          (at (pre ++ (replicate (suc k) d ++ (s ++ 0 ∷ junk))) i size)
        ≡ some (some t))
      × (t.text ≡ pre ++ (replicate (suc k) 0 ++ (s ++ 0 ∷ junk)))
      × Left t (i + suc k) s
advance_gap d k n r pre s junk i size h start here total small =
    let (x, q, rest, other) = starts_with d s junk h start in
    let (t, step, text, marked, left) =
      gap_step d k (suc n) x r pre s (0 ∷ junk) q i size h rest other here total small in
    let stop = advance_stop n (d ∷ 0 ∷ r) t (
      Left-zero (pre ++ replicate k 0) s junk t marked (
        subst (λ j. Left t j s)
          (omega (arith, here, length-append pre (replicate k 0), length-replicate {A = ℕ} k 0))
          left)) in
    (t, cc (step, stop), text, left)

-- A word and what ends it: the token of a call of `strtok`.
pub advance_token :
    (d g n : ℕ) (r w pre s junk : List ℕ) (i size : ℕ)
    → d ≢ 0
    → AreOthers d w
    → (g ≡ 0 → s ≡ [])
    → StartsOther d s
    → i ≡ length pre
    → size ≡ length w + (g + length s)
    → length pre + size < 2 ^ 31
    → length w + 2 ≤ n
    → (t : Tokens) × (advance n
          (d ∷ 0 ∷ r)
          (at (pre ++ (w ++ (replicate g d ++ (s ++ 0 ∷ junk)))) i size)
        ≡ some (some t))
      × (t.text ≡ pre ++ (w ++ (replicate g 0 ++ (s ++ 0 ∷ junk))))
      × Left t (i + length w + g) s
advance_token d zero n r w pre (c ∷ s) junk i size h others ends start here total small fuel =
    absurd (omega (arith, ap length (ends refl)))
advance_token d zero n r w pre [] junk i size h others ends start here total small fuel =
    let later = at (pre ++ (w ++ (0 ∷ junk))) (i + length w) 0 in
    let run =
      advance_word d r w pre (0 ∷ junk) n (n - length w) i (i + length w) 0 h others (omega arith)
        here (omega arith) (omega arith) (omega arith) in
    let joined = append_assoc pre w (0 ∷ junk) in
    let stop = advance_stop (n - length w - 1) (d ∷ 0 ∷ r) later (
      cc (
        joined,
        get_elem?_next (pre ++ w) 0 junk (i + length w) (omega (arith, length-append pre w)),
      )) in
    let rounds : n - length w ≡ suc (n - length w - 1) = omega arith in
    let sum : size ≡ length w + 0 = omega arith in
    (later, cc (sum, run, rounds, stop), refl, (omega arith, refl))
advance_token d (suc g) n r w pre s junk i size h others ends start here total small fuel =
    let post = replicate (suc g) d ++ (s ++ 0 ∷ junk) in
    let run =
      advance_word d r w pre post n (n - length w) i (i + length w) (suc g + length s) h others
        (omega arith) here (omega arith) (omega arith) (omega arith) in
    let joined = append_assoc pre w post in
    let joined_zero = append_assoc pre w (replicate (suc g) 0 ++ (s ++ 0 ∷ junk)) in
    let rounds : n - length w ≡ suc (suc (n - length w - 2)) = omega arith in
    let (t, stop, text, left) =
      advance_gap d g (n - length w - 2) r (pre ++ w) s junk (i + length w) (suc g + length s) h
        start (omega (arith, length-append pre w)) refl (omega (arith, length-append pre w)) in
    (t, cc (total, run, rounds, joined, stop), cc (text, joined_zero), left)
