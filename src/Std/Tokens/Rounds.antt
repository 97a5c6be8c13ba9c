-- ===== src/Std/Tokens/Rounds.antt =====
-- The rounds of `strtok`, at a delimiter `d` alone.
use mathlib.Core.List.{append_assoc}
use muk.Prelude.{
  ℕ, zero, suc, ◌+◌, ◌^◌, ◌<◌, ◌≡◌, ◌≢◌, refl, List, [], ◌∷◌, ◌++◌, some, true, false, ◌==◌, ◌>>=◌,
  length, length-append, replicate, drop, get_elem?, arith, inl, inr, Option-cases,
}
use muk.Std.Cstring.{strspn, accepts}
use muk.Word.{add32, sub32}
use muk.Std.Vector.Writes.{get_elem?_next}
use muk.Std.Tokens.{Tokens, advance, end_token, step_on}
use muk.Std.Tokens.Words.{AreOthers}

pub drop_next : (pre ys : List ℕ) → drop (length pre) (pre ++ ys) ≡ ys
drop_next [] ys = refl
drop_next (x ∷ pre) ys = drop_next pre ys

accepts_one : (d c : ℕ) (r : List ℕ) → d ≢ 0 → accepts (d ∷ 0 ∷ r) c ≡ some (c == d)
unfolding accepts
accepts_one d c r h = ground arith

pub strspn-replicate :
    (d k x : ℕ) (q r : List ℕ)
    → d ≢ 0
    → x ≢ d
    → strspn (replicate k d ++ x ∷ q) (d ∷ 0 ∷ r) ≡ some k
unfolding strspn
strspn-replicate d zero x q r h other = ground (arith, accepts_one d x r h)
strspn-replicate d (suc k) x q r h other =
    let one : k + 1 ≡ suc k = omega arith in
    let it : (d == d) ≡ true = ground arith in
    let real : (d == 0) ≡ false = ground arith in
    cc (accepts_one d d r h, strspn-replicate d k x q r h other, it, real, one)

pub advance_stop :
    (n : ℕ) (delim : List ℕ) (t : Tokens)
    → get_elem? t.text t.nxt ≡ some 0
    → advance (suc n) delim t ≡ some (some t)
unfolding advance
advance_stop n delim t h =
    elim (Option-cases (strspn (drop t.nxt t.text) delim >>= λ i. end_token i t)) [
      | inl stuck ↦ cc (h, stuck)
      | inr (later, run) ↦ cc (h, run)
    ]

pub advance_step :
    (n : ℕ) (delim : List ℕ) (t later : Tokens) (c i : ℕ)
    → get_elem? t.text t.nxt ≡ some c
    → c ≢ 0
    → strspn (drop t.nxt t.text) delim ≡ some i
    → end_token i t ≡ some later
    → advance (suc n) delim t ≡ advance n delim later
unfolding advance
advance_step n delim t later c i h real span run =
    let go : (c == 0) ≡ false = ground arith in cc (h, go, span, run)

abbrev pub at : List ℕ → ℕ → ℕ → Tokens
at text nxt size = record { text = text; nxt = nxt; size = size }

-- The characters of a word are passed over, one in each round.
pub advance_word :
    (d : ℕ) (r w pre post : List ℕ) (m n i j rest : ℕ)
    → d ≢ 0
    → AreOthers d w
    → m ≡ length w + n
    → i ≡ length pre
    → j ≡ length pre + length w
    → j < 2 ^ 31
    → length w + rest < 2 ^ 31
    → advance m (d ∷ 0 ∷ r) (at (pre ++ (w ++ post)) i (length w + rest))
      ≡ advance n (d ∷ 0 ∷ r) (at (pre ++ (w ++ post)) j rest)
unfolding end_token step_on
advance_word d r [] pre post m n i j rest h others fuel here there fits small =
    let same : m ≡ n = omega arith in
    let place : i ≡ j = omega arith in
    let size : 0 + rest ≡ rest = omega arith in cc (same, place, size)
advance_word d r (c ∷ w) pre post zero n i j rest h others fuel here there fits small =
    absurd (omega arith)
advance_word d r (c ∷ w) pre post (suc m) n i j rest h (real, other, others) fuel here there fits
      small =
    let text = pre ++ c ∷ (w ++ post) in
    let now = get_elem?_next pre c (w ++ post) i here in
    let tail = drop_next pre (c ∷ (w ++ post)) in
    let span = strspn-replicate d 0 c (w ++ post) r h other in
    let place : add32 i 1 ≡ i + 1 = omega arith in
    let size : sub32 (suc (length w) + rest) 1 ≡ length w + rest = omega arith in
    let more =
      advance_word d r w (pre ++ c ∷ []) post m n (i + 1) j rest h others (omega arith)
        (omega (arith, length-append pre (c ∷ []))) (omega (arith, length-append pre (c ∷ []))) fits
        (omega arith) in
    let first =
      advance_step m (d ∷ 0 ∷ r) (at text i (suc (length w) + rest))
        (at text (add32 i 1) (sub32 (suc (length w) + rest) 1)) c 0 now real (cc (here, tail, span))
        refl in
    cc (first, place, size, append_assoc pre (c ∷ []) (w ++ post), more)
