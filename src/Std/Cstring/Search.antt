-- ===== src/Std/Cstring/Search.antt =====
-- Searching in C strings.
use native.Mathlib.Decide.{ℕ_discrete}
use muk.Prelude.{
  ℕ, zero, suc, ◌+◌, ◌<◌, ◌≡◌, refl, sym, ap, ap₂, ◌∙◌, List, [], ◌∷◌, ◌++◌, Option, none, some,
  true, false, ◌==◌, arith, ◌⊎◌, inl, inr, length, drop, Bool-cases, subst,
}
use muk.Std.Cstring.{strstr, strstr_from, matches, IsText}

-- `t` stands in `s` at offset `i`.
abbrev pub Occurs : List ℕ → List ℕ → ℕ → Type 0
Occurs t s i = (v : List ℕ) × (drop i s ≡ t ++ v)

head_or : ℕ → List ℕ → ℕ
head_or d [] = d
head_or d (x ∷ xs) = x

tail_of : List ℕ → List ℕ
tail_of [] = []
tail_of (x ∷ xs) = xs

same_head : (x y : ℕ) (s t : List ℕ) → x ∷ s ≡ y ∷ t → x ≡ y
unfolding head_or
same_head x y s t e = ap (head_or 0) e

same_tail : (x y : ℕ) (s t : List ℕ) → x ∷ s ≡ y ∷ t → s ≡ t
unfolding tail_of
same_tail x y s t e = ap tail_of e

-- The inner loop of `strstr` finds whether the text begins with the other.
matches_lem :
    (s t r q : List ℕ)
    → IsText s
    → IsText t
    → ((matches (s ++ 0 ∷ r) (t ++ 0 ∷ q) ≡ some true) × Occurs t s 0)
      ⊎ ((matches (s ++ 0 ∷ r) (t ++ 0 ∷ q) ≡ some false) × ¬ Occurs t s 0)
unfolding matches
matches_lem s [] r q h k = inl (refl, (s, refl))
matches_lem [] (y ∷ t) r q h (p, k) = inr (ground arith, λ (v, e). omega (arith, ap length e))
matches_lem (x ∷ s) (y ∷ t) r q (p, h) (p', k) = elim (ℕ_discrete x y) [
  | yes e ↦
      let goes_on : matches ((x ∷ s) ++ 0 ∷ r) ((y ∷ t) ++ 0 ∷ q)
          ≡ matches (s ++ 0 ∷ r) (t ++ 0 ∷ q) =
        ground arith in
      elim (matches_lem s t r q h k) [
        | inl (result, (v, at)) ↦ inl (goes_on ∙ result, (v, ap₂ ◌∷◌ e at))
        | inr (result, not_at) ↦ inr (goes_on ∙ result, λ (v, at). not_at (v, same_tail _ _ _ _ at))
      ]
  | no ne ↦ inr (ground arith, λ (v, at). ne (same_head _ _ _ _ at))
]

-- The first place where `t` stands in `s`, or that there is none.
abbrev pub IsFirst : List ℕ → List ℕ → Option ℕ → Type 0
IsFirst t s none = (j : ℕ) → ¬ Occurs t s j
IsFirst t s (some k) = Occurs t s k × ((j : ℕ) → j < k → ¬ Occurs t s j)

not_in_empty : (y : ℕ) (t : List ℕ) (j : ℕ) → ¬ Occurs (y ∷ t) [] j
not_in_empty y t zero (v, e) = omega (arith, ap length e)
not_in_empty y t (suc j) (v, e) = omega (arith, ap length e)

shift : ℕ → Option ℕ → Option ℕ
shift i none = none
shift i (some k) = some (i + k)

shift_found :
    (t s : List ℕ) (c : ℕ) (found : Option ℕ)
    → ¬ Occurs t (c ∷ s) 0
    → IsFirst t s found
    → IsFirst t (c ∷ s) (shift 1 found)
unfolding shift
shift_found t s c none no_start f =
    λ j. elim j as (λ m. ¬ Occurs t (c ∷ s) m) [ zero ↦ no_start | suc j ↦ f j ]
shift_found t s c (some k) no_start (here, before) =
    let e : suc k ≡ 1 + k = omega arith in
    subst (λ m. IsFirst t (c ∷ s) (some m)) e (here, λ j h. none_before j h)
  where
    none_before : (j : ℕ) → j < suc k → ¬ Occurs t (c ∷ s) j
    none_before zero h = no_start
    none_before (suc j) h = before j (omega arith)

shift-shift : (i : ℕ) (found : Option ℕ) → shift i (shift 1 found) ≡ shift (i + 1) found
unfolding shift
shift-shift i none = refl
shift-shift i (some k) = ap some (omega arith)

shift_zero : (found : Option ℕ) → shift 0 found ≡ found
unfolding shift
shift_zero none = refl
shift_zero (some k) = ap some (omega arith)

strstr_from_lem :
    (i y : ℕ) (s t r q : List ℕ)
    → IsText s
    → IsText (y ∷ t)
    → (found : Option ℕ) × IsFirst (y ∷ t) s found
      × (strstr_from i (s ++ 0 ∷ r) y (y ∷ t ++ 0 ∷ q) ≡ some (shift i found))
unfolding strstr_from
strstr_from_lem i y [] t r q h k = (none, not_in_empty y t, unfold shift in refl)
strstr_from_lem i y (c ∷ s) t r q (p, h) k =
    let (found, first, rest) = strstr_from_lem (i + 1) y s t r q h k in
    let more : (c == 0) ≡ false = ground arith in
    elim (matches_lem (c ∷ s) (y ∷ t) r q (p, h) k) [
      | inl (result, (v, at)) ↦
          let same : (c == y) ≡ true = ground (arith, same_head _ _ _ _ at) in
          (
            some 0,
            ((v, at), λ j below. absurd (omega arith)),
            rw (more, same, result) (unfold shift in ap (λ (k : ℕ). some (some k)) (omega arith)),
          )
      | inr (result, not_at) ↦ (
        shift 1 found,
        shift_found (y ∷ t) s c found not_at first,
        rw (more, result, rest)
            (elim (Bool-cases (c == y)) [
              | inl e ↦ rw e (ap some (sym (shift-shift i found)))
              | inr e ↦ rw e (ap some (sym (shift-shift i found)))
            ]),
      )
    ]

-- `strstr` of two C strings gives the first offset at which the second stands in the first, and the
-- null pointer when it stands nowhere.
pub strstr_lem :
    (s t r q : List ℕ)
    → IsText s
    → IsText t
    → (found : Option ℕ) × (strstr (s ++ 0 ∷ r) (t ++ 0 ∷ q) ≡ some found) × IsFirst t s found
unfolding strstr shift
strstr_lem s [] r q h k = (some 0, refl, ((s, refl), λ j below. absurd (omega arith)))
strstr_lem s (y ∷ t) r q h (p, k) =
    let (found, first, result) = strstr_from_lem 0 y s t r q h (p, k) in
    let start : (y == 0) ≡ false = ground arith in
    (found, rw (start, result) (ap some (shift_zero found)), first)
