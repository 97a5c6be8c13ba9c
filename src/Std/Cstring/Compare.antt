-- ===== src/Std/Cstring/Compare.antt =====
-- The order of C strings.
use native.Mathlib.Decide.{ℕ_discrete}
use muk.Prelude.{
  ℕ, ◌≡◌, ◌≢◌, refl, sym, ap, ◌∙◌, List, [], ◌∷◌, ◌++◌, some, pos, ◌⊖◌, arith, ◌⊎◌, inl, inr,
  length, subst, ap₂,
}
use muk.Std.Cstring.{strlen, strcmp, IsText}

-- `strlen` of a C string is the number of bytes before its NUL.
pub strlen-text : (s rest : List ℕ) → IsText s → strlen (s ++ 0 ∷ rest) ≡ some (length s)
unfolding strlen
strlen-text [] rest h = refl
strlen-text (c ∷ s) rest (p, h) = rw (strlen-text s rest h) (ground arith)

-- Two sequences part after `u`, the first with byte `a` and the second with `b`.
pub record PartAt (s t : List ℕ) (a b : ℕ) : Type 0 where
  pub common : List ℕ
  pub rest_s : List ℕ
  pub rest_t : List ℕ
  pub first : s ≡ common ++ a ∷ rest_s
  pub second : t ≡ common ++ b ∷ rest_t
  pub differ : a ≢ b

part-cons : (s t : List ℕ) (a b c : ℕ) → PartAt s t a b → PartAt (c ∷ s) (c ∷ t) a b
part-cons s t a b c p = record {
  common = c ∷ p.common;
  rest_s = p.rest_s;
  rest_t = p.rest_t;
  first = ap (λ (r : List ℕ). c ∷ r) p.first;
  second = ap (λ (r : List ℕ). c ∷ r) p.second;
  differ = p.differ;
}

-- `strcmp` of two C strings is 0 when they are equal, and else the difference of the first bytes in
-- which they differ, their NULs counted.
pub strcmp_lem :
    (s t r q : List ℕ)
    → IsText s
    → IsText t
    → ((s ≡ t) × (strcmp (s ++ 0 ∷ r) (t ++ 0 ∷ q) ≡ some (pos 0)))
      ⊎ ((a : ℕ) × (b : ℕ) × PartAt (s ++ 0 ∷ []) (t ++ 0 ∷ []) a b
          × (strcmp (s ++ 0 ∷ r) (t ++ 0 ∷ q) ≡ some (a ⊖ b)))
unfolding strcmp
strcmp_lem [] [] r q h k = inl (refl, refl)
strcmp_lem [] (b ∷ t) r q h (p, k) = inr (
  0,
  b,
  record {
    common = [];
    rest_s = [];
    rest_t = t ++ 0 ∷ [];
    first = refl;
    second = refl;
    differ = λ e. p (sym e);
  },
  refl,
)
strcmp_lem (a ∷ s) [] r q (p, h) k = inr (
  a,
  0,
  record {
    common = [];
    rest_s = s ++ 0 ∷ [];
    rest_t = [];
    first = refl;
    second = refl;
    differ = p;
  },
  ground arith,
)
strcmp_lem (a ∷ s) (b ∷ t) r q (p, h) (p', k) = elim (ℕ_discrete a b) [
  | yes e ↦
      let goes_on : strcmp ((a ∷ s) ++ 0 ∷ r) ((b ∷ t) ++ 0 ∷ q)
          ≡ strcmp (s ++ 0 ∷ r) (t ++ 0 ∷ q) =
        ground arith in
      elim (strcmp_lem s t r q h k) [
        | inl (same, result) ↦ inl (ap₂ ◌∷◌ e same, goes_on ∙ result)
        | inr (x, y, parts, result) ↦ inr (
          x,
          y,
          subst (λ c. PartAt (a ∷ s ++ 0 ∷ []) (c ∷ t ++ 0 ∷ []) x y) e (part-cons _ _ x y a parts),
          goes_on ∙ result,
        )
      ]
  | no ne ↦ inr (
    a,
    b,
    record {
      common = [];
      rest_s = s ++ 0 ∷ [];
      rest_t = t ++ 0 ∷ [];
      first = refl;
      second = refl;
      differ = ne;
    },
    ground arith,
  )
]

pub IsText-append : (s t : List ℕ) → IsText s → IsText t → IsText (s ++ t)
IsText-append [] t h k = k
IsText-append (c ∷ s) t (real, h) k = (real, IsText-append s t h k)

pub IsText-left : (s t : List ℕ) → IsText (s ++ t) → IsText s
IsText-left [] t h = tt
IsText-left (c ∷ s) t (real, h) = (real, IsText-left s t h)
