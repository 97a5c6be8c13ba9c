-- ===== src/Std/Text/Equal.antt =====
-- When `strcmp` gives 0, and when a string is copied whole.
use muk.Prelude.{
  ℕ, zero, suc, ◌-◌, ◌^◌, ◌<◌, ◌≡◌, ◌≢◌, refl, ap, List, [], ◌∷◌, ◌++◌, some, true, false, length,
  pos, ◌⊖◌, ◌⊎◌, inl, inr, arith, ℤ,
}
use muk.Std.Cstring.{strcmp, IsText}
use muk.Std.Cstring.Compare.{PartAt, strcmp_lem}
use muk.Std.Text.{copy_of, is_zero}
use muk.Std.Text.Roundtrip.{text_of, append_lem}
use muk.Std.Vector.Writes.{get_elem?_next}

is_zero-difference : (a b : ℕ) → a ≢ b → is_zero (a ⊖ b) ≡ false
unfolding is_zero
is_zero-difference a zero h = ground arith
is_zero-difference zero (suc b) h = refl
is_zero-difference (suc a) (suc b) h = is_zero-difference a b (λ e. h (ap suc e))

parted : (s t : List ℕ) (a b : ℕ) → PartAt (s ++ 0 ∷ []) (t ++ 0 ∷ []) a b → s ≢ t
parted s t a b p e = p.differ (
    cc (
      e,
      p.first,
      p.second,
      get_elem?_next p.common a p.rest_s (length p.common) refl,
      get_elem?_next p.common b p.rest_t (length p.common) refl,
    ))

-- `strcmp` of two C strings is 0 when they are the same text, and only then.
pub compared :
    (s t r q : List ℕ)
    → IsText s
    → IsText t
    → (z : ℤ) × (strcmp (s ++ 0 ∷ r) (t ++ 0 ∷ q) ≡ some z)
      × (((s ≡ t) × (is_zero z ≡ true)) ⊎ ((s ≢ t) × (is_zero z ≡ false)))
unfolding is_zero
compared s t r q h k = elim (strcmp_lem s t r q h k) [
  | inl (same, run) ↦ (pos 0, run, inl (same, refl))
  | inr (a, b, p, run) ↦ (a ⊖ b, run, inr (parted s t a b p, is_zero-difference a b p.differ))
]

pub copied : (s : List ℕ) → length s < 2 ^ 32 - 1 → copy_of (text_of s) ≡ some (text_of s)
copied s h = let (longer, one_more, copy) = append_lem s [] 0 (omega arith) h in copy

pub same_text :
    (s r q : List ℕ)
    → IsText s
    → (z : ℤ) × (strcmp (s ++ 0 ∷ r) (s ++ 0 ∷ q) ≡ some z) × (is_zero z ≡ true)
same_text s r q h =
    let (z, run, answer) = compared s s r q h h in
    elim answer [ inl (same, is) ↦ (z, run, is) | inr (unlike, isnt) ↦ absurd (unlike refl) ]

pub unlike_texts :
    (s t r q : List ℕ)
    → IsText s
    → IsText t
    → s ≢ t
    → (z : ℤ) × (strcmp (s ++ 0 ∷ r) (t ++ 0 ∷ q) ≡ some z) × (is_zero z ≡ false)
unlike_texts s t r q h k unlike =
    let (z, run, answer) = compared s t r q h k in
    elim answer [ inl (same, is) ↦ absurd (unlike same) | inr (other, isnt) ↦ (z, run, isnt) ]
