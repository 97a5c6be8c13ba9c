-- ===== src/Std/Format/Copies.antt =====
-- The loops of the printf functions that copy bytes.
use mathlib.Core.List.{append_assoc}
use muk.Prelude.{
  ℕ, zero, suc, ◌+◌, ◌-◌, ◌^◌, ◌<◌, ◌≤◌, ◌≡◌, refl, ap, List, [], ◌∷◌, ◌++◌, some, true, false,
  ◌||◌, ◌==◌, length, length-append, arith, inl, ◌⊎◌,
}
use muk.Std.Cstring.{IsText}
use muk.Std.Vector.Writes.{put_next}
use muk.Std.Format.{copy_arg, copy_run, print}

-- The first `n` elements and the others.
pub split_list {ℓ} :
    {A : Type ℓ} (n : ℕ) (xs : List A)
    → n ≤ length xs
    → (ys : List A) × (zs : List A) × (xs ≡ ys ++ zs) × (length ys ≡ n)
split_list zero xs h = ([], xs, refl, refl)
split_list (suc n) [] h = absurd (omega arith)
split_list (suc n) (x ∷ xs) h =
    let (ys, zs, e, size) = split_list n xs (omega arith) in
    (x ∷ ys, zs, ap (λ l. x ∷ l) e, ap suc size)

-- Every byte is a NUL.
abbrev pub AreZero : List ℕ → Type 0
AreZero [] = Unit
AreZero (c ∷ cs) = (c ≡ 0) × AreZero cs

-- The first byte is a NUL or a percent sign, every other a NUL.
abbrev pub IsClear : List ℕ → Type 0
IsClear [] = Unit
IsClear (c ∷ cs) = ((c ≡ 0) ⊎ (c ≡ 37)) × AreZero cs

pub AreZero-IsClear : (cs : List ℕ) → AreZero cs → IsClear cs
AreZero-IsClear [] h = tt
AreZero-IsClear (c ∷ cs) (e, h) = (inl e, h)

pub AreZero-append : (front rest : List ℕ) → AreZero (front ++ rest) → AreZero rest
AreZero-append [] rest h = h
AreZero-append (c ∷ front) rest (e, h) = AreZero-append front rest h

pub IsClear-append : (front rest : List ℕ) → IsClear (front ++ rest) → IsClear rest
IsClear-append [] rest h = h
IsClear-append (c ∷ front) rest (first, h) = AreZero-IsClear rest (AreZero-append front rest h)

pub copy_arg_lem :
    (t r pre gap rest : List ℕ) (at : ℕ)
    → IsText t
    → at ≡ length pre
    → length gap ≡ length t
    → copy_arg (t ++ 0 ∷ r) at (pre ++ (gap ++ rest)) ≡ some (pre ++ (t ++ rest), length t)
unfolding copy_arg
copy_arg_lem [] r pre [] rest at h e g = refl
copy_arg_lem [] r pre (x ∷ gap) rest at h e g = absurd (omega arith)
copy_arg_lem (c ∷ t) r pre [] rest at h e g = absurd (omega arith)
copy_arg_lem (c ∷ t) r pre (x ∷ gap) rest at (other, h) e g =
    let go : (c == 0) ≡ false = ground arith in
    let one : length t + 1 ≡ suc (length t) = omega arith in
    cc (
      go,
      put_next pre x (gap ++ rest) at c e,
      copy_arg_lem t r (pre ++ c ∷ []) gap rest (at + 1) h
          (omega (arith, length-append pre (c ∷ []))) (omega arith),
      append_assoc pre (c ∷ []) (gap ++ rest),
      append_assoc pre (c ∷ []) (t ++ rest),
      one,
    )

-- Bytes that stand for themselves in a format.
abbrev pub ArePlain : List ℕ → Type 0
ArePlain [] = Unit
ArePlain (c ∷ cs) = ((c == 0 || c == 37) ≡ false) × (c < 256) × ArePlain cs

pub copy_run_lem :
    (cs pre gap rest format : List ℕ) (x at : ℕ)
    → ArePlain cs
    → (x == 0 || x == 37) ≡ true
    → at ≡ length pre
    → length gap ≡ length cs
    → copy_run (cs ++ x ∷ format) at (pre ++ (gap ++ rest))
      ≡ some (pre ++ (cs ++ rest), x ∷ format, length cs)
unfolding copy_run
copy_run_lem [] pre [] rest format x at h last e g = cc last
copy_run_lem [] pre (y ∷ gap) rest format x at h last e g = absurd (omega arith)
copy_run_lem (c ∷ cs) pre [] rest format x at h last e g = absurd (omega arith)
copy_run_lem (c ∷ cs) pre (y ∷ gap) rest format x at (plain, byte, h) last e g =
    let one : length cs + 1 ≡ suc (length cs) = omega arith in
    cc (
      plain,
      put_next pre y (gap ++ rest) at c e,
      copy_run_lem cs (pre ++ c ∷ []) gap rest format x (at + 1) h last
          (omega (arith, length-append pre (c ∷ []))) (omega arith),
      append_assoc pre (c ∷ []) (gap ++ rest),
      append_assoc pre (c ∷ []) (cs ++ rest),
      one,
    )

pub print_lem : (cs format : List ℕ) → ArePlain cs → print (cs ++ format) (length cs) ≡ some true
unfolding print
print_lem [] format h = refl
print_lem (c ∷ cs) format (plain, byte, h) =
    let go : (c == 2 ^ 32 - 1) ≡ false = ground arith in cc (go, print_lem cs format h)
