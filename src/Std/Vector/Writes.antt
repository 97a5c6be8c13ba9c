-- ===== src/Std/Vector/Writes.antt =====
-- The write `put` to a buffer.
use muk.Prelude.{
  ℕ, ◌<◌, ◌≡◌, refl, ap, List, [], ◌∷◌, ◌++◌, some, true, ltb, length, set, length-append, arith,
  get_elem?,
}
use muk.Std.Vector.{put}

-- A write inside of a buffer succeeds.
pub put-inside {ℓ} :
    {A : Type ℓ} (buffer : List A) (i : ℕ) (v : A)
    → i < length buffer
    → put buffer i v ≡ some (set buffer i v)
unfolding put
put-inside buffer i v h = let inside : ltb i (length buffer) ≡ true = ground arith in rw inside refl

set_next {ℓ} :
    {A : Type ℓ} (pre : List A) (g : A) (gap : List A) (v : A)
    → set (pre ++ g ∷ gap) (length pre) v ≡ pre ++ v ∷ gap
set_next [] g gap v = refl
set_next (x ∷ pre) g gap v = ap (λ l. x ∷ l) (set_next pre g gap v)

-- A write just behind the elements `pre`.
pub put_next {ℓ} :
    {A : Type ℓ} (pre : List A) (g : A) (gap : List A) (i : ℕ) (v : A)
    → i ≡ length pre
    → put (pre ++ g ∷ gap) i v ≡ some (pre ++ v ∷ gap)
put_next pre g gap i v e =
    rw (put-inside (pre ++ g ∷ gap) i v (omega (arith, length-append pre (g ∷ gap), e)), e)
      (ap some (set_next pre g gap v))

get_elem?-length {ℓ} :
    {A : Type ℓ} (pre : List A) (g : A) (gap : List A)
    → get_elem? (pre ++ g ∷ gap) (length pre) ≡ some g
get_elem?-length [] g gap = refl
get_elem?-length (x ∷ pre) g gap = get_elem?-length pre g gap

pub get_elem?_next {ℓ} :
    {A : Type ℓ} (pre : List A) (g : A) (gap : List A) (i : ℕ)
    → i ≡ length pre
    → get_elem? (pre ++ g ∷ gap) i ≡ some g
get_elem?_next pre g gap i e = rw e (get_elem?-length pre g gap)
