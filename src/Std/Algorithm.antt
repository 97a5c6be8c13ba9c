-- ===== src/Std/Algorithm.antt =====
-- The algorithms of include/std/algorithm.hpp on arrays. The range from `first` to `last` is the list of
-- its elements, an iterator is an index in it, and an access outside of it is `none`.
pub mod Removal
mod Tests
use muk.Prelude.{
  ℕ, zero, suc, ◌+◌, ◌-◌, List, [], ◌∷◌, Option, none, some, Bool, true, false, not, if◌then◌else◌,
  ◌>>=◌, get_elem?, length,
}
use muk.Std.Vector.{put}

module _ {ℓ} {A : Type ℓ} where
  pub find : (A → A → Bool) → List A → A → ℕ
  find eq [] value = 0
  find eq (x ∷ xs) value = let rest = find eq xs value in if eq x value then 0 else rest + 1

  pub find_if_not : (A → Bool) → List A → ℕ
  find_if_not q [] = 0
  find_if_not q (x ∷ xs) = let rest = find_if_not q xs in if not (q x) then 0 else rest + 1

  pub find_if : (A → Bool) → List A → ℕ
  find_if p [] = 0
  find_if p (x ∷ xs) = let rest = find_if p xs in if p x then 0 else rest + 1

  -- with the `n` counted so far
  pub count_if : (A → Bool) → List A → ℕ → ℕ
  count_if p [] n = n
  count_if p (x ∷ xs) n = count_if p xs (if p x then n + 1 else n)

  -- The array that `d_first` points into, and the final `d_first`.
  pub move : List A → List A → ℕ → Option (List A × ℕ)
  move [] to d_first = some (to, d_first)
  move (x ∷ xs) to d_first = put to d_first x >>= λ to. move xs to (d_first + 1)

  -- The loop of `remove_if`, with `n` rounds left: the array and the final `first`.
  pub remove_loop : ℕ → (A → Bool) → ℕ → ℕ → List A → Option (List A × ℕ)
  remove_loop zero p first i xs = some (xs, first)
  remove_loop (suc n) p first i xs = get_elem? xs i >>= λ x.
      (if p x then some xs else put xs first x) >>= λ ys.
      remove_loop n p (if p x then first else first + 1) (i + 1) ys

  pub remove_if : (A → Bool) → List A → Option (List A × ℕ)
  remove_if p xs =
      let first = find_if p xs in remove_loop (length xs - (first + 1)) p first (first + 1) xs

  pub remove : (A → A → Bool) → List A → A → Option (List A × ℕ)
  remove eq xs value =
      let first = find eq xs value in
      remove_loop (length xs - (first + 1)) (λ x. eq x value) first (first + 1) xs
