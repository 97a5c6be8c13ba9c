-- ===== src/Std/Algorithm/Tests.antt =====
-- The algorithms on a small array.
use muk.Prelude.{ℕ, ◌≡◌, refl, Bool, List, [], ◌∷◌, some, ltb, ◌==◌}
use muk.Std.Algorithm.{find, find_if, find_if_not, count_if, move, remove, remove_if}

abbrev small : ℕ → Bool
small n = ltb n 5

abbrev numbers : List ℕ
numbers = 7 ∷ 2 ∷ 9 ∷ 3 ∷ 8 ∷ []

finds :
    (find (λ a b. a == b) numbers 9 ≡ 2)
    × (find_if small numbers ≡ 1)
    × (find_if_not small numbers ≡ 0)
    × (count_if small numbers 0 ≡ 2)
unfolding find find_if find_if_not count_if
finds = (refl, refl, refl, refl)

moves :
    (move (4 ∷ 5 ∷ []) numbers 1 ≡ some (7 ∷ 4 ∷ 5 ∷ 3 ∷ 8 ∷ [], 3))
    × (remove (λ a b. a == b) numbers 9 ≡ some (7 ∷ 2 ∷ 3 ∷ 8 ∷ 8 ∷ [], 4))
unfolding move remove find muk.Std.Algorithm.remove_loop muk.Std.Vector.put
moves = (refl, refl)
