-- ===== src/Std/Vector/Tests.antt =====
-- Vectors of numbers.
use muk.Prelude.{ℕ, ◌≡◌, refl, [], ◌∷◌, ◌++◌, some, ◌>>=◌, arith}
use muk.Std.Vector.{Vector, push_back, pop_back, assign}
use muk.Std.Vector.Contents.{IsVector, contents, push_back_lem}

-- Full: the next element needs a larger buffer.
abbrev full_vector : Vector ℕ
full_vector = record { capacity = 2; size = 2; buffer = 7 ∷ 8 ∷ [] }

full_vector-IsVector : IsVector full_vector
full_vector-IsVector = record { room = refl; used = omega arith }

push_back_lem_example :
    (t : Vector ℕ) × (push_back 0 9 full_vector ≡ some t)
    × IsVector t
    × (contents 0 t ≡ contents 0 full_vector ++ 9 ∷ [])
push_back_lem_example = push_back_lem 0 9 full_vector full_vector-IsVector (omega arith)

grows_by_half :
    push_back 0 9 full_vector
    ≡ some (record { capacity = 4; size = 3; buffer = 7 ∷ 8 ∷ 9 ∷ 0 ∷ [] })
unfolding push_back muk.Std.Vector.grow muk.Std.Vector.reserve muk.Std.Vector.copy_elements
    muk.Std.Vector.put
grows_by_half = refl

pops_and_copies :
    (pop_back full_vector >>= λ v. assign 0 v)
    ≡ some (record { capacity = 2; size = 1; buffer = 7 ∷ 0 ∷ [] })
unfolding pop_back assign muk.Std.Vector.copy_elements muk.Std.Vector.put
pops_and_copies = refl
