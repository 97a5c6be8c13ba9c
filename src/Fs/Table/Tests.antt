-- ===== src/Fs/Table/Tests.antt =====
-- A table with a chain and a loop.
use muk.Prelude.{ℕ, ◌≡◌, refl, ◌⊎◌, List, [], ◌∷◌, ◌++◌, none, some, replicate}
use muk.Fs.{walk}
use muk.Fs.Table.{Chain}
use muk.Fs.Table.Loops.{Distinct, walk_ends_or_loops}

-- Cluster 2 leads to 5, which is the last, and 7 to itself.
abbrev small_table : List ℕ
small_table = replicate 4 0 ++ (5 ∷ 0 ∷ 0 ∷ 0 ∷ 0 ∷ 0 ∷ 255 ∷ 0 ∷ 0 ∷ 0 ∷ 7 ∷ []) ++ replicate 497 0

walks : (walk 2 small_table 2 ≡ some (some (2 ∷ 5 ∷ []))) × (walk 9 small_table 7 ≡ none)
unfolding walk
walks = (refl, refl)

walk_ends_or_loops_example :
    ((cs : List ℕ) × (walk 248 small_table 2 ≡ some (some cs))
      × Chain small_table 2 cs
      × Distinct cs)
    ⊎ ((n : ℕ) → walk n small_table 2 ≡ none)
walk_ends_or_loops_example = walk_ends_or_loops small_table 2 refl
