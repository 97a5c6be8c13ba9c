-- ===== src/Std/Algorithm/Removal.antt =====
-- `remove_if` keeps, in their order, the elements that do not have the property, and `count_if` counts the
-- others.
use mathlib.Core.List.{append_assoc, append-nil}
use muk.Prelude.{
  ℕ, suc, ◌+◌, ◌-◌, ◌≡◌, refl, sym, ap, ◌∙◌, ◌⊎◌, inl, inr, List, [], ◌∷◌, ◌++◌, some, Bool,
  if◌then◌else◌, length, length-append, get_elem?, Bool-cases, arith,
}
use muk.Std.Vector.{put}
use muk.Std.Vector.Writes.{put_next, get_elem?_next}
use muk.Std.Algorithm.{find_if, count_if, remove_loop, remove_if}

-- The elements that do not have the property.
abbrev pub others {ℓ} : {A : Type ℓ} → (A → Bool) → List A → List A
others p [] = []
others p (x ∷ xs) = if p x then others p xs else x ∷ others p xs

-- A gap moves on by one element.
shift_gap {ℓ} :
    {A : Type ℓ} (gap : List A) (x : A) (todo : List A)
    → (g : A) × (gap' : List A) × (gap ++ x ∷ todo ≡ g ∷ (gap' ++ todo))
      × (length gap' ≡ length gap)
shift_gap [] x todo = (x, [], refl, refl)
shift_gap (g ∷ gap) x todo = (
  g,
  gap ++ x ∷ [],
  ap (λ l. g ∷ l) (sym (append_assoc gap (x ∷ []) todo)),
  omega (arith, length-append gap (x ∷ [])),
)

module _ {ℓ} {A : Type ℓ} (p : A → Bool) where
  -- The array is `kept`, a gap of at least one element, and the elements still to be read.
  remove_loop-others :
      (todo kept gap : List A) (g : A) (first i : ℕ)
      → first ≡ length kept
      → i ≡ length kept + suc (length gap)
      → (rest : List A) × (remove_loop (length todo) p first i (kept ++ g ∷ (gap ++ todo))
          ≡ some (kept ++ (others p todo ++ rest), length kept + length (others p todo)))
        × (length (others p todo) + length rest ≡ suc (length gap) + length todo)
  unfolding remove_loop
  remove_loop-others [] kept gap g first i e h =
      let at : first ≡ length kept + 0 = omega arith in
      (g ∷ gap, cc (append-nil gap, at), omega arith)
  remove_loop-others (x ∷ todo) kept gap g first i e h =
      let array = kept ++ g ∷ (gap ++ x ∷ todo) in
      let there : get_elem? array i ≡ some x = cc (
        get_elem?_next (kept ++ g ∷ gap) x todo i (omega (arith, length-append kept (g ∷ gap))),
        append_assoc kept (g ∷ gap) (x ∷ todo),
      ) in
      elim (Bool-cases (p x)) [
        | inl dropped ↦
            let longer = gap ++ x ∷ [] in
            let (rest, done, size) =
              remove_loop-others todo kept longer g first (i + 1) e
                (omega (arith, length-append gap (x ∷ []))) in
            let same : array ≡ kept ++ g ∷ (longer ++ todo) =
              ap (λ l. kept ++ g ∷ l) (sym (append_assoc gap (x ∷ []) todo)) in
            (
              rest,
              rw (there, dropped) (ap (remove_loop (length todo) p first (i + 1)) same ∙ done),
              rw dropped (omega (arith, size, length-append gap (x ∷ []))),
            )
        | inr stays ↦
            let (g', gap', moved, size') = shift_gap gap x todo in
            let (rest, done, size) =
              remove_loop-others todo (kept ++ x ∷ []) gap' g' (first + 1) (i + 1)
                (omega (arith, length-append kept (x ∷ [])))
                (omega (arith, length-append kept (x ∷ []), size')) in
            let written : put array first x ≡ some (kept ++ x ∷ (gap ++ x ∷ todo)) =
              put_next kept g (gap ++ x ∷ todo) first x e in
            let same : kept ++ x ∷ (gap ++ x ∷ todo) ≡ (kept ++ x ∷ []) ++ g' ∷ (gap' ++ todo) =
              cc (moved, append_assoc kept (x ∷ []) (g' ∷ (gap' ++ todo))) in
            let first' : length (kept ++ x ∷ []) + length (others p todo)
                ≡ length kept + suc (length (others p todo)) =
              omega (arith, length-append kept (x ∷ [])) in
            (
              rest,
              rw (there, stays, written)
                  (ap (remove_loop (length todo) p (first + 1) (i + 1)) same
                    ∙ cc (done, first', append_assoc kept (x ∷ []) (others p todo ++ rest))),
              rw stays (omega (arith, size, size')),
            )
      ]

  -- The first element with the property, if there is one.
  split_first :
      (xs : List A)
      → ((others p xs ≡ xs) × (find_if p xs ≡ length xs))
        ⊎ ((before : List A) × (x : A) × (after : List A) × (xs ≡ before ++ x ∷ after)
            × (find_if p xs ≡ length before)
            × (others p xs ≡ before ++ others p after))
  unfolding find_if
  split_first [] = inl (refl, refl)
  split_first (x ∷ xs) = elim (Bool-cases (p x)) [
    | inl found ↦ inr ([], x, xs, refl, rw found refl, rw found refl)
    | inr passed ↦ elim (split_first xs) [
      | inl (same, none_found) ↦ inl (rw (passed, same) refl, rw passed (omega (arith, none_found)))
      | inr (before, y, after, split, at, same) ↦ inr (
        x ∷ before,
        y,
        after,
        ap (λ l. x ∷ l) split,
        rw passed (omega (arith, at)),
        rw (passed, same) refl,
      )
    ]
  ]

  -- `remove_if` never leaves the array, keeps its length, and moves the elements without the property, in
  -- their order, to its front: the iterator that it returns is their end.
  pub remove_if_lem :
      (xs : List A)
      → (rest : List A) × (remove_if p xs ≡ some (others p xs ++ rest, length (others p xs)))
        × (length (others p xs) + length rest ≡ length xs)
  unfolding remove_if remove_loop
  remove_if_lem xs = elim (split_first xs) [
    | inl (same, at) ↦
        let no_rounds : length xs - (find_if p xs + 1) ≡ 0 = omega (arith, at) in
        (
          [],
          ap (λ n. remove_loop n p (find_if p xs) (find_if p xs + 1) xs) no_rounds
              ∙ cc (at, same, append-nil xs),
          omega (arith, ap length same),
        )
    | inr (before, x, after, split, at, same) ↦
        let whole = ap length split ∙ length-append before (x ∷ after) in
        let kept = ap length same ∙ length-append before (others p after) in
        let first = find_if p xs in
        let rounds : length xs - (first + 1) ≡ length after = omega (arith, whole, at) in
        let (rest, done, size) =
          remove_loop-others after before [] x first (first + 1) at (omega (arith, at)) in
        (
          rest,
          ap (λ n. remove_loop n p first (first + 1) xs) rounds
              ∙ ap (remove_loop (length after) p first (first + 1)) split
              ∙ cc (done, same, kept, append_assoc before (others p after) rest),
          omega (arith, size, whole, kept),
        )
  ]

  -- `count_if` counts what `remove_if` takes away.
  pub count_if_lem : (xs : List A) (n : ℕ) → count_if p xs n + length (others p xs) ≡ n + length xs
  unfolding count_if
  count_if_lem [] n = refl
  count_if_lem (x ∷ xs) n = elim (Bool-cases (p x)) [
    | inl counted ↦ rw counted (omega (arith, count_if_lem xs (n + 1)))
    | inr passed ↦ rw passed (omega (arith, count_if_lem xs n))
  ]
