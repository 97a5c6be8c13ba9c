-- ===== src/Memory/Heap/Chain.antt =====
-- The chain of block headers from the start of the heap.
use muk.Prelude.{
  ℕ, zero, suc, ◌+◌, ◌<◌, ◌≤◌, ◌≡◌, sym, ap, ◌∙◌, List, [], ◌∷◌, ◌++◌, some, false, ◌||◌, ◌==◌,
  arith, ◌⊎◌, inl, inr, length,
}
use muk.Memory.Heap.{BlockHeader, find_block}

abbrev pub sum : List ℕ → ℕ
sum [] = 0
sum (s ∷ sizes) = s + sum sizes

-- Blocks of these sizes follow each other from `a` on, each linked to the next; the last one has no
-- next block, or is its own.
abbrev pub IsChain : (ℕ → BlockHeader) → ℕ → List ℕ → Type 0
IsChain headers a [] = Unit
IsChain headers a (s ∷ []) =
    ((headers a).size ≡ s) × (12 ≤ s) × (((headers a).next ≡ 0) ⊎ ((headers a).next ≡ a))
IsChain headers a (s ∷ t ∷ sizes) =
    ((headers a).size ≡ s)
    × (12 ≤ s)
    × ((headers a).next ≡ a + s)
    × IsChain headers (a + s) (t ∷ sizes)

abbrev pub last_block : ℕ → List ℕ → ℕ
last_block a [] = a
last_block a (s ∷ []) = a
last_block a (s ∷ t ∷ sizes) = last_block (a + s) (t ∷ sizes)

pub find_block-last :
    (fuel a s : ℕ) (sizes : List ℕ) (headers : ℕ → BlockHeader)
    → 0 < a
    → length (s ∷ sizes) ≤ fuel
    → IsChain headers a (s ∷ sizes)
    → find_block fuel headers a ≡ some (last_block a (s ∷ sizes))
unfolding find_block
find_block-last zero a s sizes headers p f c = absurd (omega arith)
find_block-last (suc fuel) a s [] headers p f (size, big, next) = elim next [
  | inl e ↦ ground (arith, e)
  | inr e ↦ ground (arith, e)
]
find_block-last (suc fuel) a s (t ∷ sizes) headers p f (size, big, next, c) =
    let more : ((a + s == 0) || (a == a + s)) ≡ false = ground arith in
    rw (next, more) (find_block-last fuel (a + s) t sizes headers (omega arith) (omega arith) c)

-- The last block ends where the chain does.
pub last_block-ends :
    (a s : ℕ) (sizes : List ℕ) (headers : ℕ → BlockHeader)
    → IsChain headers a (s ∷ sizes)
    → (last_block a (s ∷ sizes) + (headers (last_block a (s ∷ sizes))).size ≡ a + sum (s ∷ sizes))
      × (a ≤ last_block a (s ∷ sizes))
      × (12 ≤ (headers (last_block a (s ∷ sizes))).size)
last_block-ends a s [] headers (size, big, next) = (omega arith, omega arith, omega arith)
last_block-ends a s (t ∷ sizes) headers (size, big, next, c) =
    let (ends, above, large) = last_block-ends (a + s) t sizes headers c in
    (omega arith, omega arith, large)

-- A chain depends on the headers below its end alone.
pub IsChain-below :
    (a : ℕ) (sizes : List ℕ) (headers others : ℕ → BlockHeader)
    → ((x : ℕ) → x < a + sum sizes → others x ≡ headers x)
    → IsChain headers a sizes
    → IsChain others a sizes
IsChain-below a [] headers others same c = tt
IsChain-below a (s ∷ []) headers others same (size, big, next) =
    rw (same a (omega arith)) (size, big, next)
IsChain-below a (s ∷ t ∷ sizes) headers others same (size, big, next, c) =
    let rest = IsChain-below (a + s) (t ∷ sizes) headers others (λ x p. same x (omega arith)) c in
    let here : others a ≡ headers a = same a (omega arith) in
    (
      ap (λ (h : BlockHeader). h.size) here ∙ size,
      big,
      ap (λ (h : BlockHeader). h.next) here ∙ next,
      rest,
    )

-- A block behind the last one, which links to it.
pub IsChain-append :
    (a s n : ℕ) (sizes : List ℕ) (headers others : ℕ → BlockHeader)
    → 12 ≤ n
    → ((x : ℕ) → x < last_block a (s ∷ sizes) → others x ≡ headers x)
    → (others (last_block a (s ∷ sizes))).size ≡ (headers (last_block a (s ∷ sizes))).size
    → (others (last_block a (s ∷ sizes))).next ≡ a + sum (s ∷ sizes)
    → (others (a + sum (s ∷ sizes))).size ≡ n
    → (others (a + sum (s ∷ sizes))).next ≡ 0
    → IsChain headers a (s ∷ sizes)
    → IsChain others a (s ∷ sizes ++ n ∷ [])
IsChain-append a s n [] headers others big_n same size_l next_l size_n next_n (size, big, next) =
    let e : a + (s + 0) ≡ a + s = omega arith in
    (
      size_l ∙ size,
      big,
      next_l ∙ e,
      (
        ap (λ x. (others x).size) (sym e) ∙ size_n,
        big_n,
        inl (ap (λ x. (others x).next) (sym e) ∙ next_n),
      ),
    )
IsChain-append a s n (t ∷ sizes) headers others big_n same size_l next_l size_n next_n
      (size, big, next, c) =
    let e : a + sum (s ∷ t ∷ sizes) ≡ a + s + sum (t ∷ sizes) = omega arith in
    let (ends, above, large) = last_block-ends (a + s) t sizes headers c in
    let here : others a ≡ headers a = same a (omega arith) in
    (
      ap (λ (h : BlockHeader). h.size) here ∙ size,
      big,
      ap (λ (h : BlockHeader). h.next) here ∙ next,
      IsChain-append (a + s) t n sizes headers others big_n same size_l (next_l ∙ e)
          (ap (λ x. (others x).size) (sym e) ∙ size_n) (ap (λ x. (others x).next) (sym e) ∙ next_n)
          c,
    )

pub sum-append : (sizes : List ℕ) (n : ℕ) → sum (sizes ++ n ∷ []) ≡ sum sizes + n
sum-append [] n = omega arith
sum-append (s ∷ sizes) n = omega (arith, sum-append sizes n)
