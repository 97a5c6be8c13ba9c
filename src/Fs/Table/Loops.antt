-- ===== src/Fs/Table/Loops.antt =====
-- A chain that ends has no cluster twice, so it has at most 248 clusters.
use muk.Prelude.{◌==◌, if◌then◌else◌, Bool-cases}
use muk.Prelude.{
  ℕ, zero, suc, ◌<◌, ◌≤◌, ◌≡◌, ◌≢◌, refl, sym, ap, subst, ◌⊎◌, inl, inr, List, [], ◌∷◌, none, some,
  length, arith, Option-cases,
}
use muk.Fs.{walk}
use muk.Fs.Table.{Chain, ends, follows, next_cluster, walk-Chain, walk-some}

-- `x` stands in the list.
abbrev pub Has : ℕ → List ℕ → Type 0
Has x [] = ⊥
Has x (y ∷ ys) = (x ≡ y) ⊎ Has x ys

abbrev pub Distinct : List ℕ → Type 0
Distinct [] = Unit
Distinct (x ∷ xs) = (¬ Has x xs) × Distinct xs

-- The list without the first `x`.
abbrev without : ℕ → List ℕ → List ℕ
without x [] = []
without x (y ∷ ys) = let rest = without x ys in if x == y then ys else y ∷ rest

Has-without : (x y : ℕ) (ys : List ℕ) → Has y (without x ys) → Has y ys
Has-without x y [] h = h
Has-without x y (z ∷ ys) h = elim (Bool-cases (x == z)) [
  | inl same ↦ inr (subst (λ b. Has y (if b then ys else z ∷ without x ys)) same h)
  | inr other ↦ elim (subst (λ b. Has y (if b then ys else z ∷ without x ys)) other h) [
    | inl here ↦ inl here
    | inr there ↦ inr (Has-without x y ys there)
  ]
]

length-without : (x : ℕ) (ys : List ℕ) → length ys ≤ suc (length (without x ys))
length-without x [] = omega arith
length-without x (y ∷ ys) = ground (arith, length-without x ys)

without-Distinct : (x : ℕ) (ys : List ℕ) → Distinct ys → Distinct (without x ys)
without-Distinct x [] d = tt
without-Distinct x (y ∷ ys) (fresh, d) = elim (Bool-cases (x == y)) [
  | inl same ↦ rw same d
  | inr other ↦ rw other (λ h. fresh (Has-without x y ys h), without-Distinct x ys d)
]

not_left : (x : ℕ) (ys : List ℕ) → Distinct ys → ¬ Has x (without x ys)
not_left x [] d h = h
not_left x (y ∷ ys) (fresh, d) h = elim (Bool-cases (x == y)) [
  | inl same ↦ fresh (
      let e : x ≡ y = ground arith in
      subst (λ z. Has z ys) e (subst (λ b. Has x (if b then ys else y ∷ without x ys)) same h))
  | inr other ↦ elim (subst (λ b. Has x (if b then ys else y ∷ without x ys)) other h) [
    | inl here ↦ ground arith
    | inr there ↦ not_left x ys d there
  ]
]

-- Distinct numbers below `n` are at most `n`.
pigeonhole : (n : ℕ) (xs : List ℕ) → Distinct xs → ((x : ℕ) → Has x xs → x < n) → length xs ≤ n
pigeonhole zero [] d h = omega arith
pigeonhole zero (x ∷ xs) d h = absurd (let b = h x (inl refl) in omega arith)
pigeonhole (suc n) xs d h =
    let rest = pigeonhole n (without n xs) (without-Distinct n xs d) (λ x there.
      let b = h x (Has-without n x xs there) in
      let other : x ≢ n = λ e. not_left n xs d (subst (λ y. Has y (without n xs)) e there) in
      omega arith) in
    omega (arith, length-without n xs)

-- Where a cluster stands in a chain, the rest of the chain is its own.
suffix :
    (table : List ℕ) (c x : ℕ) (cs : List ℕ)
    → Chain table c cs
    → Has x cs
    → (xs : List ℕ) × Chain table x (x ∷ xs) × (suc (length xs) ≤ length cs)
suffix table c x [] (ends h) there = absurd there
suffix table c x (c' ∷ cs) (follows h chain) there = elim there [
  | inl here ↦ (cs, subst (λ y. Chain table y (y ∷ cs)) (sym here) (follows h chain), omega arith)
  | inr later ↦
      let (xs, own, shorter) = suffix table (next_cluster table c) x cs chain later in
      (xs, own, omega arith)
]

-- A table gives each cluster one chain.
same_length :
    (table : List ℕ) (c : ℕ) (cs ds : List ℕ)
    → Chain table c cs
    → Chain table c ds
    → length cs ≡ length ds
same_length table c [] [] p q = refl
same_length table c [] (d ∷ ds) (ends h) (follows k q) = absurd (omega arith)
same_length table c (c' ∷ cs) [] (follows h p) (ends k) = absurd (omega arith)
same_length table c (c' ∷ cs) (d ∷ ds) (follows h p) (follows k q) =
    ap suc (same_length table (next_cluster table c) cs ds p q)

Chain-Distinct : (table : List ℕ) (c : ℕ) (cs : List ℕ) → Chain table c cs → Distinct cs
Chain-Distinct table c [] p = tt
Chain-Distinct table c (c' ∷ cs) (follows h p) = (
  λ again.
      let (xs, own, shorter) = suffix table (next_cluster table c) c cs p again in
      let same = same_length table c (c ∷ cs) (c ∷ xs) (follows h p) own in omega arith,
  Chain-Distinct table (next_cluster table c) cs p,
)

Chain-below :
    (table : List ℕ) (c : ℕ) (cs : List ℕ) → Chain table c cs → (x : ℕ) → Has x cs → x < 248
Chain-below table c [] p x there = absurd there
Chain-below table c (c' ∷ cs) (follows h p) x there = elim there [
  | inl here ↦ omega arith
  | inr later ↦ Chain-below table (next_cluster table c) cs p x later
]

-- With 248 rounds `walk` gives the chain of the cluster, whose clusters are distinct, or else no number of
-- rounds is enough, and the loop never ends.
pub walk_ends_or_loops :
    (table : List ℕ) (c : ℕ)
    → length table ≡ 512
    → ((cs : List ℕ) × (walk 248 table c ≡ some (some cs)) × Chain table c cs × Distinct cs)
      ⊎ ((n : ℕ) → walk n table c ≡ none)
walk_ends_or_loops table c len = elim (Option-cases (walk 248 table c)) [
  | inr (r, found) ↦
      let (cs, is, chain, fits) = walk-some 248 table c r len found in
      inl (cs, rw (found, is) refl, chain, Chain-Distinct table c cs chain)
  | inl out ↦ inr (λ n. elim (Option-cases (walk n table c)) [
    | inl never ↦ never
    | inr (r, found) ↦
        let (cs, is, chain, fits) = walk-some n table c r len found in
        let short =
          pigeonhole 248 cs (Chain-Distinct table c cs chain) (Chain-below table c cs chain) in
        absurd (cc (walk-Chain table c cs len chain 248 short, out))
  ])
]
