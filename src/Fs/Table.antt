-- ===== src/Fs/Table.antt =====
-- The chains of the file allocation table: `FileAllocationTable::walk`.
pub mod Loops
mod Tests
use muk.Prelude.{
  ℕ, zero, suc, ◌+◌, ◌*◌, ◌<◌, ◌≤◌, ◌≡◌, ◌≢◌, refl, sym, ap, ◌∙◌, List, [], ◌∷◌, Option, none, some,
  true, false, ltb, ◌>>=◌, length, get_elem?, get_or, get_elem?-eq-get_or, arith, Option-cases, inl,
  inr,
}
use native.Mathlib.Decide.{dec_lt}
use muk.Fs.{walk}

-- The entry of a cluster, the byte at twice its number.
abbrev pub next_cluster : List ℕ → ℕ → ℕ
next_cluster table c = get_or table (c * 2) 0

-- The clusters from `c` on, up to an entry that marks the end.
pub data Chain (table : List ℕ) : ℕ → List ℕ → Type 0 where
  ends : {c : ℕ} → 248 ≤ c → Chain table c []
  follows :
      {c : ℕ} {cs : List ℕ}
      → c < 248
      → Chain table (next_cluster table c) cs
      → Chain table c (c ∷ cs)

walk-end : (n : ℕ) (table : List ℕ) (c : ℕ) → 248 ≤ c → walk n table c ≡ some (some [])
unfolding walk
walk-end zero table c h = ground arith
walk-end (suc n) table c h = let past : ltb c 248 ≡ false = ground arith in rw past refl

walk-step :
    (n : ℕ) (table : List ℕ) (c : ℕ)
    → length table ≡ 512
    → c < 248
    → walk (suc n) table c
      ≡ (walk n table (next_cluster table c) >>= λ rest. some (rest >>= λ chain. some (c ∷ chain)))
unfolding walk
walk-step n table c len h =
    let inside : ltb c 248 ≡ true = ground arith in
    rw (inside, get_elem?-eq-get_or table (c * 2) 0 (omega (arith, len))) refl

-- Along a chain the walk ends, with one round for each cluster, and never reads outside of the table.
pub walk-Chain :
    (table : List ℕ) (c : ℕ) (cs : List ℕ)
    → length table ≡ 512
    → Chain table c cs
    → (n : ℕ) → length cs ≤ n
    → walk n table c ≡ some (some cs)
walk-Chain table c [] len (ends h) n enough = walk-end n table c h
walk-Chain table c (c' ∷ cs) len (follows h chain) zero enough = absurd (omega arith)
walk-Chain table c (c' ∷ cs) len (follows h chain) (suc n) enough =
    rw
      (
        walk-step n table c len h,
        walk-Chain table (next_cluster table c) cs len chain n (omega arith),
      )
      refl

walk-out : (table : List ℕ) (c : ℕ) → c < 248 → walk 0 table c ≡ none
unfolding walk
walk-out table c h = let inside : ltb c 248 ≡ true = ground arith in rw inside refl

-- What a walk that is not out of fuel gives is the chain, and it fits in the fuel.
walk-some :
    (n : ℕ) (table : List ℕ) (c : ℕ) (r : Option (List ℕ))
    → length table ≡ 512
    → walk n table c ≡ some r
    → (cs : List ℕ) × (r ≡ some cs) × Chain table c cs × (length cs ≤ n)
walk-some zero table c r len e = elim (dec_lt c 248) [
  | yes h ↦ absurd (cc (walk-out table c h, e))
  | no h ↦ ([], cc (walk-end 0 table c (omega arith), e), ends (omega arith), omega arith)
]
walk-some (suc n) table c r len e = elim (dec_lt c 248) [
  | yes h ↦ elim (Option-cases (walk n table (next_cluster table c))) [
    | inl out ↦
        let step : walk (suc n) table c ≡ none = rw (walk-step n table c len h, out) refl in
        absurd (cc (step, e))
    | inr (r', found) ↦
        let (cs, is, chain, fits) = walk-some n table (next_cluster table c) r' len found in
        let step : walk (suc n) table c ≡ some (some (c ∷ cs)) =
          rw (walk-step n table c len h, found, is) refl in
        (c ∷ cs, cc (step, e), follows h chain, omega arith)
  ]
  | no h ↦ ([], cc (walk-end (suc n) table c (omega arith), e), ends (omega arith), omega arith)
]
