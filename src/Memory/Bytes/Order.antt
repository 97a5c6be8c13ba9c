-- ===== src/Memory/Bytes/Order.antt =====
-- The order that `memcmp` finds.
use native.Mathlib.Decide.{ℕ_discrete, dec_lt}
use muk.Prelude.{
  ℕ, zero, suc, ◌+◌, ◌<◌, ◌≤◌, ◌≡◌, refl, true, false, ltb, arith, ◌⊎◌, inl, inr, subst, pos,
  negsuc,
}
use muk.Memory.Bytes.{compare_from, memcmp}

-- The ranges agree before offset `k`.
abbrev pub Agree : (ℕ → ℕ) → ℕ → ℕ → ℕ → ℕ → Type 0
Agree memory a b i k = (j : ℕ) → i ≤ j → j < k → memory (a + j) ≡ memory (b + j)

compare_from_lem :
    (n i a b : ℕ) (memory : ℕ → ℕ)
    → ((compare_from n i a b memory ≡ pos 0) × Agree memory a b i (i + n))
      ⊎ ((k : ℕ) × (i ≤ k)
          × (k < i + n)
          × Agree memory a b i k
          × (((memory (a + k) < memory (b + k)) × (compare_from n i a b memory ≡ negsuc 0))
              ⊎ ((memory (b + k) < memory (a + k)) × (compare_from n i a b memory ≡ pos 1))))
unfolding compare_from
compare_from_lem zero i a b memory = inl (refl, λ j p q. absurd (omega arith))
compare_from_lem (suc n) i a b memory = elim (dec_lt (memory (a + i)) (memory (b + i))) [
  | yes p ↦
      let below : ltb (memory (a + i)) (memory (b + i)) ≡ true = ground arith in
      inr (i, omega arith, omega arith, λ j q r. absurd (omega arith), inl (p, rw below refl))
  | no np ↦ elim (dec_lt (memory (b + i)) (memory (a + i))) [
    | yes p ↦
        let not_below : ltb (memory (a + i)) (memory (b + i)) ≡ false = ground arith in
        let above : ltb (memory (b + i)) (memory (a + i)) ≡ true = ground arith in
        inr (
          i,
          omega arith,
          omega arith,
          λ j q r. absurd (omega arith),
          inr (p, rw (not_below, above) refl),
        )
    | no nq ↦
        let same : memory (a + i) ≡ memory (b + i) = omega arith in
        let not_below : ltb (memory (a + i)) (memory (b + i)) ≡ false = ground arith in
        let not_above : ltb (memory (b + i)) (memory (a + i)) ≡ false = ground arith in
        let first : (k : ℕ) → Agree memory a b (i + 1) k → Agree memory a b i k = λ k agree j q r.
          elim (ℕ_discrete j i) [ yes e ↦ rw e same | no ne ↦ agree j (omega arith) r ] in
        elim (compare_from_lem n (i + 1) a b memory) [
          | inl (result, agree) ↦
              let end_of : i + 1 + n ≡ i + suc n = omega arith in
              inl (
                rw (not_below, not_above) result,
                subst (λ k. Agree memory a b i k) end_of (first (i + 1 + n) agree),
              )
          | inr (k, from, to, agree, result) ↦ inr (
            k,
            omega arith,
            omega arith,
            first k agree,
            elim result [
              | inl (p, r) ↦ inl (p, rw (not_below, not_above) r)
              | inr (p, r) ↦ inr (p, rw (not_below, not_above) r)
            ],
          )
        ]
  ]
]

-- `memcmp` is 0 when the two ranges agree, and else -1 or 1 by the first bytes in which they differ.
pub memcmp_lem :
    (a b size : ℕ) (memory : ℕ → ℕ)
    → ((memcmp a b size memory ≡ pos 0) × Agree memory a b 0 size)
      ⊎ ((k : ℕ) × (k < size)
          × Agree memory a b 0 k
          × (((memory (a + k) < memory (b + k)) × (memcmp a b size memory ≡ negsuc 0))
              ⊎ ((memory (b + k) < memory (a + k)) × (memcmp a b size memory ≡ pos 1))))
unfolding memcmp
memcmp_lem a b size memory =
    let start : 0 + size ≡ size = omega arith in
    elim (compare_from_lem size 0 a b memory) [
      | inl (result, agree) ↦ inl (result, subst (λ k. Agree memory a b 0 k) start agree)
      | inr (k, from, to, agree, result) ↦ inr (k, omega arith, agree, result)
    ]
