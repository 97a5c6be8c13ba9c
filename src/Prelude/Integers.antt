-- ===== src/Prelude/Integers.antt =====
-- The integers over the native numbers.
use Prim.Native.Nat.{ℕ, zero, suc}

pub data ℤ : Type 0 where
  pos : ℕ → ℤ
  negsuc : ℕ → ℤ

-- The difference of two numbers.
infixl 60 ◌⊖◌
abbrev pub ◌⊖◌ : ℕ → ℕ → ℤ
a ⊖ zero = pos a
zero ⊖ suc b = negsuc b
suc a ⊖ suc b = a ⊖ b
