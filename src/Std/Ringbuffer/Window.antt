-- ===== src/Std/Ringbuffer/Window.antt =====
-- The bytes from an index on, going round at the size of the buffer.
use muk.Prelude.{
  ℕ, zero, suc, ◌+◌, ◌-◌, ◌≤◌, ◌<◌, ◌≡◌, refl, sym, ap, ap₂, ◌∙◌, List, [], ◌∷◌, ◌++◌, arith, leb,
  if◌then◌else◌, get_or, set, length, get_or-set_self, get_or-set_ne,
}
use muk.Std.Ringbuffer.{next_index}

-- The index `n` steps after `i`, for `i < size` and `n ≤ size`.
abbrev pub ahead : ℕ → ℕ → ℕ → ℕ
ahead size i n = if leb size (i + n) then i + n - size else i + n

module _ (bytes : List ℕ) (size : ℕ) where
  abbrev pub window : ℕ → ℕ → List ℕ
  window i zero = []
  window i (suc n) = get_or bytes i 0 ∷ window (next_index size i) n

  pub length-window : (i n : ℕ) → length (window i n) ≡ n
  length-window i zero = refl
  length-window i (suc n) = ap suc (length-window (next_index size i) n)

  pub window-uncons :
      (i n : ℕ) → 0 < n → window i n ≡ get_or bytes i 0 ∷ window (next_index size i) (n - 1)
  window-uncons i zero h = absurd (omega arith)
  window-uncons i (suc n) h =
      ap (λ k. get_or bytes i 0 ∷ window (next_index size i) k) (omega arith)

pub next_index-lt : (size i : ℕ) → i < size → next_index size i < size
unfolding next_index
next_index-lt size i h = ground arith

ahead-next_index :
    (size i n : ℕ)
    → i < size
    → suc n ≤ size
    → ahead size (next_index size i) n ≡ ahead size i (suc n)
unfolding next_index
ahead-next_index size i n h k = ground arith

-- Writing just past a window that is not full extends it.
pub window-set_end :
    (bytes : List ℕ) (size i n j v : ℕ)
    → size ≤ length bytes
    → i < size
    → n < size
    → j ≡ ahead size i n
    → window (set bytes j v) size i (suc n) ≡ window bytes size i n ++ v ∷ []
window-set_end bytes size i zero j v st h k e =
    let same : j ≡ i = ground arith in rw (same, get_or-set_self bytes i v 0 (omega arith))
window-set_end bytes size i (suc n) j v st h k e =
    ap₂ ◌∷◌ (get_or-set_ne bytes j i v 0 (ground arith)) (
      window-set_end bytes size (next_index size i) n j v st (next_index-lt size i h) (omega arith)
        (e ∙ sym (ahead-next_index size i n h (omega arith))))
