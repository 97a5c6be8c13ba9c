-- ===== src/Tty/Cells.antt =====
-- Where the characters of a text without control characters are drawn.
use native.Mathlib.Nat.{suc-mul, mul-le-mul_right}
use native.Mathlib.Decide.{dec_lt}
use muk.Prelude.{
  ℕ, suc, ◌+◌, ◌*◌, ◌^◌, ◌<◌, ◌≤◌, ◌≡◌, ◌≢◌, refl, subst, sym, ap, ap₂, ◌∙◌, List, [], ◌∷◌, true,
  false, ◌==◌, if◌then◌else◌, arith,
}
use muk.Word.{u32}
use muk.Tty.{Cell, Terminal, update_cursor, put_entry_at, advance, putchar, put_all}

-- The next character has its cell on the grid.
pub record IsOn (width height : ℕ) (t : Terminal) : Type 0 where
  pub column_in : t.column < width
  pub row_in : t.row < height

abbrev pub IsPrintable : ℕ → Type 0
IsPrintable c = (c ≢ 10) × (c ≢ 13) × (c ≢ 9)

abbrev pub ArePrintable : List ℕ → Type 0
ArePrintable [] = Unit
ArePrintable (c ∷ text) = IsPrintable c × ArePrintable text

-- A cell as its number, row by row, with its character.
abbrev pub numbered : ℕ → List Cell → List (ℕ × ℕ)
numbered width [] = []
numbered width (c ∷ cells) = (c.char, c.y * width + c.x) ∷ numbered width cells

-- The characters of a text in the cells from number `k` on, and from 0 again after the last of `total`.
abbrev pub filled : ℕ → List ℕ → ℕ → List (ℕ × ℕ) → List (ℕ × ℕ)
filled total [] k cells = cells
filled total (c ∷ text) k cells =
    filled total text (if k + 1 == total then 0 else k + 1) ((c, k) ∷ cells)

rows_last : (r h w : ℕ) → r + 1 ≡ h → r * w + w ≡ h * w
rows_last r h w e = omega (arith, suc-mul r w, ap (λ n. n * w) (add-one-eq r h e))
  where
    add-one-eq : (r h : ℕ) → r + 1 ≡ h → suc r ≡ h
    add-one-eq r h e = omega arith

rows_below : (r h w : ℕ) → r < h → r * w + w ≤ h * w
rows_below r h w below = omega (arith, suc-mul r w, mul-le-mul_right w below)

-- A step of the position, as a step of the number of the cell
abbrev Steps : ℕ → ℕ → Terminal → Terminal → Type 0
Steps width height t t' =
    IsOn width height t'
    × (t'.row * width + t'.column ≡ (
        if t.row * width + t.column + 1 == height * width then 0 else t.row * width + t.column + 1))
    × (t'.drawn ≡ t.drawn)

advance_lem :
    (width height : ℕ) (t : Terminal)
    → width < 2 ^ 32
    → height < 2 ^ 32
    → IsOn width height t
    → Steps width height t (advance width height t)
unfolding advance
advance_lem width height t w h on =
    let on_column = on.column_in in
    let on_row = on.row_in in
    let next : u32 (t.column + 1) ≡ t.column + 1 = omega arith in
    let down : u32 (t.row + 1) ≡ t.row + 1 = omega arith in
    let rows = rows_below t.row height width on.row_in in
    elim (dec_lt (t.column + 1) width) [
      | yes inside ↦
          let test : (t.column + 1 == width) ≡ false = ground arith in
          let same : advance width height t ≡ record t { column = t.column + 1 } =
            cc (next, test) in
          let more : (t.row * width + t.column + 1 == height * width) ≡ false =
            ground (arith, rows) in
          subst (Steps width height t) (sym same)
            (record { column_in = inside; row_in = on.row_in }, rw more (omega arith), refl)
      | no last ↦
          let at_end : t.column + 1 ≡ width = omega arith in
          let test : (t.column + 1 == width) ≡ true = ground arith in
          elim (dec_lt (t.row + 1) height) [
            | yes inside ↦
                let test_row : (t.row + 1 == height) ≡ false = ground arith in
                let same : advance width height t ≡ record t { column = 0; row = t.row + 1 } =
                  cc (next, down, test, test_row) in
                let rows' = rows_below (t.row + 1) height width inside in
                let below = rows_last t.row (t.row + 1) width refl in
                let more : (t.row * width + t.column + 1 == height * width) ≡ false =
                  ground (arith, rows', below) in
                subst (Steps width height t) (sym same) (
                  record { column_in = omega arith; row_in = inside },
                  rw more (omega (arith, below)),
                  refl,
                )
            | no bottom ↦
                let test_row : (t.row + 1 == height) ≡ true = ground arith in
                let same : advance width height t ≡ record t { column = 0; row = 0 } =
                  cc (next, down, test, test_row) in
                let all = rows_last t.row height width (omega arith) in
                let full : (t.row * width + t.column + 1 == height * width) ≡ true =
                  ground (arith, all) in
                subst (Steps width height t) (sym same) (
                  record { column_in = omega arith; row_in = omega arith },
                  rw full (omega arith),
                  refl,
                )
          ]
    ]

putchar_lem :
    (width height c : ℕ) (t : Terminal)
    → width < 2 ^ 32
    → height < 2 ^ 32
    → IsOn width height t
    → IsPrintable c
    → IsOn width height (putchar width height c t)
      × ((putchar width height c t).row * width + (putchar width height c t).column ≡ (
          if t.row * width + t.column + 1 == height * width
          then 0
          else t.row * width + t.column + 1))
      × ((putchar width height c t).drawn ≡ record { char = c; x = t.column; y = t.row } ∷ t.drawn)
unfolding putchar put_entry_at update_cursor
putchar_lem width height c t w h on (newline, back, tab) =
    let t' = put_entry_at c t.column t.row t in
    let (on', number, kept) =
      advance_lem width height t' w h (record { column_in = on.column_in; row_in = on.row_in }) in
    let a = advance width height t' in
    let no_newline : (c == 10) ≡ false = ground arith in
    let no_return : (c == 13) ≡ false = ground arith in
    let no_tab : (c == 9) ≡ false = ground arith in
    let same : putchar width height c t ≡ update_cursor a.row a.column a =
      cc (no_newline, no_return, no_tab) in
    (
      subst (IsOn width height) (sym same)
          (record { column_in = on'.column_in; row_in = on'.row_in }),
      ap (λ u. u.row * width + u.column) same ∙ number,
      ap (λ u. u.drawn) same ∙ kept,
    )

-- A text without control characters fills the cells of the grid one after the other, row by row, from the
-- position of the terminal on and again from the first cell after the last, and never leaves the grid.
pub put_all-filled :
    (width height : ℕ) (text : List ℕ) (t : Terminal)
    → width < 2 ^ 32
    → height < 2 ^ 32
    → IsOn width height t
    → ArePrintable text
    → (numbered width (put_all width height text t).drawn
        ≡ filled (height * width) text (t.row * width + t.column) (numbered width t.drawn))
      × IsOn width height (put_all width height text t)
unfolding put_all
put_all-filled width height [] t w h on ok = (refl, on)
put_all-filled width height (c ∷ text) t w h on (printable, ok) =
    let (on', number, drew) = putchar_lem width height c t w h on printable in
    let (rest, last) = put_all-filled width height text (putchar width height c t) w h on' ok in
    (
      rest ∙ ap₂ (λ k cells. filled (height * width) text k (numbered width cells)) number drew,
      last,
    )
