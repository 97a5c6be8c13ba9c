-- ===== src/Gfx/Frames.antt =====
-- The copy of one screen buffer to another.
use mathlib.Core.List.{append_assoc}
use muk.Prelude.{
  ℕ, ◌+◌, ◌*◌, ◌≡◌, refl, sym, ap, ◌∙◌, List, [], ◌∷◌, ◌++◌, some, Bool, true, false, ◌||◌,
  if◌then◌else◌, length, length-append, arith, inl, inr, Bool-cases,
}
use muk.Std.Text.{strncpy}
use muk.Std.Text.Roundtrip.{strncpy_lem}
use muk.Std.Vector.Writes.{get_elem?_next}
use muk.Gfx.{ScreenBuffer, copy_lines, copy_from}

-- The bytes of a list of lines
abbrev pub join : List (List ℕ) → List ℕ
join [] = []
join (l ∷ ls) = l ++ join ls

-- Lines of `pitch` bytes
abbrev pub AreLines : ℕ → List (List ℕ) → Type 0
AreLines pitch [] = Unit
AreLines pitch (l ∷ ls) = (length l ≡ pitch) × AreLines pitch ls

-- The lines after the copy: those of the source where all are copied or the line has changed, and else the old ones.
abbrev pub merged : Bool → List Bool → List (List ℕ) → List (List ℕ) → List (List ℕ)
merged full (d ∷ dirty) (l ∷ ls) (o ∷ os) = (if full || d then l else o) ∷ merged full dirty ls os
merged full dirty ls os = os

kept_new : (b : Bool) (l o : List ℕ) → b ≡ true → (if b then l else o) ≡ l
kept_new b l o h = cc h

kept_old : (b : Bool) (l o : List ℕ) → b ≡ false → (if b then l else o) ≡ o
kept_old b l o h = cc h

copy_lines_lem :
    (full : Bool) (pitch y : ℕ) (before_dirty dirty : List Bool) (before pre : List ℕ)
    (ls os : List (List ℕ))
    → length before_dirty ≡ y
    → length before ≡ y * pitch
    → length pre ≡ y * pitch
    → AreLines pitch ls
    → AreLines pitch os
    → length ls ≡ length os
    → length dirty ≡ length os
    → copy_lines
        (length os)
        y
        full
        pitch
        (before_dirty ++ dirty)
        (before ++ join ls)
        (pre ++ join os)
      ≡ some (pre ++ join (merged full dirty ls os))
unfolding copy_lines
copy_lines_lem full pitch y bd [] before pre [] [] hd hb hp hl ho e k = refl
copy_lines_lem full pitch y bd (d ∷ dirty) before pre [] [] hd hb hp hl ho e k = refl
copy_lines_lem full pitch y bd dirty before pre [] (o ∷ os) hd hb hp hl ho e k =
    absurd (omega arith)
copy_lines_lem full pitch y bd dirty before pre (l ∷ ls) [] hd hb hp hl ho e k =
    absurd (omega arith)
copy_lines_lem full pitch y bd [] before pre (l ∷ ls) (o ∷ os) hd hb hp hl ho e k =
    absurd (omega arith)
copy_lines_lem full pitch y bd (d ∷ dirty) before pre (l ∷ ls) (o ∷ os) hd hb hp (hl, hls) (ho, hos)
      e k =
    let flag = get_elem?_next bd d dirty y (sym hd) in
    let kept = if full || d then l else o in
    let kept_size : length kept ≡ pitch = elim (Bool-cases (full || d)) [
      | inl is ↦ ap length (kept_new (full || d) l o is) ∙ hl
      | inr isnt ↦ ap length (kept_old (full || d) l o isnt) ∙ ho
    ] in
    let line : (if full || d
          then strncpy pitch (y * pitch) 0 (before ++ (l ++ join ls)) (pre ++ (o ++ join os))
          else some (pre ++ (o ++ join os)))
        ≡ some (pre ++ (kept ++ join os)) =
      elim (Bool-cases (full || d)) [
        | inl is ↦
            let copy =
              strncpy_lem l before (join ls) pre o (join os) (y * pitch) 0 (sym hb)
                (omega (arith, hp)) (omega (arith, hl, ho)) in
            cc (is, hl, copy)
        | inr isnt ↦ cc isnt
      ] in
    let more =
      copy_lines_lem full pitch (y + 1) (bd ++ d ∷ []) dirty (before ++ l) (pre ++ kept) ls os
        (omega (arith, length-append bd (d ∷ []), hd))
        (omega (arith, length-append before l, hb, hl))
        (omega (arith, length-append pre kept, hp, kept_size)) hls hos (omega arith)
        (omega arith) in
    cc (
      flag,
      line,
      more,
      append_assoc bd (d ∷ []) dirty,
      append_assoc before l (join ls),
      append_assoc pre kept (join os),
      append_assoc pre kept (join (merged full dirty ls os)),
    )

-- `CopyFrom` between buffers of the same height makes every line that has changed, or all lines when all are asked
-- for, the line of the source, and leaves the others. The mark of a line stands for it in the list of marks.
pub copy_from-merged :
    (full : Bool) (frame_pitch : ℕ) (dirty : List Bool) (buffer s : ScreenBuffer)
    (ls os : List (List ℕ))
    → buffer.address ≡ join ls
    → s.address ≡ join os
    → s.height ≡ length os
    → AreLines frame_pitch ls
    → AreLines frame_pitch os
    → length ls ≡ length os
    → length dirty ≡ length os
    → copy_from full frame_pitch dirty buffer s
      ≡ some (record s { address = join (merged full dirty ls os) })
unfolding copy_from
copy_from-merged full pitch dirty buffer s ls os e k h hl ho same marks = cc (
  e,
  k,
  h,
  copy_lines_lem full pitch 0 [] dirty [] [] ls os refl (omega arith) (omega arith) hl ho same
      marks,
)
