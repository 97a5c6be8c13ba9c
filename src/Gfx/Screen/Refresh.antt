-- ===== src/Gfx/Screen/Refresh.antt =====
-- What the screen shows after an update.
use mathlib.Core.List.{append_assoc, append-nil}
use muk.Prelude.{
  ℕ, ◌+◌, ◌*◌, ◌^◌, ◌<◌, ◌≡◌, refl, sym, List, [], ◌∷◌, ◌++◌, some, Bool, true, false, length,
  length-append, replicate, arith, subst,
}
use muk.Std.Vector.Writes.{get_elem?_next, put_next}
use muk.Word.{u32}
use muk.Gfx.{Surface}
use muk.Gfx.Frames.{join, AreLines, merged, copy_from-merged}
use muk.Gfx.Screen.{
  copy_bytes, apply_surface, apply_surfaces, clear_marks, Graphics, update_buffers,
}

copy_bytes_lem :
    (src before after pre gap rest : List ℕ) (from to : ℕ)
    → from ≡ length before
    → to ≡ length pre
    → length gap ≡ length src
    → copy_bytes (length src) from to (before ++ (src ++ after)) (pre ++ (gap ++ rest))
      ≡ some (pre ++ (src ++ rest))
unfolding copy_bytes
copy_bytes_lem [] before after pre [] rest from to e p g = refl
copy_bytes_lem [] before after pre (x ∷ gap) rest from to e p g = absurd (omega arith)
copy_bytes_lem (c ∷ src) before after pre [] rest from to e p g = absurd (omega arith)
copy_bytes_lem (c ∷ src) before after pre (x ∷ gap) rest from to e p g =
    let more =
      copy_bytes_lem src (before ++ c ∷ []) after (pre ++ c ∷ []) gap rest (from + 1) (to + 1)
        (omega (arith, length-append before (c ∷ []))) (omega (arith, length-append pre (c ∷ [])))
        (omega arith) in
    cc (
      get_elem?_next before c (src ++ after) from e,
      put_next pre x (gap ++ rest) to c p,
      more,
      append_assoc before (c ∷ []) (src ++ after),
      append_assoc pre (c ∷ []) (gap ++ rest),
      append_assoc pre (c ∷ []) (src ++ rest),
    )

-- A surface whose buffer is as large as that of the screen
pub record FillsScreen (size : ℕ) (s : Surface) : Type 0 where
  pub bytes : length s.buff_loc ≡ size
  pub rows : s.s_pitch * s.height ≡ size

apply_full :
    (frame_depth : ℕ) (s : Surface) (back : List ℕ)
    → FillsScreen (length back) s
    → length back < 2 ^ 32
    → apply_surface true frame_depth s back ≡ some s.buff_loc
unfolding apply_surface
apply_full frame_depth s back fills small =
    let size : u32 (s.s_pitch * s.height) ≡ length s.buff_loc =
      omega (arith, fills.bytes, fills.rows) in
    let copied = copy_bytes_lem s.buff_loc [] [] [] back [] 0 0 refl refl (sym fills.bytes) in
    cc (size, copied, append-nil s.buff_loc, append-nil back)

-- Each of the surfaces is as large as the screen.
abbrev pub AllFill : ℕ → List Surface → Type 0
AllFill size [] = Unit
AllFill size (s ∷ ss) = FillsScreen size s × AllFill size ss

apply_surfaces_lem :
    (frame_depth : ℕ) (ss : List Surface) (top : Surface) (back : List ℕ)
    → AllFill (length back) ss
    → FillsScreen (length back) top
    → length back < 2 ^ 32
    → apply_surfaces frame_depth (ss ++ top ∷ []) back ≡ some top.buff_loc
unfolding apply_surfaces
apply_surfaces_lem frame_depth [] top back all fills small =
    cc (apply_full frame_depth top back fills small)
apply_surfaces_lem frame_depth (s ∷ ss) top back (one, all) fills small =
    let same : length back ≡ length s.buff_loc = sym one.bytes in
    cc (
      apply_full frame_depth s back one small,
      apply_surfaces_lem frame_depth ss top s.buff_loc (subst (λ n. AllFill n ss) same all)
          (subst (λ n. FillsScreen n top) same fills) (omega arith),
    )

clear_marks_lem :
    (marks pre : List Bool) (i : ℕ)
    → i ≡ length pre
    → clear_marks (length marks) i (pre ++ marks) ≡ some (pre ++ replicate (length marks) false)
unfolding clear_marks
clear_marks_lem [] pre i e = refl
clear_marks_lem (m ∷ marks) pre i e =
    let more =
      clear_marks_lem marks (pre ++ false ∷ []) (i + 1)
        (omega (arith, length-append pre (false ∷ []))) in
    cc (
      put_next pre m marks i false e,
      more,
      append_assoc pre (false ∷ []) marks,
      append_assoc pre (false ∷ []) (replicate (length marks) false),
    )

-- `UpdateBuffers`, where every surface is as large as the screen: the back buffer holds the last surface and nothing
-- of the others, whatever their places and depths. The screen shows the lines of this surface that were
-- marked, or all its lines when all are asked for, and the lines that it had elsewhere, and no mark is left.
pub update_buffers_lem :
    (full : Bool) (ss : List Surface) (top : Surface) (g : Graphics) (ls os : List (List ℕ))
    → AllFill (length g.back_buffer.address) ss
    → FillsScreen (length g.back_buffer.address) top
    → length g.back_buffer.address < 2 ^ 32
    → top.buff_loc ≡ join ls
    → g.front_buffer.address ≡ join os
    → AreLines g.frame_pitch ls
    → AreLines g.frame_pitch os
    → length ls ≡ length os
    → g.front_buffer.height ≡ length os
    → g.frame_height ≡ length os
    → length g.dirty_buffer ≡ length os
    → update_buffers full (ss ++ top ∷ []) g
      ≡ some (record g {
        back_buffer = record g.back_buffer { address = top.buff_loc };
        front_buffer = record g.front_buffer { address = join (merged full g.dirty_buffer ls os) };
        dirty_buffer = replicate (length os) false;
      })
unfolding update_buffers
update_buffers_lem full ss top g ls os all fills small shown old new_lines old_lines same height
      rows marks =
    let back = apply_surfaces_lem g.frame_depth ss top g.back_buffer.address all fills small in
    let front =
      copy_from-merged full g.frame_pitch g.dirty_buffer
        (record g.back_buffer { address = top.buff_loc }) g.front_buffer ls os shown old height
        new_lines old_lines same marks in
    let cleared = clear_marks_lem g.dirty_buffer [] 0 refl in cc (back, front, rows, marks, cleared)
