-- ===== src/Gfx/Screen.antt =====
-- kernel/gfx/surface.cpp and kernel/gfx/buffer.cpp: the surfaces, and how they reach the screen. The buffers of the
-- screen are those of Graphics, and `none` is an access outside of a buffer.
pub mod Refresh
mod Tests
use muk.Prelude.{
  ℕ, zero, suc, ◌+◌, ◌-◌, ◌*◌, ◌/◌, ◌^◌, List, [], ◌∷◌, Option, none, some, Bool, true, false, ◌==◌,
  if◌then◌else◌, ◌>>=◌, bit_and, get_elem?, replicate,
}
use muk.Std.Vector.{put}
use muk.Word.{u32, sub32, add32}
use muk.Gfx.{Rgb, Surface, set_pixel, ScreenBuffer, copy_from}

-- `memcpy(&dest[to], &source[from], n)`
unfoldable pub copy_bytes : ℕ → ℕ → ℕ → List ℕ → List ℕ → Option (List ℕ)
copy_bytes zero from to source dest = some dest
copy_bytes (suc n) from to source dest =
    get_elem? source from >>= λ c. put dest to c >>= copy_bytes n (from + 1) (to + 1) source

-- `memcpy(&bytes[to], &bytes[from], n)`, inside of one buffer
unfoldable pub move_bytes : ℕ → ℕ → ℕ → List ℕ → Option (List ℕ)
move_bytes zero from to bytes = some bytes
move_bytes (suc n) from to bytes =
    get_elem? bytes from >>= λ c. put bytes to c >>= move_bytes n (from + 1) (to + 1)

-- The loop of `apply` over the lines that have changed, from line `y`, with `n` lines left
unfoldable pub apply_lines : ℕ → ℕ → ℕ → Surface → List ℕ → Option (List ℕ)
apply_lines zero y frame_depth s back = some back
apply_lines (suc n) y frame_depth s back = get_elem? s.dirty_buffer y >>= λ changed.
    (if changed
      then copy_bytes s.s_pitch (u32 (y * s.s_pitch))
          (u32 (s.pos_x * (frame_depth / 8) + (y + s.pos_y) * s.s_pitch)) s.buff_loc back
      else some back)
    >>= apply_lines n (y + 1) frame_depth s

unfoldable pub apply_surface : Bool → ℕ → Surface → List ℕ → Option (List ℕ)
apply_surface full_refresh frame_depth s back =
    if full_refresh
    then copy_bytes (u32 (s.s_pitch * s.height)) 0 0 s.buff_loc back
    else apply_lines s.height 0 frame_depth s back

-- `scrollUp`, without the locks around it
unfoldable pub scroll_up : ℕ → ℕ → Surface → Option Surface
scroll_up vga_height num_lines s =
    move_bytes (u32 (s.s_pitch * vga_height * num_lines)) (u32 (num_lines * s.s_pitch)) 0 s.buff_loc
    >>= λ bytes. some (record s { buff_loc = bytes })

-- The inner loop of `setBackground`, down column `x` from row `y`, with `n` rows left
unfoldable pub fill_column : ℕ → ℕ → ℕ → ℕ → Rgb → Surface → Option Surface
fill_column zero x y frame_depth color s = some s
fill_column (suc n) x y frame_depth color s =
    set_pixel frame_depth x y color s >>= fill_column n x (y + 1) frame_depth color

-- The outer loop, from column `x`, with `n` columns left
unfoldable pub fill_columns : ℕ → ℕ → ℕ → Rgb → Surface → Option Surface
fill_columns zero x frame_depth color s = some s
fill_columns (suc n) x frame_depth color s =
    fill_column (sub32 s.height 1) x 0 frame_depth color s
    >>= fill_columns n (x + 1) frame_depth color

unfoldable pub set_background : ℕ → Rgb → Surface → Option Surface
set_background frame_depth color s = fill_columns s.width 0 frame_depth color s

-- The variables of Graphics
pub record Graphics : Type 0 where
  pub frame_height : ℕ
  pub frame_depth : ℕ
  pub frame_pitch : ℕ
  pub front_buffer : ScreenBuffer
  pub back_buffer : ScreenBuffer
  pub dirty_buffer : List Bool

-- `for (auto surf : screen_surfaces)`
unfoldable pub apply_surfaces : ℕ → List Surface → List ℕ → Option (List ℕ)
apply_surfaces frame_depth [] back = some back
apply_surfaces frame_depth (surf ∷ screen_surfaces) back =
    apply_surface true frame_depth surf back >>= apply_surfaces frame_depth screen_surfaces

-- `memset(dirty_buffer, false, n)`, from mark `i`
unfoldable pub clear_marks : ℕ → ℕ → List Bool → Option (List Bool)
clear_marks zero i marks = some marks
clear_marks (suc n) i marks = put marks i false >>= clear_marks n (i + 1)

-- `UpdateBuffers`, with `full` for FULL_REFRESH
unfoldable pub update_buffers : Bool → List Surface → Graphics → Option Graphics
update_buffers full screen_surfaces g =
    apply_surfaces g.frame_depth screen_surfaces g.back_buffer.address >>= λ back.
    copy_from full g.frame_pitch g.dirty_buffer (record g.back_buffer { address = back })
      g.front_buffer
    >>= λ front. clear_marks g.frame_height 0 g.dirty_buffer >>= λ marks. some (record g {
      back_buffer = record g.back_buffer { address = back };
      front_buffer = front;
      dirty_buffer = marks;
    })

-- `drawchar_transparent` at row `cy` and column `cx` of the glyph: the pixel, and the mark of its line
unfoldable pub draw_bit :
    ℕ → List ℕ → ℕ → ℕ → ℕ → ℕ → Rgb → Surface × List Bool → Option (Surface × List Bool)
draw_bit frame_depth glyph x y cx cy fgcolor (s, marks) = get_elem? glyph cy >>= λ row.
    if bit_and row (2 ^ (7 - cx)) == 0
    then some (s, marks)
    else set_pixel frame_depth (add32 x cx) (sub32 (add32 y cy) 12) fgcolor s >>= λ s.
        put marks (sub32 (add32 y cy) 12) true >>= λ marks. some (s, marks)

-- The eight columns of a row, with `n` left
unfoldable pub draw_row :
    ℕ → ℕ → List ℕ → ℕ → ℕ → ℕ → ℕ → Rgb → Surface × List Bool → Option (Surface × List Bool)
draw_row zero frame_depth glyph x y cx cy fgcolor s = some s
draw_row (suc n) frame_depth glyph x y cx cy fgcolor s =
    draw_bit frame_depth glyph x y cx cy fgcolor s
    >>= draw_row n frame_depth glyph x y (cx + 1) cy fgcolor

-- The sixteen rows, with `n` left
unfoldable pub draw_rows :
    ℕ → ℕ → List ℕ → ℕ → ℕ → ℕ → Rgb → Surface × List Bool → Option (Surface × List Bool)
draw_rows zero frame_depth glyph x y cy fgcolor s = some s
draw_rows (suc n) frame_depth glyph x y cy fgcolor s =
    draw_row 8 frame_depth glyph x y 0 cy fgcolor s
    >>= draw_rows n frame_depth glyph x y (cy + 1) fgcolor

-- The glyph comes from the table of the font, and the surface is the first one.
unfoldable pub drawchar_transparent :
    ℕ → (ℕ → List ℕ) → ℕ → ℕ → ℕ → Rgb → Surface × List Bool → Option (Surface × List Bool)
drawchar_transparent frame_depth font_terminus c x y fgcolor s =
    draw_rows 16 frame_depth (font_terminus c) x y 0 fgcolor s
