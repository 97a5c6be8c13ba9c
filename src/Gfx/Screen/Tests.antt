-- ===== src/Gfx/Screen/Tests.antt =====
-- A screen of one pixel of 24 bits in each of two lines, and two surfaces of this size.
use muk.Prelude.{ℕ, ◌≡◌, refl, List, [], ◌∷◌, some, none, true, false, replicate, arith}
use muk.Std.Vector.{put}
use muk.Gfx.{Surface, ScreenBuffer, set_pixel, set_bytes}
use muk.Gfx.Screen.{
  Graphics, update_buffers, set_background, fill_columns, fill_column, scroll_up, move_bytes,
  drawchar_transparent, draw_rows, draw_row, draw_bit,
}
use muk.Gfx.Screen.Refresh.{update_buffers_lem}

abbrev surface_of : List ℕ → Surface
surface_of bytes = record {
  pos_x = 0;
  pos_y = 0;
  width = 1;
  height = 2;
  s_pitch = 3;
  buff_loc = bytes;
  dirty_buffer = false ∷ false ∷ [];
}

abbrev lower : Surface
lower = surface_of (replicate 6 5)

abbrev upper : Surface
upper = surface_of (1 ∷ 2 ∷ 3 ∷ 4 ∷ 5 ∷ 6 ∷ [])

abbrev buffer_of : List ℕ → ScreenBuffer
buffer_of bytes = record { address = bytes; width = 1; height = 2; depth = 24; pitch = 48 }

abbrev graphics : Graphics
graphics = record {
  frame_height = 2;
  frame_depth = 24;
  frame_pitch = 3;
  front_buffer = buffer_of (replicate 6 9);
  back_buffer = buffer_of (replicate 6 0);
  dirty_buffer = false ∷ true ∷ [];
}

-- The second line is the one that was marked.
update_buffers_lem_example :
    update_buffers false (lower ∷ upper ∷ []) graphics
    ≡ some (record graphics {
      back_buffer = buffer_of (1 ∷ 2 ∷ 3 ∷ 4 ∷ 5 ∷ 6 ∷ []);
      front_buffer = buffer_of (9 ∷ 9 ∷ 9 ∷ 4 ∷ 5 ∷ 6 ∷ []);
      dirty_buffer = false ∷ false ∷ [];
    })
update_buffers_lem_example =
    update_buffers_lem false (lower ∷ []) upper graphics ((1 ∷ 2 ∷ 3 ∷ []) ∷ (4 ∷ 5 ∷ 6 ∷ []) ∷ [])
      ((9 ∷ 9 ∷ 9 ∷ []) ∷ (9 ∷ 9 ∷ 9 ∷ []) ∷ []) (record { bytes = refl; rows = refl }, tt)
      (record { bytes = refl; rows = refl }) (omega arith) refl refl (refl, (refl, tt))
      (refl, (refl, tt)) refl refl refl refl

-- The last line keeps its bytes.
last_line_kept :
    set_background 24 (record { r = 3; g = 2; b = 1 }) lower
    ≡ some (record (surface_of (1 ∷ 2 ∷ 3 ∷ 5 ∷ 5 ∷ 5 ∷ [])) { dirty_buffer = true ∷ false ∷ [] })
unfolding set_background fill_columns fill_column set_pixel set_bytes put
last_line_kept = refl

-- One line up, with a screen of one row of text
one_up : scroll_up 1 1 upper ≡ some (surface_of (4 ∷ 5 ∷ 6 ∷ 4 ∷ 5 ∷ 6 ∷ []))
unfolding scroll_up move_bytes put
one_up = refl

-- Below row 12 a character leaves the marks of the lines.
too_high :
    drawchar_transparent 24
      (λ c. 128 ∷ replicate 15 0)
      65
      0
      0
      (record { r = 3; g = 2; b = 1 })
      (lower, false ∷ false ∷ [])
    ≡ none
unfolding drawchar_transparent draw_rows draw_row draw_bit set_pixel put
too_high = refl
