-- ===== src/Gfx/Tests.antt =====
-- Pixels of a small surface.
use muk.Prelude.{◌≡◌, refl, [], ◌∷◌, some, none, true, false, replicate}
use muk.Std.Text.{strncpy}
use muk.Std.Vector.{put}
use muk.Gfx.{Rgb, Surface, set_pixel, set_bytes, screen_buffer, set_screen_pixel, copy_lines}

abbrev orange : Rgb
orange = record { r = 255; g = 128; b = 1 }

-- Two pixels of 24 bits in each of two rows
abbrev small : Surface
small = record {
  pos_x = 0;
  pos_y = 0;
  width = 2;
  height = 2;
  s_pitch = 6;
  buff_loc = replicate 12 0;
  dirty_buffer = false ∷ false ∷ [];
}

lower_right :
    set_pixel 24 1 1 orange small
    ≡ some (record {
      pos_x = 0;
      pos_y = 0;
      width = 2;
      height = 2;
      s_pitch = 6;
      buff_loc = 0 ∷ 0 ∷ 0 ∷ 0 ∷ 0 ∷ 0 ∷ 0 ∷ 0 ∷ 0 ∷ 1 ∷ 128 ∷ 255 ∷ [];
      dirty_buffer = false ∷ true ∷ [];
    })
unfolding set_pixel set_bytes put
lower_right = refl

-- The pitch of a screen of 2 by 2 pixels is 48, so the second row lies outside of the buffer.
second_row : set_screen_pixel 0 1 orange (screen_buffer (replicate 12 0) 2 2 24) ≡ none
unfolding set_screen_pixel set_bytes put screen_buffer
second_row = refl

-- Only the line that has changed is copied.
one_line :
    copy_lines 2 0 false 2 (false ∷ true ∷ []) (1 ∷ 2 ∷ 3 ∷ 4 ∷ []) (9 ∷ 9 ∷ 9 ∷ 9 ∷ [])
    ≡ some (9 ∷ 9 ∷ 3 ∷ 4 ∷ [])
unfolding copy_lines strncpy put
one_line = refl
