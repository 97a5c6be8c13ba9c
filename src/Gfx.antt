-- ===== src/Gfx.antt =====
-- kernel/gfx/surface.cpp and kernel/gfx/buffer.cpp: pixels, and the copy of the lines that have changed. A buffer
-- is the list of its bytes, and `none` is an access outside of it.
pub mod Frames
pub mod Pixels
pub mod Screen
pub mod Setup
mod Tests
use muk.Prelude.{
  ℕ, zero, suc, ◌+◌, ◌*◌, ◌/◌, List, [], ◌∷◌, Option, none, some, Bool, true, false, ◌||◌, leb,
  if◌then◌else◌, ◌>>=◌, get_elem?,
}
use muk.Std.Text.{strncpy}
use muk.Std.Vector.{put}
use muk.Word.{u32}

pub record Rgb : Type 0 where
  pub r : ℕ
  pub g : ℕ
  pub b : ℕ

-- The place, the size and the buffers of a surface
pub record Surface : Type 0 where
  pub pos_x : ℕ
  pub pos_y : ℕ
  pub width : ℕ
  pub height : ℕ
  pub s_pitch : ℕ
  pub buff_loc : List ℕ
  pub dirty_buffer : List Bool

-- `where`
abbrev pub byte_index : ℕ → ℕ → ℕ → ℕ → ℕ
byte_index frame_depth pitch x y = u32 (x * (frame_depth / 8) + y * pitch)

unfoldable pub set_bytes : List ℕ → ℕ → Rgb → Option (List ℕ)
set_bytes buff i color = put buff i color.b >>= λ buff.
    put buff (u32 (i + 1)) color.g >>= λ buff. put buff (u32 (i + 2)) color.r

unfoldable pub set_pixel : ℕ → ℕ → ℕ → Rgb → Surface → Option Surface
set_pixel frame_depth x y color s =
    if leb s.width x || leb s.height y
    then some s
    else set_bytes s.buff_loc (byte_index frame_depth s.s_pitch x y) color >>= λ buff.
        put s.dirty_buffer y true >>= λ dirty.
        some (record s { buff_loc = buff; dirty_buffer = dirty })

pub record ScreenBuffer : Type 0 where
  pub address : List ℕ
  pub width : ℕ
  pub height : ℕ
  pub depth : ℕ
  pub pitch : ℕ

-- The constructor, whose pitch is the height times the bits of a pixel
unfoldable pub screen_buffer : List ℕ → ℕ → ℕ → ℕ → ScreenBuffer
screen_buffer memory w h d = record {
  address = memory;
  width = w;
  height = h;
  depth = d;
  pitch = u32 (h * d);
}

-- `ScreenBuffer::SetPixel`
unfoldable pub set_screen_pixel : ℕ → ℕ → Rgb → ScreenBuffer → Option ScreenBuffer
set_screen_pixel x y col s =
    if leb s.width x || leb s.height y
    then some s
    else set_bytes s.address (byte_index s.depth s.pitch x y) col >>= λ bytes.
        some (record s { address = bytes })

-- The loop of `ScreenBuffer::CopyFrom` from line `y`, with `n` lines left. `strncpy` copies a line.
unfoldable pub copy_lines : ℕ → ℕ → Bool → ℕ → List Bool → List ℕ → List ℕ → Option (List ℕ)
copy_lines zero y full frame_pitch dirty source dest = some dest
copy_lines (suc n) y full frame_pitch dirty source dest = get_elem? dirty y >>= λ changed.
    (if full || changed then strncpy frame_pitch (y * frame_pitch) 0 source dest else some dest)
    >>= copy_lines n (y + 1) full frame_pitch dirty source

unfoldable pub copy_from : Bool → ℕ → List Bool → ScreenBuffer → ScreenBuffer → Option ScreenBuffer
copy_from full frame_pitch dirty buffer s =
    copy_lines s.height 0 full frame_pitch dirty buffer.address s.address >>= λ bytes.
    some (record s { address = bytes })
