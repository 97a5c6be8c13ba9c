-- ===== src/Gfx/Pixels.antt =====
-- The writes of a pixel stay inside of the buffer of its surface.
use native.Mathlib.Nat.{mul-le-mul_right}
use muk.Prelude.{
  ℕ, ◌+◌, ◌*◌, ◌/◌, ◌^◌, ◌<◌, ◌≤◌, ◌≡◌, refl, List, some, true, set, length, length-set, leb, ◌||◌,
  arith, inl, inr, Bool-cases,
}
use muk.Std.Vector.Writes.{put-inside}
use muk.Word.{u32}
use muk.Gfx.{Rgb, Surface, byte_index, set_bytes, set_pixel}

-- The pixel at column `x` of row `y` lies in its buffer, for `d` bytes a pixel.
inside : (x y w h d pitch : ℕ) → x < w → y < h → w * d ≤ pitch → x * d + y * pitch + d ≤ h * pitch
inside x y w h d pitch p q fits =
    let row : (x + 1) * d ≤ w * d = mul-le-mul_right d (omega arith) in
    let rows : (y + 1) * pitch ≤ h * pitch = mul-le-mul_right pitch (omega arith) in
    omega (arith, row, rows, fits)

set_bytes_lem :
    (buff : List ℕ) (i : ℕ) (color : Rgb)
    → i + 2 < length buff
    → length buff < 2 ^ 32
    → (buff' : List ℕ) × (set_bytes buff i color ≡ some buff') × (length buff' ≡ length buff)
unfolding set_bytes
set_bytes_lem buff i color h small =
    let one : u32 (i + 1) ≡ i + 1 = omega arith in
    let two : u32 (i + 2) ≡ i + 2 = omega arith in
    let b1 = set buff i color.b in
    let size1 = length-set buff i color.b in
    let b2 = set b1 (i + 1) color.g in
    let size2 = length-set b1 (i + 1) color.g in
    (
      set b2 (i + 2) color.r,
      cc (
        one,
        two,
        put-inside buff i color.b (omega arith),
        put-inside b1 (i + 1) color.g (omega (arith, size1)),
        put-inside b2 (i + 2) color.r (omega (arith, size1, size2)),
      ),
      omega (arith, length-set b2 (i + 2) color.r, size1, size2),
    )

-- With at least three bytes a pixel, rows that fit into the pitch, a buffer of as many rows and less than
-- 2 ^ 32 bytes, and a mark for each row, `setPixel` of a surface makes no access outside of a buffer at any
-- coordinates, and keeps the sizes of the buffers.
pub set_pixel_lem :
    (frame_depth x y : ℕ) (color : Rgb) (s : Surface)
    → 3 ≤ frame_depth / 8
    → s.width * (frame_depth / 8) ≤ s.s_pitch
    → length s.buff_loc ≡ s.height * s.s_pitch
    → length s.buff_loc < 2 ^ 32
    → length s.dirty_buffer ≡ s.height
    → (s' : Surface) × (set_pixel frame_depth x y color s ≡ some s')
      × (length s'.buff_loc ≡ length s.buff_loc)
      × (length s'.dirty_buffer ≡ length s.dirty_buffer)
unfolding set_pixel
set_pixel_lem frame_depth x y color s deep fits size small rows =
    elim (Bool-cases (leb s.width x || leb s.height y)) [
      | inl outside ↦ (s, cc outside, refl, refl)
      | inr on_it ↦
          let column : x < s.width = ground arith in
          let row : y < s.height = ground arith in
          let bound = inside x y s.width s.height (frame_depth / 8) s.s_pitch column row fits in
          let at : byte_index frame_depth s.s_pitch x y ≡ x * (frame_depth / 8) + y * s.s_pitch =
            omega (arith, bound, size, small, deep) in
          let (buff, run, kept) =
            set_bytes_lem s.buff_loc (byte_index frame_depth s.s_pitch x y) color
              (omega (arith, at, bound, size, deep)) small in
          (
            record s { buff_loc = buff; dirty_buffer = set s.dirty_buffer y true },
            cc (on_it, run, put-inside s.dirty_buffer y true (omega (arith, rows, row))),
            kept,
            length-set s.dirty_buffer y true,
          )
    ]
