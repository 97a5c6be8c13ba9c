-- ===== src/Gfx/Setup.antt =====
-- The loop of Graphics::Setup, kernel/gfx/buffer.cpp, that maps the memory of the screen at 0xD0000000. `none` is a
-- page fault, or that the rounds have run out.
pub mod Mapped
mod Tests
use muk.Prelude.{ℕ, zero, suc, ◌+◌, ◌*◌, Option, none, some, if◌then◌else◌, ltb, ◌>>=◌}
use muk.Word.{u32}
use muk.Memory.Paging.{PageTableManager, map_page}

abbrev pub fb_addr_base : ℕ
fb_addr_base = 0xD0000000

-- From page `pg_num`, with `n` rounds left
unfoldable pub map_frames : ℕ → ℕ → ℕ → ℕ → PageTableManager → Option PageTableManager
map_frames zero pg_num fb_size fb_phys_loc s =
    if ltb (u32 (pg_num * 4096)) fb_size then none else some s
map_frames (suc n) pg_num fb_size fb_phys_loc s =
    if ltb (u32 (pg_num * 4096)) fb_size
    then (map_page (u32 (fb_addr_base + pg_num * 4096)) (u32 (fb_phys_loc + pg_num * 4096)) s
        >>= map_frames n (pg_num + 1) fb_size fb_phys_loc)
    else some s
