-- ===== src/Gfx/Setup/Tests.antt =====
-- A screen of 5000 bytes at 0xFD000000
use muk.Prelude.{◌+◌, ◌≡◌, refl, some, arith}
use muk.Memory.Paging.{PageTableManager, translate}
use muk.Memory.Paging.Sample.{fresh_manager, fresh_absent, fresh-IsManaged}
use muk.Gfx.Setup.{fb_addr_base, map_frames}
use muk.Gfx.Setup.Mapped.{map_frames-Maps}

map_frames-Maps_example :
    (t : PageTableManager) × (map_frames 1024 0 5000 0xFD000000 fresh_manager ≡ some t)
    × (translate t.memory t.directory (fb_addr_base + 4999) ≡ some (0xFD000000 + 4999))
map_frames-Maps_example =
    map_frames-Maps fresh_manager 5000 0xFD000000 4999 (fresh-IsManaged 832 (omega arith))
      (fresh_absent 832 (omega arith)) (omega arith) refl (omega arith) (omega arith) (omega arith)
