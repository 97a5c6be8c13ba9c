-- ===== src/Memory/Paging/Tests.antt =====
-- A directory that holds only the entry for itself
use muk.Prelude.{◌+◌, ◌*◌, ◌≡◌, refl, some, none, if◌then◌else◌, arith}
use muk.Memory.Paging.{PageTableManager, is_present, translate, get_from_virtual_address, map_page}
use muk.Memory.Paging.Window.{page_of, translate-window}
use muk.Memory.Paging.Mapped.{Maps, map_page-Maps}
use muk.Memory.Paging.Sample.{fresh_manager, fresh-IsRecursive, fresh-IsManaged}

map_page-Maps_example :
    (t : PageTableManager) × (map_page 0xE0000ABC 0 fresh_manager ≡ some t)
    × Maps fresh_manager 0xE0000ABC 0 t
map_page-Maps_example =
    map_page-Maps fresh_manager 0xE0000ABC 0 (omega arith) (omega arith) refl
      (fresh-IsManaged 896 (omega arith))

translate-window_example :
    translate fresh_manager.memory 0x100000 (get_from_virtual_address 1023 + 5 * 4) ≡ (
      if is_present (fresh_manager.memory (0x100000 + 1023 * 4))
      then some (page_of (fresh_manager.memory (0x100000 + 1023 * 4)) + 5 * 4)
      else none)
translate-window_example =
    translate-window fresh_manager.memory 0x100000 1023 5 fresh-IsRecursive (omega arith)
      (omega arith)
