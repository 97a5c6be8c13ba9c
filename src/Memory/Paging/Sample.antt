-- ===== src/Memory/Paging/Sample.antt =====
-- A page directory at 1 MiB, and an allocator with the pages 4 to 7.
use muk.Prelude.{ℕ, zero, suc, ◌+◌, ◌*◌, ◌^◌, ◌<◌, ◌≡◌, refl, [], ◌∷◌, false, ◌==◌, get_or, arith}
use muk.Memory.Bitmap.{BitmapAllocator}
use muk.Memory.Bitmap.Marks.{IsValid}
use muk.Memory.Paging.{PageTableManager, is_present, new_manager}
use muk.Memory.Paging.Window.{IsRecursive, new_manager-IsRecursive}
use muk.Memory.Paging.Provide.{IsManaged}

abbrev pub four_pages : BitmapAllocator
four_pages = record { free_pages = 4; bitmap = 0xF0 ∷ [] }

four_pages-IsValid : IsValid four_pages
four_pages-IsValid = record { words = words }
  where
    words : (i : ℕ) → get_or (0xF0 ∷ []) i 0 < 2 ^ 32
    words zero = omega arith
    words (suc i) = omega arith

pub blank_memory : ℕ → ℕ
blank_memory a = 0

abbrev pub fresh_manager : PageTableManager
fresh_manager = new_manager blank_memory 0x100000 four_pages

pub fresh-IsRecursive : IsRecursive (new_manager blank_memory 0x100000 four_pages).memory 0x100000
fresh-IsRecursive = new_manager-IsRecursive blank_memory 0x100000 four_pages refl

-- Every entry but the last is absent.
entry_absent :
    (pd : ℕ)
    → pd < 1023
    → is_present ((new_manager blank_memory 0x100000 four_pages).memory (0x100000 + pd * 4)) ≡ false
unfolding is_present new_manager muk.Memory.Paging.store blank_memory
entry_absent pd h =
    let other : (0x100000 + pd * 4 == 0x100000 + 1023 * 4) ≡ false = ground arith in rw other refl

pub fresh_absent :
    (pd : ℕ)
    → pd < 1023
    → is_present (fresh_manager.memory (fresh_manager.directory + pd * 4)) ≡ false
unfolding new_manager
fresh_absent pd h = entry_absent pd h

pub fresh-IsManaged : (pd : ℕ) → pd < 1023 → IsManaged fresh_manager pd
unfolding new_manager muk.Word.bit
fresh-IsManaged pd h = record {
  aligned = refl;
  placed = omega arith;
  recursive = fresh-IsRecursive;
  apart = λ e. absurd (ground (arith, e, entry_absent pd h));
  valid = four_pages-IsValid;
  size = omega arith;
  taken = refl;
}
