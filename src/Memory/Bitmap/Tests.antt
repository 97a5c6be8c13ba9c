-- ===== src/Memory/Bitmap/Tests.antt =====
-- The allocator at small bitmaps.
use muk.Prelude.{
  ℕ, zero, suc, ◌*◌, ◌/◌, ◌^◌, ◌<◌, ◌≡◌, refl, List, [], ◌∷◌, some, arith, leb, if◌then◌else◌,
  length, get_or,
}
use muk.Memory.Bitmap.{
  BitmapAllocator, MemoryMap, page_free, page_taken, find_bit, find_page, allocate_page, free_range,
  take_range, first_pg, end_pg, free_entries, init,
}
use muk.Memory.Bitmap.Marks.{free_bit, IsValid}
use muk.Memory.Bitmap.Allocate.{Allocates, allocate_page-Allocates}
use muk.Memory.Bitmap.Init.{covered, init_lem}

-- Pages 34 and 36 of 64 are free.
abbrev two_free : BitmapAllocator
two_free = record { free_pages = 2; bitmap = 0 ∷ 20 ∷ [] }

two_free-words : (i : ℕ) → get_or two_free.bitmap i 0 < 2 ^ 32
two_free-words zero = omega arith
two_free-words (suc zero) = omega arith
two_free-words (suc (suc i)) = omega arith

two_free-IsValid : IsValid two_free
two_free-IsValid = record { words = two_free-words }

-- 16 pages of memory, of which the kernel has the first four; the storage holds one stray bit.
abbrev stray : List ℕ
stray = 2 ^ 31 ∷ []

abbrev regions : List MemoryMap
regions =
    record { base_addr_low = 0; length_low = 0x2000; type = 1 }
    ∷ record { base_addr_low = 0x2000; length_low = 0x8000; type = 2 }
    ∷ record { base_addr_low = 0xA000; length_low = 0x6000; type = 1 }
    ∷ []

stray-words : (i : ℕ) → get_or stray i 0 < 2 ^ 32
stray-words zero = omega arith
stray-words (suc i) = omega arith

allocates_first :
    allocate_page two_free ≡ some (34 * 4096, record { free_pages = 1; bitmap = 0 ∷ 16 ∷ [] })
unfolding allocate_page find_page find_bit page_taken
allocates_first = refl

-- Pages 10 to 15 are free and, by the stray bit, page 31: seven pages. `free_pages` says four, since
-- pages 2 and 3 were counted off and had not been counted.
init_runs : init stray regions 0x3FFF ≡ some (record { free_pages = 4; bitmap = 0x8000FC00 ∷ [] })
unfolding init free_entries free_range take_range first_pg end_pg page_free page_taken
init_runs = refl

allocate_page-Allocates_example : Allocates two_free (allocate_page two_free)
allocate_page-Allocates_example = allocate_page-Allocates two_free two_free-IsValid (omega arith)

init_lem_example :
    (t : BitmapAllocator) × (init stray regions 0x3FFF ≡ some t)
    × IsValid t
    × (length t.bitmap ≡ 1)
    × ((q : ℕ)
        → free_bit t q ≡ (
            if leb q (0x3FFF / 4096)
            then 0
            else if covered regions q
            then 1
            else free_bit (record { free_pages = 0; bitmap = stray }) q))
init_lem_example =
    init_lem stray regions 0x3FFF stray-words (omega arith) (omega arith) (omega arith)
