-- ===== src/Memory/Bitmap.antt =====
-- The physical memory manager, `BitmapAllocator` of kernel/memory/manager.cpp: one bit for each
-- page of 4 KiB, 1 for a page that is free. An access outside of `bitmap` is `none`.
pub mod Marks
pub mod Allocate
pub mod Init
mod Tests
use muk.Prelude.{
  ℕ, zero, suc, ◌+◌, ◌-◌, ◌*◌, ◌^◌, bit_and, bit_or, List, [], ◌∷◌, Option, none, some, ◌==◌,
  if◌then◌else◌, ◌>>=◌, length, get_elem?, set,
}
use muk.Word.{add32, sub32, shr, not32, u32}

-- The template parameter `BitmapSize` is the length of `bitmap`.
pub record BitmapAllocator : Type 0 where
  pub free_pages : ℕ
  pub bitmap : List ℕ

-- `memory_map_t` of include/kernel/multiboot.hpp, with the fields that are read.
pub record MemoryMap : Type 0 where
  pub base_addr_low : ℕ
  pub length_low : ℕ
  pub type : ℕ

abbrev pub multiboot_memory_available : ℕ
multiboot_memory_available = 1

pub page_free : BitmapAllocator → ℕ → Option BitmapAllocator
page_free s page_index = do
  word ← get_elem? s.bitmap (shr page_index 5)
  some (record s {
    bitmap = set s.bitmap (shr page_index 5) (bit_or word (2 ^ bit_and page_index 0x1F));
    free_pages = add32 s.free_pages 1;
  })

pub page_taken : BitmapAllocator → ℕ → Option BitmapAllocator
page_taken s page_index = do
  word ← get_elem? s.bitmap (shr page_index 5)
  some (record s {
    bitmap = set s.bitmap (shr page_index 5) (bit_and word (not32 (2 ^ bit_and page_index 0x1F)));
    free_pages = sub32 s.free_pages 1;
  })

-- `for (bit = 0; bit < 32; bit++)`, with `n` rounds left
pub find_bit : ℕ → ℕ → ℕ → Option ℕ
find_bit zero bit word = none
find_bit (suc n) bit word =
    let rest = find_bit n (bit + 1) word in if bit_and word (2 ^ bit) == 0 then rest else some bit

-- `for (chunk = 0; chunk < BitmapSize; chunk++)` over the words that are left
pub find_page : List ℕ → ℕ → Option ℕ
find_page [] chunk = none
find_page (word ∷ words) chunk =
    let rest = find_page words (chunk + 1) in
    if word == 0
    then rest
    else elim (find_bit 32 0 word) [ none ↦ rest | some bit ↦ some (u32 (chunk * 32 + bit)) ]

-- What `AllocatePage` does with the page that it found: the address and the new state. Address 0 is
-- the NULL of "no free memory".
pub take_found : BitmapAllocator → Option ℕ → Option (ℕ × BitmapAllocator)
take_found s none = some (0, s)
take_found s (some pg_num) = page_taken s pg_num >>= λ t. some (u32 (pg_num * 2 ^ 12), t)

pub allocate_page : BitmapAllocator → Option (ℕ × BitmapAllocator)
unfolding take_found
allocate_page s = take_found s (find_page s.bitmap 0)

-- `for (pg_index = pg; pg_index < pg + n; pg_index++)` of the two loops of the constructor
pub free_range : ℕ → ℕ → BitmapAllocator → Option BitmapAllocator
free_range zero pg s = some s
free_range (suc n) pg s = page_free s pg >>= free_range n (pg + 1)

pub take_range : ℕ → ℕ → BitmapAllocator → Option BitmapAllocator
take_range zero pg s = some s
take_range (suc n) pg s = page_taken s pg >>= take_range n (pg + 1)

pub first_pg : MemoryMap → ℕ
first_pg m = shr (bit_and m.base_addr_low 0xFFFFF000) 12

pub end_pg : MemoryMap → ℕ
end_pg m = shr (bit_and (add32 m.base_addr_low m.length_low) 0xFFFFF000) 12

-- The loop over the boot loader's memory map.
pub free_entries : List MemoryMap → BitmapAllocator → Option BitmapAllocator
free_entries [] s = some s
free_entries (m ∷ ms) s =
    (if m.type == multiboot_memory_available
      then free_range (end_pg m - first_pg m) (first_pg m) s
      else some s)
    >>= free_entries ms

-- The constructor. It sets `free_pages` and leaves `bitmap` as the storage was: `storage`. The
-- entries are the `mmap_length / sizeof(memory_map_t)` ones at `mmap_addr`.
pub init : List ℕ → List MemoryMap → ℕ → Option BitmapAllocator
init storage entries kernel_end =
    free_entries entries (record { free_pages = 0; bitmap = storage })
    >>= take_range (shr (bit_and kernel_end 0xFFFFF000) 12 + 1) 0
