-- ===== src/Memory/Paging/Window.antt =====
-- The recursive entry of the page directory, and the window through which it shows the page tables.
use muk.Prelude.{
  ℕ, ◌+◌, ◌*◌, ◌/◌, ◌%◌, ◌^◌, ◌<◌, ◌≡◌, refl, ◌∙◌, true, ◌==◌, none, some, if◌then◌else◌, arith,
}
use muk.Memory.Bitmap.{BitmapAllocator}
use muk.Memory.Paging.{
  is_present, translate, store, get_from_virtual_address, recursive_entry, new_manager,
}
use muk.Memory.Paging.Entries.{is_present-odd, directory_entry, window_base}

-- The page that an entry names.
abbrev pub page_of : ℕ → ℕ
page_of entry = entry / 2 ^ 12 * 2 ^ 12

-- The last entry of the directory names the directory.
pub record IsRecursive (memory : ℕ → ℕ) (directory : ℕ) : Type 0 where
  pub present : is_present (memory (directory + 1023 * 4)) ≡ true
  pub page : page_of (memory (directory + 1023 * 4)) ≡ directory

pub new_manager-IsRecursive :
    (memory : ℕ → ℕ) (physical_address : ℕ) (phys : BitmapAllocator)
    → physical_address % 2 ^ 12 ≡ 0
    → IsRecursive (new_manager memory physical_address phys).memory physical_address
unfolding new_manager recursive_entry store
new_manager-IsRecursive memory physical_address phys h =
    let here : (physical_address + 1023 * 4 == physical_address + 1023 * 4) ≡ true = ground arith in
    let entry = directory_entry physical_address h in
    let odd : ((physical_address + 39) % 2 == 1) ≡ true = ground arith in
    record {
      present = rw (here, entry) (is_present-odd (physical_address + 39) ∙ odd);
      page = rw (here, entry) (omega arith);
    }

-- A word of the window is the word of the page table that the directory has for it.
pub translate-window :
    (memory : ℕ → ℕ) (directory i k : ℕ)
    → IsRecursive memory directory
    → i < 1024
    → k < 1024
    → translate memory directory (get_from_virtual_address i + k * 4) ≡ (
        if is_present (memory (directory + i * 4))
        then some (page_of (memory (directory + i * 4)) + k * 4)
        else none)
unfolding translate
translate-window memory directory i k r h g =
    let top : (0xFFC00000 + i * 2 ^ 12 + k * 4) / 2 ^ 22 ≡ 1023 = omega arith in
    let middle : (0xFFC00000 + i * 2 ^ 12 + k * 4) / 2 ^ 12 % 2 ^ 10 ≡ i = omega arith in
    let low : (0xFFC00000 + i * 2 ^ 12 + k * 4) % 2 ^ 12 ≡ k * 4 = omega arith in
    rw (window_base i h, top, r.present, r.page, middle, low) refl
