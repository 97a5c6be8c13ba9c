-- ===== src/Memory/Paging.antt =====
-- The page table manager, `PageTableManager` of kernel/memory/manager.cpp. Physical memory is a
-- function from the address of a 32-bit word to the word. The page directory is written through
-- `page_dir`, which stands for its physical address `directory`; a page table is written through
-- its virtual address, which the processor translates. `none` is a page fault.
pub mod Entries
pub mod Window
pub mod Table
pub mod Provide
pub mod Mapped
pub mod Given
pub mod Sample
mod Tests
use muk.Prelude.{
  ℕ, zero, suc, ◌+◌, ◌-◌, ◌*◌, ◌/◌, ◌%◌, ◌^◌, bit_and, bit_or, Option, none, some, Bool, true,
  false, ◌==◌, if◌then◌else◌, ◌>>=◌,
}
use muk.Word.{shr, u32, u16}
use muk.Memory.Bitmap.{BitmapAllocator, allocate_page}

pub record PageTableManager : Type 0 where
  pub memory : ℕ → ℕ
  pub directory : ℕ
  pub phys_manager : BitmapAllocator

pub is_present : ℕ → Bool
is_present page_entry = if bit_and page_entry 0x1 == 0 then false else true

-- The physical address that the processor finds for a virtual one: two walks of the table that
-- `directory` names.
pub translate : (ℕ → ℕ) → ℕ → ℕ → Option ℕ
unfolding is_present
translate memory directory address =
    let pde = memory (directory + address / 2 ^ 22 * 4) in
    let pte = memory (pde / 2 ^ 12 * 2 ^ 12 + address / 2 ^ 12 % 2 ^ 10 * 4) in
    if is_present pde
    then (if is_present pte then some (pte / 2 ^ 12 * 2 ^ 12 + address % 2 ^ 12) else none)
    else none

-- A store of a word.
pub store : (ℕ → ℕ) → ℕ → ℕ → ℕ → ℕ
store memory address word = λ other. if other == address then word else memory other

-- A load and a store at a virtual address.
pub load_virtual : PageTableManager → ℕ → Option ℕ
unfolding translate
load_virtual s address = translate s.memory s.directory address >>= λ a. some (s.memory a)

pub store_virtual : PageTableManager → ℕ → ℕ → Option PageTableManager
unfolding translate store
store_virtual s address word = translate s.memory s.directory address >>= λ a.
    some (record s { memory = store s.memory a word })

pub get_from_virtual_address : ℕ → ℕ
get_from_virtual_address page_index = bit_or 0xFFC00000 (u16 page_index * 2 ^ 12)

-- The constructor's entry for the directory itself, the last one.
pub recursive_entry : ℕ → ℕ
recursive_entry physical_address =
    bit_or (bit_or (bit_or (bit_or physical_address 1) (2 ^ 1)) (2 ^ 2)) (2 ^ 5)

pub new_manager : (ℕ → ℕ) → ℕ → BitmapAllocator → PageTableManager
unfolding recursive_entry store
new_manager memory physical_address phys = record {
  memory = store memory (physical_address + 1023 * 4) (recursive_entry physical_address);
  directory = physical_address;
  phys_manager = phys;
}

-- `for (int i = 0; i < 1024; i++) page_table[i] = 0`, from `i`, with `n` rounds left
pub clear_table : ℕ → ℕ → ℕ → PageTableManager → Option PageTableManager
clear_table zero i page_table s = some s
clear_table (suc n) i page_table s =
    store_virtual s (page_table + i * 4) 0 >>= clear_table n (i + 1) page_table

-- The first part of `MapPage`: the entry of the directory.
pub provide_table : ℕ → PageTableManager → Option PageTableManager
provide_table pd_index s =
    if is_present (s.memory (s.directory + pd_index * 4))
    then some s
    else allocate_page s.phys_manager >>= λ (address, phys).
        clear_table 1024 0 (get_from_virtual_address pd_index) (record s {
          memory =
              store s.memory (s.directory + pd_index * 4)
                (bit_or (bit_or (bit_or (bit_or address 1) (2 ^ 1)) (2 ^ 2)) (2 ^ 5));
          phys_manager = phys;
        })

-- The second part: the entry of the page table. A physical address of 0 asks for a new page.
pub provide_page : ℕ → ℕ → ℕ → PageTableManager → Option PageTableManager
provide_page page_table pt_index physical_address s =
    load_virtual s (page_table + pt_index * 4) >>= λ pte.
    if is_present pte
    then some s
    else (if physical_address == 0
        then allocate_page s.phys_manager
        else some (physical_address, s.phys_manager))
      >>= λ (address, phys).
          store_virtual (record s { phys_manager = phys }) (page_table + pt_index * 4)
            (bit_or (bit_or (bit_or address 1) (2 ^ 1)) (2 ^ 2))

pub map_page : ℕ → ℕ → PageTableManager → Option PageTableManager
map_page virtual_address physical_address s =
    let pd_index = shr virtual_address 22 in
    let pt_index = bit_and (shr virtual_address 12) 0x03FF in
    provide_table pd_index s
    >>= provide_page (get_from_virtual_address pd_index) pt_index physical_address
