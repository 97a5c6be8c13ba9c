-- ===== src/Memory/Paging/Given.antt =====
-- `MapPage` for a page that the caller gives, where the page table is there.
use muk.Prelude.{ℕ, ◌+◌, ◌*◌, ◌/◌, ◌%◌, ◌^◌, ◌<◌, ◌≡◌, ◌≢◌, refl, some, false, ◌==◌, arith}
use muk.Word.Bits.{bit_and-mask}
use muk.Memory.Paging.{
  PageTableManager, is_present, store, get_from_virtual_address, provide_table, provide_page,
  map_page,
}
use muk.Memory.Paging.Entries.{table_entry}
use muk.Memory.Paging.Table.{HasTable, store_virtual-window, load_virtual-window}

pub entry_given :
    (s : PageTableManager) (pd k p table : ℕ)
    → pd < 1023
    → k < 1024
    → HasTable s.memory s.directory pd table
    → is_present (s.memory (table + k * 4)) ≡ false
    → p % 2 ^ 12 ≡ 0
    → p ≢ 0
    → provide_page (get_from_virtual_address pd) k p s
      ≡ some (record s { memory = store s.memory (table + k * 4) (p + 7) })
unfolding provide_page
entry_given s pd k p table h g has absent aligned real =
    let given : (p == 0) ≡ false = ground arith in
    rw (load_virtual-window s pd table k (omega arith) g has, absent, given, table_entry p aligned)
      (store_virtual-window s pd table k (p + 7) (omega arith) g has)

pub table_given :
    (s : PageTableManager) (pd table : ℕ)
    → HasTable s.memory s.directory pd table
    → provide_table pd s ≡ some s
unfolding provide_table
table_given s pd table has = rw has.present refl

-- The two parts of `MapPage`
pub map_page-parts :
    (s t : PageTableManager) (address p pd k : ℕ)
    → address / 2 ^ 22 ≡ pd
    → address / 2 ^ 12 % 2 ^ 10 ≡ k
    → provide_table pd s ≡ some t
    → map_page address p s ≡ provide_page (get_from_virtual_address pd) k p t
unfolding map_page
map_page-parts s t address p pd k high low e =
    rw (bit_and-mask 10 (address / 2 ^ 12), high, low, e) refl
