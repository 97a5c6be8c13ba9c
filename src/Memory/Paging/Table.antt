-- ===== src/Memory/Paging/Table.antt =====
-- A page table behind the window: loads, stores and the clearing of a new table.
use native.Mathlib.Decide.{ℕ_discrete}
use muk.Prelude.{
  ℕ, zero, suc, ◌+◌, ◌*◌, ◌/◌, ◌%◌, ◌^◌, ◌<◌, ◌≤◌, ◌≡◌, ◌≢◌, refl, ◌∙◌, true, false, ◌==◌, none,
  some, if◌then◌else◌, arith,
}
use muk.Memory.Paging.{
  PageTableManager, is_present, translate, store, load_virtual, store_virtual,
  get_from_virtual_address, clear_table,
}
use muk.Memory.Paging.Window.{page_of, IsRecursive, translate-window}

pub store_self : (memory : ℕ → ℕ) (a w : ℕ) → store memory a w a ≡ w
unfolding store
store_self memory a w = let e : (a == a) ≡ true = ground arith in rw e refl

pub store_other : (memory : ℕ → ℕ) (a w b : ℕ) → b ≢ a → store memory a w b ≡ memory b
unfolding store
store_other memory a w b h = let e : (b == a) ≡ false = ground arith in rw e refl

-- Entry `pd` of the directory names the page table at `table`, which is not the directory.
pub record HasTable (memory : ℕ → ℕ) (directory pd table : ℕ) : Type 0 where
  pub aligned : directory % 2 ^ 12 ≡ 0
  pub recursive : IsRecursive memory directory
  pub present : is_present (memory (directory + pd * 4)) ≡ true
  pub page : page_of (memory (directory + pd * 4)) ≡ table
  pub apart : table ≢ directory

pub table_aligned : (entry table : ℕ) → page_of entry ≡ table → table % 2 ^ 12 ≡ 0
table_aligned entry table h = omega arith

-- A word of the directory is no word of the page table.
pub words_apart :
    (directory table j k : ℕ)
    → directory % 2 ^ 12 ≡ 0
    → table % 2 ^ 12 ≡ 0
    → table ≢ directory
    → j < 1024
    → k < 1024
    → directory + j * 4 ≢ table + k * 4
words_apart directory table j k a b c h g e = c (omega arith)

pub store-HasTable :
    (memory : ℕ → ℕ) (directory pd table k w : ℕ)
    → pd < 1024
    → k < 1024
    → HasTable memory directory pd table
    → HasTable (store memory (table + k * 4) w) directory pd table
store-HasTable memory directory pd table k w h g t =
    let table_ok = table_aligned (memory (directory + pd * 4)) table t.page in
    let kept : (j : ℕ)
        → j < 1024
        → store memory (table + k * 4) w (directory + j * 4) ≡ memory (directory + j * 4) =
      λ j p.
        store_other memory (table + k * 4) w (directory + j * 4)
          (words_apart directory table j k t.aligned table_ok t.apart p g) in
    record {
      aligned = t.aligned;
      recursive = record {
        present = rw (kept 1023 (omega arith)) t.recursive.present;
        page = rw (kept 1023 (omega arith)) t.recursive.page;
      };
      present = rw (kept pd h) t.present;
      page = rw (kept pd h) t.page;
      apart = t.apart;
    }

pub store_virtual-window :
    (s : PageTableManager) (pd table k w : ℕ)
    → pd < 1024
    → k < 1024
    → HasTable s.memory s.directory pd table
    → store_virtual s (get_from_virtual_address pd + k * 4) w
      ≡ some (record s { memory = store s.memory (table + k * 4) w })
unfolding store_virtual
store_virtual-window s pd table k w h g t =
    rw (translate-window s.memory s.directory pd k t.recursive h g, t.present, t.page) refl

pub load_virtual-window :
    (s : PageTableManager) (pd table k : ℕ)
    → pd < 1024
    → k < 1024
    → HasTable s.memory s.directory pd table
    → load_virtual s (get_from_virtual_address pd + k * 4) ≡ some (s.memory (table + k * 4))
unfolding load_virtual
load_virtual-window s pd table k h g t =
    rw (translate-window s.memory s.directory pd k t.recursive h g, t.present, t.page) refl

-- `n` words of zeros in the page table, from word `i` on.
pub wipe : ℕ → ℕ → ℕ → (ℕ → ℕ) → ℕ → ℕ
wipe zero i table memory = memory
wipe (suc n) i table memory = wipe n (i + 1) table (store memory (table + i * 4) 0)

pub clear_table-wipe :
    (n i : ℕ) (s : PageTableManager) (pd table : ℕ)
    → pd < 1024
    → i + n ≤ 1024
    → HasTable s.memory s.directory pd table
    → (clear_table n i (get_from_virtual_address pd) s
        ≡ some (record s { memory = wipe n i table s.memory }))
      × HasTable (wipe n i table s.memory) s.directory pd table
unfolding clear_table wipe
clear_table-wipe zero i s pd table h g t = (refl, t)
clear_table-wipe (suc n) i s pd table h g t =
    let stored = store-HasTable s.memory s.directory pd table i 0 h (omega arith) t in
    let (e, t') =
      clear_table-wipe n (i + 1) (record s { memory = store s.memory (table + i * 4) 0 }) pd table h
        (omega arith) stored in
    (rw (store_virtual-window s pd table i 0 h (omega arith) t) e, t')

pub wipe_before :
    (n i k table : ℕ) (memory : ℕ → ℕ)
    → k < i
    → wipe n i table memory (table + k * 4) ≡ memory (table + k * 4)
unfolding wipe
wipe_before zero i k table memory h = refl
wipe_before (suc n) i k table memory h =
    wipe_before n (i + 1) k table (store memory (table + i * 4) 0) (omega arith)
    ∙ store_other memory (table + i * 4) 0 (table + k * 4) (λ e. omega arith)

pub wipe_inside :
    (n i k table : ℕ) (memory : ℕ → ℕ)
    → i ≤ k
    → k < i + n
    → wipe n i table memory (table + k * 4) ≡ 0
unfolding wipe
wipe_inside zero i k table memory h g = absurd (omega arith)
wipe_inside (suc n) i k table memory h g = elim (ℕ_discrete i k) [
  | yes e ↦
      wipe_before n (i + 1) k table (store memory (table + i * 4) 0) (omega arith)
      ∙ rw e (store_self memory (table + k * 4) 0)
  | no ne ↦
      wipe_inside n (i + 1) k table (store memory (table + i * 4) 0) (omega arith) (omega arith)
]

-- What the processor finds for an address with a page table.
pub translate-table :
    (memory : ℕ → ℕ) (directory table address : ℕ)
    → HasTable memory directory (address / 2 ^ 22) table
    → translate memory directory address ≡ (
        if is_present (memory (table + address / 2 ^ 12 % 2 ^ 10 * 4))
        then some (page_of (memory (table + address / 2 ^ 12 % 2 ^ 10 * 4)) + address % 2 ^ 12)
        else none)
unfolding translate
translate-table memory directory table address t = rw (t.present, t.page) refl
