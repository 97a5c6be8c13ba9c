-- ===== src/Memory/Paging/Provide.antt =====
-- The page table that `MapPage` provides when the directory has none.
use muk.Prelude.{
  ℕ, ◌+◌, ◌*◌, ◌/◌, ◌%◌, ◌^◌, ◌<◌, ◌≤◌, ◌≡◌, ◌≢◌, refl, ap, ◌∙◌, true, false, Option, some, arith,
  Bool-cases, inl, inr, ◌⊎◌, length,
}
use muk.Memory.Bitmap.{BitmapAllocator, allocate_page}
use muk.Memory.Bitmap.Marks.{IsValid, free_bit}
use muk.Memory.Bitmap.Allocate.{Allocates, out_of_memory, allocated, allocate_page-Allocates}
use muk.Memory.Paging.{PageTableManager, is_present, store, provide_table}
use muk.Memory.Paging.Entries.{is_present-odd, directory_entry}
use muk.Memory.Paging.Window.{page_of, IsRecursive}
use muk.Memory.Paging.Table.{HasTable, store_self, store_other, wipe, clear_table-wipe, wipe_inside}

-- What `AllocatePage` gives: a page that was free, or the null pointer, and the bitmap after it.
pub record IsGranted (s : BitmapAllocator) (address : ℕ) (t : BitmapAllocator) : Type 0 where
  pub aligned : address % 2 ^ 12 ≡ 0
  pub was_free :
      ((address ≡ 0) × ((q : ℕ) → free_bit s q ≡ 0)) ⊎ (free_bit s (address / 2 ^ 12) ≡ 1)
  pub valid : IsValid t
  pub size : length t.bitmap ≡ length s.bitmap
  pub taken : (q : ℕ) → free_bit s q ≡ 0 → free_bit t q ≡ 0

pub allocate_page-IsGranted :
    (s : BitmapAllocator)
    → IsValid s
    → 32 * length s.bitmap ≤ 2 ^ 20
    → (address : ℕ) × (t : BitmapAllocator) × (allocate_page s ≡ some (address, t))
      × IsGranted s address t
allocate_page-IsGranted s ok h = go (allocate_page s) (allocate_page-Allocates s ok h)
  where
    go :
        (r : Option (ℕ × BitmapAllocator))
        → Allocates s r
        → (address : ℕ) × (t : BitmapAllocator) × (r ≡ some (address, t)) × IsGranted s address t
    go r (out_of_memory f) = (
      0,
      s,
      refl,
      record {
        aligned = refl;
        was_free = inl (refl, f);
        valid = ok;
        size = refl;
        taken = λ q e. e;
      },
    )
    go r (allocated {t} page free lower m) =
        let here : page * 4096 / 2 ^ 12 ≡ page = omega arith in
        (
          page * 4096,
          t,
          refl,
          record {
            aligned = omega arith;
            was_free = inr (rw here free);
            valid = m.valid;
            size = m.size;
            taken = λ q e. m.bits q ∙ ground (arith, e);
          },
        )

-- The directory stands in a page that is not free and holds its own recursive entry; entry `pd` is
-- absent or names a page table elsewhere.
pub record IsManaged (s : PageTableManager) (pd : ℕ) : Type 0 where
  pub aligned : s.directory % 2 ^ 12 ≡ 0
  pub placed : 0 < s.directory
  pub recursive : IsRecursive s.memory s.directory
  pub apart :
      is_present (s.memory (s.directory + pd * 4)) ≡ true
      → page_of (s.memory (s.directory + pd * 4)) ≢ s.directory
  pub valid : IsValid s.phys_manager
  pub size : 32 * length s.phys_manager.bitmap ≤ 2 ^ 20
  pub taken : free_bit s.phys_manager (s.directory / 2 ^ 12) ≡ 0

-- The state once the directory has a page table.
pub record IsReady (s : PageTableManager) (pd table : ℕ) (t : PageTableManager) : Type 0 where
  pub directory : t.directory ≡ s.directory
  pub has_table : HasTable t.memory t.directory pd table
  pub kept : is_present (s.memory (s.directory + pd * 4)) ≡ true → t ≡ s
  pub cleared :
      is_present (s.memory (s.directory + pd * 4)) ≡ false
      → (k : ℕ) → k < 1024
      → t.memory (table + k * 4) ≡ 0
  pub valid : IsValid t.phys_manager
  pub size : 32 * length t.phys_manager.bitmap ≤ 2 ^ 20
  pub taken : (q : ℕ) → free_bit s.phys_manager q ≡ 0 → free_bit t.phys_manager q ≡ 0

new_table-HasTable :
    (s : PageTableManager) (pd address : ℕ) (phys : BitmapAllocator)
    → pd < 1023
    → IsManaged s pd
    → IsGranted s.phys_manager address phys
    → HasTable (store s.memory (s.directory + pd * 4) (address + 39)) s.directory pd address
new_table-HasTable s pd address phys h m g =
    let self = store_self s.memory (s.directory + pd * 4) (address + 39) in
    let last =
      store_other s.memory (s.directory + pd * 4) (address + 39) (s.directory + 1023 * 4)
        (λ e. omega arith) in
    let g_aligned = g.aligned in
    record {
      aligned = m.aligned;
      recursive = record { present = rw last m.recursive.present; page = rw last m.recursive.page };
      present = rw self (is_present-odd (address + 39) ∙ ground arith);
      page = rw self (omega arith);
      apart = λ e. elim g.was_free [
        | inl (p, full) ↦ omega (arith, m.placed)
        | inr p ↦ omega (arith, m.taken, p, ap (λ (a : ℕ). free_bit s.phys_manager (a / 2 ^ 12)) e)
      ];
    }

pub provide_table_lem :
    (s : PageTableManager) (pd : ℕ)
    → pd < 1023
    → IsManaged s pd
    → (table : ℕ) × (t : PageTableManager) × (provide_table pd s ≡ some t) × IsReady s pd table t
unfolding provide_table
provide_table_lem s pd h m = elim (Bool-cases (is_present (s.memory (s.directory + pd * 4)))) [
  | inl e ↦ (
    page_of (s.memory (s.directory + pd * 4)),
    s,
    rw e refl,
    record {
      directory = refl;
      has_table = record {
        aligned = m.aligned;
        recursive = m.recursive;
        present = e;
        page = refl;
        apart = m.apart e;
      };
      kept = λ p. refl;
      cleared = λ p k q. absurd (ground (arith, e, p));
      valid = m.valid;
      size = m.size;
      taken = λ q p. p;
    },
  )
  | inr e ↦
      let (address, phys, granted, g) = allocate_page-IsGranted s.phys_manager m.valid m.size in
      let memory = store s.memory (s.directory + pd * 4) (address + 39) in
      let s' : PageTableManager = record s { memory = memory; phys_manager = phys } in
      let (wiped, has) =
        clear_table-wipe 1024 0 s' pd address (omega arith) (omega arith)
          (new_table-HasTable s pd address phys h m g) in
      (
        address,
        record s' { memory = wipe 1024 0 address memory },
        rw (e, granted, directory_entry address g.aligned) wiped,
        record {
          directory = refl;
          has_table = has;
          kept = λ p. absurd (ground (arith, e, p));
          cleared = λ p k q. wipe_inside 1024 0 k address memory (omega arith) (omega arith);
          valid = g.valid;
          size = omega (arith, g.size, m.size);
          taken = g.taken;
        },
      )
]
