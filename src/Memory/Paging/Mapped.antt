-- ===== src/Memory/Paging/Mapped.antt =====
-- `MapPage` makes the processor find the page.
use native.Mathlib.Decide.{ℕ_discrete}
use muk.Prelude.{
  ℕ, ◌+◌, ◌*◌, ◌/◌, ◌%◌, ◌^◌, ◌<◌, ◌≤◌, ◌≡◌, ◌≢◌, refl, sym, ap, ◌∙◌, true, false, ◌==◌, none, some,
  if◌then◌else◌, arith, Bool-cases, inl, inr, ◌⊎◌, length, subst,
}
use muk.Word.Bits.{bit_and-mask}
use muk.Memory.Bitmap.{BitmapAllocator, allocate_page}
use muk.Memory.Bitmap.Marks.{IsValid, free_bit}
use muk.Memory.Paging.{
  PageTableManager, is_present, translate, store, get_from_virtual_address, provide_page,
  provide_table, map_page,
}
use muk.Memory.Paging.Entries.{is_present-odd, table_entry}
use muk.Memory.Paging.Window.{page_of}
use muk.Memory.Paging.Table.{
  store_self, store_virtual-window, load_virtual-window, store-HasTable, translate-table,
}
use muk.Memory.Paging.Provide.{allocate_page-IsGranted, IsManaged, IsReady, provide_table_lem}

-- Where the page of an entry comes from: the caller's address, or the allocator, which gives a page
-- that is free, or the null pointer if it has none.
abbrev pub Source : BitmapAllocator → ℕ → ℕ → Type 0
Source phys physical_address page =
    ((physical_address ≢ 0) × (page ≡ physical_address))
    ⊎ ((physical_address ≡ 0)
        × (((page ≡ 0) × ((q : ℕ) → free_bit phys q ≡ 0)) ⊎ (free_bit phys (page / 2 ^ 12) ≡ 1)))

source_lem :
    (phys : BitmapAllocator) (p : ℕ)
    → IsValid phys
    → 32 * length phys.bitmap ≤ 2 ^ 20
    → p % 2 ^ 12 ≡ 0
    → (page : ℕ) × (after : BitmapAllocator) × ((if p == 0
          then allocate_page phys
          else some (p, phys))
        ≡ some (page, after))
      × (page % 2 ^ 12 ≡ 0)
      × Source phys p page
source_lem phys p ok h a = elim (ℕ_discrete p 0) [
  | yes e ↦
      let (page, after, granted, g) = allocate_page-IsGranted phys ok h in
      (page, after, rw (e, granted) refl, g.aligned, inr (e, g.was_free))
  | no ne ↦ let test : (p == 0) ≡ false = ground arith in (p, phys, rw test refl, a, inl (ne, refl))
]

-- The outcome of mapping an address: it was mapped and stays so, or it was not and is now. The page comes
-- from the allocator as the step that provides the page table leaves it.
abbrev pub Maps : PageTableManager → ℕ → ℕ → PageTableManager → Type 0
Maps s address p t =
    ((x : ℕ) × (translate s.memory s.directory address ≡ some x) × (t ≡ s))
    ⊎ ((u : PageTableManager) × (page : ℕ) × (translate s.memory s.directory address ≡ none)
        × (provide_table (address / 2 ^ 22) s ≡ some u)
        × (translate t.memory t.directory address ≡ some (page + address % 2 ^ 12))
        × Source u.phys_manager p page)

provide_page_present :
    (s t : PageTableManager) (address p table : ℕ)
    → address / 2 ^ 22 < 1023
    → IsReady s (address / 2 ^ 22) table t
    → is_present (t.memory (table + address / 2 ^ 12 % 2 ^ 10 * 4)) ≡ true
    → (provide_page (get_from_virtual_address (address / 2 ^ 22)) (address / 2 ^ 12 % 2 ^ 10) p t
        ≡ some t)
      × Maps s address p t
unfolding provide_page
provide_page_present s t address p table h r e =
    let k = address / 2 ^ 12 % 2 ^ 10 in
    let loaded =
      load_virtual-window t (address / 2 ^ 22) table k (omega arith) (omega arith) r.has_table in
    let found = translate-table t.memory t.directory table address r.has_table in
    (
      rw (loaded, e) refl,
      elim (Bool-cases (is_present (s.memory (s.directory + address / 2 ^ 22 * 4)))) [
        | inl q ↦
            let same : s ≡ t = sym (r.kept q) in
            inl (
              page_of (t.memory (table + k * 4)) + address % 2 ^ 12,
              subst
                  (λ u.
                    translate u.memory u.directory address
                    ≡ some (page_of (t.memory (table + k * 4)) + address % 2 ^ 12))
                  (sym same) (found ∙ rw e refl),
              r.kept q,
            )
        | inr q ↦
            let zero_word = r.cleared q k (omega arith) in
            let absent = is_present-odd (t.memory (table + k * 4)) in
            absurd (ground (arith, zero_word, absent, e))
      ],
    )

translate_absent :
    (memory : ℕ → ℕ) (directory address : ℕ)
    → is_present (memory (directory + address / 2 ^ 22 * 4)) ≡ false
    → translate memory directory address ≡ none
unfolding translate
translate_absent memory directory address e = rw e refl

not_mapped :
    (s t : PageTableManager) (address table : ℕ)
    → IsReady s (address / 2 ^ 22) table t
    → is_present (t.memory (table + address / 2 ^ 12 % 2 ^ 10 * 4)) ≡ false
    → translate s.memory s.directory address ≡ none
not_mapped s t address table r e =
    elim (Bool-cases (is_present (s.memory (s.directory + address / 2 ^ 22 * 4)))) [
      | inl q ↦
          subst (λ u. translate u.memory u.directory address ≡ none) (r.kept q)
            (translate-table t.memory t.directory table address r.has_table ∙ rw e refl)
      | inr q ↦ translate_absent s.memory s.directory address q
    ]

entry_found :
    (page offset : ℕ)
    → page % 2 ^ 12 ≡ 0
    → (if is_present (page + 7) then some (page_of (page + 7) + offset) else none)
      ≡ some (page + offset)
entry_found page offset h =
    let odd : is_present (page + 7) ≡ true = is_present-odd (page + 7) ∙ ground arith in
    rw odd (ap (λ (x : ℕ). some (x + offset)) (omega arith))

provide_page_absent :
    (s t : PageTableManager) (address p table : ℕ)
    → address / 2 ^ 22 < 1023
    → p % 2 ^ 12 ≡ 0
    → provide_table (address / 2 ^ 22) s ≡ some t
    → IsReady s (address / 2 ^ 22) table t
    → is_present (t.memory (table + address / 2 ^ 12 % 2 ^ 10 * 4)) ≡ false
    → (u : PageTableManager) × (provide_page
          (get_from_virtual_address (address / 2 ^ 22))
          (address / 2 ^ 12 % 2 ^ 10)
          p
          t
        ≡ some u)
      × Maps s address p u
unfolding provide_page
provide_page_absent s t address p table h a provided r e =
    let k = address / 2 ^ 12 % 2 ^ 10 in
    let (page, after, given, aligned, origin) = source_lem t.phys_manager p r.valid r.size a in
    let loaded =
      load_virtual-window t (address / 2 ^ 22) table k (omega arith) (omega arith) r.has_table in
    let stored =
      store_virtual-window (record t { phys_manager = after }) (address / 2 ^ 22) table k (page + 7)
        (omega arith) (omega arith) r.has_table in
    let has =
      store-HasTable t.memory t.directory (address / 2 ^ 22) table k (page + 7) (omega arith)
        (omega arith) r.has_table in
    (
      record t { memory = store t.memory (table + k * 4) (page + 7); phys_manager = after },
      rw (loaded, e, given, table_entry page aligned) stored,
      inr (
        t,
        page,
        not_mapped s t address table r e,
        provided,
        translate-table (store t.memory (table + k * 4) (page + 7)) t.directory table address has
            ∙ rw (store_self t.memory (table + k * 4) (page + 7))
                (entry_found page (address % 2 ^ 12) aligned),
        origin,
      ),
    )

-- `MapPage` of an address below the window, with a physical address of a page and at a state that
-- IsManaged, always succeeds. An address that was mapped is left as it is, and nothing changes. An
-- address that was not is mapped after it to the same offset in the page that was asked for, or, if
-- none was, in a page that the allocator still had free once the page table was there, or at address 0
-- when it had none left.
pub map_page-Maps :
    (s : PageTableManager) (address p : ℕ)
    → address < 2 ^ 32
    → address / 2 ^ 22 < 1023
    → p % 2 ^ 12 ≡ 0
    → IsManaged s (address / 2 ^ 22)
    → (t : PageTableManager) × (map_page address p s ≡ some t) × Maps s address p t
unfolding map_page
map_page-Maps s address p b h a m =
    let (table, t, provided, r) = provide_table_lem s (address / 2 ^ 22) h m in
    let k = address / 2 ^ 12 % 2 ^ 10 in
    elim (Bool-cases (is_present (t.memory (table + k * 4)))) [
      | inl e ↦
          let (done, maps) = provide_page_present s t address p table h r e in
          (t, rw (bit_and-mask 10 (address / 2 ^ 12), provided, done) refl, maps)
      | inr e ↦
          let (u, done, maps) = provide_page_absent s t address p table h a provided r e in
          (u, rw (bit_and-mask 10 (address / 2 ^ 12), provided, done) refl, maps)
    ]
