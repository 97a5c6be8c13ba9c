-- ===== src/Memory/Bitmap/Init.antt =====
-- The constructor of `BitmapAllocator`: which pages are free when it is done.
use muk.Prelude.{
  ℕ, zero, suc, ◌+◌, ◌-◌, ◌*◌, ◌/◌, ◌^◌, ◌≤◌, ◌<◌, ◌≡◌, refl, ◌∙◌, Bool, true, false, List, [], ◌∷◌,
  Option, some, arith, ◌==◌, ltb, leb, ◌&&◌, ◌||◌, if◌then◌else◌, length, get_or, Bool-cases, inl,
  inr,
}
use muk.Word.{add32}
use muk.Word.Bits.{shr-page_mask}
use muk.Memory.Bitmap.{
  BitmapAllocator, MemoryMap, multiboot_memory_available, free_range, take_range, first_pg, end_pg,
  free_entries, init,
}
use muk.Memory.Bitmap.Marks.{free_bit, IsValid, page_free-Marked, page_taken-Marked}

-- `t` is `s` with each page that `f` picks marked `v`.
pub record Filled (s : BitmapAllocator) (f : ℕ → Bool) (v : ℕ) (t : BitmapAllocator) : Type 0 where
  pub valid : IsValid t
  pub size : length t.bitmap ≡ length s.bitmap
  pub bits : (q : ℕ) → free_bit t q ≡ (if f q then v else free_bit s q)

abbrev within : ℕ → ℕ → ℕ → Bool
within n pg q = leb pg q && ltb q (pg + n)

abbrev Runs : Option BitmapAllocator → BitmapAllocator → (ℕ → Bool) → ℕ → Type 0
Runs r s f v = (t : BitmapAllocator) × (r ≡ some t) × Filled s f v t

Filled-none :
    (s : BitmapAllocator) (f : ℕ → Bool) (v : ℕ)
    → IsValid s
    → ((q : ℕ) → f q ≡ false)
    → Filled s f v s
Filled-none s f v ok h = record { valid = ok; size = refl; bits = λ q. rw (h q) }

free_range-Filled :
    (n pg : ℕ) (s : BitmapAllocator)
    → IsValid s
    → pg + n ≤ 32 * length s.bitmap
    → Runs (free_range n pg s) s (within n pg) 1
unfolding free_range
free_range-Filled zero pg s ok h = (s, refl, Filled-none s (within 0 pg) 1 ok (λ q. ground arith))
free_range-Filled (suc n) pg s ok h =
    let (t, e, m, _) = page_free-Marked s pg ok (omega arith) in
    let (u, e', f) = free_range-Filled n (pg + 1) t m.valid (omega (arith, m.size)) in
    (
      u,
      rw (e, free_range) e',
      record {
        valid = f.valid;
        size = f.size ∙ m.size;
        bits = λ q. ground (arith, f.bits q, m.bits q);
      },
    )

take_range-Filled :
    (n pg : ℕ) (s : BitmapAllocator)
    → IsValid s
    → pg + n ≤ 32 * length s.bitmap
    → Runs (take_range n pg s) s (within n pg) 0
unfolding take_range
take_range-Filled zero pg s ok h = (s, refl, Filled-none s (within 0 pg) 0 ok (λ q. ground arith))
take_range-Filled (suc n) pg s ok h =
    let (t, e, m, _) = page_taken-Marked s pg ok (omega arith) in
    let (u, e', f) = take_range-Filled n (pg + 1) t m.valid (omega (arith, m.size)) in
    (
      u,
      rw (e, take_range) e',
      record {
        valid = f.valid;
        size = f.size ∙ m.size;
        bits = λ q. ground (arith, f.bits q, m.bits q);
      },
    )

-- A page lies in an available region, from the page of its first byte up to, and without, the page
-- of its end; an end past 2 ^ 32 wraps.
abbrev pub covers : MemoryMap → ℕ → Bool
covers m q =
    m.type == multiboot_memory_available
    && (leb (m.base_addr_low / 4096) q && ltb q (add32 m.base_addr_low m.length_low / 4096))

abbrev pub covered : List MemoryMap → ℕ → Bool
covered [] q = false
covered (m ∷ ms) q = covers m q || covered ms q

-- The fields are uint32_t, and no region ends beyond `pages`.
abbrev pub Fits : ℕ → List MemoryMap → Type 0
Fits pages [] = Unit {0}
Fits pages (m ∷ ms) =
    (m.base_addr_low < 2 ^ 32)
    × (m.base_addr_low / 4096 ≤ pages)
    × (add32 m.base_addr_low m.length_low / 4096 ≤ pages)
    × Fits pages ms

entry-Filled :
    (m : MemoryMap) (s : BitmapAllocator)
    → IsValid s
    → m.base_addr_low < 2 ^ 32
    → m.base_addr_low / 4096 ≤ 32 * length s.bitmap
    → add32 m.base_addr_low m.length_low / 4096 ≤ 32 * length s.bitmap
    → Runs
        (if m.type == multiboot_memory_available
          then free_range (end_pg m - first_pg m) (first_pg m) s
          else some s)
        s
        (covers m)
        1
entry-Filled m s ok lo start end = elim (Bool-cases (m.type == multiboot_memory_available)) [
  | inl e ↦ rw e (available e)
  | inr e ↦ rw e (s, refl, Filled-none s (covers m) 1 ok (λ q. rw e))
]
  where
    first : first_pg m ≡ m.base_addr_low / 4096
    first = unfold first_pg in shr-page_mask m.base_addr_low lo

    last : end_pg m ≡ add32 m.base_addr_low m.length_low / 4096
    last = unfold end_pg in shr-page_mask (add32 m.base_addr_low m.length_low) (omega arith)

    available :
        (m.type == multiboot_memory_available) ≡ true
        → Runs (free_range (end_pg m - first_pg m) (first_pg m) s) s (covers m) 1
    available e =
        let (t, r, f) =
          free_range-Filled (end_pg m - first_pg m) (first_pg m) s ok
            (omega (arith, first, last)) in
        (
          t,
          r,
          record {
            valid = f.valid;
            size = f.size;
            bits = λ q. ground (arith, f.bits q, first, last);
          },
        )

free_entries-Filled :
    (ms : List MemoryMap) (s : BitmapAllocator)
    → IsValid s
    → Fits (32 * length s.bitmap) ms
    → Runs (free_entries ms s) s (covered ms) 1
unfolding free_entries
free_entries-Filled [] s ok h = (s, refl, Filled-none s (covered []) 1 ok (λ q. refl))
free_entries-Filled (m ∷ ms) s ok h =
    let (t, e, f) = entry-Filled m s ok h.0 h.1 h.2 in
    let (u, e', g) = free_entries-Filled ms t f.valid (rw f.size h.3) in
    (
      u,
      rw e e',
      record {
        valid = g.valid;
        size = g.size ∙ f.size;
        bits = λ q. ground (arith, g.bits q, f.bits q);
      },
    )

-- The constructor, over storage of uint32_t words, with a memory map and a page of the kernel's end that lie
-- within the bitmap, returns an allocator in which a page is taken if it is at or below the page of the kernel's end,
-- else free if an available region covers it, and else what the storage happened to hold.
pub init_lem :
    (storage : List ℕ) (entries : List MemoryMap) (kernel_end : ℕ)
    → ((i : ℕ) → get_or storage i 0 < 2 ^ 32)
    → Fits (32 * length storage) entries
    → kernel_end < 2 ^ 32
    → kernel_end / 4096 < 32 * length storage
    → (t : BitmapAllocator) × (init storage entries kernel_end ≡ some t)
      × IsValid t
      × (length t.bitmap ≡ length storage)
      × ((q : ℕ)
          → free_bit t q ≡ (
              if leb q (kernel_end / 4096)
              then 0
              else if covered entries q
              then 1
              else free_bit (record { free_pages = 0; bitmap = storage }) q))
unfolding init
init_lem storage entries kernel_end ok h small fits =
    let (t, e, f) =
      free_entries-Filled entries (record { free_pages = 0; bitmap = storage })
        (record { words = ok }) h in
    let (u, e', g) =
      take_range-Filled (kernel_end / 4096 + 1) 0 t f.valid (omega (arith, f.size)) in
    (
      u,
      rw (e, shr-page_mask kernel_end small) e',
      g.valid,
      g.size ∙ f.size,
      λ q. ground (arith, g.bits q, f.bits q),
    )
