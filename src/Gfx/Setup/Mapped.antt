-- ===== src/Gfx/Setup/Mapped.antt =====
-- The processor finds the memory of the screen once it is mapped.
use native.Mathlib.Decide.{ℕ_discrete}
use muk.Prelude.{
  ℕ, zero, suc, ◌+◌, ◌*◌, ◌/◌, ◌%◌, ◌^◌, ◌<◌, ◌≤◌, ◌≡◌, refl, sym, ap, ◌∙◌, some, true, false, ltb,
  arith, inl, inr, Bool-cases, subst,
}
use muk.Word.{u32}
use muk.Memory.Paging.{PageTableManager, is_present, translate, store, map_page}
use muk.Memory.Paging.Entries.{is_present-odd}
use muk.Memory.Paging.Table.{HasTable, store_self, store_other, store-HasTable, translate-table}
use muk.Memory.Paging.Given.{entry_given, table_given, map_page-parts}
use muk.Memory.Paging.Provide.{IsManaged, provide_table_lem}
use muk.Gfx.Setup.{fb_addr_base, map_frames}

-- The first `k` entries of the page table name the pages of the screen, and the others are absent.
record IsFramed (s : PageTableManager) (table phys k : ℕ) : Type 0 where
  has_table : HasTable s.memory s.directory 832 table
  done : (j : ℕ) → j < k → s.memory (table + j * 4) ≡ phys + j * 4096 + 7
  left : (j : ℕ) → k ≤ j → j < 1024 → is_present (s.memory (table + j * 4)) ≡ false

map_page-IsFramed :
    (s : PageTableManager) (table phys k : ℕ)
    → k < 1024
    → phys % 2 ^ 12 ≡ 0
    → 0 < phys
    → IsFramed s table phys k
    → (t : PageTableManager) × (map_page (fb_addr_base + k * 4096) (phys + k * 4096) s ≡ some t)
      × IsFramed t table phys (k + 1)
map_page-IsFramed s table phys k h aligned real f =
    let p = phys + k * 4096 in
    let memory = store s.memory (table + k * 4) (p + 7) in
    (
      record s { memory = memory },
      map_page-parts s s (fb_addr_base + k * 4096) p 832 k (omega arith) (omega arith)
            (table_given s 832 table f.has_table)
          ∙ entry_given s 832 k p table (omega arith) h f.has_table (f.left k (omega arith) h)
              (omega arith) (λ e. omega arith),
      record {
        has_table =
            store-HasTable s.memory s.directory 832 table k (p + 7) (omega arith) h f.has_table;
        done = λ j q. elim (ℕ_discrete j k) [
          | yes e ↦ rw e (store_self s.memory (table + k * 4) (p + 7))
          | no ne ↦
              store_other s.memory (table + k * 4) (p + 7) (table + j * 4) (λ e. omega arith)
              ∙ f.done j (omega arith)
        ];
        left = λ j q r.
            ap is_present
              (store_other s.memory (table + k * 4) (p + 7) (table + j * 4) (λ e. omega arith))
            ∙ f.left j (omega arith) r;
      },
    )

map_frames-IsFramed :
    (n : ℕ) (s : PageTableManager) (table fb_size phys k : ℕ)
    → 1024 ≤ n + k
    → k ≤ 1024
    → fb_size ≤ 2 ^ 22
    → phys % 2 ^ 12 ≡ 0
    → 0 < phys
    → phys + 2 ^ 22 ≤ 2 ^ 32
    → IsFramed s table phys k
    → (t : PageTableManager) × (last : ℕ) × (map_frames n k fb_size phys s ≡ some t)
      × IsFramed t table phys last
      × (fb_size ≤ last * 4096)
      × (last ≤ 1024)
unfolding map_frames
map_frames-IsFramed zero s table fb_size phys k enough at_most small aligned real fits f =
    let stop : ltb (u32 (k * 4096)) fb_size ≡ false = ground arith in
    (s, k, cc stop, f, omega arith, at_most)
map_frames-IsFramed (suc n) s table fb_size phys k enough at_most small aligned real fits f =
    let same : u32 (k * 4096) ≡ k * 4096 = omega arith in
    elim (Bool-cases (ltb (k * 4096) fb_size)) [
      | inl more ↦
          let inside : k < 1024 = ground arith in
          let (t, step, f') = map_page-IsFramed s table phys k inside aligned real f in
          let (u, last, run, f'', reached, within) =
            map_frames-IsFramed n t table fb_size phys (k + 1) (omega arith) (omega arith) small
              aligned real fits f' in
          let address : u32 (fb_addr_base + k * 4096) ≡ fb_addr_base + k * 4096 = omega arith in
          let place : u32 (phys + k * 4096) ≡ phys + k * 4096 = omega arith in
          (u, last, cc (same, more, address, place, step, run), f'', reached, within)
      | inr stop ↦ (s, k, cc (same, stop), f, ground arith, at_most)
    ]

first_round :
    (n fb_size phys : ℕ) (s t : PageTableManager)
    → map_page (u32 fb_addr_base) (u32 phys) s ≡ map_page (u32 fb_addr_base) (u32 phys) t
    → 0 < fb_size
    → map_frames (suc n) 0 fb_size phys s ≡ map_frames (suc n) 0 fb_size phys t
unfolding map_frames
first_round n fb_size phys s t same real =
    let go : ltb 0 fb_size ≡ true = ground arith in
    let start : phys + 0 ≡ phys = omega arith in cc (go, start, same)

translate_frame :
    (t : PageTableManager) (table phys last offset : ℕ)
    → IsFramed t table phys last
    → last ≤ 1024
    → offset < last * 4096
    → phys % 2 ^ 12 ≡ 0
    → translate t.memory t.directory (fb_addr_base + offset) ≡ some (phys + offset)
translate_frame t table phys last offset f within inside aligned =
    let pd : 832 ≡ (fb_addr_base + offset) / 2 ^ 22 = omega arith in
    let pt : (fb_addr_base + offset) / 2 ^ 12 % 2 ^ 10 ≡ offset / 4096 = omega arith in
    let entry = f.done (offset / 4096) (omega arith) in
    let odd : is_present (phys + offset / 4096 * 4096 + 7) ≡ true =
      is_present-odd (phys + offset / 4096 * 4096 + 7) ∙ ground arith in
    translate-table t.memory t.directory table (fb_addr_base + offset)
      (subst (λ d. HasTable t.memory t.directory d table) pd f.has_table)
    ∙ rw (pt, entry, odd) (ap (λ (a : ℕ). some a) (omega arith))

-- The loop of `Setup` for a screen of 1 to 2 ^ 22 bytes, whose memory starts at a page other than 0 and at least
-- 2 ^ 22 bytes below 2 ^ 32, at a state that IsManaged and has no page table for 0xD0000000: 1024 rounds are enough, none of them meets a page fault, and then
-- the processor finds each byte of the screen at its place behind 0xD0000000.
pub map_frames-Maps :
    (s : PageTableManager) (fb_size phys offset : ℕ)
    → IsManaged s 832
    → is_present (s.memory (s.directory + 832 * 4)) ≡ false
    → fb_size ≤ 2 ^ 22
    → phys % 2 ^ 12 ≡ 0
    → 0 < phys
    → phys + 2 ^ 22 ≤ 2 ^ 32
    → offset < fb_size
    → (t : PageTableManager) × (map_frames 1024 0 fb_size phys s ≡ some t)
      × (translate t.memory t.directory (fb_addr_base + offset) ≡ some (phys + offset))
map_frames-Maps s fb_size phys offset managed absent small aligned given fits inside =
    let (table, t, provided, ready) = provide_table_lem s 832 (omega arith) managed in
    let framed : IsFramed t table phys 0 = record {
      has_table = ready.has_table;
      done = λ j q. absurd (omega arith);
      left = λ j q r.
          is_present-odd (t.memory (table + j * 4)) ∙ ground (arith, ready.cleared absent j r);
    } in
    let (u, last, run, f, reached, within) =
      map_frames-IsFramed 1024 t table fb_size phys 0 (omega arith) (omega arith) small aligned
        given fits framed in
    let p = u32 phys in
    let same : map_page (u32 fb_addr_base) p s ≡ map_page (u32 fb_addr_base) p t =
      map_page-parts s t (u32 fb_addr_base) p 832 0 refl refl provided
      ∙ sym (
          map_page-parts t t (u32 fb_addr_base) p 832 0 refl refl
            (table_given t 832 table ready.has_table)) in
    (
      u,
      first_round 1023 fb_size phys s t same (omega arith) ∙ run,
      translate_frame u table phys last offset f within (omega arith) aligned,
    )
