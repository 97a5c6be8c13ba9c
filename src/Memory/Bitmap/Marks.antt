-- ===== src/Memory/Bitmap/Marks.antt =====
-- What `PageFree` and `PageTaken` do to the pages.
use muk.Prelude.{
  ℕ, ◌*◌, ◌/◌, ◌%◌, ◌^◌, ◌≤◌, ◌<◌, bit_and, bit_or, ◌≡◌, refl, ap, ◌∙◌, some, none, inl, inr, ◌⊎◌,
  get_elem?_past, arith, ◌==◌, if◌then◌else◌, length, get_or, set, length-set, get_elem?-eq-get_or,
  get_or-set_self, get_or-set_ne,
}
use native.Mathlib.Decide.{ℕ_discrete, dec_lt}
use muk.Word.{bit, not32, add32, sub32}
use muk.Word.Bits.{
  bit-bit_or, bit-bit_and, bit-pow_self, bit-pow_ne, bit-not, bit-lt_two, bit_or-lt, pow_lt,
  bit_and-lt_left, bit_and-mask,
}
use muk.Memory.Bitmap.{BitmapAllocator, page_free, page_taken}

-- The bit of a page: 1 if it is free. Pages beyond the bitmap are not.
abbrev pub free_bit : BitmapAllocator → ℕ → ℕ
free_bit s page = bit (page % 32) (get_or s.bitmap (page / 32) 0)

-- The words of `bitmap` are uint32_t.
pub record IsValid (s : BitmapAllocator) : Type 0 where
  pub words : (i : ℕ) → get_or s.bitmap i 0 < 2 ^ 32

-- `t` is `s` with page `page` marked `v`, and all other pages as they were.
pub record Marked (s : BitmapAllocator) (page v : ℕ) (t : BitmapAllocator) : Type 0 where
  pub valid : IsValid t
  pub size : length t.bitmap ≡ length s.bitmap
  pub bits : (q : ℕ) → free_bit t q ≡ (if q == page then v else free_bit s q)

mask5 : (p : ℕ) → bit_and p 0x1F ≡ p % 32
mask5 p = bit_and-mask 5 p

-- Writing one word marks one page, if the word differs in that page's bit alone.
Marked-set :
    (s : BitmapAllocator) (page v word : ℕ) (t : BitmapAllocator)
    → IsValid s
    → page / 32 < length s.bitmap
    → word < 2 ^ 32
    → bit (page % 32) word ≡ v
    → ((k : ℕ) → k < 32 → (k ≡ page % 32 → ⊥) → bit k word ≡ bit k (get_or s.bitmap (page / 32) 0))
    → t.bitmap ≡ set s.bitmap (page / 32) word
    → Marked s page v t
Marked-set s page v word t ok h small self others e = record {
  valid = record { words = λ i. rw e (words i (ℕ_discrete (page / 32) i)) };
  size = ap length e ∙ length-set s.bitmap (page / 32) word;
  bits = λ q. rw e (bits q (ℕ_discrete q page) (ℕ_discrete (page / 32) (q / 32)));
}
  where
    words : (i : ℕ) → Dec (page / 32 ≡ i) → get_or (set s.bitmap (page / 32) word) i 0 < 2 ^ 32
    words i (yes p) = rw (← p, get_or-set_self s.bitmap (page / 32) word 0 h) small
    words i (no p) = rw (get_or-set_ne s.bitmap (page / 32) i word 0 p) (ok.words i)

    bits :
        (q : ℕ)
        → Dec (q ≡ page)
        → Dec (page / 32 ≡ q / 32)
        → bit (q % 32) (get_or (set s.bitmap (page / 32) word) (q / 32) 0)
          ≡ (if q == page then v else free_bit s q)
    bits q (yes p) _ = rw (p, get_or-set_self s.bitmap (page / 32) word 0 h) (ground (arith, self))
    bits q (no p) (yes w) =
        rw (← w, get_or-set_self s.bitmap (page / 32) word 0 h)
          (ground (arith, others (q % 32) (omega arith) (λ r. p (omega arith))))
    bits q (no p) (no w) = rw (get_or-set_ne s.bitmap (page / 32) (q / 32) word 0 w) (ground arith)

pub page_free-Marked :
    (s : BitmapAllocator) (page : ℕ)
    → IsValid s
    → page < 32 * length s.bitmap
    → (t : BitmapAllocator) × (page_free s page ≡ some t)
      × Marked s page 1 t
      × (t.free_pages ≡ add32 s.free_pages 1)
unfolding page_free
page_free-Marked s page ok h =
    let word = get_or s.bitmap (page / 32) 0 in
    let new = bit_or word (2 ^ bit_and page 0x1F) in
    let t : BitmapAllocator = record s {
      bitmap = set s.bitmap (page / 32) new;
      free_pages = add32 s.free_pages 1;
    } in
    (
      t,
      rw (get_elem?-eq-get_or s.bitmap (page / 32) 0 (omega arith)),
      Marked-set s page 1 new t ok (omega arith)
          (rw mask5 (bit_or-lt 32 word _ (ok.words (page / 32)) (pow_lt (page % 32) (omega arith))))
          (rw mask5 (
            omega (
              arith,
              bit-bit_or (page % 32) word (2 ^ (page % 32)),
              bit-pow_self (page % 32),
              bit-lt_two (page % 32) word,
            )))
          (λ k _ ne.
            rw mask5
              (omega (arith, bit-bit_or k word (2 ^ (page % 32)), bit-pow_ne k (page % 32) ne)))
          refl,
      refl,
    )

pub page_taken-Marked :
    (s : BitmapAllocator) (page : ℕ)
    → IsValid s
    → page < 32 * length s.bitmap
    → (t : BitmapAllocator) × (page_taken s page ≡ some t)
      × Marked s page 0 t
      × (t.free_pages ≡ sub32 s.free_pages 1)
unfolding page_taken
page_taken-Marked s page ok h =
    let word = get_or s.bitmap (page / 32) 0 in
    let new = bit_and word (not32 (2 ^ bit_and page 0x1F)) in
    let t : BitmapAllocator = record s {
      bitmap = set s.bitmap (page / 32) new;
      free_pages = sub32 s.free_pages 1;
    } in
    (
      t,
      rw (get_elem?-eq-get_or s.bitmap (page / 32) 0 (omega arith)),
      Marked-set s page 0 new t ok (omega arith)
          (rw mask5 (bit_and-lt_left 32 word _ (ok.words (page / 32))))
          (rw mask5 (
            omega (
              arith,
              bit-bit_and (page % 32) word (not32 (2 ^ (page % 32))),
              bit-not 32 (page % 32) _ (omega arith) (pow_lt (page % 32) (omega arith)),
              bit-pow_self (page % 32),
            )))
          (λ k lt ne. rw mask5 (
            omega (
              arith,
              bit-bit_and k word (not32 (2 ^ (page % 32))),
              bit-not 32 k _ lt (pow_lt (page % 32) (omega arith)),
              bit-pow_ne k (page % 32) ne,
              bit-lt_two k word,
            )))
          refl,
      refl,
    )

-- `PageFree` on a page of the bitmap marks it free and no other, keeps the words in range and counts
-- it; on any other page it writes outside of the bitmap.
pub page_free_lem :
    (s : BitmapAllocator) (page : ℕ)
    → IsValid s
    → ((page < 32 * length s.bitmap)
        × ((t : BitmapAllocator) × (page_free s page ≡ some t)
            × Marked s page 1 t
            × (t.free_pages ≡ add32 s.free_pages 1)))
      ⊎ ((32 * length s.bitmap ≤ page) × (page_free s page ≡ none))
unfolding page_free
page_free_lem s page ok = elim (dec_lt page (32 * length s.bitmap)) [
  | yes h ↦ inl (h, page_free-Marked s page ok h)
  | no h ↦ inr (omega arith, rw (get_elem?_past s.bitmap (page / 32) (omega arith)))
]

-- `PageTaken` on a page of the bitmap marks it taken and no other, keeps the words in range and
-- counts it off; on any other page it writes outside of the bitmap.
pub page_taken_lem :
    (s : BitmapAllocator) (page : ℕ)
    → IsValid s
    → ((page < 32 * length s.bitmap)
        × ((t : BitmapAllocator) × (page_taken s page ≡ some t)
            × Marked s page 0 t
            × (t.free_pages ≡ sub32 s.free_pages 1)))
      ⊎ ((32 * length s.bitmap ≤ page) × (page_taken s page ≡ none))
unfolding page_taken
page_taken_lem s page ok = elim (dec_lt page (32 * length s.bitmap)) [
  | yes h ↦ inl (h, page_taken-Marked s page ok h)
  | no h ↦ inr (omega arith, rw (get_elem?_past s.bitmap (page / 32) (omega arith)))
]
