-- ===== src/Memory/Bitmap/Allocate.antt =====
-- `AllocatePage` finds the lowest page that is free.
use native.Mathlib.Decide.{ℕ_discrete, dec_lt}
use native.Mathlib.Nat.{one-le-pow}
use muk.Prelude.{
  ℕ, zero, suc, ◌+◌, ◌-◌, ◌*◌, ◌/◌, ◌%◌, ◌^◌, ◌≤◌, ◌<◌, bit_and, ◌≡◌, refl, ◌∙◌, Bool, true, false,
  List, [], ◌∷◌, Option, none, some, arith, ◌==◌, if◌then◌else◌, length, get_or,
}
use muk.Word.{bit, u32}
use muk.Word.Bits.{bit-lt_two, bit-zero, bit_and-pow}
use muk.Memory.Bitmap.{BitmapAllocator, find_bit, find_page, take_found, allocate_page}
use muk.Memory.Bitmap.Marks.{free_bit, IsValid, Marked, page_taken-Marked}

-- The test of the loop reads bit `b`.
test_bit : (w b : ℕ) → (bit_and w (2 ^ b) == 0) ≡ (bit b w == 0)
test_bit w b = rw (bit_and-pow b w) (ground (arith, bit-lt_two b w, one-le-pow b 2 (omega arith)))

-- What the loop over the bits of a word finds, from bit `b` on.
abbrev FoundBit : ℕ → ℕ → ℕ → Option ℕ → Type 0
FoundBit n b w none = (k : ℕ) → b ≤ k → k < b + n → bit k w ≡ 0
FoundBit n b w (some k) =
    (b ≤ k) × (k < b + n) × (bit k w ≡ 1) × ((j : ℕ) → b ≤ j → j < k → bit j w ≡ 0)

find_bit-FoundBit : (n b w : ℕ) → FoundBit n b w (find_bit n b w)
unfolding find_bit
find_bit-FoundBit zero b w = λ k p q. absurd (omega arith)
find_bit-FoundBit (suc n) b w =
    rw (test_bit w b)
      (go (bit b w == 0) refl (find_bit n (b + 1) w) (find_bit-FoundBit n (b + 1) w))
  where
    go :
        (c : Bool)
        → (bit b w == 0) ≡ c
        → (r : Option ℕ) → FoundBit n (b + 1) w r
        → FoundBit (suc n) b w (if c then r else some b)
    go false e r h =
        (omega arith, omega arith, ground (arith, bit-lt_two b w), λ j p q. absurd (omega arith))
    go true e none h = λ k p q. elim (ℕ_discrete k b) [
      | yes r ↦ rw r (ground arith)
      | no r ↦ h k (omega arith) (omega arith)
    ]
    go true e (some k) h = (
      omega arith,
      omega arith,
      h.2,
      λ j p q. elim (ℕ_discrete j b) [
        | yes r ↦ rw r (ground arith)
        | no r ↦ h.3 j (omega arith) (omega arith)
      ],
    )

-- The bit of page `q` in a list of words.
abbrev page_bit : List ℕ → ℕ → ℕ
page_bit ws q = bit (q % 32) (get_or ws (q / 32) 0)

-- What the loop over the words finds: the page's number counts from the first word, `chunk`.
abbrev FoundPage : List ℕ → ℕ → Option ℕ → Type 0
FoundPage ws chunk none = (q : ℕ) → page_bit ws q ≡ 0
FoundPage ws chunk (some p) =
    (k : ℕ) × (p ≡ chunk * 32 + k)
    × (k < 32 * length ws)
    × (page_bit ws k ≡ 1)
    × ((q : ℕ) → q < k → page_bit ws q ≡ 0)

module _ (w : ℕ) (ws : List ℕ) where
  page_bit-cons : (q : ℕ) → q < 32 → page_bit (w ∷ ws) q ≡ bit q w
  page_bit-cons q p =
      let e : q % 32 ≡ q = omega arith in let f : q / 32 ≡ 0 = omega arith in rw (e, f)

  page_bit-tail : (q k : ℕ) → q ≡ 32 + k → page_bit (w ∷ ws) q ≡ page_bit ws k
  page_bit-tail q k e =
      let f : q % 32 ≡ k % 32 = omega arith in
      let g : q / 32 ≡ suc (k / 32) = omega arith in rw (f, g)

  -- A word with no bit set is passed over.
  FoundPage-skip :
      (chunk : ℕ) (r : Option ℕ)
      → ((k : ℕ) → k < 32 → bit k w ≡ 0)
      → FoundPage ws (chunk + 1) r
      → FoundPage (w ∷ ws) chunk r
  FoundPage-skip chunk none z h = λ q. elim (dec_lt q 32) [
    | yes p ↦ page_bit-cons q p ∙ z q p
    | no p ↦ page_bit-tail q (q - 32) (omega arith) ∙ h (q - 32)
  ]
  FoundPage-skip chunk (some p) z h = (
    32 + h.0,
    omega (arith, h.1),
    omega (arith, h.2),
    page_bit-tail (32 + h.0) h.0 refl ∙ h.3,
    lower,
  )
    where
      lower : (q : ℕ) → q < 32 + h.0 → page_bit (w ∷ ws) q ≡ 0
      lower q lt = elim (dec_lt q 32) [
        | yes p ↦ page_bit-cons q p ∙ z q p
        | no p ↦ page_bit-tail q (q - 32) (omega arith) ∙ h.4 (q - 32) (omega arith)
      ]

  FoundPage-head :
      (chunk b : ℕ)
      → chunk < 2 ^ 20
      → FoundBit 32 0 w (some b)
      → FoundPage (w ∷ ws) chunk (some (u32 (chunk * 32 + b)))
  FoundPage-head chunk b h f = (
    b,
    omega arith,
    omega arith,
    page_bit-cons b (omega arith) ∙ f.2,
    λ q p. page_bit-cons q (omega arith) ∙ f.3 q (omega arith) p,
  )

find_page-FoundPage :
    (ws : List ℕ) (chunk : ℕ)
    → ((i : ℕ) → get_or ws i 0 < 2 ^ 32)
    → chunk + length ws ≤ 2 ^ 20
    → FoundPage ws chunk (find_page ws chunk)
unfolding find_page
find_page-FoundPage [] chunk ok h = λ q. bit-zero (q % 32)
find_page-FoundPage (w ∷ ws) chunk ok h =
    go (w == 0) refl (find_bit 32 0 w) (find_bit-FoundBit 32 0 w) (find_page ws (chunk + 1))
      (find_page-FoundPage ws (chunk + 1) (λ i. ok (suc i)) (omega arith))
  where
    go :
        (c : Bool)
        → (w == 0) ≡ c
        → (b : Option ℕ) → FoundBit 32 0 w b
        → (r : Option ℕ) → FoundPage ws (chunk + 1) r
        → FoundPage
            (w ∷ ws)
            chunk
            (if c then r else elim b [ none ↦ r | some b ↦ some (u32 (chunk * 32 + b)) ])
    go true e b f r g =
        let z : w ≡ 0 = ground arith in FoundPage-skip w ws chunk r (λ k _. rw z (bit-zero k)) g
    go false e none f r g = FoundPage-skip w ws chunk r (λ k p. f k (omega arith) p) g
    go false e (some b) f r g = FoundPage-head w ws chunk b (omega arith) f

-- `AllocatePage` of a bitmap with at most 2 ^ 20 pages either finds no free page, returns NULL and
-- changes nothing, or returns the address of the lowest free page and marks that page, and no
-- other, as taken.
pub data Allocates (s : BitmapAllocator) : Option (ℕ × BitmapAllocator) → Type 0 where
  out_of_memory : ((q : ℕ) → free_bit s q ≡ 0) → Allocates s (some (0, s))
  allocated :
      {t : BitmapAllocator} (page : ℕ)
      → free_bit s page ≡ 1
      → ((q : ℕ) → q < page → free_bit s q ≡ 0)
      → Marked s page 0 t
      → Allocates s (some (page * 4096, t))

pub allocate_page-Allocates :
    (s : BitmapAllocator)
    → IsValid s
    → 32 * length s.bitmap ≤ 2 ^ 20
    → Allocates s (allocate_page s)
unfolding allocate_page
allocate_page-Allocates s ok h =
    go (find_page s.bitmap 0) (find_page-FoundPage s.bitmap 0 ok.words (omega arith))
  where
    go : (r : Option ℕ) → FoundPage s.bitmap 0 r → Allocates s (take_found s r)
    go none f = out_of_memory f
    go (some p) f =
        let (t, e, m, _) = page_taken-Marked s f.0 ok f.2 in
        let here : p ≡ f.0 = omega (arith, f.1) in
        let small : u32 (f.0 * 2 ^ 12) ≡ f.0 * 4096 = omega (arith, f.2) in
        rw (here, e, small) (allocated f.0 f.3 f.4 m)
