-- ===== src/Std/Vector/Contents.antt =====
-- A vector holds the list of its elements.
use native.Mathlib.Decide.{dec_lt}
use muk.Prelude.{
  ℕ, zero, suc, ◌+◌, ◌*◌, ◌/◌, ◌%◌, ◌^◌, ◌<◌, ◌≤◌, ◌≡◌, refl, sym, ap, ◌∙◌, List, [], ◌∷◌, ◌++◌,
  some, true, false, ltb, leb, length, get_or, set, replicate, slice, slice-set_end, length-set,
  length-replicate, get_elem?-eq-get_or, arith,
}
use muk.Std.Vector.{Vector, put, copy_elements, reserve, grow, push_back}

slice-snoc {ℓ} :
    {A : Type ℓ} (xs : List A) (i n : ℕ) (d : A)
    → slice xs i (suc n) d ≡ slice xs i n d ++ get_or xs (i + n) d ∷ []
slice-snoc xs i zero d = ap (λ k. get_or xs k d ∷ []) (omega arith)
slice-snoc xs i (suc n) d =
    ap (λ r. get_or xs i d ∷ r)
      (slice-snoc xs (i + 1) n d
        ∙ ap (λ k. slice xs (i + 1) n d ++ get_or xs k d ∷ []) (omega arith))

-- The buffer has room for `capacity` elements, `size` of them in use.
pub record IsVector {ℓ} {A : Type ℓ} (v : Vector A) : Type 0 where
  pub room : length v.buffer ≡ v.capacity
  pub used : v.size ≤ v.capacity

abbrev pub contents {ℓ} : {A : Type ℓ} → A → Vector A → List A
contents blank v = slice v.buffer 0 v.size blank

copy_elements_lem {ℓ} :
    {A : Type ℓ} (n i : ℕ) (old fresh : List A) (d : A)
    → i + n ≤ length old
    → i + n ≤ length fresh
    → slice fresh 0 i d ≡ slice old 0 i d
    → (r : List A) × (copy_elements n i old fresh ≡ some r)
      × (length r ≡ length fresh)
      × (slice r 0 (i + n) d ≡ slice old 0 (i + n) d)
unfolding copy_elements put
copy_elements_lem zero i old fresh d h g e = (
  fresh,
  refl,
  refl,
  ap (λ k. slice fresh 0 k d) (omega arith) ∙ e ∙ ap (λ k. slice old 0 k d) (omega arith),
)
copy_elements_lem (suc n) i old fresh d h g e =
    let x = get_or old i d in
    let inside : ltb i (length fresh) ≡ true = ground arith in
    let longer : slice (set fresh i x) 0 (suc i) d ≡ slice old 0 (suc i) d =
      slice-set_end fresh 0 i i x d (omega arith) (omega arith)
      ∙ ap (λ l. l ++ x ∷ []) e
      ∙ ap (λ k. slice old 0 i d ++ get_or old k d ∷ []) (omega arith)
      ∙ sym (slice-snoc old 0 i d) in
    let count : suc i ≡ i + 1 = omega arith in
    let (r, done, len, same) =
      copy_elements_lem n (i + 1) old (set fresh i x) d (omega arith)
        (omega (arith, length-set fresh i x))
        (ap (λ k. slice (set fresh i x) 0 k d) (sym count)
          ∙ longer
          ∙ ap (λ k. slice old 0 k d) count) in
    let total : i + 1 + n ≡ i + suc n = omega arith in
    (
      r,
      rw (get_elem?-eq-get_or old i d (omega arith), inside) done,
      len ∙ length-set fresh i x,
      ap (λ k. slice r 0 k d) (sym total) ∙ same ∙ ap (λ k. slice old 0 k d) total,
    )

-- `reserve` of a capacity that holds the elements keeps them.
pub reserve_lem {ℓ} :
    {A : Type ℓ} (blank : A) (capacity : ℕ) (v : Vector A)
    → IsVector v
    → v.size ≤ capacity
    → (t : Vector A) × (reserve blank capacity v ≡ some t)
      × IsVector t
      × (t.capacity ≡ capacity)
      × (t.size ≡ v.size)
      × (contents blank t ≡ contents blank v)
unfolding reserve
reserve_lem blank capacity v i h =
    let i_room = i.room in
    let i_used = i.used in
    let (r, done, len, same) =
      copy_elements_lem v.size 0 v.buffer (replicate capacity blank) blank (omega arith)
        (omega (arith, length-replicate capacity blank)) refl in
    let start : 0 + v.size ≡ v.size = omega arith in
    (
      record v { capacity = capacity; buffer = r },
      rw done refl,
      record { room = len ∙ length-replicate capacity blank; used = h },
      refl,
      refl,
      ap (λ k. slice r 0 k blank) (sym start) ∙ same ∙ ap (λ k. slice v.buffer 0 k blank) start,
    )

grow_lem {ℓ} :
    {A : Type ℓ} (blank : A) (v : Vector A)
    → IsVector v
    → v.capacity < 2 ^ 31
    → (t : Vector A) × (grow blank v ≡ some t)
      × IsVector t
      × (v.size < t.capacity)
      × (t.size ≡ v.size)
      × (contents blank t ≡ contents blank v)
unfolding grow
grow_lem blank v i h = elim (dec_lt v.size v.capacity) [
  | yes p ↦
      let enough : leb v.capacity v.size ≡ false = ground arith in
      (v, rw enough refl, i, p, refl, refl)
  | no np ↦
      let full : leb v.capacity v.size ≡ true = ground arith in
      let i_used = i.used in
      let (t, e, i', cap, size, same) =
        reserve_lem blank ((v.capacity * 3 / 2 + 1) % 2 ^ 32) v i (omega arith) in
      (t, rw full e, i', omega arith, size, same)
]

-- `push_back` on a vector of less than 2 ^ 31 places always succeeds and appends the element, whether
-- the buffer has room for it or is replaced by a larger one.
pub push_back_lem {ℓ} :
    {A : Type ℓ} (blank value : A) (v : Vector A)
    → IsVector v
    → v.capacity < 2 ^ 31
    → (t : Vector A) × (push_back blank value v ≡ some t)
      × IsVector t
      × (contents blank t ≡ contents blank v ++ value ∷ [])
unfolding push_back put
push_back_lem blank value v i h =
    let (t, e, i', room, size, same) = grow_lem blank v i h in
    let inside : ltb t.size (length t.buffer) ≡ true = ground (arith, i'.room, room, size) in
    let i_used = i.used in
    let next : (t.size + 1) % 2 ^ 32 ≡ suc t.size = omega (arith, size) in
    (
      record t { buffer = set t.buffer t.size value; size = suc t.size },
      rw (e, inside, next) refl,
      record {
        room = length-set t.buffer t.size value ∙ i'.room;
        used = omega (arith, size, room);
      },
      slice-set_end t.buffer 0 t.size t.size value blank (omega arith)
            (omega (arith, i'.room, room, size))
          ∙ ap (λ l. l ++ value ∷ []) same,
    )
